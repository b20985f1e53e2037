-- ===== src/Membership/Views.antt =====
-- cluster/membership.go: the views that a node can come to, and members that were removed.
use medusa.Base.{
  ℕ, ◌≡◌, refl, ap, ◌∙◌, List, [], ◌∷◌, Bytes, true, same, same→eq, arith, Bool-cases, Option-cases,
  inl, inr,
}
use medusa.GoMap
use medusa.GoMap.{GoMap, lookup-insert}
use medusa.Membership.{
  Member, Membership, merge_known, merge_one, merge_loop, merge, remove_locked, rejoin,
  prune_tombstones, new,
}
use medusa.Membership.Coherent.{
  IsCoherent, merge-IsCoherent, remove_locked-IsCoherent, rejoin-IsCoherent,
  prune_tombstones-IsCoherent, new-IsCoherent,
}

-- What changes a view: gossip, an eviction or a leave, a join, the expiry of tombstones.
pub data ViewOp : Type 0 where
  gossip : List Member → ViewOp
  evict : Bytes → ℕ → ViewOp
  join : Member → ViewOp
  forget : ℕ → ℕ → ViewOp

module _ {H : Type 0} where
  unfoldable pub change : ViewOp → Membership H → Membership H
  change (gossip list) m = (merge m list).1
  change (evict id now) m = (remove_locked m id now).1
  change (join mem) m = rejoin m mem
  change (forget ttl now) m = prune_tombstones m ttl now

  unfoldable pub changes : List ViewOp → Membership H → Membership H
  unfolding change
  changes [] m = m
  changes (o ∷ ops) m = changes ops (change o m)

  IsCoherent-change : (o : ViewOp) (m : Membership H) → IsCoherent m → IsCoherent (change o m)
  unfolding change
  IsCoherent-change (gossip list) m c = merge-IsCoherent m list c
  IsCoherent-change (evict id now) m c = remove_locked-IsCoherent m id now c
  IsCoherent-change (join mem) m c = rejoin-IsCoherent m mem c
  IsCoherent-change (forget ttl now) m c = prune_tombstones-IsCoherent m ttl now c

  IsCoherent-changes :
      (ops : List ViewOp) (m : Membership H) → IsCoherent m → IsCoherent (changes ops m)
  unfolding changes
  IsCoherent-changes [] m c = c
  IsCoherent-changes (o ∷ ops) m c = IsCoherent-changes ops (change o m) (IsCoherent-change o m c)

-- In every view that a node comes to, by any run of gossip, evictions, joins and expiries, the node
-- itself is a member with its own address, and the partition table is the one of the members.
pub changes-IsCoherent :
    {H : Type 0} (self : Member) (backups : ℕ) (ops : List ViewOp)
    → IsCoherent {H = H} (changes ops (new self backups))
changes-IsCoherent self backups ops =
    IsCoherent-changes ops (new self backups) (new-IsCoherent self backups)

module _ {H : Type 0} (m : Membership H) (id : Bytes) (gone : GoMap.has id m.removed ≡ true) where
  merge_one-removed :
      (mem : Member) (ms : GoMap Member)
      → GoMap.lookup id (merge_one m mem ms).0 ≡ GoMap.lookup id ms
  unfolding merge_one merge_known
  merge_one-removed mem ms = elim (Bool-cases (same mem.id id)) [
    | inl e ↦ ground (arith, ap (λ (k : Bytes). GoMap.has k m.removed) (same→eq mem.id id e) ∙ gone)
    | inr e ↦ elim (Option-cases (GoMap.lookup mem.id ms)) [
      | inl o ↦ ground (arith, e, o, lookup-insert mem.id id mem ms)
      | inr (x, o) ↦ ground (arith, e, o, lookup-insert mem.id id mem ms)
    ]
  ]

  merge_loop-removed :
      (list : List Member) (ms : GoMap Member)
      → GoMap.lookup id (merge_loop m list ms).0 ≡ GoMap.lookup id ms
  unfolding merge_loop
  merge_loop-removed [] ms = refl
  merge_loop-removed (mem ∷ rest) ms =
      merge_loop-removed rest (merge_one m mem ms).0 ∙ merge_one-removed mem ms

-- Gossip never brings back a member whose tombstone stands: whatever a peer sends, the member's
-- entry, or its absence, stays as it is.
pub merge-removed :
    {H : Type 0} (m : Membership H) (id : Bytes) (list : List Member)
    → GoMap.has id m.removed ≡ true
    → GoMap.lookup id (merge m list).1.members ≡ GoMap.lookup id m.members
unfolding merge
merge-removed m id list gone = elim (Bool-cases (merge_loop m list m.members).1) [
  | inl e ↦ elim (Bool-cases (merge_loop m list m.members).2) [
    | inl f ↦ rw (e, f) (merge_loop-removed m id gone list m.members)
    | inr f ↦ rw (e, f) (merge_loop-removed m id gone list m.members)
  ]
  | inr e ↦ rw e (merge_loop-removed m id gone list m.members)
]
