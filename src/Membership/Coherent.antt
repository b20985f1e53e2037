-- ===== src/Membership/Coherent.antt =====
-- cluster/membership.go: what every change of the view keeps.
use medusa.Base.{
  ℕ, ◌≡◌, refl, ap, sym, ◌∙◌, List, [], ◌∷◌, Bytes, false, ◌||◌, same, same→eq, same_self, some,
  arith, Bool-cases, Option-cases, inl, inr, length, ◌==◌,
}
use medusa.GoMap
use medusa.GoMap.{GoMap, lookup-insert, lookup-delete}
use medusa.Partition.Table.{new_table}
use medusa.Membership.{
  Member, Membership, ids, merge_known, merge_one, merge_loop, merge, remove_locked, rejoin,
  is_news, prune_tombstones, new,
}

-- The node is a member of its own view, and the table is the one of the members.
pub record IsCoherent {H : Type 0} (m : Membership H) : Type 0 where
  pub own : GoMap.lookup m.self.id m.members ≡ some m.self
  pub current : m.table ≡ new_table (ids m.members) m.backups

lookup_other :
    (k j : Bytes) (mem : Member) (ms : GoMap Member)
    → same k j ≡ false
    → GoMap.lookup j (GoMap.insert k mem ms) ≡ GoMap.lookup j ms
lookup_other k j mem ms h = lookup-insert k j mem ms ∙ rw h

rest_of :
    (k j : Bytes) (w : Member) (ms : GoMap Member)
    → same j k ≡ false
    → GoMap.lookup k ms ≡ GoMap.lookup k ((j, w) ∷ ms)
unfolding GoMap.lookup
rest_of k j w ms e = rw e

-- A new address for a known id leaves the ids as they are.
ids-insert_known :
    (k : Bytes) (mem old : Member) (ms : GoMap Member)
    → GoMap.lookup k ms ≡ some old
    → ids (GoMap.insert k mem ms) ≡ ids ms
unfolding ids GoMap.insert GoMap.lookup
ids-insert_known k mem old [] h = cc
ids-insert_known k mem old ((j, w) ∷ ms) h = elim (Bool-cases (same j k)) [
  | inl e ↦ rw e (ap (λ (x : Bytes). x ∷ ids ms) (sym (same→eq j k e)))
  | inr e ↦
      rw e (ap (λ (x : List Bytes). j ∷ x) (ids-insert_known k mem old ms (rest_of k j w ms e ∙ h)))
]

module _ {H : Type 0} (m : Membership H) where
  merge_one-own :
      (mem : Member) (ms : GoMap Member)
      → GoMap.lookup m.self.id (merge_one m mem ms).0 ≡ GoMap.lookup m.self.id ms
  unfolding merge_one merge_known
  merge_one-own mem ms = elim (Bool-cases (same mem.id m.self.id)) [
    | inl e ↦ ground (arith, e)
    | inr e ↦ elim (Option-cases (GoMap.lookup mem.id ms)) [
      | inl o ↦ ground (arith, o, lookup_other mem.id m.self.id mem ms e)
      | inr (x, o) ↦ ground (arith, o, lookup_other mem.id m.self.id mem ms e)
    ]
  ]

  merge_one-ids :
      (mem : Member) (ms : GoMap Member)
      → (merge_one m mem ms).2 ≡ false
      → ids (merge_one m mem ms).0 ≡ ids ms
  unfolding merge_one merge_known
  merge_one-ids mem ms h = elim (Option-cases (GoMap.lookup mem.id ms)) [
    | inl o ↦ ground (arith, o)
    | inr (x, o) ↦ ground (arith, o, ids-insert_known mem.id mem x ms o)
  ]

  merge_one-quiet :
      (mem : Member) (ms : GoMap Member)
      → (merge_one m mem ms).1 ≡ false
      → (merge_one m mem ms).2 ≡ false
  unfolding merge_one merge_known
  merge_one-quiet mem ms h = elim (Option-cases (GoMap.lookup mem.id ms)) [
    | inl o ↦ ground (arith, o)
    | inr (x, o) ↦ ground (arith, o)
  ]

  merge_loop-quiet :
      (list : List Member) (ms : GoMap Member)
      → (merge_loop m list ms).1 ≡ false
      → (merge_loop m list ms).2 ≡ false
  unfolding merge_loop
  merge_loop-quiet [] ms h = refl
  merge_loop-quiet (mem ∷ rest) ms h =
      ground (arith, merge_one-quiet mem ms, merge_loop-quiet rest (merge_one m mem ms).0)

  merge_loop-own :
      (list : List Member) (ms : GoMap Member)
      → GoMap.lookup m.self.id (merge_loop m list ms).0 ≡ GoMap.lookup m.self.id ms
  unfolding merge_loop
  merge_loop-own [] ms = refl
  merge_loop-own (mem ∷ rest) ms = merge_loop-own rest (merge_one m mem ms).0 ∙ merge_one-own mem ms

  merge_loop-ids :
      (list : List Member) (ms : GoMap Member)
      → (merge_loop m list ms).2 ≡ false
      → ids (merge_loop m list ms).0 ≡ ids ms
  unfolding merge_loop
  merge_loop-ids [] ms h = refl
  merge_loop-ids (mem ∷ rest) ms h =
      merge_loop-ids rest (merge_one m mem ms).0 (ground arith)
      ∙ merge_one-ids mem ms (ground arith)

-- `merge` keeps the node in its own view and the table that of the members, whatever the peers say.
pub merge-IsCoherent :
    {H : Type 0} (m : Membership H) (list : List Member)
    → IsCoherent m
    → IsCoherent (merge m list).1
unfolding merge
merge-IsCoherent m list c = elim (Bool-cases (merge_loop m list m.members).1) [
  | inl e ↦ elim (Bool-cases (merge_loop m list m.members).2) [
    | inl f ↦ rw (e, f) (record { own = merge_loop-own m list m.members ∙ c.own; current = refl })
    | inr f ↦
        rw (e, f)
          (record {
            own = merge_loop-own m list m.members ∙ c.own;
            current =
                c.current
                ∙ ap (λ (l : List Bytes). new_table l m.backups)
                    (sym (merge_loop-ids m list m.members f));
          })
  ]
  | inr e ↦ rw e (record {
    own = merge_loop-own m list m.members ∙ c.own;
    current =
        c.current
        ∙ ap (λ (l : List Bytes). new_table l m.backups)
            (sym (merge_loop-ids m list m.members (merge_loop-quiet m list m.members e)));
  })
]

pub remove_locked-IsCoherent :
    {H : Type 0} (m : Membership H) (id : Bytes) (now : ℕ)
    → IsCoherent m
    → IsCoherent (remove_locked m id now).1
unfolding remove_locked
remove_locked-IsCoherent m id now c = elim (Bool-cases (same id m.self.id)) [
  | inl e ↦ rw e c
  | inr e ↦ elim (Bool-cases (GoMap.has id m.members)) [
    | inr absent ↦ rw (e, absent) c
    | inl present ↦
        rw (e, present)
          (record { own = lookup-delete id m.self.id m.members ∙ rw e c.own; current = refl })
  ]
]

pub rejoin-IsCoherent :
    {H : Type 0} (m : Membership H) (mem : Member) → IsCoherent m → IsCoherent (rejoin m mem)
unfolding rejoin
rejoin-IsCoherent m mem c = elim (Bool-cases (length mem.id == 0 || same mem.id m.self.id)) [
  | inl e ↦ rw e c
  | inr e ↦ elim (Bool-cases (is_news mem (GoMap.lookup mem.id m.members))) [
    | inl news ↦
        rw (e, news)
          (record {
            own = lookup_other mem.id m.self.id mem m.members (ground arith) ∙ c.own;
            current = refl;
          })
    | inr old ↦ rw (e, old) (record { own = c.own; current = c.current })
  ]
]

pub prune_tombstones-IsCoherent :
    {H : Type 0} (m : Membership H) (ttl now : ℕ)
    → IsCoherent m
    → IsCoherent (prune_tombstones m ttl now)
unfolding prune_tombstones
prune_tombstones-IsCoherent m ttl now c = record { own = c.own; current = c.current }

pub new-IsCoherent :
    {H : Type 0} (self : Member) (backups : ℕ) → IsCoherent {H = H} (new self backups)
unfolding GoMap.lookup ids
new-IsCoherent self backups = record { own = rw (same_self self.id) refl; current = refl }
