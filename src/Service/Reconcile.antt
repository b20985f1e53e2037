-- ===== src/Service/Reconcile.antt =====
-- imap/service.go: what a peer's key set does to this node.
use medusa.Base.{
  ℕ, ◌≡◌, refl, ap, sym, ◌∙◌, List, [], ◌∷◌, Bytes, Bool, false, not, ◌&&◌, ◌||◌, none, arith, inl,
  inr, Bool-cases, Option-cases, if◌then◌else◌, leb, ◌==◌, ==_iff, same, same_iff,
}
use medusa.GoMap
use medusa.GoMap.{GoMap, lookup-insert, has-insert}
use medusa.Partition.{partition_count}
use medusa.Store.{Store, set_shard}
use medusa.Scan.{Keyset, prune_to_keyset}
use medusa.Scan.Cleanup.{owned_key, prune_to_keyset-find}
use medusa.Invariant.{IsStore}
use medusa.Wal.{Codec, Disk}
use medusa.Service.{Node, entry_removals}
use medusa.Service.Requests.{prune_to_keyset_logged}
use medusa.Service.Queries.{owns}
use medusa.Service.Handle.{KeyRef, keep_key, keyset_of, reconcile, handle, reconcile_request}
use medusa.Service.Agree.{find_at, find-set_shard}
use medusa.Service.Logged.{logged-store}

-- The key set names the key.
abbrev pub named_key : List KeyRef → Bytes → Bytes → Bool
named_key [] name key = false
named_key ((n, k) ∷ keys) name key = (same n name && same k key) || named_key keys name key

has_none : (k : Bytes) → GoMap.has {0} {V = Unit} k [] ≡ false
unfolding GoMap.has
has_none k = refl

owned_key_none : (name key : Bytes) → owned_key [] name key ≡ false
unfolding GoMap.lookup
owned_key_none name key = refl

owned_key-keep_key :
    (keep : Keyset) (n k name key : Bytes)
    → owned_key (keep_key keep (n, k)) name key
      ≡ ((same n name && same k key) || owned_key keep name key)
owned_key-keep_key keep n k name key = elim (Option-cases (GoMap.lookup n keep)) [
  | inl e ↦ rw e (
      ground (
        arith,
        same_iff n name,
        lookup-insert n name (GoMap.insert k tt []) keep,
        has-insert {0} k key tt [],
        has_none key,
      ))
  | inr (keys, e) ↦ rw e (
      ground (
        arith,
        same_iff n name,
        lookup-insert n name (GoMap.insert k tt keys) keep,
        has-insert {0} k key tt keys,
      ))
]

owned_key-keyset_of :
    (keys : List KeyRef) (keep : Keyset) (name key : Bytes)
    → owned_key (keyset_of keys keep) name key
      ≡ (named_key keys name key || owned_key keep name key)
unfolding keyset_of
owned_key-keyset_of [] keep name key = refl
owned_key-keyset_of ((n, k) ∷ keys) keep name key =
    owned_key-keyset_of keys (keep_key keep (n, k)) name key
    ∙ ground (arith, owned_key-keep_key keep n k name key)

module _ (c : Codec) (n : Node) (p : ℕ) (disk : ℕ → Disk) where
  pruned-find :
      (keep : Keyset) (q : ℕ) (name key : Bytes)
      → IsStore n.store
      → find_at (prune_to_keyset_logged c n p keep disk).1.store q name key
        ≡ (if not (q == p) || owned_key keep name key then find_at n.store q name key else none)
  unfolding prune_to_keyset_logged
  pruned-find keep q name key w =
      ap (λ (s : Store). find_at s q name key)
        (logged-store c n
          (λ s. let r = prune_to_keyset keep (s.shards p) in (r.0, set_shard s p r.1))
          entry_removals disk)
      ∙ find-set_shard n.store p (prune_to_keyset keep (n.store.shards p)).1 q name key
      ∙ elim (Bool-cases (q == p)) [
        | inl e ↦ rw e (
            (prune_to_keyset-find keep (n.store.shards p) name key
              (record { stored = []; expire_at = 0 }) (w p)).0
            ∙ ap (λ (x : ℕ). if owned_key keep name key then find_at n.store x name key else none)
                (sym ((==_iff q p).0 e)))
        | inr e ↦ rw e
      ]

  -- If no key of the store stands twice, a reconcile request from a peer changes nothing on a node that
  -- owns the partition, nor if the partition does not exist; and otherwise it removes exactly the
  -- keys of that partition that the request does not name, whatever the disk does.
  pub reconcile-find :
      (keys : List KeyRef) (now sent_at : ℕ) (q : ℕ) (name key : Bytes)
      → IsStore n.store
      → find_at (handle c n now disk (reconcile_request p keys) sent_at).1.store q name key ≡ (
          if leb partition_count p || (owns n p || (not (q == p) || named_key keys name key))
          then find_at n.store q name key
          else none)
  unfolding handle reconcile
  reconcile-find keys now sent_at q name key w = elim (Bool-cases (leb partition_count p)) [
    | inl e ↦ rw (e, reconcile)
    | inr e ↦ elim (Bool-cases (owns n p)) [
      | inl o ↦ rw (e, o, reconcile)
      | inr o ↦ rw (e, o, reconcile) (pruned-find (keyset_of keys []) q name key w ∙ named)
    ]
  ]
    where
      named :
          (if not (q == p) || owned_key (keyset_of keys []) name key
            then find_at n.store q name key
            else none)
          ≡ (if not (q == p) || named_key keys name key then find_at n.store q name key else none)
      named =
          ap (λ (b : Bool). if not (q == p) || b then find_at n.store q name key else none)
            (owned_key-keyset_of keys [] name key ∙ ground (arith, owned_key_none name key))
