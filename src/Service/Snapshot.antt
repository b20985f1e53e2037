-- ===== src/Service/Snapshot.antt =====
-- imap/service.go: restoring a snapshot gives back what the store held.
use medusa.Base.{
  ◌⊎◌, ℕ, zero, suc, ◌<◌, ◌≡◌, refl, ap, sym, subst, ◌∙◌, List, [], ◌∷◌, Bytes, Bool, true, false,
  not, ◌&&◌, Option, none, some, arith, inl, inr, Bool-cases, ◌==◌, ==_iff, same_iff, same_self,
}
use medusa.Bytes.{slt}
use medusa.Partition.{partition_count}
use medusa.Shard.{Value, find, live, expired}
use medusa.Store.{Store}
use medusa.Queue.{routed_partition}
use medusa.Scan.{Entry, listed, snapshot_partition, unexpired}
use medusa.Scan.Found.{holds, listed-append, listed-entries_if}
use medusa.Owned.{from_each, snapshot_all}
use medusa.Legacy.{load_all}
use medusa.Invariant.{IsStore}
use medusa.Service.{Node}
use medusa.Service.Restart.{snapshot, restore, unlapsed, lapsed}
use medusa.Service.Home.{IsHome}
use medusa.Service.Agree.{Agree, find_at}
use medusa.Service.Loading.{AllModern, named, AreOf, named-listed, load_all-live}

-- The value lapsed by `at`, as `Restore` reads it.
abbrev lapsed_value : Value → ℕ → Bool
lapsed_value v at = not (v.expire_at == 0) && not (slt at v.expire_at)

listed-unlapsed :
    (es : List Entry) (at : ℕ) (name key : Bytes) (v : Value)
    → listed (unlapsed es at) name key v ≡ (listed es name key v && not (lapsed_value v at))
unfolding unlapsed
listed-unlapsed [] at name key v = refl
listed-unlapsed (e ∷ es) at name key v = elim (Bool-cases (v.expire_at == e.expire_at)) [
  | inl x ↦
      let eq : v.expire_at ≡ e.expire_at = (==_iff v.expire_at e.expire_at).0 x in
      let agree : lapsed_value v at ≡ lapsed e at =
        ap (λ (t : ℕ). not (t == 0) && not (slt at t)) eq in
      elim (Bool-cases (lapsed e at)) [
        | inl l ↦ rw l (listed-unlapsed es at name key v ∙ ground (arith, agree, l))
        | inr l ↦ rw l (ground (arith, agree, l, x, listed-unlapsed es at name key v))
      ]
  | inr x ↦ elim (Bool-cases (lapsed e at)) [
    | inl l ↦ rw l (ground (arith, x, listed-unlapsed es at name key v))
    | inr l ↦ rw l (ground (arith, x, listed-unlapsed es at name key v))
  ]
]

listed-from_each :
    (f : ℕ → List Entry) (n : ℕ) (name key : Bytes) (v : Value)
    → listed (from_each f n) name key v ≡ true
    → (p : ℕ) × (p < n) × (listed (f p) name key v ≡ true)
unfolding from_each
listed-from_each f zero name key v h = cc
listed-from_each f (suc n) name key v h = elim (Bool-cases (listed (f n) name key v)) [
  | inl e ↦ (n, omega arith, e)
  | inr e ↦
      let (p, lt, l) =
        listed-from_each f n name key v
          (ground (arith, h, e, listed-append (from_each f n) (f n) name key v)) in
      (p, omega (arith, lt), l)
]

from_each-listed :
    (f : ℕ → List Entry) (n p : ℕ) (name key : Bytes) (v : Value)
    → p < n
    → listed (f p) name key v ≡ true
    → listed (from_each f n) name key v ≡ true
unfolding from_each
from_each-listed f zero p name key v lt h = absurd (omega arith)
from_each-listed f (suc n) p name key v lt h = elim (Bool-cases (p == n)) [
  | inl e ↦
      let at_n : listed (f n) name key v ≡ true =
        ap (λ (x : ℕ). listed (f x) name key v) (sym ((==_iff p n).0 e)) ∙ h in
      ground (arith, at_n, listed-append (from_each f n) (f n) name key v)
  | inr e ↦
      let before = from_each-listed f n p name key v (ground (arith, e, lt)) h in
      ground (arith, before, listed-append (from_each f n) (f n) name key v)
]

holds-some :
    (g : Value → Bool) (v : Value) (o : Option Value)
    → holds g v o ≡ true
    → (o ≡ some v) × (g v ≡ true)
holds-some g v none h = cc
holds-some g v (some w) h =
    let stored : w.stored ≡ v.stored = ground (arith, same_iff v.stored w.stored) in
    let until : w.expire_at ≡ v.expire_at = ground (arith, ==_iff v.expire_at w.expire_at) in
    let eq : w ≡ v = λ i. record { stored = stored i; expire_at = until i } in
    ((λ i. some (eq i)), ap g (sym eq) ∙ ground (arith, h))

some-holds :
    (g : Value → Bool) (v : Value) (o : Option Value) → o ≡ some v → g v ≡ true → holds g v o ≡ true
some-holds g v o e h =
    ap (holds g v) e ∙ ground (arith, h, same_self v.stored, ==_iff v.expire_at v.expire_at)

module _ (s : Store) (now at : ℕ) (well : IsStore s) (home : IsHome s) where
  found-at_home :
      (p : ℕ) (name key : Bytes) (v : Value)
      → p < partition_count
      → listed (snapshot_partition now (s.shards p)) name key v ≡ true
      → find_at s (routed_partition name key) name key ≡ some v
  unfolding snapshot_partition
  found-at_home p name key v lt here =
      let held : holds (unexpired now name key) v (find (s.shards p) name key) ≡ true =
        sym (listed-entries_if (unexpired now) (s.shards p) name key v (well p)) ∙ here in
      let found = (holds-some (unexpired now name key) v (find (s.shards p) name key) held).0 in
      ap (λ (q : ℕ). find_at s q name key) (home p name key v lt found) ∙ found

  snapshot-AreOf : AreOf s (unlapsed (snapshot_all now s) at)
  unfolding snapshot_all
  snapshot-AreOf name key v l =
      let in_all : listed (snapshot_all now s) name key v ≡ true =
        ground (arith, l, listed-unlapsed (snapshot_all now s) at name key v) in
      let (p, lt, here) =
        listed-from_each (λ p. snapshot_partition now (s.shards p)) partition_count name key v
          in_all in
      found-at_home p name key v lt here

  -- An entry that has not expired and not lapsed is in what is restored.
  snapshot-lists :
      (p : ℕ) (name key : Bytes) (v : Value)
      → p < partition_count
      → find_at s p name key ≡ some v
      → expired v now ≡ false
      → lapsed_value v at ≡ false
      → named (unlapsed (snapshot_all now s) at) name key ≡ true
  unfolding snapshot_all snapshot_partition
  snapshot-lists p name key v lt found fresh lasts =
      let here : listed (snapshot_partition now (s.shards p)) name key v ≡ true =
        listed-entries_if (unexpired now) (s.shards p) name key v (well p)
        ∙ some-holds (unexpired now name key) v (find (s.shards p) name key) found
            (ground (arith, fresh)) in
      let in_all =
        from_each-listed (λ p. snapshot_partition now (s.shards p)) partition_count p name key v lt
          here in
      named-listed (unlapsed (snapshot_all now s) at) name key v
        (listed-unlapsed (snapshot_all now s) at name key v ∙ ground (arith, in_all, lasts))

expired_later :
    (v : Value) (now at later : ℕ)
    → slt later now ≡ false
    → slt at later ≡ true
    → (expired v now ≡ true) ⊎ (lapsed_value v at ≡ true)
    → live later (some v) ≡ none
unfolding expired live
expired_later v now at later since after (inl e) = ground arith
expired_later v now at later since after (inr l) = ground arith

snapshot-entries : (n : Node) (now : ℕ) → snapshot n now ≡ snapshot_all now n.store
unfolding snapshot
snapshot-entries n now = refl

restored-store :
    (n fresh : Node) (now at : ℕ)
    → load_all (unlapsed (snapshot_all now n.store) at) at fresh.store
      ≡ (restore fresh (snapshot n now) at).store
unfolding restore
restored-store n fresh now at =
    ap (λ (x : List Entry). load_all (unlapsed x at) at fresh.store) (sym (snapshot-entries n now))

module _ (s : Store) (now at later : ℕ) (well : IsStore s) (home : IsHome s) where
  seen-named :
      (q : ℕ) (name key : Bytes)
      → q < partition_count
      → slt later now ≡ false
      → slt at later ≡ true
      → (v : Value) → find_at s q name key ≡ some v
      → (routed_partition name key ≡ q)
        × ((live later (some v) ≡ none)
            ⊎ (named (unlapsed (snapshot_all now s) at) name key ≡ true))
  seen-named q name key lt since after v e = (
    home q name key v lt e,
    elim (Bool-cases (expired v now)) [
      | inl x ↦ inl (expired_later v now at later since after (inl x))
      | inr x ↦ elim (Bool-cases (lapsed_value v at)) [
        | inl l ↦ inl (expired_later v now at later since after (inr l))
        | inr l ↦ inr (snapshot-lists s now at well home q name key v lt e x l)
      ]
    ],
  )

-- A node whose store holds nothing restores at `at` a snapshot that was taken at `now`. If no key of
-- the snapshot's node stands twice, each entry stands in the partition of its key, none is a queue in
-- the format of old, and `later` is not before `now` and is after `at`, then the restored store reads
-- the same at `later` as the one that the snapshot was taken of.
pub restore-snapshot :
    (n fresh : Node) (now at later : ℕ)
    → IsStore n.store
    → IsHome n.store
    → AllModern (unlapsed (snapshot n now) at)
    → ((p : ℕ) (name key : Bytes) → find_at fresh.store p name key ≡ none)
    → slt later now ≡ false
    → slt at later ≡ true
    → Agree later n.store (restore fresh (snapshot n now) at).store
restore-snapshot n fresh now at later well home modern empty since after q name key lt =
    subst
      (λ (s : Store). live later (find_at n.store q name key) ≡ live later (find_at s q name key))
      (restored-store n fresh now at)
      (load_all-live n.store fresh.store (unlapsed (snapshot_all now n.store) at) at later q name
        key (snapshot-AreOf n.store now at well home)
        (subst (λ (x : List Entry). AllModern (unlapsed x at)) (snapshot-entries n now) modern)
        (empty q name key) (seen-named n.store now at later well home q name key lt since after))
