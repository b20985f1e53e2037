-- ===== src/Service/Agree.antt =====
-- imap/service.go: when two stores read the same from some time on, and how a change of one and the
-- replay of its record on the other keep it so.
use medusa.Base.{
  ℕ, zero, suc, ◌<◌, same→eq, length-append, ◌≡◌, refl, ap, sym, ◌∙◌, List, [], ◌∷◌, Bytes, Bool,
  true, Option, none, some, arith, inl, inr, Option-cases, Bool-cases, if◌then◌else◌, ◌==◌, ==_iff,
  same, same_iff, length,
}
use medusa.Shard.{
  Value, Shard, Bucket, find, bucket, live, discard, open_bucket, find-open_bucket, find-assign,
  find-discard, bucket-delete,
}
use medusa.GoMap
use medusa.Store
use medusa.Store.{Store, set_shard}
use medusa.Scan.{Entry, bucket_entries}
use medusa.Partition.{partition_count}
use medusa.Owned.{from_each, clear_map, clear_bucket}
use medusa.Reads.{same_place}
use medusa.Txn
use medusa.Txn.{Txn}

-- `s.shards[p].m[name][key]`
abbrev pub find_at : Store → ℕ → Bytes → Bytes → Option Value
find_at s p name key = find (s.shards p) name key

-- At `later` the two stores hold the same live entries.
abbrev pub Agree : ℕ → Store → Store → Type 0
Agree later s r =
    (p : ℕ) (name key : Bytes)
    → p < partition_count
    → live later (find_at s p name key) ≡ live later (find_at r p name key)

module _ (s : Store) (p : ℕ) where
  pub find-set_shard :
      (sh : Shard) (q : ℕ) (name key : Bytes)
      → find_at (set_shard s p sh) q name key
        ≡ (if q == p then find sh name key else find_at s q name key)
  unfolding set_shard
  find-set_shard sh q name key = ground arith

  module _ (name key : Bytes) (q : ℕ) (name' key' : Bytes) where
    pub find-put :
        (contents : Bytes) (expire_at now : ℕ)
        → find_at (Store.put s p name key contents expire_at now).1 q name' key' ≡ (
            if same_place p name key q name' key'
            then some (record { stored = contents; expire_at = expire_at })
            else find_at s q name' key')
    unfolding Store.put set_shard
    find-put contents expire_at now = ground (
      arith,
      ==_iff q p,
      find-assign (s.shards p) name name' key key'
          (record { stored = contents; expire_at = expire_at }),
    )

    pub find-remove :
        (now : ℕ)
        → find_at (Store.remove s p name key now).1 q name' key'
          ≡ (if same_place p name key q name' key' then none else find_at s q name' key')
    unfolding Store.remove set_shard
    find-remove now = elim (Option-cases (find (s.shards p) name key)) [
      | inl e ↦ ground (arith, e, ==_iff q p, same_iff name name', same_iff key key')
      | inr (v, e) ↦ ground (arith, e, ==_iff q p, find-discard (s.shards p) name name' key key')
    ]

bucket-clear_bucket :
    (name name' : Bytes) (b : Bucket) (sh : Shard)
    → bucket sh name ≡ b
    → bucket (clear_bucket name b sh) name' ≡ (if same name name' then [] else bucket sh name')
unfolding clear_bucket
bucket-clear_bucket name name' [] sh h = ground (arith, same_iff name name', h)
bucket-clear_bucket name name' (e ∷ b) sh h = bucket-delete sh name name'

pub find-clear_map :
    (s : Store) (name : Bytes) (q : ℕ) (name' key' : Bytes)
    → find_at (clear_map name s).1 q name' key'
      ≡ (if same name name' then none else find_at s q name' key')
unfolding clear_map find
find-clear_map s name q name' key' =
    ap (GoMap.lookup key')
      (bucket-clear_bucket name name' (bucket (s.shards q) name) (s.shards q) refl)
    ∙ elim (Bool-cases (same name name')) [
      | inl e ↦ rw e (unfold GoMap.lookup in refl)
      | inr e ↦ rw e
    ]

-- What a processor's action leaves
module _ (s : Store) (p : ℕ) (name key : Bytes) (q : ℕ) (name' key' : Bytes) where
  pub find-keep :
      find_at (set_shard s p (open_bucket (s.shards p) name)) q name' key' ≡ find_at s q name' key'
  unfolding set_shard
  find-keep = ground (arith, ==_iff q p, find-open_bucket (s.shards p) name name' key key')

  pub find-del :
      find_at (set_shard s p (discard (open_bucket (s.shards p) name) name key)) q name' key'
      ≡ (if same_place p name key q name' key' then none else find_at s q name' key')
  unfolding set_shard
  find-del = ground (
    arith,
    ==_iff q p,
    find-discard (open_bucket (s.shards p) name) name name' key key',
    find-open_bucket (s.shards p) name name' key key',
  )

  module _ (t : Txn) where
    pub find-txn_set :
        (val : Bytes)
        → find_at (set_shard s p (Txn.set t name key val).shard) q name' key' ≡ (
            if same_place p name key q name' key'
            then some (record { stored = val; expire_at = 0 })
            else find_at (set_shard s p t.shard) q name' key')
    unfolding set_shard
    find-txn_set val = ground (arith, ==_iff q p, Txn.find-set t name key name' key' val)

    pub find-txn_del : find_at (set_shard s p (Txn.del t name key).shard) q name' key' ≡ (
        if same_place p name key q name' key'
        then none
        else find_at (set_shard s p t.shard) q name' key')
    unfolding set_shard
    find-txn_del = ground (arith, ==_iff q p, Txn.find-del t name key name' key')

-- The same is written at the same places of two stores that agree.
pub Agree-written :
    (later : ℕ) (s s' r r' : Store) (at : ℕ → Bytes → Bytes → Bool) (v : Option Value)
    → ((q : ℕ) (name key : Bytes)
        → find_at s' q name key ≡ (if at q name key then v else find_at s q name key))
    → ((q : ℕ) (name key : Bytes)
        → find_at r' q name key ≡ (if at q name key then v else find_at r q name key))
    → Agree later s r
    → Agree later s' r'
Agree-written later s s' r r' at v hs hr h q name key lt =
    ap (live later) (hs q name key)
    ∙ elim (Bool-cases (at q name key)) [ inl e ↦ rw e | inr e ↦ rw e (h q name key lt) ]
    ∙ sym (ap (live later) (hr q name key))

-- A change of the left store that no read sees
pub Agree-unchanged :
    (later : ℕ) (s s' r : Store)
    → ((q : ℕ) (name key : Bytes)
        → q < partition_count
        → live later (find_at s' q name key) ≡ live later (find_at s q name key))
    → Agree later s r
    → Agree later s' r
Agree-unchanged later s s' r same h q name key lt = same q name key lt ∙ h q name key lt

from_each-empty :
    (f : ℕ → List Entry) (n p : ℕ) → length (from_each f n) ≡ 0 → p < n → length (f p) ≡ 0
unfolding from_each
from_each-empty f zero p h lt = absurd (omega arith)
from_each-empty f (suc n) p h lt = elim (Bool-cases (p == n)) [
  | inl e ↦
      ap (λ (q : ℕ). length (f q)) ((==_iff p n).0 e)
      ∙ omega (arith, h, length-append (from_each f n) (f n))
  | inr e ↦
      from_each-empty f n p (omega (arith, h, length-append (from_each f n) (f n)))
        (ground (arith, e, lt))
]

lookup-no_entries :
    (name key : Bytes) (b : Bucket)
    → length (bucket_entries (λ n k v. true) name b) ≡ 0
    → GoMap.lookup key b ≡ none
unfolding bucket_entries GoMap.lookup
lookup-no_entries name key [] h = refl
lookup-no_entries name key ((k, v) ∷ b) h = absurd (omega (arith, h))

find-no_entries :
    (s : Store) (name : Bytes) (n : ℕ) (q : ℕ) (key : Bytes)
    → length (from_each (λ p. bucket_entries (λ m k v. true) name (bucket (s.shards p) name)) n) ≡ 0
    → q < n
    → find_at s q name key ≡ none
unfolding find
find-no_entries s name n q key h lt =
    lookup-no_entries name key (bucket (s.shards q) name) (
      from_each-empty (λ p. bucket_entries (λ m k v. true) name (bucket (s.shards p) name)) n q h
        lt)

-- A clear that removes nothing changes no read.
pub find-clear_none :
    (s : Store) (name : Bytes) (q : ℕ) (name' key' : Bytes)
    → length (clear_map name s).0 ≡ 0
    → q < partition_count
    → find_at (clear_map name s).1 q name' key' ≡ find_at s q name' key'
find-clear_none s name q name' key' h lt =
    find-clear_map s name q name' key' ∙ elim (Bool-cases (same name name')) [
      | inl e ↦ rw e (
          sym (
            ap (λ (m : Bytes). find_at s q m key') (sym (same→eq name name' e))
            ∙ find-no_entries s name partition_count q key' (unfold clear_map in h) lt))
      | inr e ↦ rw e
    ]
