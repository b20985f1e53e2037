-- ===== src/Shard.antt =====
-- imap/store.go: the values, and one shard, `map[string]map[string]value`, with its accesses.
use medusa.Base.{ℕ, ◌≡◌, Option, none, some, [], ◌∷◌, Bytes, same, same_iff, Bool}
use medusa.Base.{if◌then◌else◌, arith, ◌&&◌, not, ◌==◌, Option-cases, inl, inr}
use medusa.Bytes.{slt}
use medusa.GoMap
use medusa.GoMap.{GoMap, lookup-insert, lookup-delete}

-- `expire_at` is an int64 pattern: unix nanoseconds, 0 for an entry that never expires.
pub record Value : Type 0 where
  pub stored : Bytes
  pub expire_at : ℕ

unfoldable pub expired : Value → ℕ → Bool
expired v now = not (v.expire_at == 0) && slt v.expire_at now

abbrev pub Bucket : Type 0
Bucket = GoMap Value

-- map name → key → value
abbrev pub Shard : Type 0
Shard = GoMap Bucket

-- `sh.m[name]`, where a nil map reads as an empty one.
unfoldable pub bucket : Shard → Bytes → Bucket
bucket sh name = elim (GoMap.lookup name sh) [ none ↦ [] | some inner ↦ inner ]

-- `sh.m[name][key]`
unfoldable pub find : Shard → Bytes → Bytes → Option Value
unfolding bucket
find sh name key = GoMap.lookup key (bucket sh name)

-- `if inner == nil { inner = make(…); sh.m[name] = inner }`
unfoldable pub open_bucket : Shard → Bytes → Shard
open_bucket sh name = elim (GoMap.lookup name sh) [ none ↦ GoMap.insert name [] sh | some _ ↦ sh ]

-- `inner[k] = v`, after the bucket was made if it was nil
unfoldable pub assign : Shard → Bytes → Bytes → Value → Shard
unfolding bucket
assign sh name key v = GoMap.insert name (GoMap.insert key v (bucket sh name)) sh

-- `delete(inner, k)`; an emptied bucket stays
unfoldable pub discard : Shard → Bytes → Bytes → Shard
discard sh name key = elim (GoMap.lookup name sh) [
  | none ↦ sh
  | some inner ↦ GoMap.insert name (GoMap.delete key inner) sh
]

-- `if len(inner) == 0 { delete(sh.m, name) } else { … }`
unfoldable pub put_bucket : Shard → Bytes → Bucket → Shard
put_bucket sh name [] = GoMap.delete name sh
put_bucket sh name (e ∷ inner) = GoMap.insert name (e ∷ inner) sh

-- `delete(inner, k)`; an emptied bucket is dropped
unfoldable pub discard_reclaim : Shard → Bytes → Bytes → Shard
unfolding put_bucket
discard_reclaim sh name key = elim (GoMap.lookup name sh) [
  | none ↦ sh
  | some inner ↦ put_bucket sh name (GoMap.delete key inner)
]

-- The value that a read at `now` sees: an expired entry is absent.
unfoldable pub live : ℕ → Option Value → Option Value
unfolding expired
live now none = none
live now (some v) = if expired v now then none else some v

module _ (sh : Shard) (name name' : Bytes) where
  bucket-insert :
      (b : Bucket)
      → bucket (GoMap.insert name b sh) name' ≡ (if same name name' then b else bucket sh name')
  unfolding bucket
  bucket-insert b = ground (arith, lookup-insert name name' b sh)

  pub bucket-delete :
      bucket (GoMap.delete name sh) name' ≡ (if same name name' then [] else bucket sh name')
  unfolding bucket
  bucket-delete = ground (arith, lookup-delete name name' sh)

  bucket-assign :
      (key : Bytes) (v : Value)
      → bucket (assign sh name key v) name'
        ≡ (if same name name' then GoMap.insert key v (bucket sh name) else bucket sh name')
  unfolding assign
  bucket-assign key v = bucket-insert (GoMap.insert key v (bucket sh name))

  bucket-open_bucket : bucket (open_bucket sh name) name' ≡ bucket sh name'
  unfolding open_bucket bucket
  bucket-open_bucket = ground (arith, lookup-insert name name' [] sh, same_iff name name')

  bucket-put_bucket :
      (b : Bucket)
      → bucket (put_bucket sh name b) name' ≡ (if same name name' then b else bucket sh name')
  unfolding put_bucket
  bucket-put_bucket [] = bucket-delete
  bucket-put_bucket (e ∷ b) = bucket-insert (e ∷ b)

  bucket-discard :
      (key : Bytes)
      → bucket (discard sh name key) name'
        ≡ (if same name name' then GoMap.delete key (bucket sh name) else bucket sh name')
  unfolding discard bucket GoMap.delete
  bucket-discard key =
      ground (
        arith,
        lookup-insert name name' (GoMap.delete key (bucket sh name)) sh,
        same_iff name name',
      )

  bucket-discard_reclaim :
      (key : Bytes)
      → bucket (discard_reclaim sh name key) name'
        ≡ (if same name name' then GoMap.delete key (bucket sh name) else bucket sh name')
  unfolding discard_reclaim
  bucket-discard_reclaim key = elim (Option-cases (GoMap.lookup name sh)) [
    | inl e ↦ unfold bucket GoMap.delete in ground (arith, same_iff name name')
    | inr (b, e) ↦
        let held : bucket sh name ≡ b = unfold bucket in rw (e, bucket) in
        rw (e, discard_reclaim) (rw held (bucket-put_bucket (GoMap.delete key b)))
  ]

module _ (sh : Shard) (name name' key key' : Bytes) where
  pub find-assign :
      (v : Value)
      → find (assign sh name key v) name' key'
        ≡ (if same name name' && same key key' then some v else find sh name' key')
  unfolding find
  find-assign v = ground (
    arith,
    bucket-assign sh name name' key v,
    lookup-insert key key' v (bucket sh name),
    same_iff name name',
  )

  pub find-open_bucket : find (open_bucket sh name) name' key' ≡ find sh name' key'
  unfolding find
  find-open_bucket = rw bucket-open_bucket

  pub find-discard :
      find (discard sh name key) name' key'
      ≡ (if same name name' && same key key' then none else find sh name' key')
  unfolding find
  find-discard = ground (
    arith,
    bucket-discard sh name name' key,
    lookup-delete key key' (bucket sh name),
    same_iff name name',
  )

  pub find-discard_reclaim :
      find (discard_reclaim sh name key) name' key'
      ≡ (if same name name' && same key key' then none else find sh name' key')
  unfolding find
  find-discard_reclaim = ground (
    arith,
    bucket-discard_reclaim sh name name' key,
    lookup-delete key key' (bucket sh name),
    same_iff name name',
  )

pub ruleset shard_laws = (find-assign, find-open_bucket, find-discard, find-discard_reclaim)
