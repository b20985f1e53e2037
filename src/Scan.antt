-- ===== src/Scan.antt =====
-- imap/store.go: the operations that walk over all entries of a shard.
pub mod Distinct
pub mod Found
pub mod Migration
pub mod Cleanup
use medusa.Bytes.{put_uint32}
use medusa.Base.{
  ℕ, ◌*◌, ◌%◌, ◌^◌, bit_xor, length, ◌≡◌, List, [], ◌∷◌, ◌++◌, Bytes, Bool, true, false, not, ◌&&◌,
  ◌||◌, if◌then◌else◌, same, ◌==◌, Option, none, some,
}
use medusa.GoMap
use medusa.GoMap.{GoMap}
use medusa.Shard.{Shard, Bucket, Value, expired, find, discard}

-- `entry`
pub record Entry : Type 0 where
  pub map_name : Bytes
  pub key : Bytes
  pub contents : Bytes
  pub expire_at : ℕ

-- A test on an entry of a shard: the map's name, the key, the value.
abbrev pub Test : Type 0
Test = Bytes → Bytes → Value → Bool

-- `if len(inner) == 0 { delete(sh.m, name) }`, where the walk is at `name`
put_back : Bytes → Bucket → Shard → Shard
put_back name [] rest = rest
put_back name (e ∷ inner) rest = (name, e ∷ inner) ∷ rest

-- The walk that deletes the entries that fail the test, and the buckets that are empty then.
unfoldable pub retain : Test → Shard → Shard
unfolding GoMap.keep_if put_back
retain f [] = []
retain f ((name, inner) ∷ sh) = put_back name (GoMap.keep_if (f name) inner) (retain f sh)

unfoldable pub bucket_entries : Test → Bytes → Bucket → List Entry
bucket_entries f name [] = []
bucket_entries f name ((k, v) ∷ inner) =
    let rest = bucket_entries f name inner in
    if f name k v
    then record { map_name = name; key = k; contents = v.stored; expire_at = v.expire_at } ∷ rest
    else rest

-- The walk that collects the entries that pass the test.
unfoldable pub entries_if : Test → Shard → List Entry
unfolding bucket_entries
entries_if f [] = []
entries_if f ((name, inner) ∷ sh) = bucket_entries f name inner ++ entries_if f sh

abbrev pub fails : Test → Test
fails f name k v = not (f name k v)

-- `!v.expired(now)`
abbrev pub unexpired : ℕ → Test
unexpired now name k v = not (expired v now)

-- `snapshotPartition`, on the partition's shard
unfoldable pub snapshot_partition : ℕ → Shard → List Entry
unfolding entries_if
snapshot_partition now sh = entries_if (unexpired now) sh

-- `map[string]map[string]struct{}`
abbrev pub Keyset : Type 0
Keyset = GoMap (GoMap Unit)

-- `keep[name][k]`, where a nil map reads as an empty one
unfoldable pub keeps : Keyset → Test
unfolding GoMap.has
keeps keep name k v = elim (GoMap.lookup name keep) [ none ↦ false | some keys ↦ GoMap.has k keys ]

-- `pruneToKeyset`, with the entries that it drops
unfoldable pub prune_to_keyset : Keyset → Shard → List Entry × Shard
unfolding entries_if retain
prune_to_keyset keep sh = (entries_if (fails (keeps keep)) sh, retain (keeps keep) sh)

-- The entries of one shard that `sweepExpired` deletes, and the shard it leaves.
unfoldable pub sweep_shard : ℕ → Shard → List Entry × Shard
unfolding entries_if retain
sweep_shard now sh = (entries_if (fails (unexpired now)) sh, retain (unexpired now) sh)

-- The value is what the entry captured: `cur.expireAt == e.expireAt && bytes.Equal(cur.data, e.value)`.
abbrev pub captured : Entry → Value → Bool
captured e v = v.expire_at == e.expire_at && same v.stored e.contents

-- One round of the loop of `dropMigrated`
unfoldable pub drop_entry : Entry → Shard → List Entry × Shard
drop_entry e sh = elim (find sh e.map_name e.key) [
  | none ↦ ([], sh)
  | some v ↦ if captured e v then (e ∷ [], discard sh e.map_name e.key) else ([], sh)
]

unfoldable pub drop_entries : List Entry → Shard → List Entry × Shard
unfolding drop_entry
drop_entries [] sh = ([], sh)
drop_entries (e ∷ es) sh =
    let (gone, sh') = drop_entry e sh in
    let (more, sh'') = drop_entries es sh' in (gone ++ more, sh'')

-- `dropMigrated`
unfoldable pub drop_migrated : List Entry → Shard → List Entry × Shard
unfolding drop_entries retain
drop_migrated es sh = let (gone, sh') = drop_entries es sh in (gone, retain (λ name k v. true) sh')

-- The entry of the shard is one that was captured.
abbrev pub listed : List Entry → Test
listed [] name k v = false
listed (e ∷ es) name k v =
    (same e.map_name name && same e.key k && captured e v) || listed es name k v

-- `fnv1a`
unfoldable pub fnv1a : ℕ → Bytes → ℕ
fnv1a h [] = h
fnv1a h (c ∷ b) = fnv1a (bit_xor h c * 1099511628211 % 2 ^ 64) b

-- The hash of one entry in `partitionDigest`
unfoldable pub entry_hash : Bytes → Bytes → Value → ℕ
unfolding fnv1a
entry_hash name k v =
    let start : ℕ = 14695981039346656037 in
    let of_name = fnv1a (fnv1a start (put_uint32 (length name))) name in
    fnv1a (fnv1a (fnv1a of_name (put_uint32 (length k))) k) v.stored

-- `partitionDigest`, on the partition's shard
unfoldable pub digest_bucket : ℕ → Bytes → Bucket → ℕ → ℕ
unfolding entry_hash expired
digest_bucket now name [] digest = digest
digest_bucket now name ((k, v) ∷ inner) digest =
    digest_bucket now name inner
      (if expired v now then digest else bit_xor digest (entry_hash name k v))

unfoldable pub digest_shard : ℕ → Shard → ℕ → ℕ
unfolding digest_bucket
digest_shard now [] digest = digest
digest_shard now ((name, inner) ∷ sh) digest =
    digest_shard now sh (digest_bucket now name inner digest)

unfoldable pub partition_digest : ℕ → Shard → ℕ
unfolding digest_shard
partition_digest now sh = digest_shard now sh 0
