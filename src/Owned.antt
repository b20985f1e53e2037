-- ===== src/Owned.antt =====
-- imap/store.go: the operations that walk over all partitions. `owned` says which partitions this
-- member owns.
pub mod Counts
pub mod Sample
use medusa.Base.{
  ℕ, zero, suc, ◌+◌, List, [], ◌∷◌, ◌++◌, Bytes, Bool, true, false, not, ◌&&◌, if◌then◌else◌, leb,
  ◌==◌, length,
}
use medusa.GoMap
use medusa.Partition.{partition_count}
use medusa.Shard.{Shard, Bucket, Value, expired, bucket}
use medusa.Store.{Store, set_shard}
use medusa.Scan.{Entry, snapshot_partition, sweep_shard, entries_if, bucket_entries}
use medusa.Queue.{is_reserved_map}

-- `for p := range s.shards { … out = append(out, f(p)…) }`, over the first `n` partitions
unfoldable pub from_each {ℓ} : {A : Type ℓ} → (ℕ → List A) → ℕ → List A
from_each f zero = []
from_each f (suc p) = from_each f p ++ f p

-- `for p := range s.shards { n += f(p) }`
unfoldable pub sum_each : (ℕ → ℕ) → ℕ → ℕ
sum_each f zero = 0
sum_each f (suc p) = sum_each f p + f p

-- `snapshotAll`
unfoldable pub snapshot_all : ℕ → Store → List Entry
unfolding from_each
snapshot_all now s = from_each (λ p. snapshot_partition now (s.shards p)) partition_count

-- `sweepExpired`: the number of entries reclaimed, and the store.
unfoldable pub sweep_expired : ℕ → Store → ℕ × Store
unfolding sum_each
sweep_expired now s = (
  sum_each (λ p. length (sweep_shard now (s.shards p)).0) partition_count,
  record { shards = λ p. (sweep_shard now (s.shards p)).1 },
)

-- `for _, v := range inner { if !v.expired(now) { n++ } }`
unfoldable pub count_bucket : ℕ → Bucket → ℕ
unfolding expired
count_bucket now [] = 0
count_bucket now ((k, v) ∷ inner) =
    let rest = count_bucket now inner in if expired v now then rest else rest + 1

-- The two nested loops over a shard, which skip the maps that `skip` names.
unfoldable pub count_shard : (Bytes → Bool) → ℕ → Shard → ℕ
unfolding count_bucket
count_shard skip now [] = 0
count_shard skip now ((name, inner) ∷ sh) =
    let rest = count_shard skip now sh in if skip name then rest else count_bucket now inner + rest

-- `entryCount`
unfoldable pub entry_count : ℕ → Store → ℕ
unfolding sum_each count_shard
entry_count now s = sum_each (λ p. count_shard (λ name. false) now (s.shards p)) partition_count

-- `countMap`
unfoldable pub count_map : Bytes → (ℕ → Bool) → ℕ → Store → ℕ
unfolding sum_each count_bucket bucket
count_map name owned now s =
    sum_each (λ p. if owned p then count_bucket now (bucket (s.shards p) name) else 0)
      partition_count

-- `for _, v := range sh.m[name] { if !v.expired(now) { out = append(out, v.data) } }`
unfoldable pub live_values : ℕ → Bucket → List Bytes
unfolding expired
live_values now [] = []
live_values now ((k, v) ∷ inner) =
    let rest = live_values now inner in if expired v now then rest else v.stored ∷ rest

-- `collectOwnedValues`
unfoldable pub collect_owned_values : Bytes → (ℕ → Bool) → ℕ → Store → List Bytes
unfolding from_each live_values bucket
collect_owned_values name owned now s =
    from_each (λ p. if owned p then live_values now (bucket (s.shards p) name) else [])
      partition_count

-- `countOwned`
unfoldable pub count_owned : (ℕ → Bool) → ℕ → Store → ℕ
unfolding sum_each count_shard is_reserved_map
count_owned owned now s =
    sum_each (λ p. if owned p then count_shard is_reserved_map now (s.shards p) else 0)
      partition_count

-- The loops of `sampleOwned`: `out`, and whether the function has returned.
unfoldable pub sample_bucket : ℕ → ℕ → Bytes → Bucket → List Entry → List Entry × Bool
unfolding expired
sample_bucket limit now name [] out = (out, false)
sample_bucket limit now name ((k, v) ∷ inner) out =
    let out' = out ++ (record { map_name = name; key = k; contents = []; expire_at = 0 } ∷ []) in
    let next = sample_bucket limit now name inner out' in
    let skipped = sample_bucket limit now name inner out in
    if expired v now then skipped else if leb limit (length out') then (out', true) else next

unfoldable pub sample_shard : ℕ → ℕ → Shard → List Entry → List Entry × Bool
unfolding sample_bucket is_reserved_map
sample_shard limit now [] out = (out, false)
sample_shard limit now ((name, inner) ∷ sh) out =
    let (out', done) = sample_bucket limit now name inner out in
    let skipped = sample_shard limit now sh out in
    let next = sample_shard limit now sh out' in
    if is_reserved_map name then skipped else if done then (out', true) else next

-- The partitions from `p` on, `n` of them.
unfoldable pub sample_from : ℕ → ℕ → (ℕ → Bool) → Store → ℕ → ℕ → List Entry → List Entry × Bool
unfolding sample_shard
sample_from limit now owned s p zero out = (out, false)
sample_from limit now owned s p (suc n) out =
    let (out', done) = sample_shard limit now (s.shards p) out in
    let skipped = sample_from limit now owned s (p + 1) n out in
    let next = sample_from limit now owned s (p + 1) n out' in
    if not (owned p) then skipped else if done then (out', true) else next

-- `sampleOwned`, whose `limit <= 0` is 0 here
unfoldable pub sample_owned : (ℕ → Bool) → ℕ → ℕ → Store → List Entry
unfolding sample_from
sample_owned owned limit now s =
    if limit == 0 then [] else (sample_from limit now owned s 0 partition_count []).0

-- `if inner := sh.m[name]; len(inner) > 0 { … delete(sh.m, name) }`
unfoldable pub clear_bucket : Bytes → Bucket → Shard → Shard
clear_bucket name [] sh = sh
clear_bucket name (e ∷ inner) sh = GoMap.delete name sh

-- `clearMap`, with the entries that it removes
unfoldable pub clear_map : Bytes → Store → List Entry × Store
unfolding from_each clear_bucket bucket_entries bucket
clear_map name s = (
  from_each (λ p. bucket_entries (λ n k v. true) name (bucket (s.shards p) name)) partition_count,
  record { shards = λ p. clear_bucket name (bucket (s.shards p) name) (s.shards p) },
)
