-- ===== src/Owned/Counts.antt =====
-- imap/store.go: the counts over all partitions agree with what is collected.
use medusa.Base.{
  ℕ, zero, suc, ◌≡◌, refl, List, [], ◌∷◌, Bytes, Bool, arith, length, length-append, if◌then◌else◌,
}
use medusa.Partition.{partition_count}
use medusa.Shard.{Bucket, bucket}
use medusa.Store.{Store}
use medusa.Owned.{from_each, sum_each, count_bucket, live_values, count_map, collect_owned_values}

length-live_values : (now : ℕ) (b : Bucket) → length (live_values now b) ≡ count_bucket now b
unfolding live_values count_bucket
length-live_values now [] = refl
length-live_values now ((k, v) ∷ b) = ground (arith, length-live_values now b)

length-from_each :
    {A : Type 0} (f : ℕ → List A) (g : ℕ → ℕ) (n : ℕ)
    → ((p : ℕ) → length (f p) ≡ g p)
    → length (from_each f n) ≡ sum_each g n
unfolding from_each sum_each
length-from_each f g zero h = refl
length-from_each f g (suc p) h =
    omega (arith, length-append (from_each f p) (f p), length-from_each f g p h, h p)

-- `countMap` counts exactly the values that `collectOwnedValues` hands to an aggregation.
pub count_map-collect_owned_values :
    (name : Bytes) (owned : ℕ → Bool) (now : ℕ) (s : Store)
    → length (collect_owned_values name owned now s) ≡ count_map name owned now s
unfolding collect_owned_values count_map
count_map-collect_owned_values name owned now s =
    length-from_each (λ p. if owned p then live_values now (bucket (s.shards p) name) else [])
      (λ p. if owned p then count_bucket now (bucket (s.shards p) name) else 0) partition_count
      λ p. ground (arith, length-live_values now (bucket (s.shards p) name))
