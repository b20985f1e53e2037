-- ===== src/Partition.antt =====
-- partition/hash.go: the partition of a key.
pub mod Order
pub mod Table
pub mod Owner
pub mod Rank
use medusa.Base.{ℕ, ◌*◌, ◌%◌, ◌^◌, ◌<◌, [], ◌∷◌, Bytes, arith, bit_xor}

-- partition/table.go: the number of partitions
abbrev pub partition_count : ℕ
partition_count = 271

-- The loop of `For`, on uint32 `h`.
unfoldable pub fold_key : ℕ → Bytes → ℕ
fold_key h [] = h
fold_key h (b ∷ key) = fold_key (bit_xor h b * 16777619 % 2 ^ 32) key

-- `For`
unfoldable pub for_key : Bytes → ℕ
unfolding fold_key
for_key key = fold_key 2166136261 key % partition_count

pub for_key-lt : (key : Bytes) → for_key key < partition_count
unfolding for_key
for_key-lt key = omega arith
