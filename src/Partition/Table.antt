-- ===== src/Partition/Table.antt =====
-- partition/table.go: the members that own and back up each partition.
use medusa.Base.{
  ℕ, zero, suc, ◌+◌, ◌*◌, ◌/◌, ◌%◌, ◌^◌, List, [], ◌∷◌, ◌++◌, Bytes, Bool, not, if◌then◌else◌, ltb,
  leb, ◌==◌, Option, none, some, bit_xor, length, get_elem?,
}
use medusa.Partition.{partition_count}
use medusa.Partition.Order.{str_lt, sort}

-- One round of FNV-1a on uint64
abbrev fnv_round : ℕ → ℕ → ℕ
fnv_round h b = bit_xor h b * 1099511628211 % 2 ^ 64

-- The first loop of `hrwWeight`, over the id
unfoldable pub fold_id : ℕ → Bytes → ℕ
fold_id h [] = h
fold_id h (b ∷ id) = fold_id (fnv_round h b) id

-- The second loop, over the four bytes of `uint32(p)`
unfoldable pub fold_partition : ℕ → ℕ → ℕ
fold_partition h p =
    let u = p % 2 ^ 32 in
    let h0 = fnv_round h (u % 256) in
    let h1 = fnv_round h0 (u / 2 ^ 8 % 256) in
    let h2 = fnv_round h1 (u / 2 ^ 16 % 256) in fnv_round h2 (u / 2 ^ 24 % 256)

-- The splitmix64 finalizer
unfoldable pub finalize : ℕ → ℕ
finalize h =
    let h1 = bit_xor h (h / 2 ^ 30) * 13787848793156543929 % 2 ^ 64 in
    let h2 = bit_xor h1 (h1 / 2 ^ 27) * 10723151780598845931 % 2 ^ 64 in bit_xor h2 (h2 / 2 ^ 31)

unfoldable pub hrw_weight : Bytes → ℕ → ℕ
unfolding fold_id fold_partition finalize
hrw_weight id p = finalize (fold_partition (fold_id 14695981039346656037 id) p)

-- `ranked`
pub record Ranked : Type 0 where
  pub weight : ℕ
  pub idx : ℕ

-- The comparison that ranks by descending weight, ties by index
unfoldable pub ranks_before : Ranked → Ranked → Bool
ranks_before a b = if not (a.weight == b.weight) then ltb b.weight a.weight else ltb a.idx b.idx

-- `scratch` before it is sorted, from index `i` on
unfoldable pub scores : ℕ → ℕ → List Bytes → List Ranked
unfolding hrw_weight
scores p i [] = []
scores p i (id ∷ ids) = record { weight = hrw_weight id p; idx = i } ∷ scores p (i + 1) ids

-- `scratch` for partition `p`
unfoldable pub ranking : List Bytes → ℕ → List Ranked
unfolding scores ranks_before sort
ranking members p = sort ranks_before (scores p 0 members)

-- `Table`: an index of -1 is `none`.
pub record Table : Type 0 where
  pub members : List Bytes
  pub owners : List (Option ℕ)
  pub backups : List (Option ℕ)
  pub backup_count : ℕ

abbrev pub idx_of : Option Ranked → Option ℕ
idx_of none = none
idx_of (some r) = some r.idx

-- The row of backups of one partition: the slots `j`, `j + 1`, …, `n` of them; a rank beyond the
-- members is -1.
unfoldable pub backup_row : List Ranked → ℕ → ℕ → List (Option ℕ)
backup_row scratch j zero = []
backup_row scratch j (suc n) =
    (if ltb (j + 1) (length scratch) then idx_of (get_elem? scratch (j + 1)) else none)
    ∷ backup_row scratch (j + 1) n

-- The loop over the partitions `p`, `p + 1`, …, `n` of them. With no members `scratch` is empty,
-- and each index is -1.
unfoldable pub owner_rows : List Bytes → ℕ → ℕ → List (Option ℕ)
unfolding ranking
owner_rows members p zero = []
owner_rows members p (suc n) =
    idx_of (get_elem? (ranking members p) 0) ∷ owner_rows members (p + 1) n

unfoldable pub backup_rows : List Bytes → ℕ → ℕ → ℕ → List (Option ℕ)
unfolding ranking backup_row
backup_rows members count p zero = []
backup_rows members count p (suc n) =
    backup_row (ranking members p) 0 count ++ backup_rows members count (p + 1) n

-- `NewTable`, after the members were sorted
unfoldable pub table_of : List Bytes → ℕ → Table
unfolding owner_rows backup_rows
table_of members backup_count = record {
  members = members;
  owners = owner_rows members 0 partition_count;
  backups = backup_rows members backup_count 0 partition_count;
  backup_count = backup_count;
}

-- `NewTable`; a negative backup count is a 0 here.
unfoldable pub new_table : List Bytes → ℕ → Table
unfolding sort str_lt table_of
new_table member_ids backup_count = table_of (sort str_lt member_ids) backup_count

-- `t.members[m]` for an index that is not -1
abbrev pub member_at : List Bytes → Option (Option ℕ) → Option Bytes
member_at members (some (some m)) = get_elem? members m
member_at members o = none

-- `OwnerOf`: no owner is an empty id.
unfoldable pub owner_of : Table → ℕ → Bytes
owner_of t p = elim (member_at t.members (get_elem? t.owners p)) [ none ↦ [] | some id ↦ id ]

-- `NumBackups`: the slots of a row that are filled, `n` slots from `at` on
unfoldable pub filled_from : List (Option ℕ) → ℕ → ℕ → ℕ
filled_from backups start zero = 0
filled_from backups start (suc n) =
    let rest = filled_from backups (start + 1) n in
    elim (get_elem? backups start) [
      | none ↦ rest
      | some slot ↦ elim slot [ none ↦ rest | some m ↦ rest + 1 ]
    ]

unfoldable pub num_backups : Table → ℕ → ℕ
unfolding filled_from
num_backups t p = filled_from t.backups (p * t.backup_count) t.backup_count

unfoldable pub backup_at : Table → ℕ → ℕ → Option Bytes
backup_at t p i =
    if leb t.backup_count i
    then none
    else member_at t.members (get_elem? t.backups (p * t.backup_count + i))

abbrev pub backup_of : Table → ℕ → Option Bytes
backup_of t p = backup_at t p 0
