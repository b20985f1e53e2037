-- ===== src/Partition/Owner.antt =====
-- partition/table.go: the table does not depend on the order of the members.
use medusa.Base.{
  ℕ, zero, suc, ◌+◌, ◌*◌, ◌<◌, ◌≤◌, ◌≡◌, refl, Bool-cases, inl, inr, ltb_false→le, ap, sym, ◌∙◌,
  List, [], ◌∷◌, ◌++◌, Bytes, Option, none, some, arith, length, get_elem?, ltb, leb, if◌then◌else◌,
  false,
}
use medusa.Partition.{partition_count}
use native.Mathlib.Nat.{suc-mul}
use mathlib.Core.List.{Permᴰ}
use medusa.Partition.Order.{
  str_lt, str_lt_irrefl, str_lt_trans, str_lt_total, IsStrict, sort_reorder,
}
use medusa.Partition.Table.{
  Table, new_table, table_of, Ranked, idx_of, member_at, ranking, backup_row, owner_rows,
  backup_rows, owner_of, backup_at,
}

str_lt-IsStrict : IsStrict str_lt
str_lt-IsStrict = record {
  irreflexive = str_lt_irrefl;
  transitive = str_lt_trans;
  connected = str_lt_total;
}

-- Two members that know the same ids, in whatever order, build the same table.
pub new_table_reorder :
    (ids other : List Bytes) (backup_count : ℕ)
    → Permᴰ ids other
    → new_table ids backup_count ≡ new_table other backup_count
unfolding new_table
new_table_reorder ids other backup_count p =
    ap (λ (members : List Bytes). table_of members backup_count)
      (sort_reorder str_lt str_lt-IsStrict p)

-- The member that is ranked `k`-th for the partition, from 0.
abbrev pub ranked_member : List Bytes → ℕ → ℕ → Option Bytes
ranked_member members p k = elim (get_elem? (ranking members p) k) [
  | none ↦ none
  | some r ↦ get_elem? members r.idx
]

abbrev pub or_empty : Option Bytes → Bytes
or_empty none = []
or_empty (some id) = id

get_elem?-owner_rows :
    (members : List Bytes) (p n i : ℕ)
    → i < n
    → get_elem? (owner_rows members p n) i ≡ some (idx_of (get_elem? (ranking members (p + i)) 0))
unfolding owner_rows
get_elem?-owner_rows members p zero i h = absurd (omega arith)
get_elem?-owner_rows members p (suc n) zero h =
    let e : p ≡ p + 0 = omega arith in
    ap (λ (q : ℕ). some (idx_of (get_elem? (ranking members q) 0))) e
get_elem?-owner_rows members p (suc n) (suc i) h =
    let e : p + 1 + i ≡ p + suc i = omega arith in
    get_elem?-owner_rows members (p + 1) n i (omega arith)
    ∙ ap (λ (q : ℕ). some (idx_of (get_elem? (ranking members q) 0))) e

get_elem?-past : {A : Type 0} (xs : List A) (i : ℕ) → length xs ≤ i → get_elem? xs i ≡ none
get_elem?-past [] i h = refl
get_elem?-past (x ∷ xs) zero h = absurd (omega arith)
get_elem?-past (x ∷ xs) (suc i) h = get_elem?-past xs i (omega arith)

length-backup_row : (scratch : List Ranked) (j n : ℕ) → length (backup_row scratch j n) ≡ n
unfolding backup_row
length-backup_row scratch j zero = refl
length-backup_row scratch j (suc n) = omega (arith, length-backup_row scratch (j + 1) n)

-- A slot of a row, whether its rank is one of a member or not.
slot-rank :
    (scratch : List Ranked) (k : ℕ)
    → (if ltb k (length scratch) then idx_of (get_elem? scratch k) else none)
      ≡ idx_of (get_elem? scratch k)
slot-rank scratch k = elim (Bool-cases (ltb k (length scratch))) [
  | inl e ↦ rw e
  | inr e ↦ rw e (ap idx_of (sym (get_elem?-past scratch k (ltb_false→le k (length scratch) e))))
]

get_elem?-backup_row :
    (scratch : List Ranked) (j n i : ℕ)
    → i < n
    → get_elem? (backup_row scratch j n) i ≡ some (idx_of (get_elem? scratch (j + i + 1)))
unfolding backup_row
get_elem?-backup_row scratch j zero i h = absurd (omega arith)
get_elem?-backup_row scratch j (suc n) zero h =
    let e : j + 1 ≡ j + 0 + 1 = omega arith in
    ap some (slot-rank scratch (j + 1) ∙ ap (λ (k : ℕ). idx_of (get_elem? scratch k)) e)
get_elem?-backup_row scratch j (suc n) (suc i) h =
    let e : j + 1 + i + 1 ≡ j + suc i + 1 = omega arith in
    get_elem?-backup_row scratch (j + 1) n i (omega arith)
    ∙ ap (λ (k : ℕ). some (idx_of (get_elem? scratch k))) e

get_elem?-append_left :
    {A : Type 0} (xs ys : List A) (i : ℕ) → i < length xs → get_elem? (xs ++ ys) i ≡ get_elem? xs i
get_elem?-append_left [] ys i h = absurd (omega arith)
get_elem?-append_left (x ∷ xs) ys zero h = refl
get_elem?-append_left (x ∷ xs) ys (suc i) h = get_elem?-append_left xs ys i (omega arith)

get_elem?-append_right :
    {A : Type 0} (xs ys : List A) (i : ℕ) → get_elem? (xs ++ ys) (length xs + i) ≡ get_elem? ys i
get_elem?-append_right [] ys i = let e : 0 + i ≡ i = omega arith in ap (get_elem? ys) e
get_elem?-append_right (x ∷ xs) ys i =
    let e : length (x ∷ xs) + i ≡ suc (length xs + i) = omega arith in
    ap (get_elem? (x ∷ xs ++ ys)) e ∙ get_elem?-append_right xs ys i

-- The flat array of backups, row by row.
get_elem?-backup_rows :
    (members : List Bytes) (count p n q i : ℕ)
    → q < n
    → i < count
    → get_elem? (backup_rows members count p n) (q * count + i)
      ≡ some (idx_of (get_elem? (ranking members (p + q)) (i + 1)))
unfolding backup_rows
get_elem?-backup_rows members count p zero q i h k = absurd (omega arith)
get_elem?-backup_rows members count p (suc n) zero i h k =
    let row = backup_row (ranking members p) 0 count in
    let start : 0 * count + i ≡ i = omega arith in
    let rank : 0 + i + 1 ≡ i + 1 = omega arith in
    let same_p : p ≡ p + 0 = omega arith in
    ap (get_elem? (row ++ backup_rows members count (p + 1) n)) start
    ∙ get_elem?-append_left row (backup_rows members count (p + 1) n) i
        (omega (arith, length-backup_row (ranking members p) 0 count))
    ∙ get_elem?-backup_row (ranking members p) 0 count i k
    ∙ ap (λ (j : ℕ). some (idx_of (get_elem? (ranking members p) j))) rank
    ∙ ap (λ (r : ℕ). some (idx_of (get_elem? (ranking members r) (i + 1)))) same_p
get_elem?-backup_rows members count p (suc n) (suc q) i h k =
    let row = backup_row (ranking members p) 0 count in
    let next : suc q * count + i ≡ length row + (q * count + i) =
      omega (arith, suc-mul q count, length-backup_row (ranking members p) 0 count) in
    let further : p + 1 + q ≡ p + suc q = omega arith in
    ap (get_elem? (row ++ backup_rows members count (p + 1) n)) next
    ∙ get_elem?-append_right row (backup_rows members count (p + 1) n) (q * count + i)
    ∙ get_elem?-backup_rows members count (p + 1) n q i (omega arith) k
    ∙ ap (λ (r : ℕ). some (idx_of (get_elem? (ranking members r) (i + 1)))) further

member_at-ranked :
    (members : List Bytes) (p k : ℕ)
    → member_at members (some (idx_of (get_elem? (ranking members p) k)))
      ≡ ranked_member members p k
member_at-ranked members p k = ground arith

-- The table with any number of partitions.
abbrev rows_of : List Bytes → ℕ → ℕ → Table
rows_of members backup_count n = record {
  members = members;
  owners = owner_rows members 0 n;
  backups = backup_rows members backup_count 0 n;
  backup_count = backup_count;
}

leb_not : (a b : ℕ) → a < b → leb b a ≡ false
leb_not a b h = ground arith

rows_of-owner :
    (members : List Bytes) (backup_count n p : ℕ)
    → p < n
    → owner_of (rows_of members backup_count n) p ≡ or_empty (ranked_member members p 0)
unfolding owner_of
rows_of-owner members backup_count n p hp =
    let here : 0 + p ≡ p = omega arith in
    let owner =
      get_elem?-owner_rows members 0 n p hp
      ∙ ap (λ (r : ℕ). some (idx_of (get_elem? (ranking members r) 0))) here in
    ap (λ (o : Option (Option ℕ)). or_empty (member_at members o)) owner
    ∙ ap or_empty (member_at-ranked members p 0)

rows_of-backup :
    (members : List Bytes) (backup_count n p i : ℕ)
    → p < n
    → i < backup_count
    → backup_at (rows_of members backup_count n) p i ≡ ranked_member members p (i + 1)
unfolding backup_at
rows_of-backup members backup_count n p i hp hi =
    let here : 0 + p ≡ p = omega arith in
    let backup =
      get_elem?-backup_rows members backup_count 0 n p i hp hi
      ∙ ap (λ (r : ℕ). some (idx_of (get_elem? (ranking members r) (i + 1)))) here in
    rw (leb_not i backup_count hi)
      (ap (member_at members) backup ∙ member_at-ranked members p (i + 1))

-- The table is laid out by the ranking of each partition.
pub table_of-owner :
    (members : List Bytes) (backup_count p : ℕ)
    → p < partition_count
    → owner_of (table_of members backup_count) p ≡ or_empty (ranked_member members p 0)
unfolding table_of
table_of-owner members backup_count p hp = rows_of-owner members backup_count partition_count p hp

pub table_of-backup :
    (members : List Bytes) (backup_count p i : ℕ)
    → p < partition_count
    → i < backup_count
    → backup_at (table_of members backup_count) p i ≡ ranked_member members p (i + 1)
unfolding table_of
table_of-backup members backup_count p i hp hi =
    rows_of-backup members backup_count partition_count p i hp hi
