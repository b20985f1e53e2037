-- ===== src/Aggregate/MapReduce.antt =====
-- imap/aggregate.go: combining the members' partials is reducing all the values at once.
use medusa.Base.{
  concat, ℕ, ◌+◌, ◌%◌, ◌^◌, ◌<◌, ◌≡◌, refl, ap, ◌∙◌, List, [], ◌∷◌, ◌++◌, Bytes, arith, length,
  length-append, map,
}
use medusa.Bytes.{put_uint64}
use medusa.Processor.{read_int64}
use medusa.Processor.Counter.{read_int64-put_uint64}
use medusa.Aggregate.{count_agg, sum_agg, sum_i64, sum_from}

sum_from-append :
    (sum : ℕ) (xs ys : List Bytes) → sum_from sum (xs ++ ys) ≡ sum_from (sum_from sum xs) ys
unfolding sum_from
sum_from-append sum [] ys = refl
sum_from-append sum (x ∷ xs) ys = sum_from-append ((sum + read_int64 x) % 2 ^ 64) xs ys

-- A sum that starts elsewhere, and one that starts at 0.
sum_from-shift :
    (sum : ℕ) (xs : List Bytes) → sum < 2 ^ 64 → sum_from sum xs ≡ (sum + sum_from 0 xs) % 2 ^ 64
unfolding sum_from
sum_from-shift sum [] h = omega arith
sum_from-shift sum (x ∷ xs) h = omega (
  arith,
  sum_from-shift ((sum + read_int64 x) % 2 ^ 64) xs (omega arith),
  sum_from-shift ((0 + read_int64 x) % 2 ^ 64) xs (omega arith),
)

sum_from-lt : (sum : ℕ) (xs : List Bytes) → sum < 2 ^ 64 → sum_from sum xs < 2 ^ 64
unfolding sum_from
sum_from-lt sum [] h = h
sum_from-lt sum (x ∷ xs) h = sum_from-lt ((sum + read_int64 x) % 2 ^ 64) xs (omega arith)

-- One more partial
sum_i64-cons :
    (p : ℕ) (parts : List Bytes)
    → p < 2 ^ 64
    → sum_i64 (put_uint64 p ∷ parts) ≡ (p + sum_i64 parts) % 2 ^ 64
unfolding sum_i64
sum_i64-cons p parts h =
    rw (read_int64-put_uint64 p h)
      (sum_from-shift ((0 + p) % 2 ^ 64) parts (omega arith) ∙ omega arith)

abbrev sums : List (List Bytes) → List Bytes
sums groups = map (λ g. sum_agg.reduce g) groups

sum_i64-append : (xs ys : List Bytes) → sum_i64 (xs ++ ys) ≡ (sum_i64 xs + sum_i64 ys) % 2 ^ 64
unfolding sum_i64
sum_i64-append xs ys =
    sum_from-append 0 xs ys ∙ sum_from-shift (sum_from 0 xs) ys (sum_from-lt 0 xs (omega arith))

sum_i64-sums : (groups : List (List Bytes)) → sum_i64 (sums groups) ≡ sum_i64 (concat groups)
sum_i64-sums [] = refl
sum_i64-sums (g ∷ groups) = omega (
  arith,
  sum_i64-cons (sum_i64 g) (sums groups) (unfold sum_i64 in sum_from-lt 0 g (omega arith)),
  sum_i64-append g (concat groups),
  sum_i64-sums groups,
)

-- The distributed sum: the members' partial sums combine to the sum of all their values.
pub sum_agg-combine :
    (groups : List (List Bytes)) → sum_agg.combine (sums groups) ≡ sum_agg.reduce (concat groups)
sum_agg-combine groups = ap put_uint64 (sum_i64-sums groups)

abbrev counts : List (List Bytes) → List Bytes
counts groups = map (λ g. count_agg.reduce g) groups

sum_i64-counts :
    (groups : List (List Bytes)) → sum_i64 (counts groups) ≡ length (concat groups) % 2 ^ 64
sum_i64-counts [] = unfold sum_i64 sum_from in refl
sum_i64-counts (g ∷ groups) = omega (
  arith,
  sum_i64-cons (length g % 2 ^ 64) (counts groups) (omega arith),
  length-append g (concat groups),
  sum_i64-counts groups,
)

-- The distributed count: the members' counts combine to the number of all their values.
pub count_agg-combine :
    (groups : List (List Bytes))
    → count_agg.combine (counts groups) ≡ count_agg.reduce (concat groups)
count_agg-combine groups = ap put_uint64 (sum_i64-counts groups)
