-- ===== src/Aggregate.antt =====
-- imap/aggregate.go: the built-in aggregators. `reduce` folds the values that one member owns, and
-- `combine` merges the members' partials. An int64 is its two's complement pattern.
pub mod MapReduce
pub mod Least
pub mod Extremum
use medusa.Base.{
  ℕ, ◌+◌, ◌%◌, ◌^◌, Option, none, some, List, [], ◌∷◌, Bytes, Bool, true, false, bytes_of, same,
  if◌then◌else◌, length, ◌==◌,
}
use medusa.Bytes.{put_uint64, slt}
use medusa.Processor.{read_int64}

pub record Aggregator : Type 0 where
  pub reduce : List Bytes → Bytes
  pub combine : List Bytes → Bytes

abbrev pub put_i64 : ℕ → Bytes
put_i64 n = put_uint64 n

-- The loop of `sumI64`
unfoldable pub sum_from : ℕ → List Bytes → ℕ
sum_from sum [] = sum
sum_from sum (p ∷ parts) = sum_from ((sum + read_int64 p) % 2 ^ 64) parts

unfoldable pub sum_i64 : List Bytes → ℕ
unfolding sum_from
sum_i64 parts = sum_from 0 parts

-- `(min && x < best) || (!min && x > best)`
abbrev pub beats : Bool → ℕ → ℕ → Bool
beats smaller x best = if smaller then slt x best else slt best x

-- One round of the loop of `extremum`; `none` stands for `!seen`.
unfoldable pub see : Bool → Option ℕ → ℕ → Option ℕ
see smaller none x = some x
see smaller (some best) x = if beats smaller x best then some x else some best

unfoldable pub extremum_from : Bool → Option ℕ → List Bytes → Option ℕ
unfolding see
extremum_from smaller best [] = best
extremum_from smaller best (it ∷ items) =
    extremum_from smaller (if length it == 0 then best else see smaller best (read_int64 it)) items

unfoldable pub extremum : List Bytes → Bool → Bytes
unfolding extremum_from
extremum items smaller = elim (extremum_from smaller none items) [
  | none ↦ []
  | some best ↦ put_i64 best
]

abbrev pub count_agg : Aggregator
count_agg = record {
  reduce = λ values. put_i64 (length values % 2 ^ 64);
  combine = λ partials. put_i64 (sum_i64 partials);
}

abbrev pub sum_agg : Aggregator
sum_agg = record {
  reduce = λ values. put_i64 (sum_i64 values);
  combine = λ partials. put_i64 (sum_i64 partials);
}

abbrev pub min_agg : Aggregator
min_agg = record {
  reduce = λ values. extremum values true;
  combine = λ partials. extremum partials true;
}

abbrev pub max_agg : Aggregator
max_agg = record {
  reduce = λ values. extremum values false;
  combine = λ partials. extremum partials false;
}

-- The map `aggregators` as it stands before any `RegisterAggregator`.
unfoldable pub lookup_aggregator : Bytes → Option Aggregator
unfolding same
lookup_aggregator name =
    if same name (bytes_of "count")
    then some count_agg
    else if same name (bytes_of "sum")
    then some sum_agg
    else if same name (bytes_of "min")
    then some min_agg
    else if same name (bytes_of "max")
    then some max_agg
    else none
