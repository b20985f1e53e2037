-- ===== src/Queue/Runs.antt =====
-- imap/queue.go: whole runs of queue operations, each in a critical section of its own.
use medusa.Base.{
  ℕ, ◌+◌, ◌^◌, ◌<◌, ◌≡◌, refl, ap, inl, inr, none, List, [], ◌∷◌, Bytes, arith, length,
}
use medusa.Shard.{Shard, find}
use medusa.Txn.{Txn}
use medusa.Queue.{Result, ok, queue_map, queue_seg_map, queue_op, queue_seg_key}
use medusa.Queue.Chain.{IsQueue}
use medusa.Queue.Fifo.{Op, op_name, op_arg, OpFits, fifo, queue_op-fifo}

-- The results of a list of operations, each at its own time, from the shard as it stands.
unfoldable pub run : Bytes → List (Op × ℕ) → Shard → List (Result Bytes)
run name [] sh = []
run name ((o, now) ∷ rest) sh =
    let (r, t) = queue_op name (op_name o) (op_arg o) now (record { shard = sh; muts = [] }) in
    r ∷ run name rest t.shard

-- The results of the ideal queue.
unfoldable pub run_fifo : List (Op × ℕ) → List Bytes → List (Result Bytes)
unfolding fifo
run_fifo [] items = []
run_fifo ((o, now) ∷ rest) items = ok (fifo o items).0 ∷ run_fifo rest (fifo o items).1

abbrev pub AllOpsFit : List (Op × ℕ) → Type 0
AllOpsFit [] = Unit
AllOpsFit ((o, now) ∷ rest) = OpFits o × AllOpsFit rest

run-run_fifo :
    (name : Bytes) (ops : List (Op × ℕ)) (sh : Shard) (used : ℕ) (items : List Bytes)
    → IsQueue sh name used items
    → used + length ops < 2 ^ 64
    → AllOpsFit ops
    → run name ops sh ≡ run_fifo ops items
unfolding run run_fifo
run-run_fifo name [] sh used items q room f = refl
run-run_fifo name ((o, now) ∷ rest) sh used items q room (f, fs) =
    let t : Txn = record { shard = sh; muts = [] } in
    let (answer, after) = queue_op-fifo name now t used items o q (omega arith) f in
    rw answer (
      ap (◌∷◌ (ok (fifo o items).0)) (run-run_fifo name rest _ (used + 1) _ after (omega arith) fs))

-- A shard that holds nothing of a queue holds the empty queue.
pub IsQueue-fresh :
    (name : Bytes) (sh : Shard)
    → find sh queue_map name ≡ none
    → ((i : ℕ) → i < 2 ^ 64 → find sh queue_seg_map (queue_seg_key i name) ≡ none)
    → IsQueue sh name 0 []
IsQueue-fresh name sh no_meta no_segments = record {
  head = 0;
  tail = 0;
  meta = inr (no_meta, refl, refl, refl);
  tail_used = omega arith;
  count_used = omega arith;
  fit = tt;
  beyond = λ i after below. no_segments i below;
  body = inl (refl, refl);
}

-- Every run of offers, polls, peeks and size queries from a shard that holds nothing of the queue
-- returns exactly what a first-in-first-out list returns, whatever the times of the operations, for
-- fewer than 2 ^ 64 operations and items shorter than 2 ^ 32 bytes.
pub run-fifo :
    (name : Bytes) (ops : List (Op × ℕ)) (sh : Shard)
    → find sh queue_map name ≡ none
    → ((i : ℕ) → i < 2 ^ 64 → find sh queue_seg_map (queue_seg_key i name) ≡ none)
    → length ops < 2 ^ 64
    → AllOpsFit ops
    → run name ops sh ≡ run_fifo ops []
run-fifo name ops sh no_meta no_segments few f =
    run-run_fifo name ops sh 0 [] (IsQueue-fresh name sh no_meta no_segments) (omega arith) f
