-- ===== src/Tests.antt =====
-- Runs of the model on concrete inputs.
use medusa.Base.{
  concat, same, eq→same, ap, sym, ℕ, ◌^◌, ◌<◌, ◌≡◌, ◌≢◌, refl, Option, none, some, List, [], ◌∷◌,
  Bytes, bytes_of, arith, true, false, ◌-◌,
}
use medusa.Bytes.{put_uint64, put_uint64-bytes}
use medusa.Shard.{Shard, find}
use medusa.Txn.{Txn}
use medusa.Processor.{
  read_int64, encode_lock, fence_bytes, decode_lock, incr_proc, lock_acquire_proc,
  lock_release_proc, cas_proc, split_cas, encode_cas, apply_proc,
}
use medusa.Processor.Lock.{
  decode_lock-encode_lock, LockOp, acquire, release, lock_op, lock_ops, fence_of, holder_of,
  or_empty,
}
use medusa.Processor.Fence.{fence_increases}
use medusa.Processor.Exclusive.{believes, lock_exclusive}
use medusa.Aggregate.{put_i64, extremum}
use medusa.GoMap
use medusa.Aggregate.Least.{IsExtremum}
use medusa.Aggregate.Extremum.{written, extremum-combine, extrema}
use medusa.Queue.{ok, queue_map, queue_seg_map, queue_op, queue_seg_key}
use medusa.Queue.Chain.{IsQueue}
use medusa.Queue.Fifo.{Op, offer, poll, peek, size, fifo, queue_op-fifo}
use medusa.Queue.Runs.{run, run_fifo, run-fifo, IsQueue-fresh}

abbrev jobs : Bytes
jobs = bytes_of "jobs"

abbrev work : List (Op × ℕ)
work =
    (offer (7 ∷ 8 ∷ []), 100)
    ∷ (offer (9 ∷ []), 90)
    ∷ (peek, 95)
    ∷ (poll, 110)
    ∷ (size, 120)
    ∷ (poll, 121)
    ∷ (poll, 122)
    ∷ []

abbrev no_entries : Shard
no_entries = []

nothing : (name key : Bytes) → find no_entries name key ≡ none
unfolding find GoMap.lookup
nothing name key = refl

run-fifo_example :
    run jobs work no_entries
    ≡ ok (put_uint64 1)
      ∷ ok (put_uint64 2)
      ∷ ok (1 ∷ 7 ∷ 8 ∷ [])
      ∷ ok (1 ∷ 7 ∷ 8 ∷ [])
      ∷ ok (put_uint64 1)
      ∷ ok (1 ∷ 9 ∷ [])
      ∷ ok (0 ∷ [])
      ∷ []
unfolding run_fifo fifo
run-fifo_example =
    run-fifo jobs work no_entries (nothing queue_map jobs)
      (λ i h. nothing queue_seg_map (queue_seg_key i jobs)) (omega arith)
      (omega arith, (omega arith, (tt, (tt, (tt, (tt, (tt, tt)))))))

abbrev start : Txn
start = record { shard = no_entries; muts = [] }

queue_op-fifo_example :
    ((queue_op jobs (bytes_of "queueoffer") (5 ∷ []) 0 start).0 ≡ ok (put_uint64 1))
    × IsQueue
        (queue_op jobs (bytes_of "queueoffer") (5 ∷ []) 0 start).1.shard
        jobs
        1
        ((5 ∷ []) ∷ [])
unfolding fifo
queue_op-fifo_example =
    queue_op-fifo jobs 0 start 0 [] (offer (5 ∷ []))
      (IsQueue-fresh jobs no_entries (nothing queue_map jobs)
        (λ i h. nothing queue_seg_map (queue_seg_key i jobs)))
      (omega arith) (omega arith)

abbrev alice : Bytes
alice = bytes_of "alice"

abbrev bob : Bytes
bob = bytes_of "bob"

abbrev held : Option Bytes
held = some (encode_lock 4 alice)

apart : (a b : Bytes) → same a b ≡ false → a ≢ b
apart a b h e = ground (arith, eq→same a b e)

alice-bob : alice ≢ bob
unfolding same
alice-bob = apart alice bob refl

held_lock : decode_lock (encode_lock 4 alice) ≡ (4, alice)
held_lock = decode_lock-encode_lock 4 alice (omega arith)

fence_held : fence_of held ≡ 4
fence_held = ap (λ (p : ℕ × Bytes). p.0) held_lock

holder_held : holder_of held ≡ alice
holder_held = ap (λ (p : ℕ × Bytes). p.1) held_lock

alice_named : alice ≢ []
unfolding same
alice_named = apart alice [] refl

bob_named : bob ≢ []
unfolding same
bob_named = apart bob [] refl

-- Alice takes the lock, bob is refused, alice takes it again and releases it, bob takes it.
abbrev handover : List LockOp
handover = acquire alice ∷ acquire bob ∷ acquire alice ∷ release alice ∷ acquire bob ∷ []

bob-believes : believes bob handover none false ≡ true
unfolding believes medusa.Processor.Exclusive.informed medusa.Processor.Lock.lock_op apply_proc
    lock_release_proc lock_acquire_proc encode_lock decode_lock same medusa.Bytes.uint64
    medusa.Bytes.put_be medusa.Bytes.be_from
bob-believes = refl

lock_exclusive_example : (bob ≡ bob) × (holder_of (lock_ops handover none) ≡ bob)
lock_exclusive_example = lock_exclusive handover bob bob bob-believes bob-believes

granted : (lock_op (acquire bob) (lock_ops (release alice ∷ []) held)).1 ≢ []
unfolding lock_ops medusa.Processor.Lock.lock_op apply_proc lock_release_proc lock_acquire_proc
    encode_lock decode_lock same medusa.Bytes.uint64 medusa.Bytes.put_be medusa.Bytes.be_from
granted = apart (put_uint64 5) [] refl

fence_increases_example :
    (token : ℕ) × (4 < token)
    × ((lock_op (acquire bob) (lock_ops (release alice ∷ []) held)).1 ≡ fence_bytes token)
    × (decode_lock (or_empty (lock_op (acquire bob) (lock_ops (release alice ∷ []) held)).0)
        ≡ (token, bob))
fence_increases_example =
    fence_increases 4 alice bob (release alice ∷ []) held alice_named bob_named
      (λ e. alice-bob (sym e)) (rw fence_held (omega arith)) holder_held fence_held granted

abbrev stored : Option Bytes
stored = some (1 ∷ [])

abbrev members : List (List Bytes)
members = (put_i64 5 ∷ put_i64 (2 ^ 64 - 3) ∷ []) ∷ [] ∷ (put_i64 9 ∷ []) ∷ []

extremum-combine_example :
    (extremum (extrema true members) true ≡ extremum (concat members) true)
    × ((o : Option ℕ) × (extremum (extrema true members) true ≡ written o)
        × IsExtremum true (concat members) o)
extremum-combine_example = extremum-combine true members (
  (put_uint64-bytes 5, (put_uint64-bytes (2 ^ 64 - 3), tt)),
  (tt, ((put_uint64-bytes 9, tt), tt)),
)
