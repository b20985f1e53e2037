-- ===== src/Queue.antt =====
-- imap/queue.go: the distributed queue. Its metadata and its segments are entries of two reserved
-- maps; one operation runs inside a critical section of `updateMulti`, the state of which is `Txn`.
pub mod Packed
pub mod Keys
pub mod Chain
pub mod Writes
pub mod Offer
pub mod Taking
pub mod Poll
pub mod Fifo
pub mod Runs
pub mod Isolation
pub mod Closed
use medusa.Base.{
  ℕ, zero, suc, ◌+◌, ◌-◌, ◌*◌, ◌%◌, ◌^◌, Option, none, some, [], ◌∷◌, ◌++◌, Bytes, Bool, bytes_of,
  same, if◌then◌else◌, ltb, leb, ◌==◌, not, ◌&&◌, ◌||◌, length, take, drop,
}
use medusa.Bytes.{put_uint32, put_uint64, uint32, uint64}
use medusa.Partition.{for_key}
use medusa.Txn
use medusa.Txn.{Txn}

abbrev pub queue_map : Bytes
queue_map = bytes_of "__queue"

abbrev pub queue_seg_map : Bytes
queue_seg_map = bytes_of "__queueseg"

abbrev pub max_seg_bytes : ℕ
max_seg_bytes = 64 * 1024

unfoldable pub is_reserved_map : Bytes → Bool
is_reserved_map name = same name queue_map || same name queue_seg_map

unfoldable pub routed_partition : Bytes → Bytes → ℕ
routed_partition name key =
    if same name queue_seg_map && leb 8 (length key) then for_key (drop 8 key) else for_key key

unfoldable pub queue_seg_key : ℕ → Bytes → Bytes
queue_seg_key seg_id name = put_uint64 seg_id ++ name

-- Head segment, tail segment, count.
unfoldable pub decode_queue_meta : Bytes → ℕ × ℕ × ℕ
unfolding uint64
decode_queue_meta b =
    if ltb (length b) 24 then (0, 0, 0) else (uint64 b, uint64 (drop 8 b), uint64 (drop 16 b))

unfoldable pub encode_queue_meta : ℕ → ℕ → ℕ → Bytes
encode_queue_meta head tail count = put_uint64 head ++ (put_uint64 tail ++ put_uint64 count)

-- The first packed item and the remainder. (`b[4 : 4+n]` is computed in uint32; it wraps only in a
-- value of 4 GiB, which `queueHead` is never given.)
unfoldable pub queue_head : Bytes → Option (Bytes × Bytes)
unfolding uint32
queue_head b =
    let n = uint32 b in
    if ltb (length b) 4
    then none
    else if ltb (length b) (4 + n)
    then none
    else some (take n (drop 4 b), drop (4 + n) b)

-- The loop takes at least four bytes a round, so the length of `b` is enough fuel.
queue_count_loop : ℕ → Bytes → ℕ → ℕ
unfolding queue_head
queue_count_loop zero b n = n
queue_count_loop (suc fuel) b n = elim (queue_head b) [
  | none ↦ n
  | some (item, rest) ↦ queue_count_loop fuel rest (n + 1)
]

unfoldable pub queue_count : Bytes → ℕ
unfolding queue_count_loop
queue_count b = queue_count_loop (length b) b 0

unfoldable pub append_packed : Bytes → Bytes → Bytes
append_packed seg item = seg ++ (put_uint32 (length item) ++ item)

-- A Go slice: nil reads as empty.
abbrev pub or_nil : Option Bytes → Bytes
or_nil none = []
or_nil (some b) = b

pub data QueueError : Type 0 where
  unknown_operation : Bytes → QueueError

pub data Result (A : Type 0) : Type 0 where
  ok : A → Result A
  err : QueueError → Result A

module _ (name : Bytes) (now : ℕ) (t : Txn) (head tail count : ℕ) where
  -- `case "queueoffer"`, from the segment that is to be appended to
  offer_into : ℕ → Bytes → Bytes → Bytes × Txn
  offer_into tail' seg arg =
      let t' = Txn.set t queue_seg_map (queue_seg_key tail' name) (append_packed seg arg) in
      let count' = (count + 1) % 2 ^ 64 in
      (put_uint64 count', Txn.set t' queue_map name (encode_queue_meta head tail' count'))

  unfoldable pub queue_offer : Bytes → Bytes × Txn
  unfolding offer_into
  queue_offer arg =
      let seg =
        if ltb 0 count
        then or_nil (Txn.get t queue_seg_map (queue_seg_key tail name) now)
        else [] in
      let tail' = (tail + 1) % 2 ^ 64 in
      if not (length seg == 0) && ltb max_seg_bytes (length seg + 4 + length arg)
      then offer_into tail' (or_nil (Txn.get t queue_seg_map (queue_seg_key tail' name) now)) arg
      else offer_into tail seg arg

  -- `case "queuepoll"`, from the item that was read
  poll_item : Bytes → Bytes → Bytes × Txn
  poll_item item rest =
      let sk = queue_seg_key head name in
      let count' = (count + 2 ^ 64 - 1) % 2 ^ 64 in
      let drained = length rest == 0 in
      let t' = if drained then Txn.del t queue_seg_map sk else Txn.set t queue_seg_map sk rest in
      let head' = if drained && ltb head tail then (head + 1) % 2 ^ 64 else head in
      (1 ∷ item, Txn.set t' queue_map name (encode_queue_meta head' tail count'))

  unfoldable pub queue_poll : Option Bytes → Bytes × Txn
  unfolding poll_item
  queue_poll none = (0 ∷ [], t)
  queue_poll (some mv) =
      if count == 0
      then (0 ∷ [], t)
      else elim (Txn.get t queue_seg_map (queue_seg_key head name) now) [
        | none ↦ (0 ∷ [], t)
        | some seg ↦ elim (queue_head seg) [
          | none ↦ (0 ∷ [], t)
          | some (item, rest) ↦ poll_item item rest
        ]
      ]

  unfoldable pub queue_peek : Option Bytes → Bytes × Txn
  queue_peek none = (0 ∷ [], t)
  queue_peek (some mv) =
      if count == 0
      then (0 ∷ [], t)
      else elim (Txn.get t queue_seg_map (queue_seg_key head name) now) [
        | none ↦ (0 ∷ [], t)
        | some seg ↦ elim (queue_head seg) [
          | none ↦ (0 ∷ [], t)
          | some (item, rest) ↦ (1 ∷ item, t)
        ]
      ]

-- `queueOp`
unfoldable pub queue_op : Bytes → Bytes → Bytes → ℕ → Txn → Result Bytes × Txn
unfolding same
queue_op name op arg now t =
    let mv = Txn.get t queue_map name now in
    let (head, tail, count) = decode_queue_meta (or_nil mv) in
    let done = λ (r : Bytes × Txn). let x : Result Bytes × Txn = (ok r.0, r.1) in x in
    if same op (bytes_of "queueoffer")
    then done (queue_offer name now t head tail count arg)
    else if same op (bytes_of "queuepoll")
    then done (queue_poll name now t head tail count mv)
    else if same op (bytes_of "queuepeek")
    then done (queue_peek name now t head tail count mv)
    else if same op (bytes_of "queuesize")
    then done (put_uint64 count, t)
    else (err (unknown_operation op), t)

-- `decodeI64`: the result is an int64 pattern.
unfoldable pub decode_i64 : Bytes → ℕ
unfolding uint64
decode_i64 b = if ltb (length b) 8 then 0 else uint64 b

unfoldable pub decode_queue_item : Bytes → Option Bytes
decode_queue_item [] = none
decode_queue_item (flag ∷ item) = if flag == 0 then none else some item
