-- ===== src/Queue/Taking.antt =====
-- imap/queue.go: what `queuepoll` and `queuepeek` do to the entries that they read.
use medusa.Base.{
  ℕ, suc, ◌+◌, ◌-◌, ◌%◌, ◌^◌, ◌<◌, ◌≤◌, ◌≡◌, ◌≢◌, refl, ap, ◌⊎◌, Option, none, some, List, [], ◌∷◌,
  Bytes, arith,
}
use medusa.Shard.{find}
use medusa.Txn.{Txn, lasting, get_of_lasting}
use medusa.Queue.{queue_seg_map, queue_seg_key, queue_poll, queue_peek, encode_queue_meta}
use medusa.Queue.Packed.{packed, Fits, length-packed_ne, queue_head-packed}
use medusa.Queue.Writes.{write, erase}

module _ (t : Txn) (name : Bytes) (head tail count : ℕ) (y : Bytes) (ys : List Bytes) (now : ℕ)
    (mv : Bytes) (n : ℕ) (one_more : count ≡ suc n) (small : count < 2 ^ 64) (f : Fits y)
    (here : find t.shard queue_seg_map (queue_seg_key head name)
      ≡ some (lasting (packed (y ∷ ys)))) where
  count_down : (count + 2 ^ 64 - 1) % 2 ^ 64 ≡ n
  count_down = omega arith

  pub poll_rest :
      ys ≢ []
      → queue_poll name now t head tail count (some mv)
        ≡ (1 ∷ y, write t name head (encode_queue_meta head tail n) (packed ys))
  unfolding queue_poll
  poll_rest ne = ground (
    arith,
    get_of_lasting t queue_seg_map (queue_seg_key head name) now (packed (y ∷ ys)) here,
    queue_head-packed y ys f,
    count_down,
    length-packed_ne ys ne,
  )

  pub poll_drain :
      (head' : ℕ)
      → ys ≡ []
      → tail < 2 ^ 64
      → ((head < tail) × (head' ≡ head + 1)) ⊎ ((tail ≤ head) × (head' ≡ head))
      → queue_poll name now t head tail count (some mv)
        ≡ (1 ∷ y, erase t name head (encode_queue_meta head' tail n))
  unfolding queue_poll
  poll_drain head' e bound next = ground (
    arith,
    get_of_lasting t queue_seg_map (queue_seg_key head name) now (packed (y ∷ ys)) here,
    queue_head-packed y ys f,
    count_down,
    ap packed e,
  )

  pub peek_first : queue_peek name now t head tail count (some mv) ≡ (1 ∷ y, t)
  unfolding queue_peek
  peek_first = ground (
    arith,
    get_of_lasting t queue_seg_map (queue_seg_key head name) now (packed (y ∷ ys)) here,
    queue_head-packed y ys f,
  )

-- Nothing is taken from, or read of, a queue with no item.
pub queue_poll-zero :
    (name : Bytes) (now : ℕ) (t : Txn) (head tail count : ℕ) (mv : Option Bytes)
    → count ≡ 0
    → queue_poll name now t head tail count mv ≡ (0 ∷ [], t)
unfolding queue_poll
queue_poll-zero name now t head tail count none e = refl
queue_poll-zero name now t head tail count (some mv) e = rw e

pub queue_peek-zero :
    (name : Bytes) (now : ℕ) (t : Txn) (head tail count : ℕ) (mv : Option Bytes)
    → count ≡ 0
    → queue_peek name now t head tail count mv ≡ (0 ∷ [], t)
unfolding queue_peek
queue_peek-zero name now t head tail count none e = refl
queue_peek-zero name now t head tail count (some mv) e = rw e
