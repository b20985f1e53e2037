-- ===== src/Queue/Fifo.antt =====
-- imap/queue.go: the four operations against an ideal queue, which is a list of items.
use medusa.Base.{
  concat, ℕ, ◌+◌, ◌^◌, ◌<◌, ◌≡◌, refl, ap, subst, ◌∙◌, ◌⊎◌, inl, inr, Option, some, List, [], ◌∷◌,
  ◌++◌, Bytes, bytes_of, arith, length,
}
use medusa.Bytes.{put_uint64}
use medusa.Shard.{Shard}
use medusa.Txn
use medusa.Txn.{Txn, lasting, get_of_lasting, get_of_none}
use medusa.Queue.{Result, ok, queue_map, queue_op, queue_poll, queue_peek}
use medusa.Queue.Packed.{Fits}
use medusa.Queue.Chain.{IsQueue, Chain, Chain-last}
use medusa.Queue.Offer.{queue_offer-IsQueue}
use medusa.Queue.Taking.{queue_poll-zero, queue_peek-zero}
use medusa.Queue.Poll.{read_meta, Taken, poll_filled, peek_filled}
use medusa.Queue.Offer.{length-concat_pos}

pub data Op : Type 0 where
  offer : Bytes → Op
  poll peek size : Op

abbrev pub op_name : Op → Bytes
op_name (offer x) = bytes_of "queueoffer"
op_name poll = bytes_of "queuepoll"
op_name peek = bytes_of "queuepeek"
op_name size = bytes_of "queuesize"

abbrev pub op_arg : Op → Bytes
op_arg (offer x) = x
op_arg _ = []

-- The ideal queue: the result on the wire, and the items afterwards.
unfoldable pub fifo : Op → List Bytes → Bytes × List Bytes
fifo (offer x) items = (put_uint64 (length items + 1), items ++ (x ∷ []))
fifo poll [] = (0 ∷ [], [])
fifo poll (x ∷ items) = (1 ∷ x, items)
fifo peek [] = (0 ∷ [], [])
fifo peek (x ∷ items) = (1 ∷ x, x ∷ items)
fifo size items = (put_uint64 (length items), items)

IsQueue-later :
    (sh : Shard) (name : Bytes) (used : ℕ) (items : List Bytes)
    → IsQueue sh name used items
    → IsQueue sh name (used + 1) items
IsQueue-later sh name used items q = record {
  head = q.head;
  tail = q.tail;
  meta = q.meta;
  tail_used = omega (arith, q.tail_used);
  count_used = omega (arith, q.count_used);
  fit = q.fit;
  beyond = q.beyond;
  body = q.body;
}

module _ (name : Bytes) (now : ℕ) (t : Txn) (used : ℕ) (items : List Bytes)
    (q : IsQueue t.shard name used items) (room : used + 1 < 2 ^ 64) where
  -- One operation of the code is one operation of the ideal queue.
  abbrev pub Refines : Op → Result Bytes × Txn → Type 0
  Refines o r = (r.0 ≡ ok (fifo o items).0) × IsQueue r.1.shard name (used + 1) (fifo o items).1

  abbrev run_op : Op → Result Bytes × Txn
  run_op o = queue_op name (op_name o) (op_arg o) now t

  offer-Refines : (x : Bytes) → Fits x → Refines (offer x) (run_op (offer x))
  unfolding queue_op fifo
  offer-Refines x f =
      let r = queue_offer-IsQueue t name q x now room f in
      rw (read_meta t name q room now) (ap ok r.0, r.1)

  size-Refines : Refines size (run_op size)
  unfolding queue_op fifo
  size-Refines = rw (read_meta t name q room now) (refl, IsQueue-later _ name used items q)

  -- What the metadata read as, when the queue has items.
  has_meta : 0 < length items → (mv : Bytes) × (Txn.get t queue_map name now ≡ some mv)
  has_meta pos = elim q.meta [
    | inl m ↦ (_, get_of_lasting t queue_map name now _ m)
    | inr (_, _, _, e) ↦ absurd (omega (arith, ap length e))
  ]

  filled_pos :
      (cs : List (List Bytes)) (c : List Bytes)
      → Chain t.shard name q.head (cs ++ (c ∷ []))
      → items ≡ concat (cs ++ (c ∷ []))
      → 0 < length items
  filled_pos cs c chain contents =
      rw contents (length-concat_pos cs c (Chain-last t.shard name q.head cs c chain).1)

  abbrev mv : Option Bytes
  mv = Txn.get t queue_map name now

  poll_result :
      ((items ≡ []) × (queue_poll name now t q.head q.tail (length items) mv ≡ (0 ∷ [], t)))
      ⊎ Taken t name q room (queue_poll name now t q.head q.tail (length items) mv)
  poll_result = elim q.body [
    | inl (e, _) ↦ inl (e, queue_poll-zero name now t _ _ _ mv (ap length e))
    | inr (cs, c, chain, extent, contents) ↦
        let (b, found) = has_meta (filled_pos cs c chain contents) in
        inr (rw found (poll_filled t name q room now b cs c chain extent contents))
  ]

  peek_result :
      ((items ≡ []) × (queue_peek name now t q.head q.tail (length items) mv ≡ (0 ∷ [], t)))
      ⊎ ((x : Bytes) × (xs : List Bytes) × (items ≡ x ∷ xs)
          × (queue_peek name now t q.head q.tail (length items) mv ≡ (1 ∷ x, t)))
  peek_result = elim q.body [
    | inl (e, _) ↦ inl (e, queue_peek-zero name now t _ _ _ mv (ap length e))
    | inr (cs, c, chain, extent, contents) ↦
        let (b, found) = has_meta (filled_pos cs c chain contents) in
        inr (rw found (peek_filled t name q room now b cs c chain contents))
  ]

  refine_by :
      (o : Op) (r : Bytes × Txn) (w : Bytes) (ys : List Bytes)
      → fifo o items ≡ (w, ys)
      → r.0 ≡ w
      → IsQueue r.1.shard name (used + 1) ys
      → Refines o (ok r.0, r.1)
  refine_by o r w ys f e rest = rw f (ap ok e, rest)

  later : IsQueue t.shard name (used + 1) items
  later = IsQueue-later t.shard name used items q

  poll-Refines : Refines poll (run_op poll)
  unfolding queue_op
  poll-Refines = rw (read_meta t name q room now) (elim poll_result [
    | inl (e, r) ↦ rw r (
        refine_by poll (0 ∷ [], t) (0 ∷ []) [] (ap (fifo poll) e ∙ unfold fifo in refl) refl
          (subst (IsQueue t.shard name (used + 1)) e later))
    | inr (x, xs, e, r, rest) ↦
        refine_by poll (queue_poll name now t q.head q.tail (length items) mv) (1 ∷ x) xs
          (ap (fifo poll) e ∙ unfold fifo in refl) r (IsQueue-later _ name used xs rest)
  ])

  peek-Refines : Refines peek (run_op peek)
  unfolding queue_op
  peek-Refines = rw (read_meta t name q room now) (elim peek_result [
    | inl (e, r) ↦ rw r (
        refine_by peek (0 ∷ [], t) (0 ∷ []) [] (ap (fifo peek) e ∙ unfold fifo in refl) refl
          (subst (IsQueue t.shard name (used + 1)) e later))
    | inr (x, xs, e, r) ↦ rw r (
        refine_by peek (1 ∷ x, t) (1 ∷ x) (x ∷ xs) (ap (fifo peek) e ∙ unfold fifo in refl) refl
          (subst (IsQueue t.shard name (used + 1)) e later))
  ])

-- The item of an offer has a length that fits its uint32 prefix.
abbrev pub OpFits : Op → Type 0
OpFits (offer x) = Fits x
OpFits _ = Unit

-- Refinement: on a shard that holds the queue `items`, each queue operation answers what the ideal
-- FIFO queue answers, and leaves a shard that holds what the ideal queue leaves; for every segment
-- layout, as long as fewer than 2 ^ 64 - 1 operations have gone before and an offered item is
-- shorter than 2 ^ 32 bytes.
pub queue_op-fifo :
    (name : Bytes) (now : ℕ) (t : Txn) (used : ℕ) (items : List Bytes) (o : Op)
    → IsQueue t.shard name used items
    → used + 1 < 2 ^ 64
    → OpFits o
    → ((queue_op name (op_name o) (op_arg o) now t).0 ≡ ok (fifo o items).0)
      × IsQueue
          (queue_op name (op_name o) (op_arg o) now t).1.shard
          name
          (used + 1)
          (fifo o items).1
queue_op-fifo name now t used items (offer x) q room f =
    offer-Refines name now t used items q room x f
queue_op-fifo name now t used items poll q room f = poll-Refines name now t used items q room
queue_op-fifo name now t used items peek q room f = peek-Refines name now t used items q room
queue_op-fifo name now t used items size q room f = size-Refines name now t used items q room
