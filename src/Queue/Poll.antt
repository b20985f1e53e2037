-- ===== src/Queue/Poll.antt =====
-- imap/queue.go: of a queue, `queuepoll` takes the first item, and `queuepeek` reads it.
use medusa.Base.{
  concat, ℕ, ◌+◌, ◌^◌, ◌<◌, ◌≤◌, ◌≡◌, refl, ap, subst, ◌∙◌, inl, inr, some, List, [], ◌∷◌, ◌++◌,
  Bytes, arith, length, length-append,
}
use medusa.Txn
use medusa.Txn.{Txn, lasting, get_of_lasting, get_of_none}
use medusa.Queue.{queue_map, queue_poll, queue_peek, or_nil, decode_queue_meta, encode_queue_meta}
use medusa.Queue.Packed.{packed, decode-encode_queue_meta}
use medusa.Queue.Chain.{Chain, Chain-keep, IsQueue}
use medusa.Queue.Taking.{poll_rest, poll_drain, peek_first}
use medusa.Queue.Writes.{
  write, erase, meta-write, seg-write, seg-write_ne, meta-erase, seg-erase_ne,
}

module _ (t : Txn) (name : Bytes) {used : ℕ} {items : List Bytes}
    (q : IsQueue t.shard name used items) (room : used + 1 < 2 ^ 64) where
  open q use {head, tail}

  head-le-tail : head ≤ tail
  head-le-tail = elim q.body [ inl (_, e) ↦ omega arith | inr (_, _, _, e, _) ↦ omega arith ]

  -- The metadata that an operation reads.
  pub read_meta :
      (now : ℕ)
      → decode_queue_meta (or_nil (Txn.get t queue_map name now)) ≡ (head, tail, length items)
  read_meta now = elim q.meta [
    | inl m ↦ rw (get_of_lasting t queue_map name now _ m) (
        decode-encode_queue_meta head tail (length items) (omega (arith, head-le-tail, q.tail_used))
          (omega (arith, q.tail_used)) (omega (arith, q.count_used)))
    | inr (m, h, e, n) ↦
        rw (get_of_none t queue_map name now m, h, e, n) (unfold decode_queue_meta in refl)
  ]

  bounds : (head ≤ tail) × (tail < 2 ^ 64)
  bounds = (head-le-tail, omega (arith, q.tail_used))

  -- The queue without its first item, after its segment was written back without it.
  IsQueue-rest :
      (y z : Bytes) (ys : List Bytes) (rest cs : List (List Bytes)) (c : List Bytes)
      → Chain t.shard name head ((y ∷ z ∷ ys) ∷ rest)
      → (z ∷ ys) ∷ rest ≡ cs ++ (c ∷ [])
      → head + length cs ≡ tail
      → items ≡ y ∷ z ∷ ys ++ concat rest
      → IsQueue
          (write t name head
            (encode_queue_meta head tail (length (z ∷ ys ++ concat rest)))
            (packed (z ∷ ys))).shard
          name
          used
          (z ∷ ys ++ concat rest)
  IsQueue-rest y z ys rest cs c (_, _, more) split extent contents = record {
    head = head;
    tail = tail;
    meta = inl (meta-write t name head _ (packed (z ∷ ys)));
    tail_used = q.tail_used;
    count_used = omega (arith, q.count_used, ap length contents);
    fit = (rw contents at q.fit).1;
    beyond = λ i after below.
        seg-write_ne t name head _ _ i (omega (arith, bounds)) below (omega (arith, bounds))
        ∙ q.beyond i after below;
    body = inr (
      cs,
      c,
      subst (Chain _ name head) split (
        seg-write t name head _ (packed (z ∷ ys)),
        (λ e. cc),
        Chain-keep t.shard _ name (head + 1) rest
            (λ i from to.
              seg-write_ne t name head _ _ i (omega (arith, bounds))
                (omega (arith, bounds, ap length split, length-append cs (c ∷ []))) (omega arith))
            more,
      ),
      extent,
      ap concat split,
    );
  }

  -- The queue without its first item, after its segment was deleted, if others follow.
  IsQueue-next :
      (y : Bytes) (cs : List (List Bytes)) (c : List Bytes)
      → Chain t.shard name head ((y ∷ []) ∷ (cs ++ (c ∷ [])))
      → head + 1 + length cs ≡ tail
      → items ≡ y ∷ concat (cs ++ (c ∷ []))
      → IsQueue
          (erase t name head
            (encode_queue_meta (head + 1) tail (length (concat (cs ++ (c ∷ [])))))).shard
          name
          used
          (concat (cs ++ (c ∷ [])))
  IsQueue-next y cs c (_, _, more) extent contents = record {
    head = head + 1;
    tail = tail;
    meta = inl (meta-erase t name head _);
    tail_used = q.tail_used;
    count_used = omega (arith, q.count_used, ap length contents);
    fit = (rw contents at q.fit).1;
    beyond = λ i after below.
        seg-erase_ne t name head _ i (omega (arith, bounds)) below (omega (arith, bounds))
        ∙ q.beyond i after below;
    body = inr (
      cs,
      c,
      Chain-keep t.shard _ name (head + 1) (cs ++ (c ∷ []))
          (λ i from to.
            seg-erase_ne t name head _ i (omega (arith, bounds))
              (omega (arith, bounds, length-append cs (c ∷ []))) (omega arith))
          more,
      extent,
      refl,
    );
  }

  -- The queue after its only item was taken.
  IsQueue-drained :
      head ≡ tail → IsQueue (erase t name head (encode_queue_meta head tail 0)).shard name used []
  IsQueue-drained e = record {
    head = head;
    tail = tail;
    meta = inl (meta-erase t name head _);
    tail_used = q.tail_used;
    count_used = omega arith;
    fit = tt;
    beyond = λ i after below.
        seg-erase_ne t name head _ i (omega (arith, bounds)) below (omega (arith, bounds))
        ∙ q.beyond i after below;
    body = inl (refl, e);
  }

  -- The first item goes, and the others stay.
  abbrev pub Taken : Bytes × Txn → Type 0
  Taken r =
      (x : Bytes) × (xs : List Bytes) × (items ≡ x ∷ xs)
      × (r.0 ≡ 1 ∷ x)
      × IsQueue r.1.shard name used xs

  module _ (now : ℕ) (mv : Bytes) where
    abbrev pub polled : Bytes × Txn
    polled = queue_poll name now t head tail (length items) (some mv)

    -- the premises of `poll_rest` and `poll_drain`
    small : length items < 2 ^ 64
    small = omega (arith, q.count_used)

    Taken-by :
        (x : Bytes) (xs : List Bytes) (t' : Txn)
        → items ≡ x ∷ xs
        → polled ≡ (1 ∷ x, t')
        → IsQueue t'.shard name used xs
        → Taken polled
    Taken-by x xs t' e p r = (x, xs, e, rw p refl, rw p r)

    poll_more :
        (y z : Bytes) (ys : List Bytes) (rest cs : List (List Bytes)) (c : List Bytes)
        → Chain t.shard name head ((y ∷ z ∷ ys) ∷ rest)
        → (z ∷ ys) ∷ rest ≡ cs ++ (c ∷ [])
        → head + length cs ≡ tail
        → items ≡ y ∷ z ∷ ys ++ concat rest
        → Taken polled
    poll_more y z ys rest cs c chain split extent contents =
        Taken-by y (z ∷ ys ++ concat rest) _ contents
          (poll_rest t name head tail _ y (z ∷ ys) now mv _ (ap length contents) small
            (rw contents at q.fit).0 chain.0 (λ e. cc))
          (IsQueue-rest y z ys rest cs c chain split extent contents)

    pub poll_filled :
        (cs : List (List Bytes)) (c : List Bytes)
        → Chain t.shard name head (cs ++ (c ∷ []))
        → head + length cs ≡ tail
        → items ≡ concat (cs ++ (c ∷ []))
        → Taken polled
    poll_filled [] [] (_, ne, _) extent contents = absurd (ne refl)
    poll_filled [] (y ∷ []) (here, _, _) extent contents =
        Taken-by y [] _ contents
          (poll_drain t name head tail _ y [] now mv 0 (ap length contents) small
            (rw contents at q.fit).0 here head refl bounds.1 (inr (omega arith, refl)))
          (IsQueue-drained (omega arith))
    poll_filled [] (y ∷ z ∷ ys) chain extent contents =
        poll_more y z ys [] [] (z ∷ ys) chain refl extent contents
    poll_filled ([] ∷ cs) c (_, ne, _) extent contents = absurd (ne refl)
    poll_filled ((y ∷ []) ∷ cs) c chain extent contents =
        Taken-by y (concat (cs ++ (c ∷ []))) _ contents
          (poll_drain t name head tail _ y [] now mv _ (ap length contents) small
            (rw contents at q.fit).0 chain.0 (head + 1) refl bounds.1 (inl (omega arith, refl)))
          (IsQueue-next y cs c chain (omega arith) contents)
    poll_filled ((y ∷ z ∷ ys) ∷ cs) c chain extent contents =
        poll_more y z ys (cs ++ (c ∷ [])) ((z ∷ ys) ∷ cs) c chain refl extent contents

    pub peek_filled :
        (cs : List (List Bytes)) (c : List Bytes)
        → Chain t.shard name head (cs ++ (c ∷ []))
        → items ≡ concat (cs ++ (c ∷ []))
        → (x : Bytes) × (xs : List Bytes) × (items ≡ x ∷ xs)
          × (queue_peek name now t head tail (length items) (some mv) ≡ (1 ∷ x, t))
    peek_filled [] [] (_, ne, _) contents = absurd (ne refl)
    peek_filled [] (y ∷ ys) (here, _, _) contents = (
      y,
      _,
      contents,
      peek_first t name head tail _ y ys now mv _ (ap length contents) small
          (rw contents at q.fit).0 here,
    )
    peek_filled ([] ∷ cs) c (_, ne, _) contents = absurd (ne refl)
    peek_filled ((y ∷ ys) ∷ cs) c chain contents = (
      y,
      _,
      contents,
      peek_first t name head tail _ y ys now mv _ (ap length contents) small
          (rw contents at q.fit).0 chain.0,
    )
