-- ===== src/Queue/Offer.antt =====
-- imap/queue.go: `queueoffer` appends one item, in a new segment or in the last one.
use medusa.Base.{
  concat, ℕ, ◌+◌, ◌%◌, ◌^◌, ◌<◌, ◌≤◌, ◌≡◌, ◌≢◌, refl, sym, ◌∙◌, inl, inr, none, some, List, [], ◌∷◌,
  ◌++◌, Bytes, true, false, arith, length, length-append, append_assoc, append-nil, Bool-cases, ltb,
}
use medusa.Bytes.{put_uint64}
use medusa.Shard.{find}
use medusa.Txn.{Txn, lasting, get_of_lasting, get_of_none}
use medusa.Queue.{
  queue_seg_map, queue_seg_key, queue_offer, append_packed, encode_queue_meta, max_seg_bytes,
}
use medusa.Queue.Packed.{packed, Fits, packed-append, length-packed_ne}
use medusa.Queue.Chain.{Chain, AllFit, Chain-keep, Chain-last, Chain-snoc, Chain-init, IsQueue}
use medusa.Queue.Writes.{write, meta-write, seg-write, seg-write_ne}

pub AllFit-append : (xs : List Bytes) (x : Bytes) → AllFit xs → Fits x → AllFit (xs ++ (x ∷ []))
AllFit-append [] x h f = (f, tt)
AllFit-append (y ∷ xs) x (hy, h) f = (hy, AllFit-append xs x h f)

pub concat-snoc :
    (cs : List (List Bytes)) (c : List Bytes) → concat (cs ++ (c ∷ [])) ≡ concat cs ++ c
concat-snoc [] c = append-nil c
concat-snoc (d ∷ cs) c = rw (concat-snoc cs c) (sym (append_assoc d (concat cs) c))

append_one-ne : {A : Type 0} (xs : List A) (x : A) → xs ++ (x ∷ []) ≢ []
append_one-ne [] x e = cc
append_one-ne (y ∷ xs) x e = cc

pub length-concat_pos :
    (cs : List (List Bytes)) (c : List Bytes) → c ≢ [] → 0 < length (concat (cs ++ (c ∷ [])))
length-concat_pos cs [] ne = absurd (ne refl)
length-concat_pos cs (x ∷ c) ne = rw concat-snoc (omega (arith, length-append (concat cs) (x ∷ c)))

module _ (t : Txn) (name : Bytes) {used : ℕ} {items : List Bytes}
    (q : IsQueue t.shard name used items) (arg : Bytes) (now : ℕ) (room : used + 1 < 2 ^ 64)
    (f : Fits arg) where
  open q use {head, tail}

  meta_bytes : Bytes
  meta_bytes = encode_queue_meta head tail (length (items ++ (arg ∷ [])))

  count-snoc : length (items ++ (arg ∷ [])) ≡ length items + 1
  count-snoc = length-append items (arg ∷ [])

  -- The queue after a write of its tail segment.
  IsQueue-write :
      (tail' : ℕ) (b : Bytes) (cs : List (List Bytes)) (c : List Bytes)
      → tail ≤ tail'
      → tail' ≤ used + 1
      → b ≡ packed c
      → c ≢ []
      → Chain t.shard name head cs
      → head + length cs ≡ tail'
      → items ++ (arg ∷ []) ≡ concat cs ++ c
      → IsQueue
          (write t name tail' (encode_queue_meta head tail' (length items + 1)) b).shard
          name
          (used + 1)
          (items ++ (arg ∷ []))
  IsQueue-write tail' b cs c lo hi eb ne chain extent contents = record {
    head = head;
    tail = tail';
    meta = inl (rw count-snoc (meta-write t name tail' _ b));
    tail_used = hi;
    count_used = omega (arith, count-snoc, q.count_used);
    fit = AllFit-append items arg q.fit f;
    beyond = λ i after below.
        seg-write_ne t name tail' _ b i (omega arith) below (omega arith)
        ∙ q.beyond i (omega arith) below;
    body = inr (
      cs,
      c,
      Chain-snoc _ name head cs c
          (Chain-keep t.shard _ name head cs
            (λ i from to. seg-write_ne t name tail' _ b i (omega arith) (omega arith) (omega arith))
            chain)
          (rw (extent, eb) (seg-write t name tail' _ (packed c))) ne,
      extent,
      contents ∙ sym (concat-snoc cs c),
    );
  }

  count_fits : (length items + 1) % 2 ^ 64 ≡ length items + 1
  count_fits = omega (arith, q.count_used)

  tail_fits : (tail + 1) % 2 ^ 64 ≡ tail + 1
  tail_fits = omega (arith, q.tail_used)

  -- What one call of `queue_offer` comes to, by the state of the last segment.
  offer_drained :
      items ≡ []
      → queue_offer name now t head tail (length items) arg ≡ (
        put_uint64 (length items + 1),
        write t name tail (encode_queue_meta head tail (length items + 1)) (append_packed [] arg),
      )
  unfolding queue_offer
  offer_drained e = rw count_fits (rw e refl)

  offer_same :
      (b : Bytes)
      → 0 < length items
      → find t.shard queue_seg_map (queue_seg_key tail name) ≡ some (lasting b)
      → ltb max_seg_bytes (length b + 4 + length arg) ≡ false
      → queue_offer name now t head tail (length items) arg ≡ (
        put_uint64 (length items + 1),
        write t name tail (encode_queue_meta head tail (length items + 1)) (append_packed b arg),
      )
  unfolding queue_offer
  offer_same b pos here small =
      ground
        (arith, get_of_lasting t queue_seg_map (queue_seg_key tail name) now b here, count_fits)

  offer_roll :
      (b : Bytes)
      → 0 < length items
      → 4 ≤ length b
      → find t.shard queue_seg_map (queue_seg_key tail name) ≡ some (lasting b)
      → ltb max_seg_bytes (length b + 4 + length arg) ≡ true
      → queue_offer name now t head tail (length items) arg ≡ (
        put_uint64 (length items + 1),
        write t name
            (tail + 1)
            (encode_queue_meta head (tail + 1) (length items + 1))
            (append_packed [] arg),
      )
  unfolding queue_offer
  offer_roll b pos big here full =
      rw (tail_fits, count_fits)
        (ground (
          arith,
          get_of_lasting t queue_seg_map (queue_seg_key tail name) now b here,
          get_of_none t queue_seg_map (queue_seg_key (tail + 1) name) now fresh,
        ))
    where
      fresh : find t.shard queue_seg_map (queue_seg_key (tail + 1) name) ≡ none
      fresh = q.beyond (tail + 1) (omega arith) (omega (arith, q.tail_used))

  Offered : Bytes × Txn → Type 0
  Offered r =
      (r.0 ≡ put_uint64 (length items + 1))
      × IsQueue r.1.shard name (used + 1) (items ++ (arg ∷ []))

  offer_filled :
      (cs : List (List Bytes)) (c : List Bytes)
      → Chain t.shard name head (cs ++ (c ∷ []))
      → head + length cs ≡ tail
      → items ≡ concat (cs ++ (c ∷ []))
      → Offered (queue_offer name now t head tail (length items) arg)
  unfolding Offered
  offer_filled cs c chain extent contents =
      let (seg, ne) = Chain-last t.shard name head cs c chain in
      let here : find t.shard queue_seg_map (queue_seg_key tail name) ≡ some (lasting (packed c)) =
        rw extent at seg in
      let pos : 0 < length items = rw contents (length-concat_pos cs c ne) in
      elim (Bool-cases (ltb max_seg_bytes (length (packed c) + 4 + length arg))) [
        | inl full ↦ rw (offer_roll (packed c) pos (length-packed_ne c ne) here full) (
          refl,
          IsQueue-write (tail + 1) _ (cs ++ (c ∷ [])) (arg ∷ []) (omega arith)
              (omega (arith, q.tail_used)) (sym (packed-append [] arg)) (append_one-ne [] arg) chain
              (omega (arith, length-append cs (c ∷ []))) (rw contents refl),
        )
        | inr small ↦ rw (offer_same (packed c) pos here small) (
          refl,
          IsQueue-write tail _ cs (c ++ (arg ∷ [])) (omega arith) (omega (arith, q.tail_used))
              (sym (packed-append c arg)) (append_one-ne c arg)
              (Chain-init t.shard name head cs c chain) extent
              (rw (contents, concat-snoc) (append_assoc (concat cs) c (arg ∷ []))),
        )
      ]

  -- `queue_offer` returns the new size, and the item is the last of the queue.
  pub queue_offer-IsQueue :
      ((queue_offer name now t head tail (length items) arg).0 ≡ put_uint64 (length items + 1))
      × IsQueue
          (queue_offer name now t head tail (length items) arg).1.shard
          name
          (used + 1)
          (items ++ (arg ∷ []))
  unfolding Offered
  queue_offer-IsQueue = elim q.body [
    | inl (e, same_end) ↦ rw (offer_drained e) (
      refl,
      IsQueue-write tail _ [] (arg ∷ []) (omega arith) (omega (arith, q.tail_used))
          (sym (packed-append [] arg)) (append_one-ne [] arg) tt (omega arith) (rw e refl),
    )
    | inr (cs, c, chain, extent, contents) ↦ offer_filled cs c chain extent contents
  ]
