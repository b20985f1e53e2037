-- ===== src/Queue/Packed.antt =====
-- imap/queue.go: packed streams of items, and what `queueHead`, `appendPacked` and the metadata
-- codec do on them.
use medusa.Base.{
  ℕ, ◌+◌, ◌^◌, ◌<◌, ◌≤◌, ◌≡◌, ◌≢◌, refl, ◌∙◌, none, some, List, [], ◌∷◌, ◌++◌, Bytes, arith, length,
  take, drop, length-append, take-append, drop-append, append_assoc, drop-add, append-nil,
}
use medusa.Bytes.{
  put_uint32, put_uint64, uint32, uint32-put_uint32, uint64-put_uint64, length-put_be, drop-put_be,
}
use medusa.Queue.{queue_head, append_packed, decode_queue_meta, encode_queue_meta}

-- The stream that holds the items, in order.
abbrev pub packed : List Bytes → Bytes
packed [] = []
packed (x ∷ xs) = put_uint32 (length x) ++ (x ++ packed xs)

-- An item whose length fits the uint32 in front of it.
abbrev pub Fits : Bytes → Type 0
Fits x = length x < 2 ^ 32

pub packed-append :
    (xs : List Bytes) (x : Bytes) → packed (xs ++ (x ∷ [])) ≡ append_packed (packed xs) x
unfolding append_packed
packed-append [] x = rw append-nil
packed-append (y ∷ ys) x = simp (packed-append ys x, append_assoc)

length-packed_pos : (x : Bytes) (xs : List Bytes) → 4 ≤ length (packed (x ∷ xs))
length-packed_pos x xs =
    omega
      (arith, length-append (put_uint32 (length x)) (x ++ packed xs), length-put_be 4 (length x))

pub length-packed_ne : (c : List Bytes) → c ≢ [] → 4 ≤ length (packed c)
length-packed_ne [] ne = absurd (ne refl)
length-packed_ne (x ∷ c) ne = length-packed_pos x c

-- `queueHead` on a value that begins with the length and the bytes of an item.
queue_head-item :
    (b item rest : Bytes)
    → uint32 b ≡ length item
    → 4 + length item ≤ length b
    → take (length item) (drop 4 b) ≡ item
    → drop (4 + length item) b ≡ rest
    → queue_head b ≡ some (item, rest)
unfolding queue_head
queue_head-item b item rest u l i r = rw u (ground arith)

-- `queueHead` on packed items returns the first item and the other items, still packed, when the
-- first item is shorter than 2 ^ 32 bytes.
pub queue_head-packed :
    (x : Bytes) (xs : List Bytes) → Fits x → queue_head (packed (x ∷ xs)) ≡ some (x, packed xs)
unfolding queue_head
queue_head-packed x xs h =
    queue_head-item (packed (x ∷ xs)) x (packed xs) (uint32-put_uint32 (length x) _ h)
      (omega (
        arith,
        length-append (put_uint32 (length x)) (x ++ packed xs),
        length-append x (packed xs),
        length-put_be 4 (length x),
      ))
      (rw drop-put_be (take-append (length x) x (packed xs) refl))
      (drop-add 4 (length x) (packed (x ∷ xs))
        ∙ rw drop-put_be (drop-append (length x) x (packed xs) refl))

pub queue_head-nil : queue_head [] ≡ none
unfolding queue_head
queue_head-nil = refl

-- `decodeQueueMeta` returns what `encodeQueueMeta` wrote, for a head, a tail and a count below 2 ^ 64.
pub decode-encode_queue_meta :
    (head tail count : ℕ)
    → head < 2 ^ 64
    → tail < 2 ^ 64
    → count < 2 ^ 64
    → decode_queue_meta (encode_queue_meta head tail count) ≡ (head, tail, count)
unfolding decode_queue_meta encode_queue_meta
decode-encode_queue_meta head tail count h t c =
    let second : drop 8 (encode_queue_meta head tail count) ≡ put_uint64 tail ++ put_uint64 count =
      drop-put_be 8 head _ in
    let third : drop 16 (encode_queue_meta head tail count) ≡ put_uint64 count ++ [] =
      drop-add 8 8 (encode_queue_meta head tail count)
      ∙ rw second (rw append-nil (drop-put_be 8 tail (put_uint64 count))) in
    let whole : length (encode_queue_meta head tail count) ≡ 24 =
      rw (length-append, length-append)
        (omega (arith, length-put_be 8 head, length-put_be 8 tail, length-put_be 8 count)) in
    ground (
      arith,
      whole,
      second,
      third,
      uint64-put_uint64 head (put_uint64 tail ++ put_uint64 count) h,
      uint64-put_uint64 tail (put_uint64 count) t,
      uint64-put_uint64 count [] c,
    )
