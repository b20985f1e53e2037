-- ===== src/Frame/RoundTrip.antt =====
-- transport/frame.go: what was framed is read back, and a frame cut short is not read as a frame.
use medusa.Base.{
  ℕ, ◌+◌, ◌-◌, ltb→lt, ltb_false→le, ◌%◌, ◌<◌, ◌≤◌, ◌≡◌, refl, ap, sym, ◌∙◌, [], ◌∷◌, ◌++◌, Bytes,
  true, false, arith, length, take, length-append, length-take, ltb, append_assoc, inl, inr,
  Bool-cases,
}
use medusa.Bytes.{put_uint32, uint32, uint32-put_uint32}
use medusa.Frame.Reading.{
  record_header, read_full-append, read_full-short, take-past, is_failed, length-record_header,
  frame_type-record_header,
}
use medusa.Frame.{
  Read, got, failed, read_full, read_payload, read_frame, write_frame, max_frame_size, header_size,
}

abbrev header : ℕ → Bytes → Bytes
header t payload = record_header (t % 256) payload

split_frame :
    (t : ℕ) (payload rest : Bytes)
    → write_frame t payload ++ rest ≡ header t payload ++ (payload ++ rest)
unfolding write_frame
split_frame t payload rest =
    append_assoc (put_uint32 (length payload)) (t % 256 ∷ payload) rest
    ∙ sym (append_assoc (put_uint32 (length payload)) (t % 256 ∷ []) (payload ++ rest))

-- What `readFrame` does with the header, and with the payload.
abbrev after_header : Read (Bytes × Bytes) → Read (ℕ × Bytes × Bytes)
after_header (failed e) = failed e
after_header (got r) = read_payload r.0 r.1

abbrev after_payload : ℕ → Read (Bytes × Bytes) → Read (ℕ × Bytes × Bytes)
after_payload t (failed e) = failed e
after_payload t (got r) = got (t, r.0, r.1)

read_frame-after_header :
    (stream : Bytes) → read_frame stream ≡ after_header (read_full header_size stream)
unfolding read_frame
read_frame-after_header stream = refl

read_payload-header :
    (t : ℕ) (payload stream : Bytes)
    → length payload ≤ max_frame_size
    → read_payload (header t payload) stream
      ≡ after_payload (t % 256) (read_full (length payload) stream)
unfolding read_payload
read_payload-header t payload stream h =
    let size : uint32 (header t payload) ≡ length payload =
      uint32-put_uint32 (length payload) (t % 256 ∷ []) (omega arith) in
    let fits : ltb max_frame_size (length payload) ≡ false = ground arith in
    rw (size, fits)
      (ap (λ (b : ℕ). after_payload b (read_full (length payload) stream))
        (frame_type-record_header (t % 256) payload))

-- `readFrame` returns the type, the payload and the untouched rest of what `writeFrame` wrote, for
-- a type of one byte and a payload within the limit.
pub read_frame-write_frame :
    (t : ℕ) (payload rest : Bytes)
    → t < 256
    → length payload ≤ max_frame_size
    → read_frame (write_frame t payload ++ rest) ≡ got (t, payload, rest)
read_frame-write_frame t payload rest ht hp =
    let byte : t % 256 ≡ t = omega arith in
    ap read_frame (split_frame t payload rest)
    ∙ read_frame-after_header (header t payload ++ (payload ++ rest))
    ∙ ap after_header (
        read_full-append header_size (header t payload) (payload ++ rest)
          (length-record_header (t % 256) payload))
    ∙ read_payload-header t payload (payload ++ rest) hp
    ∙ ap (after_payload (t % 256)) (read_full-append (length payload) payload rest refl)
    ∙ ap (λ (b : ℕ). got (b, payload, rest)) byte

is_failed-after_header :
    (r : Read (Bytes × Bytes)) → is_failed r ≡ true → is_failed (after_header r) ≡ true
is_failed-after_header (failed e) h = refl
is_failed-after_header (got r) h = cc

is_failed-after_payload :
    (t : ℕ) (r : Read (Bytes × Bytes)) → is_failed r ≡ true → is_failed (after_payload t r) ≡ true
is_failed-after_payload t (failed e) h = refl
is_failed-after_payload t (got r) h = cc

torn_header : (k : ℕ) (s : Bytes) → k < 5 → is_failed (read_frame (take k s)) ≡ true
torn_header k s h =
    ap is_failed (read_frame-after_header (take k s))
    ∙ is_failed-after_header (read_full header_size (take k s))
        (read_full-short header_size (take k s) (omega (arith, length-take k s)))

whole_frame : (t : ℕ) (payload : Bytes) → write_frame t payload ≡ header t payload ++ payload
unfolding write_frame
whole_frame t payload = sym (append_assoc (put_uint32 (length payload)) (t % 256 ∷ []) payload)

length-write_frame : (t : ℕ) (payload : Bytes) → length (write_frame t payload) ≡ 5 + length payload
length-write_frame t payload =
    ap length (whole_frame t payload)
    ∙ length-append (header t payload) payload
    ∙ omega (arith, length-record_header (t % 256) payload)

torn_payload :
    (t : ℕ) (payload : Bytes) (j : ℕ)
    → length payload ≤ max_frame_size
    → j < length payload
    → is_failed (read_frame (take (length (header t payload) + j) (write_frame t payload))) ≡ true
torn_payload t payload j hp hj =
    let cut = take j payload in
    ap (λ (s : Bytes). is_failed (read_frame (take (length (header t payload) + j) s)))
      (whole_frame t payload)
    ∙ ap (λ (s : Bytes). is_failed (read_frame s)) (take-past (header t payload) payload j)
    ∙ ap is_failed (
        read_frame-after_header (header t payload ++ cut)
        ∙ ap after_header (
            read_full-append header_size (header t payload) cut
              (length-record_header (t % 256) payload))
        ∙ read_payload-header t payload cut hp)
    ∙ is_failed-after_payload (t % 256) (read_full (length payload) cut)
        (read_full-short (length payload) cut (omega (arith, length-take j payload)))

-- A frame that is cut anywhere before its end is an error, whatever its type and its payload (within
-- the limit).
pub read_frame-torn :
    (t : ℕ) (payload : Bytes) (k : ℕ)
    → length payload ≤ max_frame_size
    → k < length (write_frame t payload)
    → is_failed (read_frame (take k (write_frame t payload))) ≡ true
read_frame-torn t payload k hp hk = elim (Bool-cases (ltb k 5)) [
  | inl e ↦ torn_header k (write_frame t payload) (ltb→lt k 5 e)
  | inr e ↦
      let from : 5 ≤ k = ltb_false→le k 5 e in
      let cut : length (header t payload) + (k - 5) ≡ k =
        omega (arith, length-record_header (t % 256) payload) in
      ap (λ (n : ℕ). is_failed (read_frame (take n (write_frame t payload)))) (sym cut)
      ∙ torn_payload t payload (k - 5) hp (omega (arith, length-write_frame t payload))
]
