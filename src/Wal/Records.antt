-- ===== src/Wal/Records.antt =====
-- imap/wal.go: reading one record from a file.
use medusa.Base.{
  ℕ, ◌+◌, ◌-◌, ◌<◌, ◌≤◌, ◌≡◌, refl, ap, subst, ◌==◌, sym, ◌∙◌, [], ◌∷◌, ◌++◌, Bytes, true, false,
  arith, length, take, drop, length-drop, length-append, length-take, append_assoc, Option, none,
  some, inl, inr, Bool-cases, ltb, leb, ltb→lt, ltb_false→le,
}
use medusa.Bytes.{put_uint32, uint32, uint32-put_uint32}
use medusa.Frame.{Read, got, failed, read_full, frame_type}
use medusa.Frame.Reading.{
  record_header, read_full-append, read_full-short, take-past, is_failed, length-record_header,
  frame_type-record_header,
}
use medusa.Scan.{Entry}
use medusa.Wal.{Codec, max_wal_record, record_bytes, read_body, next_record}

split_record :
    (op : ℕ) (payload rest : Bytes)
    → record_bytes op payload ++ rest ≡ record_header op payload ++ (payload ++ rest)
unfolding record_bytes
split_record op payload rest =
    append_assoc (put_uint32 (length payload)) (op ∷ payload) rest
    ∙ sym (append_assoc (put_uint32 (length payload)) (op ∷ []) (payload ++ rest))

module _ (c : Codec) where
  abbrev after_header : Read (Bytes × Bytes) → Option (ℕ × Entry × ℕ × Bytes)
  after_header (failed e) = none
  after_header (got r) = read_body c (frame_type r.0) (uint32 r.0) r.1

  abbrev after_entry : ℕ → ℕ → Bytes → Option Entry → Option (ℕ × Entry × ℕ × Bytes)
  after_entry op n rest none = none
  after_entry op n rest (some e) = some (op, e, 5 + n, rest)

  abbrev after_payload : ℕ → ℕ → Read (Bytes × Bytes) → Option (ℕ × Entry × ℕ × Bytes)
  after_payload op n (failed e) = none
  after_payload op n (got r) = after_entry op n r.1 (c.unmarshal r.0)

  next_record-after_header : (file : Bytes) → next_record c file ≡ after_header (read_full 5 file)
  unfolding next_record
  next_record-after_header file = refl

  read_body-after_payload :
      (op n : ℕ) (rest : Bytes)
      → n ≤ max_wal_record
      → read_body c op n rest ≡ after_payload op n (read_full n rest)
  unfolding read_body
  read_body-after_payload op n rest h =
      let fits : ltb max_wal_record n ≡ false = ground arith in rw fits refl

  read_header :
      (op : ℕ) (payload rest : Bytes)
      → length payload ≤ max_wal_record
      → after_header (got (record_header op payload, rest))
        ≡ after_payload op (length payload) (read_full (length payload) rest)
  read_header op payload rest h =
      let size : uint32 (record_header op payload) ≡ length payload =
        uint32-put_uint32 (length payload) (op ∷ []) (omega arith) in
      ap (λ (b : ℕ). read_body c b (uint32 (record_header op payload)) rest)
        (frame_type-record_header op payload)
      ∙ ap (λ (n : ℕ). read_body c op n rest) size
      ∙ read_body-after_payload op (length payload) rest h

  -- An intact record is read, with what follows it.
  pub next_record-record_bytes :
      (op : ℕ) (e : Entry) (payload rest : Bytes)
      → c.marshal e ≡ some payload
      → length payload ≤ max_wal_record
      → next_record c (record_bytes op payload ++ rest) ≡ some (op, e, 5 + length payload, rest)
  next_record-record_bytes op e payload rest m h =
      ap (next_record c) (split_record op payload rest)
      ∙ next_record-after_header (record_header op payload ++ (payload ++ rest))
      ∙ ap after_header (
          read_full-append 5 (record_header op payload) (payload ++ rest)
            (length-record_header op payload))
      ∙ read_header op payload (payload ++ rest) h
      ∙ ap (after_payload op (length payload)) (read_full-append (length payload) payload rest refl)
      ∙ ap (after_entry op (length payload) rest) (c.unmarshal_marshal e payload m)

  none-after_header : (r : Read (Bytes × Bytes)) → is_failed r ≡ true → after_header r ≡ none
  none-after_header (failed e) h = refl
  none-after_header (got r) h = cc

  none-after_payload :
      (op n : ℕ) (r : Read (Bytes × Bytes)) → is_failed r ≡ true → after_payload op n r ≡ none
  none-after_payload op n (failed e) h = refl
  none-after_payload op n (got r) h = cc

  -- Fewer than five bytes are no record.
  pub next_record-short : (file : Bytes) → length file < 5 → next_record c file ≡ none
  next_record-short file h =
      next_record-after_header file
      ∙ none-after_header (read_full 5 file) (read_full-short 5 file h)

  -- A header whose payload is not there in full is no record.
  pub next_record-cut :
      (op : ℕ) (payload cut : Bytes)
      → length payload ≤ max_wal_record
      → length cut < length payload
      → next_record c (record_header op payload ++ cut) ≡ none
  next_record-cut op payload cut h lt =
      next_record-after_header (record_header op payload ++ cut)
      ∙ ap after_header
          (read_full-append 5 (record_header op payload) cut (length-record_header op payload))
      ∙ read_header op payload cut h
      ∙ none-after_payload op (length payload) (read_full (length payload) cut)
          (read_full-short (length payload) cut lt)

  pub whole_record :
      (op : ℕ) (payload : Bytes) → record_bytes op payload ≡ record_header op payload ++ payload
  unfolding record_bytes
  whole_record op payload = sym (append_assoc (put_uint32 (length payload)) (op ∷ []) payload)

  pub length-record_bytes :
      (op : ℕ) (payload : Bytes) → length (record_bytes op payload) ≡ 5 + length payload
  length-record_bytes op payload =
      ap length (whole_record op payload)
      ∙ length-append (record_header op payload) payload
      ∙ omega (arith, length-record_header op payload)

  -- A record that is cut before its end is no record.
  pub next_record-torn :
      (op : ℕ) (payload : Bytes) (k : ℕ)
      → length payload ≤ max_wal_record
      → k < length (record_bytes op payload)
      → next_record c (take k (record_bytes op payload)) ≡ none
  next_record-torn op payload k h hk = elim (Bool-cases (ltb k 5)) [
    | inl e ↦
        next_record-short (take k (record_bytes op payload))
          (omega (arith, ltb→lt k 5 e, length-take k (record_bytes op payload)))
    | inr e ↦
        let from : 5 ≤ k = ltb_false→le k 5 e in
        let at_payload : k ≡ length (record_header op payload) + (k - 5) =
          omega (arith, length-record_header op payload) in
        let cut = take (k - 5) payload in
        ap (λ (n : ℕ). next_record c (take n (record_bytes op payload))) at_payload
        ∙ ap (λ (s : Bytes). next_record c (take (length (record_header op payload) + (k - 5)) s))
            (whole_record op payload)
        ∙ ap (next_record c) (take-past (record_header op payload) payload (k - 5))
        ∙ next_record-cut op payload cut h
            (omega (arith, length-record_bytes op payload, length-take (k - 5) payload))
  ]

  -- What is left of a file is shorter than `m` bytes.
  abbrev Below : ℕ → Option (ℕ × Entry × ℕ × Bytes) → Type 0
  Below m none = Unit
  Below m (some r) = length r.3 < m

  Below-after_entry :
      (m op n : ℕ) (rest : Bytes) (o : Option Entry)
      → length rest < m
      → Below m (after_entry op n rest o)
  Below-after_entry m op n rest none h = tt
  Below-after_entry m op n rest (some e) h = h

  Below-read_body : (m op n : ℕ) (rest : Bytes) → length rest < m → Below m (read_body c op n rest)
  unfolding read_body read_full
  Below-read_body m op n rest h = elim (Bool-cases (ltb max_wal_record n)) [
    | inl e ↦ rw e tt
    | inr e ↦ elim (Bool-cases (leb n (length rest))) [
      | inl f ↦
          rw (e, f)
            (Below-after_entry m op n (drop n rest) (c.unmarshal (take n rest))
              (omega (arith, length-drop n rest)))
      | inr f ↦ elim (Bool-cases (length rest == 0)) [
        | inl g ↦ rw (e, f, g) tt
        | inr g ↦ rw (e, f, g) tt
      ]
    ]
  ]

  abbrev Leaves : ℕ → Read (Bytes × Bytes) → Type 0
  Leaves m (failed e) = Unit
  Leaves m (got r) = length r.1 < m

  Leaves-read_full : (file : Bytes) → Leaves (length file) (read_full 5 file)
  unfolding read_full
  Leaves-read_full file = elim (Bool-cases (leb 5 (length file))) [
    | inl f ↦ rw f (ground (arith, f, length-drop 5 file))
    | inr f ↦ elim (Bool-cases (length file == 0)) [ inl g ↦ rw (f, g) tt | inr g ↦ rw (f, g) tt ]
  ]

  Below-after_header : (m : ℕ) (r : Read (Bytes × Bytes)) → Leaves m r → Below m (after_header r)
  Below-after_header m (failed e) h = tt
  Below-after_header m (got r) h = Below-read_body m (frame_type r.0) (uint32 r.0) r.1 h

  Below-next_record : (file : Bytes) → Below (length file) (next_record c file)
  unfolding next_record
  Below-next_record file =
      Below-after_header (length file) (read_full 5 file) (Leaves-read_full file)

  -- What is left after a record is shorter than the file.
  pub next_record-shrinks :
      (file : Bytes) (op : ℕ) (e : Entry) (n : ℕ) (rest : Bytes)
      → next_record c file ≡ some (op, e, n, rest)
      → length rest < length file
  next_record-shrinks file op e n rest h = subst (Below (length file)) h (Below-next_record file)
