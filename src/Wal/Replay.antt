-- ===== src/Wal/Replay.antt =====
-- imap/wal.go: reading a log back, up to the first record that is not whole.
use medusa.Base.{
  ℕ, zero, suc, ◌+◌, ◌<◌, ◌≤◌, ◌≡◌, refl, ap, sym, ◌∙◌, List, [], ◌∷◌, ◌++◌, Bytes, arith, length,
  length-append, take-append, append_assoc, append-nil, none, some, inl, inr, Bool-cases,
  Option-cases, leb, map,
}
use medusa.Scan.{Entry}
use medusa.Wal.{
  Codec, WalOp, op_byte, synced, max_wal_record, record_bytes, write_record, append_locked,
  next_record, replay_loop, replay_wal, truncate_tail,
}
use medusa.Wal.Records.{
  next_record-record_bytes, length-record_bytes, next_record-shrinks, next_record-short,
}

-- A record as the service writes it.
abbrev pub LogRecord : Type 0
LogRecord = WalOp × Entry

-- The call that a record makes on replay: the operation's byte and the entry.
abbrev pub call : LogRecord → ℕ × Entry
call r = (op_byte r.0, r.1)

module _ (c : Codec) where
  abbrev pub payload_of : Entry → Bytes
  payload_of e = elim (c.marshal e) [ none ↦ [] | some b ↦ b ]

  abbrev pub bytes_of_record : LogRecord → Bytes
  bytes_of_record r = record_bytes (op_byte r.0) (payload_of r.1)

  -- The records one after the other
  abbrev pub log_bytes : List LogRecord → Bytes
  log_bytes [] = []
  log_bytes (r ∷ rs) = bytes_of_record r ++ log_bytes rs

  -- The entry of the record is marshalled, into no more bytes than replay accepts.
  abbrev pub Fits : LogRecord → Type 0
  Fits r = (c.marshal r.1 ≡ some (payload_of r.1)) × (length (payload_of r.1) ≤ max_wal_record)

  abbrev pub AllFit : List LogRecord → Type 0
  AllFit [] = Unit
  AllFit (r ∷ rs) = Fits r × AllFit rs

  next_record-log :
      (r : LogRecord) (rest : Bytes)
      → Fits r
      → next_record c (bytes_of_record r ++ rest)
        ≡ some (op_byte r.0, r.1, 5 + length (payload_of r.1), rest)
  next_record-log r rest (m, h) =
      next_record-record_bytes c (op_byte r.0) r.1 (payload_of r.1) rest m h

  replay_loop-step :
      (f : ℕ) (file : Bytes) (v op : ℕ) (e : Entry) (n : ℕ) (rest : Bytes)
      → next_record c file ≡ some (op, e, n, rest)
      → replay_loop c (suc f) file v
        ≡ ((op, e) ∷ (replay_loop c f rest (v + n)).0, (replay_loop c f rest (v + n)).1)
  unfolding replay_loop
  replay_loop-step f file v op e n rest h = rw (h, replay_loop)

  replay_loop-stop :
      (f : ℕ) (file : Bytes) (v : ℕ) → next_record c file ≡ none → replay_loop c f file v ≡ ([], v)
  unfolding replay_loop
  replay_loop-stop zero file v h = refl
  replay_loop-stop (suc f) file v h = rw (h, replay_loop)

  -- The loop of replayWAL ends: with more fuel than the file has bytes its result does not depend on
  -- the fuel, and it has not run out of it.
  pub replay_loop-fuel :
      (f g : ℕ) (file : Bytes) (v : ℕ)
      → length file < f
      → length file < g
      → replay_loop c f file v ≡ replay_loop c g file v
  replay_loop-fuel zero g file v hf hg = absurd (omega arith)
  replay_loop-fuel (suc f) zero file v hf hg = absurd (omega arith)
  replay_loop-fuel (suc f) (suc g) file v hf hg = elim (Option-cases (next_record c file)) [
    | inl e ↦ replay_loop-stop (suc f) file v e ∙ sym (replay_loop-stop (suc g) file v e)
    | inr ((op, e, n, rest), h) ↦
        let less : length rest < length file = next_record-shrinks c file op e n rest h in
        let same_rest =
          replay_loop-fuel f g rest (v + n) (omega (arith, less)) (omega (arith, less)) in
        replay_loop-step f file v op e n rest h
        ∙ (λ i. ((op, e) ∷ (same_rest i).0, (same_rest i).1))
        ∙ sym (replay_loop-step g file v op e n rest h)
  ]

  replay_loop-log :
      (rs : List LogRecord) (tail : Bytes) (f g v : ℕ)
      → AllFit rs
      → length (log_bytes rs ++ tail) < f
      → length tail < g
      → replay_loop c f (log_bytes rs ++ tail) v ≡ (
        map call rs ++ (replay_loop c g tail (v + length (log_bytes rs))).0,
        (replay_loop c g tail (v + length (log_bytes rs))).1,
      )
  replay_loop-log [] tail f g v h hf hg =
      let e : v ≡ v + 0 = omega arith in
      replay_loop-fuel f g tail v hf hg ∙ ap (replay_loop c g tail) e
  replay_loop-log (r ∷ rs) tail zero g v h hf hg = absurd (omega arith)
  replay_loop-log (r ∷ rs) tail (suc f) g v (hr, hrs) hf hg =
      let rest = log_bytes rs ++ tail in
      let n : ℕ = 5 + length (payload_of r.1) in
      let size : length (bytes_of_record r) ≡ n =
        length-record_bytes c (op_byte r.0) (payload_of r.1) in
      let whole : bytes_of_record r ++ log_bytes rs ++ tail ≡ bytes_of_record r ++ rest =
        append_assoc (bytes_of_record r) (log_bytes rs) tail in
      let total : length (bytes_of_record r ++ rest) ≡ n + length rest =
        length-append (bytes_of_record r) rest ∙ omega (arith, size) in
      let at_rest : v + n + length (log_bytes rs) ≡ v + length (bytes_of_record r ++ log_bytes rs) =
        omega (arith, length-append (bytes_of_record r) (log_bytes rs), size) in
      let more =
        replay_loop-log rs tail f g (v + n) hrs (omega (arith, hf, ap length whole, total)) hg
        ∙ ap (λ (w : ℕ). (map call rs ++ (replay_loop c g tail w).0, (replay_loop c g tail w).1))
            at_rest in
      ap (λ (s : Bytes). replay_loop c (suc f) s v) whole
      ∙ replay_loop-step f (bytes_of_record r ++ rest) v (op_byte r.0) r.1 n rest
          (next_record-log r rest hr)
      ∙ (λ i. (call r ∷ (more i).0, (more i).1))

  -- If each record's entry is marshalled into at most maxWALRecord bytes, and no intact record can be
  -- read from the rest of the file, then replayWAL makes the calls of the records in order and returns
  -- their length in bytes.
  pub replay_wal-log :
      (rs : List LogRecord) (tail : Bytes)
      → AllFit rs
      → next_record c tail ≡ none
      → replay_wal c (log_bytes rs ++ tail) ≡ (map call rs, length (log_bytes rs))
  unfolding replay_wal
  replay_wal-log rs tail h e =
      let from_zero : 0 + length (log_bytes rs) ≡ length (log_bytes rs) = omega arith in
      replay_loop-log rs tail (length (log_bytes rs ++ tail) + 1) (length tail + 1) 0 h
        (omega arith) (omega arith)
      ∙ (λ i. (
        map call rs ++ (replay_loop-stop (length tail + 1) tail (0 + length (log_bytes rs)) e i).0,
        (replay_loop-stop (length tail + 1) tail (0 + length (log_bytes rs)) e i).1,
      ))
      ∙ (λ i. (append-nil (map call rs) i, from_zero i))

  -- `replayWAL` on a log that was written in full.
  pub replay_wal-whole :
      (rs : List LogRecord)
      → AllFit rs
      → replay_wal c (log_bytes rs) ≡ (map call rs, length (log_bytes rs))
  replay_wal-whole rs h =
      ap (replay_wal c) (sym (append-nil (log_bytes rs)))
      ∙ replay_wal-log rs [] h (next_record-short c [] (omega arith))

  drop_empty : (a b : Bytes) → length (a ++ b) ≤ length a → a ++ b ≡ a
  drop_empty a [] h = append-nil a
  drop_empty a (x ∷ b) h = absurd (omega (arith, length-append a (x ∷ b)))

  -- After a tail that is no record was cut off, the log is what it was before.
  pub truncate_tail-log :
      (rs : List LogRecord) (tail : Bytes)
      → AllFit rs
      → next_record c tail ≡ none
      → truncate_tail (log_bytes rs ++ tail) (replay_wal c (log_bytes rs ++ tail)).1 ≡ log_bytes rs
  unfolding truncate_tail
  truncate_tail-log rs tail h e =
      ap (λ (n : ℕ). truncate_tail (log_bytes rs ++ tail) n)
        (ap (λ (x : List (ℕ × Entry) × ℕ). x.1) (replay_wal-log rs tail h e))
      ∙ elim (Bool-cases (leb (length (log_bytes rs ++ tail)) (length (log_bytes rs)))) [
        | inl f ↦ rw f (drop_empty (log_bytes rs) tail (ground (arith, f)))
        | inr f ↦ rw f (take-append (length (log_bytes rs)) (log_bytes rs) tail refl)
      ]

  log_bytes-append : (rs ss : List LogRecord) → log_bytes (rs ++ ss) ≡ log_bytes rs ++ log_bytes ss
  log_bytes-append [] ss = refl
  log_bytes-append (r ∷ rs) ss =
      ap (λ (s : Bytes). bytes_of_record r ++ s) (log_bytes-append rs ss)
      ∙ sym (append_assoc (bytes_of_record r) (log_bytes rs) (log_bytes ss))

  pub AllFit-append : (rs ss : List LogRecord) → AllFit rs → AllFit ss → AllFit (rs ++ ss)
  AllFit-append [] ss h k = k
  AllFit-append (r ∷ rs) ss (hr, h) k = (hr, AllFit-append rs ss h k)

  pub AllFit-split : (rs ss : List LogRecord) → AllFit (rs ++ ss) → AllFit rs × AllFit ss
  AllFit-split [] ss h = (tt, h)
  AllFit-split (r ∷ rs) ss (hr, h) = let (a, b) = AllFit-split rs ss h in ((hr, a), b)

  -- `appendLocked` to a log whose disk answers is one more record in it.
  pub append_locked-log :
      (rs : List LogRecord) (op : WalOp) (e : Entry)
      → Fits (op, e)
      → append_locked c (some (log_bytes rs)) op e synced
        ≡ (none, some (log_bytes (rs ++ ((op, e) ∷ []))))
  unfolding append_locked write_record
  append_locked-log rs op e (m, h) = rw (m, append_locked) (λ i. (none, some (whole i)))
    where
      whole : log_bytes rs ++ bytes_of_record (op, e) ≡ log_bytes (rs ++ ((op, e) ∷ []))
      whole =
          sym (ap (λ (s : Bytes). log_bytes rs ++ s) (append-nil (bytes_of_record (op, e))))
          ∙ sym (log_bytes-append rs ((op, e) ∷ []))
