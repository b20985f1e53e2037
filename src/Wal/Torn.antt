-- ===== src/Wal/Torn.antt =====
-- imap/wal.go: logs whose last write was cut off, by a crash or by an error.
use medusa.Base.{
  ℕ, ◌+◌, ◌-◌, ◌<◌, ◌≤◌, ◌≡◌, refl, ap, ◌∙◌, List, [], ◌∷◌, ◌++◌, Bytes, arith, length, take, map,
  some, none, length-append, length-take, append_assoc,
}
use medusa.Frame.Reading.{record_header, length-record_header, take-past}
use medusa.Wal.{
  Codec, op_byte, Wal, write_failed, synced, short, record_bytes, write_record, append_locked,
  next_record, replay_wal, truncate_tail,
}
use medusa.Wal.Records.{whole_record, length-record_bytes, next_record-torn, next_record-cut}
use medusa.Wal.Replay.{
  LogRecord, call, payload_of, bytes_of_record, log_bytes, Fits, AllFit, AllFit-append,
  replay_wal-log, replay_wal-whole, truncate_tail-log, append_locked-log,
}

module _ (c : Codec) where
  -- If the records of a log and the next one fit, and the write of the next one was cut off before its
  -- end, then replayWAL makes the calls of the log's records only and returns their length.
  pub replay_wal-torn :
      (rs : List LogRecord) (r : LogRecord) (k : ℕ)
      → AllFit c rs
      → Fits c r
      → k < length (bytes_of_record c r)
      → replay_wal c (log_bytes c rs ++ take k (bytes_of_record c r))
        ≡ (map call rs, length (log_bytes c rs))
  replay_wal-torn rs r k h (m, fits) hk =
      replay_wal-log c rs (take k (bytes_of_record c r)) h
        (next_record-torn c (op_byte r.0) (payload_of c r.1) k fits hk)

  -- The file that is left of `file` when it was opened again and a record was appended.
  abbrev pub reopen_append : Bytes → LogRecord → Wal
  reopen_append file r =
      (append_locked c (some (truncate_tail file (replay_wal c file).1)) r.0 r.1 synced).1

  -- If all records fit and the write of one was cut off before its end, then a record that is
  -- appended after the tail was truncated follows the earlier ones, and replayWAL reads them all.
  pub replay_wal-reopen :
      (rs : List LogRecord) (r s : LogRecord) (k : ℕ)
      → AllFit c rs
      → Fits c r
      → Fits c s
      → k < length (bytes_of_record c r)
      → (file : Bytes) × (reopen_append (log_bytes c rs ++ take k (bytes_of_record c r)) s
          ≡ some file)
        × (replay_wal c file ≡ (map call (rs ++ (s ∷ [])), length file))
  replay_wal-reopen rs r s k h (m, fits) hs hk =
      let stops = next_record-torn c (op_byte r.0) (payload_of c r.1) k fits hk in
      let cut = truncate_tail-log c rs (take k (bytes_of_record c r)) h stops in
      (
        log_bytes c (rs ++ (s ∷ [])),
        (λ i. (append_locked c (some (cut i)) s.0 s.1 synced).1)
            ∙ (λ i. (append_locked-log c rs s.0 s.1 hs i).1),
        replay_wal-whole c (rs ++ (s ∷ [])) (AllFit-append c rs (s ∷ []) h (hs, tt)),
      )

  remnant :
      (op : ℕ) (payload rest : Bytes) (k : ℕ)
      → 5 ≤ k
      → take k (record_bytes op payload) ++ rest
        ≡ record_header op payload ++ (take (k - 5) payload ++ rest)
  remnant op payload rest k h =
      let past : k ≡ length (record_header op payload) + (k - 5) =
        omega (arith, length-record_header op payload) in
      ap (λ (n : ℕ). take n (record_bytes op payload) ++ rest) past
      ∙ ap (λ (s : Bytes). take (length (record_header op payload) + (k - 5)) s ++ rest)
          (whole_record c op payload)
      ∙ ap (λ (s : Bytes). s ++ rest) (take-past (record_header op payload) payload (k - 5))
      ∙ append_assoc (record_header op payload) (take (k - 5) payload) rest

  -- A failed append leaves what was written in the file, and the next append goes on behind it. If the
  -- records fit, the header of the failed one was written, and its payload is longer than what was
  -- written of it and the next record together, then the next append reports no error and replayWAL
  -- does not make its call.
  pub append_locked-lost :
      (rs : List LogRecord) (r s : LogRecord) (k : ℕ)
      → AllFit c rs
      → Fits c r
      → Fits c s
      → 5 ≤ k
      → k + length (bytes_of_record c s) < length (bytes_of_record c r)
      → (w : Wal) × (file : Bytes) × (append_locked c (some (log_bytes c rs)) r.0 r.1 (short k)
          ≡ (some write_failed, w))
        × (append_locked c w s.0 s.1 synced ≡ (none, some file))
        × (replay_wal c file ≡ (map call rs, length (log_bytes c rs)))
  unfolding append_locked write_record
  append_locked-lost rs r s k h (m, fits) (ms, hs) from less =
      let written = log_bytes c rs ++ take k (bytes_of_record c r) in
      (
        some written,
        written ++ bytes_of_record c s,
        rw (m, append_locked) refl,
        rw (ms, append_locked) refl,
        ap (replay_wal c)
              (append_assoc (log_bytes c rs) (take k (bytes_of_record c r)) (bytes_of_record c s))
            ∙ replay_wal-log c rs (take k (bytes_of_record c r) ++ bytes_of_record c s) h stops,
      )
    where
      cut : Bytes
      cut = take (k - 5) (payload_of c r.1) ++ bytes_of_record c s

      stops : next_record c (take k (bytes_of_record c r) ++ bytes_of_record c s) ≡ none
      stops =
          ap (next_record c) (remnant (op_byte r.0) (payload_of c r.1) (bytes_of_record c s) k from)
          ∙ next_record-cut c (op_byte r.0) (payload_of c r.1) cut fits (
              omega (
                arith,
                less,
                from,
                length-append (take (k - 5) (payload_of c r.1)) (bytes_of_record c s),
                length-take (k - 5) (payload_of c r.1),
                length-record_bytes c (op_byte r.0) (payload_of c r.1),
              ))
