-- ===== src/WalTests.antt =====
-- imap/wal.go: concrete logs.
use medusa.Base.{
  arith, bytes_of, ℕ, ◌≡◌, refl, List, [], ◌∷◌, ◌++◌, Bytes, none, some, map, length, take,
}
use medusa.Scan.{Entry}
use medusa.Wal.{
  op_put, op_remove, Wal, write_failed, synced, short, append_locked, record_bytes, replay_wal,
  replay_loop,
}
use medusa.Wal.Tagged.{tagged, encode, write_bytes}
use medusa.Wal.Replay.{LogRecord, Fits, AllFit, call, bytes_of_record, log_bytes, replay_loop-fuel}
use medusa.Wal.Torn.{reopen_append, replay_wal-torn, replay_wal-reopen, append_locked-lost}

abbrev put_of : ℕ → ℕ → Entry
put_of k v = record { map_name = bytes_of "users"; key = k ∷ []; contents = v ∷ []; expire_at = 0 }

abbrev long_put : Entry
long_put = record {
  map_name = bytes_of "users";
  key = bytes_of "a long key";
  contents = bytes_of "a value that is much longer than the other records";
  expire_at = 0;
}

abbrev two_records : List LogRecord
two_records = (op_put, put_of 1 10) ∷ (op_remove, put_of 1 0) ∷ []

Fits-put : Fits tagged (op_put, put_of 2 20)
unfolding encode write_bytes
Fits-put = (refl, omega arith)

Fits-long : Fits tagged (op_put, long_put)
unfolding encode write_bytes
Fits-long = (refl, omega arith)

AllFit-two_records : AllFit tagged two_records
unfolding encode write_bytes
AllFit-two_records = ((refl, omega arith), ((refl, omega arith), tt))

replay_wal-torn_example :
    replay_wal tagged
      (log_bytes tagged two_records ++ take 9 (bytes_of_record tagged (op_put, put_of 2 20)))
    ≡ (map call two_records, length (log_bytes tagged two_records))
unfolding encode write_bytes record_bytes medusa.Bytes.put_be
replay_wal-torn_example =
    replay_wal-torn tagged two_records (op_put, put_of 2 20) 9 AllFit-two_records Fits-put
      (omega arith)

replay_wal-reopen_example :
    (file : Bytes) × (reopen_append tagged
        (log_bytes tagged two_records ++ take 9 (bytes_of_record tagged (op_put, put_of 2 20)))
        (op_put, long_put)
      ≡ some file)
    × (replay_wal tagged file ≡ (map call (two_records ++ ((op_put, long_put) ∷ [])), length file))
unfolding encode write_bytes record_bytes medusa.Bytes.put_be
replay_wal-reopen_example =
    replay_wal-reopen tagged two_records (op_put, put_of 2 20) (op_put, long_put) 9
      AllFit-two_records Fits-put Fits-long (omega arith)

append_locked-lost_example :
    (w : Wal) × (file : Bytes) × (append_locked tagged
        (some (log_bytes tagged two_records))
        op_put
        long_put
        (short 5)
      ≡ (some write_failed, w))
    × (append_locked tagged w op_put (put_of 2 20) synced ≡ (none, some file))
    × (replay_wal tagged file ≡ (map call two_records, length (log_bytes tagged two_records)))
unfolding encode write_bytes record_bytes medusa.Bytes.put_be
append_locked-lost_example =
    append_locked-lost tagged two_records (op_put, long_put) (op_put, put_of 2 20) 5
      AllFit-two_records Fits-long Fits-put (omega arith) (omega arith)

replay_loop-fuel_example :
    replay_loop tagged 100 (log_bytes tagged two_records) 0
    ≡ replay_loop tagged 90 (log_bytes tagged two_records) 0
unfolding encode write_bytes record_bytes medusa.Bytes.put_be
replay_loop-fuel_example =
    replay_loop-fuel tagged 100 90 (log_bytes tagged two_records) 0 (omega arith) (omega arith)
