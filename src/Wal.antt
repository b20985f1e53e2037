-- ===== src/Wal.antt =====
-- imap/wal.go: the write-ahead log, as the bytes of its file.
pub mod Records
pub mod Replay
pub mod Torn
pub mod Tagged
use medusa.Base.{
  ℕ, zero, suc, ◌+◌, ◌*◌, ◌^◌, ◌≡◌, List, [], ◌∷◌, ◌++◌, Bytes, Bool, true, false, not, length,
  take, Option, none, some, if◌then◌else◌, ltb, leb,
}
use medusa.Bytes.{put_uint32, uint32}
use medusa.Frame.{Read, got, failed, read_full, frame_type}
use medusa.Scan.{Entry}

-- `MarshalVT` and `UnmarshalVT` of a `SnapshotEntry` (generated code): what was marshalled is
-- unmarshalled as it was.
pub record Codec : Type 0 where
  pub marshal : Entry → Option Bytes
  pub unmarshal : Bytes → Option Entry
  pub unmarshal_marshal : (e : Entry) (b : Bytes) → marshal e ≡ some b → unmarshal b ≡ some e

pub data WalOp : Type 0 where
  op_put op_remove op_clear : WalOp

-- `walOpPut`, `walOpRemove`, `walOpClear`
abbrev pub op_byte : WalOp → ℕ
op_byte op_put = 1
op_byte op_remove = 2
op_byte op_clear = 3

abbrev pub max_wal_record : ℕ
max_wal_record = 128 * 2 ^ 20

-- `wal`: the open file, or nil once it was closed; the offset is the end of the file.
abbrev pub Wal : Type 0
Wal = Option Bytes

pub data WalError : Type 0 where
  marshal_failed closed write_failed truncate_failed : WalError

-- How the disk answers the writes of one record: all of it is written and synced, or an error comes
-- after a number of its bytes.
pub data Disk : Type 0 where
  synced : Disk
  short : ℕ → Disk

-- The header and the payload of one record
unfoldable pub record_bytes : ℕ → Bytes → Bytes
record_bytes op payload = put_uint32 (length payload) ++ (op ∷ payload)

-- The two writes and the sync of `appendLocked`
unfoldable pub write_record : Bytes → Bytes → Disk → Option WalError × Bytes
write_record content bytes synced = (none, content ++ bytes)
write_record content bytes (short k) = (some write_failed, content ++ take k bytes)

-- How the disk answers `truncateLocked`: the file is emptied and synced, or `Truncate` fails and leaves it,
-- or it is emptied and `Sync` fails. A seek to the start of an open file is taken not to fail.
pub data Truncation : Type 0 where
  emptied kept unsynced : Truncation

unfoldable pub truncate_locked : Wal → Truncation → Option WalError × Wal
truncate_locked none disk = (some closed, none)
truncate_locked (some content) emptied = (none, some [])
truncate_locked (some content) kept = (some truncate_failed, some content)
truncate_locked (some content) unsynced = (some truncate_failed, some [])

-- `close`
abbrev pub close : Wal → Wal
close w = none

module _ (c : Codec) where
  unfoldable pub append_locked : Wal → WalOp → Entry → Disk → Option WalError × Wal
  unfolding record_bytes write_record
  append_locked w op e disk = elim (c.marshal e) [
    | none ↦ (some marshal_failed, w)
    | some payload ↦ elim w [
      | none ↦ (some closed, none)
      | some content ↦
          let (err, content') = write_record content (record_bytes (op_byte op) payload) disk in
          (err, some content')
    ]
  ]

  -- One round of the loop of `replayWAL`: the operation's byte, the entry, the number of bytes of
  -- the record, and the rest of the file. `none` is a return: the end, or a torn or corrupt record.
  unfoldable pub read_body : ℕ → ℕ → Bytes → Option (ℕ × Entry × ℕ × Bytes)
  read_body op n rest = if ltb max_wal_record n then none else elim (read_full n rest) [
    | failed e ↦ none
    | got r ↦ elim (c.unmarshal r.0) [ none ↦ none | some e ↦ some (op, e, 5 + n, r.1) ]
  ]

  unfoldable pub next_record : Bytes → Option (ℕ × Entry × ℕ × Bytes)
  next_record file = elim (read_full 5 file) [
    | failed e ↦ none
    | got r ↦ read_body (frame_type r.0) (uint32 r.0) r.1
  ]

  -- The loop of `replayWAL`: the operations that it calls, in order, and `valid`.
  unfoldable pub replay_loop : ℕ → Bytes → ℕ → List (ℕ × Entry) × ℕ
  replay_loop zero file valid = ([], valid)
  replay_loop (suc fuel) file valid = elim (next_record file) [
    | none ↦ ([], valid)
    | some (op, e, n, rest) ↦
        let (calls, valid') = replay_loop fuel rest (valid + n) in ((op, e) ∷ calls, valid')
  ]

  -- `replayWAL` on a file that is there. A round reads at least five bytes, so the length of the
  -- file is enough fuel.
  unfoldable pub replay_wal : Bytes → List (ℕ × Entry) × ℕ
  replay_wal file = replay_loop (length file + 1) file 0

-- `truncateTail`
unfoldable pub truncate_tail : Bytes → ℕ → Bytes
truncate_tail file valid = if leb (length file) valid then file else take valid file
