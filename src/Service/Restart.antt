-- ===== src/Service/Restart.antt =====
-- imap/service.go: what a node reads back when it starts, and the checkpoints that let the log be
-- emptied.
use medusa.Base.{
  ℕ, List, [], ◌∷◌, Bytes, Bool, not, ◌&&◌, Option, none, some, if◌then◌else◌, ltb, ◌==◌, same,
  length,
}
use medusa.Bytes.{slt}
use medusa.Store
use medusa.Store.{Store}
use medusa.Queue.{queue_map, routed_partition}
use medusa.Scan.{Entry}
use medusa.Owned.{snapshot_all, clear_map, sweep_expired}
use medusa.Legacy.{load_all, convert_legacy_queue}
use medusa.Wal.{Codec, close, replay_wal, truncate_tail, Truncation, truncate_locked}
use medusa.Service.{Node, Fault, with_state, ServiceError, wal_failed, backing_failed}

-- `Snapshot`
unfoldable pub snapshot : Node → ℕ → List Entry
unfolding snapshot_all
snapshot n now = snapshot_all now n.store

-- `expireAt != 0 && expireAt <= now`
abbrev pub lapsed : Entry → ℕ → Bool
lapsed e now = not (e.expire_at == 0) && not (slt now e.expire_at)

-- The loop of `Restore`
unfoldable pub unlapsed : List Entry → ℕ → List Entry
unlapsed [] now = []
unlapsed (e ∷ es) now = let rest = unlapsed es now in if lapsed e now then rest else e ∷ rest

-- `Restore`
unfoldable pub restore : Node → List Entry → ℕ → Node
unfolding load_all unlapsed
restore n entries now = with_state n (load_all (unlapsed entries now) now n.store) n.wal

-- The value of an entry of the queues' map is a whole queue in the format of old.
abbrev pub is_legacy : Entry → Bool
is_legacy e =
    same e.map_name queue_map && (not (length e.contents == 24) && ltb 0 (length e.contents))

-- The three closures of `OpenWAL`
unfoldable pub replay_put : Entry → ℕ → Store → Store
unfolding load_all convert_legacy_queue routed_partition Store.put
replay_put e now s =
    if lapsed e now
    then s
    else if is_legacy e
    then load_all (convert_legacy_queue e.key e.contents) now s
    else (Store.put s (routed_partition e.map_name e.key) e.map_name e.key e.contents e.expire_at
        now).1

unfoldable pub replay_call : ℕ × Entry → ℕ → Store → Store
unfolding replay_put routed_partition Store.remove clear_map
replay_call (op, e) now s =
    if op == 1
    then replay_put e now s
    else if op == 2
    then (Store.remove s (routed_partition e.map_name e.key) e.map_name e.key now).1
    else if op == 3
    then (clear_map e.map_name s).1
    else s

-- The calls of `replayWAL`, in order
unfoldable pub replay_calls : List (ℕ × Entry) → ℕ → Store → Store
unfolding replay_call
replay_calls [] now s = s
replay_calls (r ∷ rs) now s = replay_calls rs now (replay_call r now s)

-- `OpenWAL` on a file with these bytes that can be read, truncated and opened
unfoldable pub open_wal : Codec → Node → Bytes → ℕ → Node
unfolding replay_wal replay_calls truncate_tail
open_wal c n file now =
    let (calls, valid) = replay_wal c file in
    with_state n (replay_calls calls now n.store) (some (some (truncate_tail file valid)))

-- The step of `OpenWAL` that fails: the opening for the replay, the truncation, or the last opening
pub data OpenFault : Type 0 where
  unread untruncated unopened : OpenFault

-- `OpenWAL` with its errors: after a failed truncation or opening the store has the replayed calls, and the
-- node has no log to write.
unfoldable try_open_wal : Codec → Node → Bytes → Option OpenFault → ℕ → Option OpenFault × Node
unfolding open_wal
try_open_wal c n file none now = (none, open_wal c n file now)
try_open_wal c n file (some unread) now = (some unread, n)
try_open_wal c n file (some fault) now =
    (some fault, with_state n (open_wal c n file now).store n.wal)

-- `CloseWAL`
unfoldable pub close_wal : Node → Node
close_wal n = elim n.wal [ none ↦ n | some w ↦ with_state n n.store (some (close w)) ]

-- `Checkpoint`; `write` is how the snapshot's write ends, and `disk` how the log's truncation does.
unfoldable pub checkpoint :
    Node → (List Entry → Option Fault) → Truncation → ℕ → Option ServiceError × Node
unfolding snapshot truncate_locked
checkpoint n write disk now = elim (write (snapshot n now)) [
  | some fault ↦ (some (backing_failed fault), n)
  | none ↦ elim n.wal [
    | none ↦ (none, n)
    | some w ↦
        let (failed, w') = truncate_locked w disk in
        (elim failed [ none ↦ none | some e ↦ some (wal_failed e) ], with_state n n.store (some w'))
  ]
]

-- `SweepExpired`: the number of entries removed
unfoldable pub sweep : Node → ℕ → ℕ × Node
unfolding sweep_expired
sweep n now = let (removed, s) = sweep_expired now n.store in (removed, with_state n s n.wal)
