-- ===== src/Service.antt =====
-- imap/service.go: this node's share of every map; the writes of an owner and of a backup, with the
-- write-ahead log beside the store. What a call sends, emits and writes through is a list of effects.
pub mod Loaders
pub mod Requests
pub mod Queries
pub mod Restart
pub mod Handle
pub mod Sync
pub mod Reconcile
pub mod Agree
pub mod Change
pub mod Logged
pub mod Replayed
pub mod Followed
pub mod Recovery
pub mod Expiry
pub mod Lapsing
pub mod Placed
pub mod Delivered
pub mod Home
pub mod Loading
pub mod Snapshot
pub mod Crash
pub mod Overlap
use medusa.Base.{
  ℕ, zero, suc, ◌+◌, ◌-◌, ◌*◌, ◌/◌, ◌%◌, ◌^◌, List, [], ◌∷◌, ◌++◌, Bytes, Bool, true, false, not,
  ◌&&◌, Option, none, some, if◌then◌else◌, ltb, ◌==◌, same, length,
}
use medusa.Bytes.{slt}
use medusa.GoMap
use medusa.GoMap.{GoMap}
use medusa.Partition.{for_key}
use medusa.Partition.Table.{Table, num_backups, backup_at}
use medusa.Processor.{Action, keep, set, del, lookup_processor}
use medusa.Txn.{Mutation}
use medusa.Store
use medusa.Store.{Store, set_shard, update, update_multi}
use medusa.Queue.{
  queue_map, queue_seg_map, is_reserved_map, routed_partition, queue_op, Result, ok, err,
  QueueError,
}
use medusa.Scan.{Entry, Keyset, drop_migrated, prune_to_keyset}
use medusa.Owned.{clear_map}
use medusa.Wal.{Codec, WalOp, op_put, op_remove, op_clear, Wal, WalError, Disk, append_locked}
use medusa.Wal.Replay.{LogRecord}

-- An error of a loader or a backing store
abbrev pub Fault : Type 0
Fault = Bytes

-- `MapLoader`: the value, whether it was found, and the error.
pub record MapLoader : Type 0 where
  pub load : Bytes → Bytes × Bool × Option Fault

-- `MapStore`
pub record MapStore : Type 0 where
  pub loads : MapLoader
  pub store_entry : Bytes → Bytes → Option Fault
  pub delete_entry : Bytes → Option Fault

-- A value of the interface `MapLoader`, which may have the methods of a `MapStore` too.
pub data Registered : Type 0 where
  read_only : MapLoader → Registered
  read_write : MapStore → Registered

-- `Service`; of the membership, the table and the members' addresses. No log is `none`.
pub record Node : Type 0 where
  pub self : Bytes
  pub table : Table
  pub addrs : GoMap Bytes
  pub store : Store
  pub wal : Option Wal
  pub loaders : GoMap Registered

pub data EventType : Type 0 where
  event_created event_updated event_removed : EventType

pub data Effect : Type 0 where
  put_sent : Bytes → Bytes → Bytes → Bytes → ℕ → Effect
  remove_sent : Bytes → Bytes → Bytes → Effect
  emitted : EventType → Bytes → Bytes → Bytes → Effect
  stored_through : Bytes → Bytes → Bytes → Effect
  deleted_through : Bytes → Bytes → Effect

pub data ServiceError : Type 0 where
  wal_failed : WalError → ServiceError
  backing_failed : Fault → ServiceError
  reserved_map : ServiceError
  unknown_processor : Bytes → ServiceError
  queue_failed : QueueError → ServiceError
  unknown_aggregator : Bytes → ServiceError
  out_of_range : ℕ → ServiceError
  unhandled : ℕ → ServiceError

-- `loaderRegistry.loader` and `loaderRegistry.store`
unfoldable pub loader_of : Node → Bytes → Option MapLoader
loader_of n name = elim (GoMap.lookup name n.loaders) [
  | none ↦ none
  | some (read_only l) ↦ some l
  | some (read_write m) ↦ some m.loads
]

unfoldable pub map_store_of : Node → Bytes → Option MapStore
map_store_of n name = elim (GoMap.lookup name n.loaders) [
  | none ↦ none
  | some (read_only l) ↦ none
  | some (read_write m) ↦ some m
]

abbrev pub with_state : Node → Store → Option Wal → Node
with_state n s w = record {
  self = n.self;
  table = n.table;
  addrs = n.addrs;
  store = s;
  wal = w;
  loaders = n.loaders;
}

-- `expireFromTTL`, on int64 patterns: the milliseconds of a positive TTL from now on.
unfoldable pub expire_from_ttl : ℕ → ℕ → ℕ
expire_from_ttl ttl now = if slt 0 ttl then (now + ttl * 1000000) % 2 ^ 64 else 0

-- `/` of two int64 patterns, the second one a positive number: it rounds towards 0.
abbrev pub quotient : ℕ → ℕ → ℕ
quotient a b = if slt a 0 then (2 ^ 64 - (2 ^ 64 - a) / b) % 2 ^ 64 else a / b

-- `remainingTTLms`
unfoldable pub remaining_ttl_ms : ℕ → ℕ → ℕ
remaining_ttl_ms expire_at now =
    if expire_at == 0 then 0 else quotient ((expire_at + 2 ^ 64 - now) % 2 ^ 64) 1000000

-- The loop of `replicate` over the backups `i`, `i + 1`, …, `m` of them
unfoldable pub replicate_from : Node → ℕ → ℕ → ℕ → (Bytes → Effect) → List Effect
unfolding backup_at
replicate_from n p i zero message = []
replicate_from n p i (suc m) message =
    let rest = replicate_from n p (i + 1) m message in
    elim (backup_at n.table p i) [
      | none ↦ rest
      | some backup ↦
          if same backup n.self
          then rest
          else elim (GoMap.lookup backup n.addrs) [ none ↦ rest | some addr ↦ message addr ∷ rest ]
    ]

-- `replicate`, with the message for a backup's address
unfoldable pub replicate : Node → ℕ → (Bytes → Effect) → List Effect
unfolding replicate_from num_backups
replicate n p message = replicate_from n p 0 (num_backups n.table p) message

-- The events of a write: reserved maps have none.
abbrev pub emit_unless_reserved : Bytes → Effect → List Effect
emit_unless_reserved name e = if is_reserved_map name then [] else e ∷ []

abbrev pub as_backing : Option Fault → Option ServiceError
as_backing none = none
as_backing (some f) = some (backing_failed f)

-- Write-through and delete-through, when the map has a backing store
unfoldable pub store_through : Node → Bytes → Bytes → Bytes → Option ServiceError × List Effect
unfolding map_store_of
store_through n name key contents = elim (map_store_of n name) [
  | none ↦ (none, [])
  | some m ↦ (as_backing (m.store_entry key contents), stored_through name key contents ∷ [])
]

unfoldable pub delete_through : Node → Bytes → Bytes → Option ServiceError × List Effect
unfolding map_store_of
delete_through n name key = elim (map_store_of n name) [
  | none ↦ (none, [])
  | some m ↦ (as_backing (m.delete_entry key), deleted_through name key ∷ [])
]

abbrev pub put_entry : Bytes → Bytes → Bytes → ℕ → Entry
put_entry name key contents expire_at = record {
  map_name = name;
  key = key;
  contents = contents;
  expire_at = expire_at;
}

abbrev pub remove_entry : Bytes → Bytes → Entry
remove_entry name key = put_entry name key [] 0

-- The records for the WAL of what a queue operation changed
unfoldable pub mutation_records : List Mutation → List LogRecord
mutation_records [] = []
mutation_records (m ∷ ms) =
    (if m.deleted
      then (op_remove, remove_entry m.map_name m.key)
      else (op_put, put_entry m.map_name m.key m.contents 0))
    ∷ mutation_records ms

unfoldable pub entry_removals : List Entry → List LogRecord
entry_removals [] = []
entry_removals (e ∷ es) = (op_remove, remove_entry e.map_name e.key) ∷ entry_removals es

-- The record of what a processor did
abbrev pub action_records : Bytes → Bytes → Bytes → Action → ℕ → List LogRecord
action_records name key new_val keep expire_at = []
action_records name key new_val set expire_at = (op_put, put_entry name key new_val expire_at) ∷ []
action_records name key new_val del expire_at = (op_remove, remove_entry name key) ∷ []

module _ (c : Codec) where
  -- The records are appended one after the other, up to an error; the disk answers each append.
  unfoldable pub append_all : Wal → List LogRecord → (ℕ → Disk) → Option WalError × Wal
  unfolding append_locked
  append_all w [] disk = (none, w)
  append_all w (r ∷ rs) disk =
      let (failed, w') = append_locked c w r.0 r.1 (disk 0) in
      let rest = append_all w' rs (λ i. disk (suc i)) in
      elim failed [ none ↦ rest | some e ↦ (some e, w') ]

  -- `logged`: the change of the store, and what `record` appends for what the change returned.
  unfoldable pub logged :
      {A : Type 0}
      → Node
      → (Store → A × Store)
      → (A → List LogRecord)
      → (ℕ → Disk)
      → A × Option WalError × Node
  unfolding append_all
  logged n mutate records disk =
      let (out, s) = mutate n.store in
      elim n.wal [
        | none ↦ (out, none, with_state n s none)
        | some w ↦
            let (failed, w') = append_all w (records out) disk in
            (out, failed, with_state n s (some w'))
      ]
