-- ===== src/Grid.antt =====
-- medusa.go: a node of the cluster, which joins the membership, the maps and the files: its constants,
-- its configuration and its start; Round has its maintenance and Dispatch the messages it gets. The log
-- lines are left out.
pub mod Round
pub mod Dispatch
pub mod Joins
pub mod SnapshotFile
use medusa.Base.{
  ℕ, ◌+◌, ◌-◌, ◌*◌, ◌%◌, ◌^◌, List, [], ◌∷◌, ◌++◌, Bytes, Bool, true, false, not, ◌&&◌, ◌||◌,
  Option, none, some, if◌then◌else◌, ltb, leb, ◌==◌, length,
}
use medusa.Bytes.{slt}
use medusa.GoMap
use medusa.GoMap.{GoMap}
use medusa.Metrics.{Counters}
use medusa.Partition.Table.{Table}
use medusa.Membership.{
  Member, Membership, new, prune_tombstones, table_without, sorted_members, table_version,
}
use medusa.Membership.Detection
use medusa.Membership.Detection.{
  Detector, detect_failures, peers, peer_addrs, ClusterMessage, check_liveness,
}
use medusa.Store.{new_store}
use medusa.Scan.{Entry}
use medusa.Wal.{Codec, Disk}
use medusa.Service.{Node, Effect, Fault, ServiceError}
use medusa.Service.Queries
use medusa.Service.Restart
use medusa.Service.Restart.{checkpoint, restore, open_wal, close_wal}
use medusa.Service.Handle
use medusa.Service.Handle.{Message, Reply}
use medusa.Service.Sync.{sync_backups, migrate}

-- The constants, in nanoseconds where they are times
abbrev pub default_maintenance_interval : ℕ
default_maintenance_interval = 3 * 1000000000

abbrev pub failure_miss_threshold : ℕ
failure_miss_threshold = 3

abbrev pub tombstone_ttl : ℕ
tombstone_ttl = 5 * 60 * 1000000000

abbrev pub snapshot_interval : ℕ
snapshot_interval = 30 * 1000000000

abbrev pub anti_entropy_batch : ℕ
anti_entropy_batch = 8

abbrev pub evict_batch : ℕ
evict_batch = 1024

-- `Config`, without the parts that are other packages' objects. Counts and the interval are not
-- negative, and an empty `data_dir` is none.
pub record Config : Type 0 where
  pub id : Bytes
  pub addr : Bytes
  pub bind_addr : Bytes
  pub seeds : List Bytes
  pub backups : ℕ
  pub maintenance_interval : ℕ
  pub max_entries : ℕ
  pub data_dir : Bytes

abbrev pub or_default : Bytes → Bytes → Bytes
or_default given default = if length given == 0 then default else given

-- The address that the transport listens at
abbrev pub bind_addr_of : Config → Bytes
bind_addr_of cfg = or_default cfg.bind_addr cfg.addr

abbrev pub interval_of : Config → ℕ
interval_of cfg =
    if cfg.maintenance_interval == 0 then default_maintenance_interval else cfg.maintenance_interval

-- `Node` of medusa.go: `has_dir` says whether there is a data directory.
pub record GridNode (H : Type 0) : Type 0 where
  pub mem : Membership H
  pub maps : Node
  pub has_dir : Bool
  pub max_entries : ℕ
  pub last_migrated_version : ℕ
  pub last_save_nano : ℕ
  pub checkpoint_due : Bool
  pub reconcile_cursor : ℕ
  pub counters : Counters

-- The addresses of the members, as the maps look them up
unfoldable pub addrs_of : GoMap Member → GoMap Bytes
addrs_of [] = []
addrs_of ((id, mem) ∷ members) = (id, mem.addr) ∷ addrs_of members

-- The maps with the membership's table and addresses, which they read where they use them
unfoldable pub follow : {H : Type 0} → Membership H → Node → Node
unfolding addrs_of
follow m n = record n { self = m.self.id; table = m.table; addrs = addrs_of m.members }

-- `v` more on a counter
abbrev pub add_to : ℕ → ℕ → ℕ
add_to count v = (count + v) % 2 ^ 64

-- `loadSnapshot`, on the entries of the file if there is one that can be read, and `OpenWAL`, on the
-- bytes of the log if it can be opened
unfoldable pub load_state : Codec → Node → Option (List Entry) → Option Bytes → ℕ → Node
unfolding restore open_wal
load_state c n snap log now =
    let n' = elim snap as (λ _. Node) [ none ↦ n | some entries ↦ restore n entries now ] in
    elim log as (λ _. Node) [ none ↦ n' | some file ↦ open_wal c n' file now ]

module _ {H : Type 0} where
  -- The maps of `New` before anything is loaded
  abbrev pub fresh_maps : Membership H → Node
  fresh_maps m = record {
    self = m.self.id;
    table = m.table;
    addrs = addrs_of m.members;
    store = new_store;
    wal = none;
    loaders = [];
  }

  abbrev pub new_membership : Config → Membership H
  new_membership cfg =
      new (record { id = or_default cfg.id cfg.addr; addr = cfg.addr })
        (if ltb cfg.backups 1 then 1 else cfg.backups)

  -- `New` up to the maintenance loop; it fails if the transport does not listen.
  unfoldable pub start :
      Codec
      → Config
      → Option (List Entry)
      → Option Bytes
      → Bool
      → ℕ
      → Counters
      → Option (GridNode H)
  unfolding load_state addrs_of
  start c cfg snap log listens now counters =
      let mem : Membership H = new_membership cfg in
      let has_dir = not (length cfg.data_dir == 0) in
      let maps = fresh_maps mem in
      if listens
      then some (record {
        mem = mem;
        maps = if has_dir then load_state c maps snap log now else maps;
        has_dir = has_dir;
        max_entries = cfg.max_entries;
        last_migrated_version = table_version mem;
        last_save_nano = if has_dir then now else 0;
        checkpoint_due = false;
        reconcile_cursor = 0;
        counters = counters;
      })
      else none
