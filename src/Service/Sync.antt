-- ===== src/Service/Sync.antt =====
-- imap/service.go: the loops that move entries between nodes: `Migrate` when the table changes, and
-- `SyncBackups`. `send` stands for the transport and the peers behind it, whose state it threads; no
-- reply is an error.
use medusa.Base.{
  ℕ, zero, suc, ◌+◌, ◌%◌, List, [], ◌∷◌, Bytes, Bool, true, false, not, ◌&&◌, ◌||◌, Option, none,
  some, if◌then◌else◌, ◌==◌, same, length,
}
use medusa.Bytes.{slt}
use medusa.GoMap
use medusa.Partition.{partition_count}
use medusa.Partition.Table.{Table, owner_of, num_backups, backup_at}
use medusa.Store
use medusa.Scan.{Entry, snapshot_partition, partition_digest}
use medusa.Legacy.{order_queue_meta_last}
use medusa.Wal.{Codec, Disk}
use medusa.Service.{Node, remaining_ttl_ms}
use medusa.Service.Requests.{drop_migrated_logged}
use medusa.Service.Handle.{
  Message, put_request, digest_request, reconcile_request, Reply, put_response, digest_response,
  KeyRef,
}

-- The reply is of the type that was asked for; a digest that does not match, and no reply, are `false`.
abbrev pub is_put_response : Option Reply → Bool
is_put_response none = false
is_put_response (some (put_response created)) = true
is_put_response (some _) = false

abbrev pub is_match : Option Reply → Bool
is_match none = false
is_match (some (digest_response b)) = b
is_match (some _) = false

-- `e.expireAt != 0 && ttlMs <= 0`
abbrev pub in_flight_lapsed : ℕ → ℕ → Bool
in_flight_lapsed expire_at ttl = not (expire_at == 0) && not (slt 0 ttl)

module _ {Net : Type 0} (send : Net → Bytes → Message → Option Reply × Net) (n : Node)
    (table : Table) where
  -- The addresses of the backups `i`, `i + 1`, …, `m` of them, whose digest differs
  unfoldable pub stale_from : ℕ → ℕ → ℕ → ℕ → Net → List Bytes × Net
  unfolding backup_at same
  stale_from p i zero digest net = ([], net)
  stale_from p i (suc m) digest net =
      let skipped = stale_from p (i + 1) m digest net in
      elim (backup_at table p i) [
        | none ↦ skipped
        | some b ↦ if same b n.self then skipped else elim (GoMap.lookup b n.addrs) [
          | none ↦ skipped
          | some addr ↦
              let (reply, net') = send net addr (digest_request p digest) in
              let (stale, net'') = stale_from p (i + 1) m digest net' in
              if is_match reply then (stale, net'') else (addr ∷ stale, net'')
        ]
      ]

  -- One entry to each stale backup: whether one of them took it.
  unfoldable pub push_entry : List Bytes → Message → Net → Bool × Net
  push_entry [] message net = (false, net)
  push_entry (addr ∷ stale) message net =
      let (reply, net') = send net addr message in
      let (sent, net'') = push_entry stale message net' in (is_put_response reply || sent, net'')

  -- The loop over the snapshot, which reads each entry again: the key set, the number of entries
  -- pushed.
  unfoldable pub push_entries : ℕ → ℕ → List Bytes → List Entry → Net → List KeyRef × ℕ × Net
  unfolding Store.lookup remaining_ttl_ms push_entry
  push_entries p now stale [] net = ([], 0, net)
  push_entries p now stale (e ∷ es) net =
      let skipped = push_entries p now stale es net in
      elim (Store.lookup n.store p e.map_name e.key now) [
        | none ↦ skipped
        | some (contents, expire_at) ↦
            let ttl = remaining_ttl_ms expire_at now in
            let (sent, net') =
              push_entry stale (put_request e.map_name e.key contents ttl true) net in
            let (keys, pushed, net'') = push_entries p now stale es net' in
            if in_flight_lapsed expire_at ttl
            then skipped
            else ((e.map_name, e.key) ∷ keys, (if sent then pushed + 1 else pushed), net'')
      ]

  -- The prune, at each stale backup
  unfoldable pub prune_each : ℕ → List KeyRef → List Bytes → Net → Net
  prune_each p keys [] net = net
  prune_each p keys (addr ∷ stale) net =
      prune_each p keys stale (send net addr (reconcile_request p keys)).1

  -- The body of the loop of `SyncBackups`: the number of entries pushed
  unfoldable pub sync_partition : ℕ → ℕ → Net → ℕ × Net
  unfolding owner_of same partition_digest num_backups stale_from snapshot_partition
      order_queue_meta_last push_entries prune_each
  sync_partition p now net =
      let digest = partition_digest now (n.store.shards p) in
      let (stale, net') = stale_from p 0 (num_backups table p) digest net in
      let snap = order_queue_meta_last (snapshot_partition now (n.store.shards p)) in
      let (keys, pushed, net'') = push_entries p now stale snap net' in
      if not (same (owner_of table p) n.self)
      then (0, net)
      else if length stale == 0
      then (0, net')
      else (pushed, prune_each p keys stale net'')

  -- The loop of `SyncBackups` from a partition on: the number of entries pushed, and where to resume.
  unfoldable pub sync_from : ℕ → ℕ → ℕ → Net → ℕ × ℕ × Net
  unfolding sync_partition
  sync_from p zero now net = (0, p, net)
  sync_from p (suc batch) now net =
      let (pushed, net') = sync_partition p now net in
      let (more, next, net'') = sync_from ((p + 1) % partition_count) batch now net' in
      (pushed + more, next, net'')

  -- `SyncBackups`, with a `start` that is not negative
  unfoldable pub sync_backups : ℕ → ℕ → ℕ → Net → ℕ × ℕ × Net
  unfolding sync_from
  sync_backups start batch now net = sync_from (start % partition_count) batch now net

  -- The entries that have not lapsed, pushed to one holder: whether it took them all.
  unfoldable pub push_all : Bytes → ℕ → List Entry → Net → Bool × Net
  unfolding remaining_ttl_ms
  push_all addr now [] net = (true, net)
  push_all addr now (e ∷ es) net =
      let ttl = remaining_ttl_ms e.expire_at now in
      let skipped = push_all addr now es net in
      let (reply, net') = send net addr (put_request e.map_name e.key e.contents ttl true) in
      let (more, net'') = push_all addr now es net' in
      if in_flight_lapsed e.expire_at ttl then skipped else (is_put_response reply && more, net'')

  -- The pushes to all holders; a holder without an address is a failure.
  unfoldable pub push_targets : List Bytes → ℕ → List Entry → Net → Bool × Net
  unfolding push_all
  push_targets [] now entries net = (true, net)
  push_targets (id ∷ ids) now entries net =
      let (skipped, net0) = push_targets ids now entries net in
      elim (GoMap.lookup id n.addrs) [
        | none ↦ (false, net0)
        | some addr ↦
            let (took, net') = push_all addr now entries net in
            let (more, net'') = push_targets ids now entries net' in (took && more, net'')
      ]

-- The backups of a partition from `i` on, `m` of them: those that are other nodes, and whether this
-- node is one.
unfoldable pub other_backups : Bytes → Table → ℕ → ℕ → ℕ → List Bytes × Bool
unfolding backup_at same
other_backups self table p i zero = ([], false)
other_backups self table p i (suc m) =
    let (others, holds) = other_backups self table p (i + 1) m in
    elim (backup_at table p i) [
      | none ↦ (others, holds)
      | some b ↦ if same b self then (others, true) else (b ∷ others, holds)
    ]

module _ {Net : Type 0} (send : Net → Bytes → Message → Option Reply × Net) (c : Codec)
    (table : Table) where
  -- The body of the loop of `Migrate`
  unfoldable pub migrate_partition : ℕ → ℕ → (ℕ → Disk) → Node × Net → Node × Net
  unfolding snapshot_partition order_queue_meta_last owner_of num_backups other_backups push_targets
      drop_migrated_logged same
  migrate_partition p now disk (n, net) =
      let entries = order_queue_meta_last (snapshot_partition now (n.store.shards p)) in
      let owner = owner_of table p in
      let (others, is_backup) = other_backups n.self table p 0 (num_backups table p) in
      let targets =
        if not (length owner == 0) && not (same owner n.self) then owner ∷ others else others in
      let (pushed_ok, net') = push_targets send n table targets now entries net in
      if length entries == 0
      then (n, net)
      else if not (same owner n.self || is_backup) && pushed_ok
      then (drop_migrated_logged c n p entries disk, net')
      else (n, net')

  -- The loop of `Migrate` from a partition on, `m` of them; `going` says at which partitions the
  -- context still stands. The flag says that the pass was complete.
  unfoldable pub migrate_from :
      ℕ → ℕ → (ℕ → Bool) → (ℕ → ℕ) → (ℕ → ℕ → Disk) → Node × Net → Bool × Node × Net
  unfolding migrate_partition
  migrate_from p zero going now disk (n, net) = (true, n, net)
  migrate_from p (suc m) going now disk (n, net) =
      let rest =
        migrate_from (p + 1) m going now disk (migrate_partition p (now p) (disk p) (n, net)) in
      if going p then rest else (false, n, net)

  -- `Migrate`
  unfoldable pub migrate : (ℕ → Bool) → (ℕ → ℕ) → (ℕ → ℕ → Disk) → Node × Net → Bool × Node × Net
  unfolding migrate_from
  migrate going now disk start = migrate_from 0 partition_count going now disk start
