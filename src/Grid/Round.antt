-- ===== src/Grid/Round.antt =====
-- medusa.go: the round of the maintenance loop, its parts in the order of the code. What a round reads from
-- outside (the clock at each step, the answers of peers, the disk) is a record; `send` stands for the
-- transport and the peers' maps.
use medusa.Base.{
  ℕ, ◌+◌, ◌-◌, ◌%◌, ◌^◌, List, [], ◌∷◌, ◌++◌, Bytes, Bool, true, false, ◌&&◌, ◌||◌, Option, none,
  some, if◌then◌else◌, leb, ◌==◌, length,
}
use medusa.Bytes.{slt}
use medusa.Membership.{Member, Membership, prune_tombstones, sorted_members, table_version}
use medusa.Membership.Detection
use medusa.Membership.Detection.{
  Detector, detect_failures, peers, peer_addrs, ClusterMessage, check_liveness,
}
use medusa.Scan.{Entry}
use medusa.Wal.{Codec, Disk, Truncation}
use medusa.Service.{Node, Effect, Fault, ServiceError}
use medusa.Service.Queries
use medusa.Service.Restart
use medusa.Service.Restart.{checkpoint, restore, open_wal, close_wal}
use medusa.Service.Handle.{Message, Reply}
use medusa.Service.Sync.{sync_backups, migrate}
use medusa.Grid.{
  tombstone_ttl, failure_miss_threshold, snapshot_interval, anti_entropy_batch, evict_batch,
  GridNode, follow, add_to,
}

-- What a checkpoint leaves: a failure leaves it due.
abbrev pub after_checkpoint :
    {H : Type 0} → GridNode H → ℕ → Option ServiceError → Node → GridNode H
after_checkpoint g saved_at (some e) maps = record g { maps = maps }
after_checkpoint g saved_at none maps = record g {
  maps = maps;
  last_save_nano = saved_at;
  checkpoint_due = false;
}

-- What a round reads from outside
pub record Inputs : Type 0 where
  pub discovered : Option (List Bytes)
  pub send_join : Bytes → Option (List Member)
  pub answers : Bytes → Bool
  pub answered_at : Bytes → ℕ
  pub pruned_at : ℕ
  pub synced_at : ℕ
  pub going : ℕ → Bool
  pub migrated_at : ℕ → ℕ
  pub migrate_disk : ℕ → ℕ → Disk
  pub swept_at : ℕ
  pub evicted_at : ℕ
  pub evict_disk : Entry → ℕ → Disk
  pub due_at : ℕ
  pub snapshot_at : ℕ
  pub write_file : List Entry → Option Fault
  pub truncation : Truncation
  pub saved_at : ℕ

module _ {H : Type 0} (d : Detector H) where
  -- `len(n.mem.Members()) <= 1`
  abbrev pub is_isolated : Membership H → Bool
  is_isolated m = leb (length (sorted_members m)) 1

  -- The branch of an isolated node: discovery, and a join when it finds any seed
  unfoldable pub join_seeds : Inputs → Membership H → Membership H
  unfolding Detection.join
  join_seeds i m = elim i.discovered [
    | none ↦ m
    | some [] ↦ m
    | some (seed ∷ seeds) ↦ (Detection.join i.send_join m (seed ∷ seeds)).2
  ]

  -- The failure detection of a node with peers: the ids evicted, and the view without old tombstones.
  -- The view that it gossips goes to `peer_addrs`.
  unfoldable pub watch_peers : Inputs → Membership H → List Bytes × Membership H
  unfolding detect_failures prune_tombstones
  watch_peers i m =
      let (evicted, m') = detect_failures d failure_miss_threshold i.answers i.answered_at m in
      (evicted, prune_tombstones m' tombstone_ttl i.pruned_at)

module _ {H Net : Type 0} (d : Detector H) (send : Net → Bytes → Message → Option Reply × Net)
    (c : Codec) (i : Inputs) where
  abbrev pub State : Type 0
  State = GridNode H × Net × List Effect

  -- The first part of a round: the membership, and the anti-entropy of a node with peers
  unfoldable pub tend_members : State → State
  unfolding join_seeds watch_peers sync_backups follow sorted_members
  tend_members (g, net, effects) =
      let joined = join_seeds d i g.mem in
      let (evicted, m) = watch_peers d i g.mem in
      let maps = follow m g.maps in
      let (synced, cursor, net') =
        sync_backups send maps m.table g.reconcile_cursor anti_entropy_batch i.synced_at net in
      if is_isolated d g.mem
      then (record g { mem = joined; maps = follow joined g.maps }, net, effects)
      else (
        record g {
          mem = m;
          maps = maps;
          reconcile_cursor = cursor;
          counters = record g.counters {
            evicted = add_to g.counters.evicted (length evicted);
            reconciled = add_to g.counters.reconciled synced;
          };
        },
        net',
        effects,
      )

  -- The rebalance after a change of the table
  unfoldable pub rebalance : State → State
  unfolding migrate
  rebalance (g, net, effects) =
      let version = table_version g.mem in
      let (complete, maps, net') =
        migrate send c g.mem.table i.going i.migrated_at i.migrate_disk (g.maps, net) in
      if version == g.last_migrated_version then (g, net, effects) else (
        record g {
          maps = maps;
          checkpoint_due = true;
          last_migrated_version = if complete then version else g.last_migrated_version;
          counters = record g.counters {
            migrations = if complete then add_to g.counters.migrations 1 else g.counters.migrations;
          };
        },
        net',
        effects,
      )

  -- `SweepExpired` in a round
  unfoldable pub sweep_round : State → State
  unfolding Restart.sweep
  sweep_round (g, net, effects) =
      let (swept, maps) = Restart.sweep g.maps i.swept_at in
      (
        record g {
          maps = maps;
          counters = record g.counters { swept = add_to g.counters.swept swept };
        },
        net,
        effects,
      )

  -- The enforcement of the cap
  unfoldable pub cap_entries : State → State
  unfolding Queries.evict
  cap_entries (g, net, effects) =
      let (victims, sent, maps) =
        Queries.evict c g.maps g.max_entries evict_batch i.evicted_at i.evict_disk in
      if g.max_entries == 0 then (g, net, effects) else (
        record g {
          maps = maps;
          counters = record g.counters {
            evicted_entries = add_to g.counters.evicted_entries victims;
          };
        },
        net,
        effects ++ sent,
      )

  -- The checkpoint that is due, or whose interval has passed
  unfoldable pub save_round : State → State
  unfolding checkpoint
  save_round (g, net, effects) =
      let (failed, maps) = checkpoint g.maps i.write_file i.truncation i.snapshot_at in
      let elapsed = (i.due_at + 2 ^ 64 - g.last_save_nano) % 2 ^ 64 in
      if g.has_dir && (g.checkpoint_due || slt snapshot_interval elapsed)
      then (after_checkpoint g i.saved_at failed maps, net, effects)
      else (g, net, effects)

  -- A round of `maintain`
  unfoldable pub tick : State → State
  unfolding tend_members rebalance sweep_round cap_entries save_round
  tick s = save_round (cap_entries (sweep_round (rebalance (tend_members s))))
