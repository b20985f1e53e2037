-- ===== src/Service/Queries.antt =====
-- imap/service.go: reads with read-through, the eviction of a full node, and this node's share of a
-- query that runs on all members.
use medusa.Base.{
  ℕ, ◌-◌, List, [], ◌∷◌, ◌++◌, Bytes, Bool, true, false, Option, none, some, if◌then◌else◌, ltb,
  leb, ◌==◌, same, length,
}
use medusa.Partition.Table.{owner_of}
use medusa.Aggregate.{lookup_aggregator}
use medusa.Store
use medusa.Store.{Store, cache_loaded}
use medusa.Queue.{routed_partition}
use medusa.Scan.{Entry}
use medusa.Owned.{count_map, count_owned, collect_owned_values, sample_owned, entry_count}
use medusa.Wal.{Codec, Disk}
use medusa.Service.{
  Node, Effect, ServiceError, backing_failed, unknown_aggregator, Fault, loader_of, with_state,
}
use medusa.Service.Requests.{apply_evict}

-- `tbl.OwnerOf(p) == s.self`
unfoldable pub owns : Node → ℕ → Bool
unfolding owner_of same
owns n p = same (owner_of n.table p) n.self

-- What the loader gave: an error, nothing, or a value, which is cached.
unfoldable pub through_loader :
    Node
    → Bytes
    → Bytes
    → ℕ
    → Bytes × Bool × Option Fault
    → Option Bytes × Option ServiceError × Node
unfolding cache_loaded routed_partition
through_loader n name key now (v, found, some fault) = (none, some (backing_failed fault), n)
through_loader n name key now (v, false, none) = (none, none, n)
through_loader n name key now (v, true, none) =
    let (kept, s) = cache_loaded n.store (routed_partition name key) name key v now in
    (some kept, none, with_state n s n.wal)

-- `getThrough`; a value that was not found is `none`.
unfoldable pub get_through : Node → Bytes → Bytes → ℕ → Option Bytes × Option ServiceError × Node
unfolding Store.get routed_partition owns through_loader loader_of
get_through n name key now =
    let p = routed_partition name key in
    elim (Store.get n.store p name key now) [
      | some v ↦ (some v, none, n)
      | none ↦ elim (loader_of n name) [
        | none ↦ (none, none, n)
        | some l ↦ if owns n p then through_loader n name key now (l.load key) else (none, none, n)
      ]
    ]

-- `localMapSize`
unfoldable pub local_map_size : Node → Bytes → ℕ → ℕ
unfolding count_map owns
local_map_size n name now = count_map name (owns n) now n.store

-- `localAggregate`
unfoldable pub local_aggregate : Node → Bytes → Bytes → ℕ → Bytes × Option ServiceError
unfolding lookup_aggregator collect_owned_values owns
local_aggregate n name agg_name now = elim (lookup_aggregator agg_name) [
  | none ↦ ([], some (unknown_aggregator agg_name))
  | some agg ↦ (agg.reduce (collect_owned_values name (owns n) now n.store), none)
]

-- `LocalEntryCount`
abbrev pub local_entry_count : Node → ℕ → ℕ
local_entry_count n now = entry_count now n.store

module _ (c : Codec) where
  -- The loop of `Evict` over the victims; an eviction's error is ignored. The disk answers for each
  -- victim.
  unfoldable pub evict_each : Node → List Entry → ℕ → (Entry → ℕ → Disk) → List Effect × Node
  unfolding apply_evict
  evict_each n [] now disk = ([], n)
  evict_each n (e ∷ es) now disk =
      let (existed, failed, n', effects) = apply_evict c n e.map_name e.key now (disk e) in
      let (more, n'') = evict_each n' es now disk in (effects ++ more, n'')

  -- `Evict`, whose `max <= 0` is 0 here: the number of victims.
  unfoldable pub evict : Node → ℕ → ℕ → ℕ → (Entry → ℕ → Disk) → ℕ × List Effect × Node
  unfolding count_owned sample_owned owns evict_each
  evict n max batch now disk =
      let count = count_owned (owns n) now n.store in
      let excess = if ltb batch (count - max) then batch else count - max in
      let victims = sample_owned (owns n) excess now n.store in
      let (effects, n') = evict_each n victims now disk in
      if max == 0
      then (0, [], n)
      else if leb count max
      then (0, [], n)
      else (length victims, effects, n')
