-- ===== src/Metrics.antt =====
-- metrics/metrics.go: the counters of the process, and their text for Prometheus. A counter is the 64-bit
-- pattern of an int64.
use medusa.Base.{ℕ, [], ◌∷◌, Bytes, bytes_of, concat}
use medusa.Decimal.{format_int}

pub record Counters : Type 0 where
  pub put_ops : ℕ
  pub get_ops : ℕ
  pub remove_ops : ℕ
  pub execute_ops : ℕ
  pub aggregate_ops : ℕ
  pub swept : ℕ
  pub evicted : ℕ
  pub migrations : ℕ
  pub reconciled : ℕ
  pub pruned : ℕ
  pub evicted_entries : ℕ
  pub events_emitted : ℕ
  pub events_dropped : ℕ

-- `Gauges`
pub record Gauges : Type 0 where
  pub members : ℕ
  pub local_entries : ℕ

abbrev newline : Bytes
newline = 10 ∷ []

-- The two comment lines of a metric
unfoldable pub comments : Bytes → Bytes → Bytes → Bytes
comments name help kind = concat (
    bytes_of "# HELP "
    ∷ name
    ∷ bytes_of " "
    ∷ help
    ∷ newline
    ∷ bytes_of "# TYPE "
    ∷ name
    ∷ bytes_of " "
    ∷ kind
    ∷ newline
    ∷ [])

-- A sample with a label `op`; the quoted names hold nothing that `%q` escapes.
unfoldable pub labelled : Bytes → Bytes → ℕ → Bytes
unfolding format_int
labelled name op v =
    concat (name ∷ bytes_of "{op=\"" ∷ op ∷ bytes_of "\"} " ∷ format_int v ∷ newline ∷ [])

-- A metric of one sample
unfoldable pub sample : Bytes → Bytes → Bytes → ℕ → Bytes
unfolding comments format_int
sample kind name help v =
    concat (comments name help kind ∷ name ∷ bytes_of " " ∷ format_int v ∷ newline ∷ [])

abbrev counter : Bytes → Bytes → ℕ → Bytes
counter = sample (bytes_of "counter")

-- `WriteProm`
unfoldable pub write_prom : Counters → Gauges → Bytes
unfolding comments labelled sample
write_prom m g =
    let ops = bytes_of "medusa_map_ops_total" in
    concat (
      comments ops (bytes_of "Map operations by type.") (bytes_of "counter")
      ∷ labelled ops (bytes_of "put") m.put_ops
      ∷ labelled ops (bytes_of "get") m.get_ops
      ∷ labelled ops (bytes_of "remove") m.remove_ops
      ∷ labelled ops (bytes_of "execute") m.execute_ops
      ∷ labelled ops (bytes_of "aggregate") m.aggregate_ops
      ∷ counter (bytes_of "medusa_entries_swept_total")
          (bytes_of "Entries reclaimed by TTL expiry.") m.swept
      ∷ counter (bytes_of "medusa_members_evicted_total")
          (bytes_of "Peers removed by failure detection.") m.evicted
      ∷ counter (bytes_of "medusa_migrations_total") (bytes_of "Partition-migration passes run.")
          m.migrations
      ∷ counter (bytes_of "medusa_entries_reconciled_total")
          (bytes_of "Entries re-pushed to backups by anti-entropy.") m.reconciled
      ∷ counter (bytes_of "medusa_entries_pruned_total")
          (bytes_of "Zombie keys dropped from backups by anti-entropy (missed deletes).") m.pruned
      ∷ counter (bytes_of "medusa_entries_evicted_total")
          (bytes_of "Entries removed to enforce the max-size cap.") m.evicted_entries
      ∷ counter (bytes_of "medusa_events_emitted_total")
          (bytes_of "Entry events delivered to listeners.") m.events_emitted
      ∷ counter (bytes_of "medusa_events_dropped_total")
          (bytes_of "Entry events dropped because the listener queue was full.") m.events_dropped
      ∷ sample (bytes_of "gauge") (bytes_of "medusa_cluster_members")
          (bytes_of "Current number of cluster members.") g.members
      ∷ sample (bytes_of "gauge") (bytes_of "medusa_map_entries")
          (bytes_of "Live entries stored on this node.") g.local_entries
      ∷ [])
