-- ===== src/Service/Handle.antt =====
-- imap/service.go: `Handle`, on the messages that peers send, after they were unmarshalled.
use medusa.Base.{ℕ, List, [], ◌∷◌, Bytes, Bool, Option, none, some, if◌then◌else◌, leb, ◌==◌}
use medusa.GoMap
use medusa.GoMap.{GoMap}
use medusa.Partition.{partition_count}
use medusa.Scan.{Keyset, partition_digest}
use medusa.Wal.{Codec, Disk}
use medusa.Service.{Node, Effect, ServiceError, wal_failed, out_of_range, unhandled}
use medusa.Service.Requests.{
  Outcome, apply_put, apply_remove, apply_evict, apply_execute, local_clear_map,
  prune_to_keyset_logged,
}
use medusa.Service.Queries.{owns, get_through, local_map_size, local_aggregate}

-- `KeyRef`: a map and a key
abbrev pub KeyRef : Type 0
KeyRef = Bytes × Bytes

pub data Message : Type 0 where
  put_request : Bytes → Bytes → Bytes → ℕ → Bool → Message
  get_request : Bytes → Bytes → Message
  remove_request : Bytes → Bytes → Bool → Message
  execute_request : Bytes → Bytes → Bytes → Bytes → Message
  digest_request : ℕ → ℕ → Message
  size_request : Bytes → Message
  clear_request : Bytes → Message
  aggregate_request : Bytes → Bytes → Message
  evict_request : Bytes → Bytes → Message
  reconcile_request : ℕ → List KeyRef → Message
  other_request : ℕ → Message

pub data Reply : Type 0 where
  failure : ServiceError → Reply
  put_response : Bool → Reply
  get_response : Option Bytes → Reply
  remove_response : Bool → Reply
  execute_response : Bytes → Reply
  digest_response : Bool → Reply
  size_response : ℕ → Reply
  clear_response : ℕ → Reply
  aggregate_response : Bytes → Reply
  evict_response : Bool → Reply
  reconcile_response : ℕ → Reply

-- One round of the loop that builds `keep`
abbrev pub keep_key : Keyset → KeyRef → Keyset
keep_key keep (name, key) =
    let inner : GoMap Unit = elim (GoMap.lookup name keep) [ none ↦ [] | some keys ↦ keys ] in
    GoMap.insert name (GoMap.insert key tt inner) keep

unfoldable pub keyset_of : List KeyRef → Keyset → Keyset
unfolding GoMap.lookup GoMap.insert
keyset_of [] keep = keep
keyset_of (k ∷ ks) keep = keyset_of ks (keep_key keep k)

-- An error, or the response to the result
abbrev pub respond : {A : Type 0} → (A → Reply) → Outcome A → Reply × Node × List Effect
respond f (a, none, n, effects) = (f a, n, effects)
respond f (a, some e, n, effects) = (failure e, n, effects)

module _ (c : Codec) (n : Node) (now : ℕ) (disk : ℕ → Disk) where
  -- `case …RECONCILE_REQUEST`
  unfoldable pub reconcile : ℕ → List KeyRef → Reply × Node × List Effect
  unfolding owns prune_to_keyset_logged keyset_of
  reconcile p keys =
      let (pruned, n') = prune_to_keyset_logged c n p (keyset_of keys []) disk in
      if leb partition_count p
      then (failure (out_of_range p), n, [])
      else if owns n p
      then (reconcile_response 0, n, [])
      else (reconcile_response pruned, n', [])

  -- `Handle`; `sent_at` is the clock where a processor's result is sent on.
  unfoldable pub handle : Message → ℕ → Reply × Node × List Effect
  unfolding apply_put apply_remove apply_evict apply_execute local_clear_map reconcile get_through
      local_map_size local_aggregate partition_digest
  handle (put_request name key contents ttl is_backup) sent_at =
      respond put_response (apply_put c n name key contents ttl is_backup now disk)
  handle (get_request name key) sent_at =
      let (found, failed, n') = get_through n name key now in
      respond get_response (found, failed, n', [])
  handle (remove_request name key is_backup) sent_at =
      respond remove_response (apply_remove c n name key is_backup now disk)
  handle (execute_request name key proc_name arg) sent_at =
      respond execute_response (apply_execute c n name key proc_name arg now sent_at disk)
  handle (digest_request p digest) sent_at =
      if leb partition_count p
      then (failure (out_of_range p), n, [])
      else (digest_response (partition_digest now (n.store.shards p) == digest), n, [])
  handle (size_request name) sent_at = (size_response (local_map_size n name now), n, [])
  handle (clear_request name) sent_at =
      let (removed, failed, n') = local_clear_map c n name disk in
      elim failed [
        | none ↦ (clear_response removed, n', [])
        | some e ↦ (failure (wal_failed e), n', [])
      ]
  handle (aggregate_request name agg_name) sent_at =
      let (partial, failed) = local_aggregate n name agg_name now in
      respond aggregate_response (partial, failed, n, [])
  handle (evict_request name key) sent_at =
      respond evict_response (apply_evict c n name key now disk)
  handle (reconcile_request p keys) sent_at = reconcile p keys
  handle (other_request t) sent_at = (failure (unhandled t), n, [])
