-- ===== src/Service/Requests.antt =====
-- imap/service.go: the requests, each on the node that serves it. A call reads one instant `now`;
-- where the code reads the clock again for what it sends, that is another argument.
use medusa.Base.{
  ℕ, List, [], ◌∷◌, ◌++◌, Bytes, Bool, Option, none, some, if◌then◌else◌, ◌==◌, same, length,
}
use medusa.Partition.{for_key}
use medusa.Processor.{Action, Processor, keep, set, del, lookup_processor}
use medusa.Txn.{Mutation}
use medusa.Store
use medusa.Store.{Store, set_shard, cache_loaded, update, update_multi}
use medusa.Queue.{
  queue_map, queue_seg_map, is_reserved_map, routed_partition, queue_op, Result, ok, err,
}
use medusa.Scan.{Entry, Keyset, drop_migrated, prune_to_keyset}
use medusa.Owned.{clear_map}
use medusa.Wal.{Codec, op_put, op_remove, op_clear, WalError, Disk}
use medusa.Service.{
  Node, Effect, put_sent, remove_sent, emitted, event_created, event_updated, event_removed,
  ServiceError, wal_failed, reserved_map, unknown_processor, queue_failed, expire_from_ttl,
  remaining_ttl_ms, replicate, emit_unless_reserved, store_through, delete_through, put_entry,
  remove_entry, mutation_records, entry_removals, action_records, logged,
}

-- What a call returns: its result, its error, the node, and its effects in order.
abbrev pub Outcome : Type 0 → Type 0
Outcome A = A × Option ServiceError × Node × List Effect

-- The messages of `replicate` for the mutations of a queue operation, one mutation after the other
unfoldable pub replicate_mutations : Node → ℕ → List Mutation → List Effect
unfolding replicate
replicate_mutations n p [] = []
replicate_mutations n p (m ∷ ms) =
    replicate n p (λ addr.
      if m.deleted
      then remove_sent addr m.map_name m.key
      else put_sent addr m.map_name m.key m.contents 0)
    ++ replicate_mutations n p ms

-- A client's put on the owner, after the store and the log have it
unfoldable pub after_put : Node → Bytes → Bytes → Bytes → ℕ → Bool → Outcome Bool
unfolding replicate store_through is_reserved_map
after_put n name key contents ttl created =
    let (failed, through) = store_through n name key contents in
    let event = if created then event_created else event_updated in
    (
      created,
      failed,
      n,
      replicate n (routed_partition name key) (λ addr. put_sent addr name key contents ttl)
          ++ (emit_unless_reserved name (emitted event name key contents) ++ through),
    )

unfoldable pub after_remove : Node → Bytes → Bytes → Bool → Outcome Bool
unfolding replicate delete_through is_reserved_map
after_remove n name key existed =
    let (failed, through) = delete_through n name key in
    (
      existed,
      failed,
      n,
      replicate n (routed_partition name key) (λ addr. remove_sent addr name key)
          ++ ((if existed
                then emit_unless_reserved name (emitted event_removed name key [])
                else [])
              ++ through),
    )

module _ (n : Node) (name key new_val out : Bytes) (existed : Bool) where
  -- The `switch action` after a processor ran
  unfoldable pub after_execute : Action → ℕ → ℕ → Outcome Bytes
  unfolding replicate store_through delete_through is_reserved_map remaining_ttl_ms
  after_execute keep expire_at sent_at = (out, none, n, [])
  after_execute set expire_at sent_at =
      let (failed, through) = store_through n name key new_val in
      let event = if existed then event_updated else event_created in
      let ttl = remaining_ttl_ms expire_at sent_at in
      (
        out,
        failed,
        n,
        replicate n (for_key key) (λ addr. put_sent addr name key new_val ttl)
            ++ (emit_unless_reserved name (emitted event name key new_val) ++ through),
      )
  after_execute del expire_at sent_at =
      let (failed, through) = delete_through n name key in
      (
        out,
        failed,
        n,
        replicate n (for_key key) (λ addr. remove_sent addr name key)
            ++ ((if existed
                  then emit_unless_reserved name (emitted event_removed name key [])
                  else [])
                ++ through),
      )

abbrev pub queue_reply : Result Bytes → List Effect → Node → Outcome Bytes
queue_reply (ok out) effects n = (out, none, n, effects)
queue_reply (err e) effects n = ([], some (queue_failed e), n, [])

abbrev pub queue_out : Result Bytes → Bytes
queue_out (ok out) = out
queue_out (err e) = []

-- The closure that `applyExecute` hands to `update`, with what it captures
abbrev pub capture : Processor → Bytes → Bytes → Bool → Bytes × Action × (Bytes × Bytes × Bool)
capture proc arg cur exists =
    let (new_val, action, out) = proc cur exists arg in (new_val, action, (new_val, out, exists))

-- What the calls do once the store was changed and the change was logged
abbrev pub finish_put :
    Bytes → Bytes → Bytes → ℕ → Bool → Bool × Option WalError × Node → Outcome Bool
finish_put name key contents ttl is_backup r =
    let (created, failed, n') = r in
    elim failed [
      | some e ↦ (created, some (wal_failed e), n', [])
      | none ↦
          if is_backup then (created, none, n', []) else after_put n' name key contents ttl created
    ]

abbrev pub finish_remove : Bytes → Bytes → Bool → Bool × Option WalError × Node → Outcome Bool
finish_remove name key is_backup r =
    let (existed, failed, n') = r in
    elim failed [
      | some e ↦ (existed, some (wal_failed e), n', [])
      | none ↦ if is_backup then (existed, none, n', []) else after_remove n' name key existed
    ]

abbrev pub finish_evict : Bytes → Bytes → Bool × Option WalError × Node → Outcome Bool
finish_evict name key r =
    let (existed, failed, n') = r in
    elim failed [
      | some e ↦ (existed, some (wal_failed e), n', [])
      | none ↦ (
        existed,
        none,
        n',
        replicate n' (routed_partition name key) (λ addr. remove_sent addr name key),
      )
    ]

abbrev pub finish_queue :
    Bytes → (Result Bytes × List Mutation) × Option WalError × Node → Outcome Bytes
finish_queue name r =
    let ((reply, muts), failed, n') = r in
    elim failed [
      | some e ↦ (queue_out reply, some (wal_failed e), n', [])
      | none ↦ queue_reply reply (replicate_mutations n' (for_key name) muts) n'
    ]

-- What a processor's run leaves behind: its new value, its result and whether there was an entry; the
-- action; and the entry's expiry.
abbrev pub Ran : Type 0
Ran = (Bytes × Bytes × Bool) × Action × ℕ

abbrev pub finish_run : Bytes → Bytes → ℕ → Ran × Option WalError × Node → Outcome Bytes
finish_run name key sent_at r =
    let ((captured, action, expire_at), failed, n') = r in
    elim failed [
      | some e ↦ (captured.1, some (wal_failed e), n', [])
      | none ↦ after_execute n' name key captured.0 captured.1 captured.2 action expire_at sent_at
    ]

module _ (c : Codec) (n : Node) where
  unfoldable pub apply_put : Bytes → Bytes → Bytes → ℕ → Bool → ℕ → (ℕ → Disk) → Outcome Bool
  unfolding logged after_put expire_from_ttl routed_partition Store.put
  apply_put name key contents ttl is_backup now disk =
      let expire_at = expire_from_ttl ttl now in
      finish_put name key contents ttl is_backup (
        logged c n (λ s. Store.put s (routed_partition name key) name key contents expire_at now)
          (λ created. (op_put, put_entry name key contents expire_at) ∷ []) disk)

  unfoldable pub apply_remove : Bytes → Bytes → Bool → ℕ → (ℕ → Disk) → Outcome Bool
  unfolding logged after_remove routed_partition Store.remove
  apply_remove name key is_backup now disk = finish_remove name key is_backup (
      logged c n (λ s. Store.remove s (routed_partition name key) name key now)
        (λ existed. (op_remove, remove_entry name key) ∷ []) disk)

  unfoldable pub apply_evict : Bytes → Bytes → ℕ → (ℕ → Disk) → Outcome Bool
  unfolding logged replicate routed_partition Store.remove
  apply_evict name key now disk = finish_evict name key (
      logged c n (λ s. Store.remove s (routed_partition name key) name key now)
        (λ existed. (op_remove, remove_entry name key) ∷ []) disk)

  -- `applyQueueExecute`; an unknown operation has changed nothing.
  unfoldable pub apply_queue_execute : Bytes → Bytes → Bytes → ℕ → (ℕ → Disk) → Outcome Bytes
  unfolding logged replicate_mutations mutation_records update_multi queue_op
  apply_queue_execute name op arg now disk =
      let p = for_key name in
      finish_queue name (
        logged c n
          (λ s.
            let (reply, muts, s') = update_multi s p (queue_op name op arg now) in
            let both : (Result Bytes × List Mutation) × Store = ((reply, muts), s') in both)
          (λ r. mutation_records r.1) disk)

  -- `applyExecute` of a processor that was found, on a map that is not reserved
  unfoldable pub run_processor :
      Bytes → Bytes → Processor → Bytes → ℕ → ℕ → (ℕ → Disk) → Outcome Bytes
  unfolding logged after_execute update
  run_processor name key proc arg now sent_at disk = finish_run name key sent_at (
      logged c n
        (λ s.
          let (captured, action, expire_at, s') =
            update s (for_key key) name key (capture proc arg) now in
          let all : ((Bytes × Bytes × Bool) × Action × ℕ) × Store =
            ((captured, action, expire_at), s') in
          all)
        (λ r. action_records name key r.0.0 r.1 r.2) disk)

  unfoldable pub apply_execute : Bytes → Bytes → Bytes → Bytes → ℕ → ℕ → (ℕ → Disk) → Outcome Bytes
  unfolding apply_queue_execute run_processor lookup_processor same
  apply_execute name key proc_name arg now sent_at disk =
      if same name queue_map
      then apply_queue_execute key proc_name arg now disk
      else if same name queue_seg_map
      then ([], some reserved_map, n, [])
      else elim (lookup_processor proc_name) [
        | none ↦ ([], some (unknown_processor proc_name), n, [])
        | some proc ↦ run_processor name key proc arg now sent_at disk
      ]

  -- `localClearMap`: the number of entries removed
  unfoldable pub local_clear_map : Bytes → (ℕ → Disk) → ℕ × Option WalError × Node
  unfolding logged clear_map
  local_clear_map name disk =
      let (removed, failed, n') =
        logged c n (clear_map name)
          (λ removed. if length removed == 0 then [] else (op_clear, put_entry name [] [] 0) ∷ [])
          disk in
      (length removed, failed, n')

  -- `dropMigratedLogged`: a failed append stops the others and is not reported.
  unfoldable pub drop_migrated_logged : ℕ → List Entry → (ℕ → Disk) → Node
  unfolding logged drop_migrated entry_removals set_shard
  drop_migrated_logged p entries disk =
      (logged c n
        (λ s. let (gone, sh) = drop_migrated entries (s.shards p) in (gone, set_shard s p sh))
        entry_removals disk).2

  -- `pruneToKeysetLogged`: the number of keys pruned
  unfoldable pub prune_to_keyset_logged : ℕ → Keyset → (ℕ → Disk) → ℕ × Node
  unfolding logged prune_to_keyset entry_removals set_shard
  prune_to_keyset_logged p keyset disk =
      let (dropped, failed, n') =
        logged c n
          (λ s. let (gone, sh) = prune_to_keyset keyset (s.shards p) in (gone, set_shard s p sh))
          entry_removals disk in
      (length dropped, n')
