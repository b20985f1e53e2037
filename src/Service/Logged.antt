-- ===== src/Service/Logged.antt =====
-- imap/service.go: a request on a node whose log is open changes the store and appends its records.
use medusa.Base.{
  Option-cases, inl, inr, ℕ, ◌≡◌, refl, ap, sym, ◌∙◌, List, [], ◌∷◌, ◌++◌, Bytes, Bool, true, false,
  Option, none, some, if◌then◌else◌, ◌==◌, length, same, append-nil, append_assoc,
}
use medusa.Partition.{for_key}
use medusa.Processor.{Action, Processor, keep, set, del, lookup_processor}
use medusa.Txn.{Mutation}
use medusa.Store
use medusa.Store.{Store, update, update_multi}
use medusa.Queue.{queue_map, queue_seg_map, routed_partition, queue_op, Result, ok, err}
use medusa.Scan.{Entry}
use medusa.Owned.{clear_map, sweep_expired}
use medusa.Wal.{Codec, Disk, op_remove, op_clear, Wal, WalError, synced, append_locked}
use medusa.Wal.Replay.{LogRecord, log_bytes, AllFit, append_locked-log}
use medusa.Service.{
  Node, reserved_map, unknown_processor, with_state, expire_from_ttl, put_entry, remove_entry,
  mutation_records, action_records, append_all, logged,
}
use medusa.Service.Requests.{
  Ran, finish_put, finish_remove, finish_evict, finish_queue, finish_run, Outcome, capture,
  apply_put, apply_remove, apply_evict, apply_execute, apply_queue_execute, run_processor,
  local_clear_map, after_execute, after_put, after_remove,
}
use medusa.Service.Restart.{sweep}
use medusa.Service.Change.{
  Request, Change, put, remove, evict_key, execute, clear, sweep_now, all_synced, serve, change,
  execute_change, queue_change, processor_change,
}

module _ (c : Codec) where
  abbrev after_append : List LogRecord → Option WalError × Wal → Option WalError × Wal
  after_append more r =
      let (failed, w) = r in
      let rest = append_all c w more all_synced in
      elim failed [ none ↦ rest | some e ↦ (some e, w) ]

  append_all-step :
      (w : Wal) (r : LogRecord) (more : List LogRecord)
      → append_all c w (r ∷ more) all_synced ≡ after_append more (append_locked c w r.0 r.1 synced)
  unfolding append_all
  append_all-step w r more = refl

  append_all-log :
      (rs more : List LogRecord)
      → AllFit c more
      → append_all c (some (log_bytes c rs)) more all_synced
        ≡ (none, some (log_bytes c (rs ++ more)))
  unfolding append_all
  append_all-log rs [] h =
      ap (λ (l : List LogRecord). (none, some (log_bytes c l))) (sym (append-nil rs))
  append_all-log rs (r ∷ more) (hr, h) =
      append_all-step (some (log_bytes c rs)) r more
      ∙ ap (after_append more) (append_locked-log c rs r.0 r.1 hr)
      ∙ append_all-log (rs ++ (r ∷ [])) more h
      ∙ ap (λ (l : List LogRecord). (none, some (log_bytes c l))) (append_assoc rs (r ∷ []) more)

  -- The log of the node is open and holds these records.
  abbrev pub HasLog : Node → List LogRecord → Type 0
  HasLog n rs = n.wal ≡ some (some (log_bytes c rs))

  module _ {A : Type 0} (n : Node) (out : A) (s : Store) (records : List LogRecord) where
    abbrev after_write : Option WalError × Wal → A × Option WalError × Node
    after_write (failed, w) = (out, failed, with_state n s (some w))

    abbrev after_lock : Option Wal → A × Option WalError × Node
    after_lock none = (out, none, with_state n s none)
    after_lock (some w) = after_write (append_all c w records all_synced)

  -- The store is changed whether or not the records are written.
  pub logged-store :
      {A : Type 0} (n : Node) (mutate : Store → A × Store) (records : A → List LogRecord)
      (disk : ℕ → Disk)
      → (logged c n mutate records disk).2.store ≡ (mutate n.store).1
  unfolding logged
  logged-store n mutate records disk = elim (Option-cases n.wal) [
    | inl e ↦ rw (e, logged) refl
    | inr (w, e) ↦ rw (e, logged) refl
  ]

  logged-open :
      {A : Type 0} (n : Node) (rs : List LogRecord) (mutate : Store → A × Store)
      (records : A → List LogRecord)
      → HasLog n rs
      → AllFit c (records (mutate n.store).0)
      → logged c n mutate records all_synced ≡ (
        (mutate n.store).0,
        none,
        with_state n
            (mutate n.store).1
            (some (some (log_bytes c (rs ++ records (mutate n.store).0)))),
      )
  unfolding logged
  logged-open n rs mutate records w h =
      let (out, s) = mutate n.store in
      ap (after_lock n out s (records out)) w
      ∙ ap (after_write n out s (records out)) (append_all-log rs (records out) h)

  -- The node after a change
  abbrev pub changed_to : Node → List LogRecord → Change → Node
  changed_to n rs d = with_state n d.1 (some (some (log_bytes c (rs ++ d.0))))

  module _ (n : Node) (rs : List LogRecord) (w : HasLog n rs) (now : ℕ) where
    put-node :
        (name key contents : Bytes) (ttl : ℕ) (is_backup created : Bool) (n' : Node)
        → (finish_put name key contents ttl is_backup (created, none, n')).2 ≡ n'
    unfolding after_put
    put-node name key contents ttl true created n' = refl
    put-node name key contents ttl false created n' = refl

    serve-put :
        (name key contents : Bytes) (ttl : ℕ) (is_backup : Bool)
        → AllFit c (change (put name key contents ttl is_backup) now n.store).0
        → serve c (put name key contents ttl is_backup) now n
          ≡ changed_to n rs (change (put name key contents ttl is_backup) now n.store)
    unfolding apply_put
    serve-put name key contents ttl is_backup h =
        ap (λ (r : Bool × Option WalError × Node). (finish_put name key contents ttl is_backup r).2)
          (logged-open n rs
            (λ s.
              Store.put s (routed_partition name key) name key contents (expire_from_ttl ttl now)
                now)
            (λ created. (change (put name key contents ttl is_backup) now n.store).0) w h)
        ∙ put-node name key contents ttl is_backup _ _

    remove-node :
        (name key : Bytes) (is_backup existed : Bool) (n' : Node)
        → (finish_remove name key is_backup (existed, none, n')).2 ≡ n'
    unfolding after_remove
    remove-node name key true existed n' = refl
    remove-node name key false existed n' = refl

    serve-remove :
        (name key : Bytes) (is_backup : Bool)
        → AllFit c (change (remove name key is_backup) now n.store).0
        → serve c (remove name key is_backup) now n
          ≡ changed_to n rs (change (remove name key is_backup) now n.store)
    unfolding apply_remove
    serve-remove name key is_backup h =
        ap (λ (r : Bool × Option WalError × Node). (finish_remove name key is_backup r).2)
          (logged-open n rs (λ s. Store.remove s (routed_partition name key) name key now)
            (λ existed. (op_remove, remove_entry name key) ∷ []) w h)
        ∙ remove-node name key is_backup _ _

    serve-evict :
        (name key : Bytes)
        → AllFit c (change (evict_key name key) now n.store).0
        → serve c (evict_key name key) now n
          ≡ changed_to n rs (change (evict_key name key) now n.store)
    unfolding apply_evict
    serve-evict name key h =
        ap (λ (r : Bool × Option WalError × Node). (finish_evict name key r).2)
          (logged-open n rs (λ s. Store.remove s (routed_partition name key) name key now)
            (λ existed. (op_remove, remove_entry name key) ∷ []) w h)

    serve-clear :
        (name : Bytes)
        → AllFit c (change (clear name) now n.store).0
        → serve c (clear name) now n ≡ changed_to n rs (change (clear name) now n.store)
    unfolding local_clear_map
    serve-clear name h =
        ap (λ (r : List Entry × Option WalError × Node). r.2)
          (logged-open n rs (clear_map name)
            (λ removed. if length removed == 0 then [] else (op_clear, put_entry name [] [] 0) ∷ [])
            w h)

    abbrev queue_mutate : Bytes → Bytes → Bytes → Store → (Result Bytes × List Mutation) × Store
    queue_mutate name op arg s =
        let r = update_multi s (for_key name) (queue_op name op arg now) in ((r.0, r.1), r.2)

    queue-node :
        (name : Bytes) (reply : Result Bytes) (muts : List Mutation) (n' : Node)
        → (finish_queue name ((reply, muts), none, n')).2 ≡ n'
    queue-node name (ok out) muts n' = refl
    queue-node name (err e) muts n' = refl

    serve-queue :
        (name op arg : Bytes)
        → AllFit c (queue_change name op arg now n.store).0
        → (apply_queue_execute c n name op arg now all_synced).2
          ≡ changed_to n rs (queue_change name op arg now n.store)
    unfolding apply_queue_execute
    serve-queue name op arg h =
        ap
          (λ (r : (Result Bytes × List Mutation) × Option WalError × Node). (finish_queue name r).2)
          (logged-open n rs (queue_mutate name op arg) (λ r. mutation_records r.1) w h)
        ∙ queue-node name _ _ _

    abbrev run_mutate : Bytes → Bytes → Processor → Bytes → Store → Ran × Store
    run_mutate name key proc arg s =
        let r = update s (for_key key) name key (capture proc arg) now in ((r.0, r.1, r.2), r.3)

    run-node :
        (name key : Bytes) (captured : Bytes × Bytes × Bool) (a : Action) (expire_at : ℕ)
        (n' : Node)
        → (finish_run name key now ((captured, a, expire_at), none, n')).2 ≡ n'
    unfolding after_execute
    run-node name key captured keep expire_at n' = refl
    run-node name key captured set expire_at n' = refl
    run-node name key captured del expire_at n' = refl

    serve-run :
        (name key : Bytes) (proc : Processor) (arg : Bytes)
        → AllFit c (processor_change name key proc arg now n.store).0
        → (run_processor c n name key proc arg now now all_synced).2
          ≡ changed_to n rs (processor_change name key proc arg now n.store)
    unfolding run_processor
    serve-run name key proc arg h =
        ap (λ (r : Ran × Option WalError × Node). (finish_run name key now r).2)
          (logged-open n rs (run_mutate name key proc arg)
            (λ r. action_records name key r.0.0 r.1 r.2) w h)
        ∙ run-node name key _ _ _ _

    abbrev execute_by :
        Bytes → Bytes → Bytes → Bytes → Bool → Bool → Option Processor → Outcome Bytes
    execute_by name key op arg queues segments found =
        if queues
        then apply_queue_execute c n key op arg now all_synced
        else if segments
        then ([], some reserved_map, n, [])
        else elim found [
          | none ↦ ([], some (unknown_processor op), n, [])
          | some proc ↦ run_processor c n name key proc arg now now all_synced
        ]

    unlogged : n ≡ changed_to n rs ([], n.store)
    unlogged =
        ap (with_state n n.store) w
        ∙ ap (λ (l : List LogRecord). with_state n n.store (some (some (log_bytes c l))))
            (sym (append-nil rs))

    serve-by :
        (name key op arg : Bytes) (queues segments : Bool) (found : Option Processor)
        → AllFit c (execute_change name key op arg now n.store queues segments found).0
        → (execute_by name key op arg queues segments found).2
          ≡ changed_to n rs (execute_change name key op arg now n.store queues segments found)
    serve-by name key op arg true segments found h = serve-queue key op arg h
    serve-by name key op arg false true found h = unlogged
    serve-by name key op arg false false none h = unlogged
    serve-by name key op arg false false (some proc) h = serve-run name key proc arg h

    -- A request on a node whose log is open leaves the store of its change, and its records in the log.
    pub serve-change :
        (q : Request)
        → AllFit c (change q now n.store).0
        → serve c q now n ≡ changed_to n rs (change q now n.store)
    serve-change (put name key contents ttl is_backup) h =
        serve-put name key contents ttl is_backup h
    serve-change (remove name key is_backup) h = serve-remove name key is_backup h
    serve-change (evict_key name key) h = serve-evict name key h
    serve-change (execute name key op arg) h =
        unfold apply_execute in
        serve-by name key op arg (same name queue_map) (same name queue_seg_map)
          (lookup_processor op) h
    serve-change (clear name) h = serve-clear name h
    serve-change sweep_now h =
        unfold sweep in
        ap (λ (o : Option Wal). with_state n (sweep_expired now n.store).1 o)
          (w ∙ ap (λ (l : List LogRecord). some (some (log_bytes c l))) (sym (append-nil rs)))
