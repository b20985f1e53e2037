-- ===== src/Service/Lapsing.antt =====
-- imap/service.go: `applyExecute` on an entry of which less than a millisecond is left, and its backups.
use medusa.Base.{
  ℕ, ◌+◌, ◌^◌, ◌<◌, ◌≤◌, ◌≡◌, refl, ap, sym, ◌∙◌, List, ◌++◌, Bytes, Bool, true, false, Option,
  none, some, arith, inl, inr, Option-cases, ==_iff, same, same_self,
}
use medusa.Shard.{Value, assign, live, find-assign}
use medusa.Store.{Store, set_shard, update}
use medusa.Processor.{Processor, Action, set, lookup_processor}
use medusa.Queue.{queue_map, queue_seg_map, routed_partition}
use medusa.Partition.{for_key}
use medusa.Wal.{Codec, WalError, Disk}
use medusa.Service.{
  Node, Effect, put_sent, replicate, remaining_ttl_ms, logged, LogRecord, action_records,
  emit_unless_reserved, emitted, event_updated, store_through,
}
use medusa.Service.Requests.{
  Ran, Outcome, capture, finish_run, run_processor, apply_execute, apply_put, after_execute,
}
use medusa.Service.Logged.{logged-store}
use medusa.Service.Agree.{find_at, find-set_shard}
use medusa.Service.Expiry.{apply_put-remaining_ttl_ms, remaining-none}

module _ (name key arg new out : Bytes) (proc : Processor) (v : Value) (now : ℕ) where
  -- A processor that sets a live entry keeps the entry's expiry.
  update-set :
      (s : Store)
      → live now (find_at s (for_key key) name key) ≡ some v
      → proc v.stored true arg ≡ (new, set, out)
      → update s (for_key key) name key (capture proc arg) now ≡ (
        (new, out, true),
        set,
        v.expire_at,
        set_shard s (for_key key) (
            assign
              (s.shards (for_key key))
              name
              key
              (record { stored = new; expire_at = v.expire_at })),
      )
  unfolding update medusa.Store.apply_action
  update-set s alive runs = rw (alive, runs) refl

  abbrev run_mutate : Store → Ran × Store
  run_mutate s =
      let r = update s (for_key key) name key (capture proc arg) now in ((r.0, r.1, r.2), r.3)

  find-run_mutate :
      (s : Store)
      → live now (find_at s (for_key key) name key) ≡ some v
      → proc v.stored true arg ≡ (new, set, out)
      → find_at (run_mutate s).1 (for_key key) name key
        ≡ some (record { stored = new; expire_at = v.expire_at })
  find-run_mutate s alive runs = rw (update-set s alive runs) (
      ground (
        arith,
        find-set_shard s (for_key key)
            (assign (s.shards (for_key key)) name key
              (record { stored = new; expire_at = v.expire_at }))
            (for_key key) name key,
        ==_iff (for_key key) (for_key key),
        find-assign (s.shards (for_key key)) name name key key
            (record { stored = new; expire_at = v.expire_at }),
        same_self name,
        same_self key,
      ))

module _ (c : Codec) where
  logged-result :
      {A : Type 0} (n : Node) (mutate : Store → A × Store) (records : A → List LogRecord)
      (disk : ℕ → Disk)
      → (logged c n mutate records disk).0 ≡ (mutate n.store).0
  unfolding logged
  logged-result n mutate records disk = elim (Option-cases n.wal) [
    | inl e ↦ rw (e, logged) refl
    | inr (w, e) ↦ rw (e, logged) refl
  ]

module _ (name key new out : Bytes) (expire_at sent_at : ℕ) where
  finish_run-set :
      (n : Node) (failed : Option WalError)
      → (finish_run name key sent_at (((new, out, true), set, expire_at), failed, n)).1 ≡ none
      → (rest : List Effect) × (finish_run name key sent_at
            (((new, out, true), set, expire_at), failed, n)
          ≡ (
            out,
            none,
            n,
            replicate n
                  (for_key key)
                  (λ addr. put_sent addr name key new (remaining_ttl_ms expire_at sent_at))
                ++ rest,
          ))
  unfolding after_execute
  finish_run-set n (some e) h = absurd (ground (arith, h))
  finish_run-set n none h =
      let rest =
        emit_unless_reserved name (emitted event_updated name key new)
        ++ (store_through n name key new).1 in
      (
        rest,
        λ i. (
          out,
          h i,
          n,
          replicate n (for_key key)
                (λ addr. put_sent addr name key new (remaining_ttl_ms expire_at sent_at))
              ++ rest,
        ),
      )

module _ (c : Codec) (owner backup : Node) (name key arg new out proc_name : Bytes)
    (proc : Processor) (v : Value) (now sent_at later : ℕ) (disk backup_disk : ℕ → Disk) where
  abbrev execute_log : Ran × Option WalError × Node
  execute_log =
      logged c owner (run_mutate name key arg new out proc v now)
        (λ r. action_records name key r.0.0 r.1 r.2) disk

  execute-finish :
      same name queue_map ≡ false
      → same name queue_seg_map ≡ false
      → lookup_processor proc_name ≡ some proc
      → live now (find_at owner.store (for_key key) name key) ≡ some v
      → proc v.stored true arg ≡ (new, set, out)
      → apply_execute c owner name key proc_name arg now sent_at disk
        ≡ finish_run name key sent_at
            (((new, out, true), set, v.expire_at), execute_log.1, execute_log.2)
  unfolding apply_execute run_processor
  execute-finish plain unsegmented found alive runs =
      let ran : Ran = ((new, out, true), set, v.expire_at) in
      let updated : (run_mutate name key arg new out proc v now owner.store).0 ≡ ran =
        ap (λ (r : (Bytes × Bytes × Bool) × Action × ℕ × Store). let x : Ran = (r.0, r.1, r.2) in x)
          (update-set name key arg new out proc v now owner.store alive runs) in
      let logs : execute_log.0 ≡ ran =
        logged-result c owner (run_mutate name key arg new out proc v now)
          (λ r. action_records name key r.0.0 r.1 r.2) disk
        ∙ updated in
      rw (plain, unsegmented, found)
        (ap (λ (r : Ran). finish_run name key sent_at (r, execute_log.1, execute_log.2)) logs)

  -- If a call of a processor that sets a live entry, of a map that is not reserved for the queues, succeeds
  -- on the owner, when less than a millisecond
  -- of the entry's lifetime is left, then the owner keeps the entry's expiry, and it sends its backups
  -- the new value with a lifetime of 0, which a backup stores as an entry that never expires.
  pub apply_execute-remaining_ttl_ms :
      same name queue_map ≡ false
      → same name queue_seg_map ≡ false
      → lookup_processor proc_name ≡ some proc
      → live now (find_at owner.store (for_key key) name key) ≡ some v
      → proc v.stored true arg ≡ (new, set, out)
      → v.expire_at < 2 ^ 63
      → sent_at ≤ v.expire_at
      → v.expire_at < sent_at + 1000000
      → (apply_execute c owner name key proc_name arg now sent_at disk).1 ≡ none
      → (owner' : Node) × (rest : List Effect) × (apply_execute c owner name key proc_name arg now
            sent_at disk
          ≡ (
            out,
            none,
            owner',
            replicate owner' (for_key key) (λ addr. put_sent addr name key new 0) ++ rest,
          ))
        × (find_at owner'.store (for_key key) name key
            ≡ some (record { stored = new; expire_at = v.expire_at }))
        × (find_at
              (apply_put c backup name key new 0 true later backup_disk).2.store
              (routed_partition name key)
              name
              key
            ≡ some (record { stored = new; expire_at = 0 }))
  apply_execute-remaining_ttl_ms plain unsegmented found alive runs h a b fine =
      let ends = execute-finish plain unsegmented found alive runs in
      let (rest, done) =
        finish_run-set name key new out v.expire_at sent_at execute_log.2 execute_log.1
          (sym (ap (λ (r : Outcome Bytes). r.1) ends) ∙ fine) in
      let lapses = remaining-none v.expire_at sent_at h a b in
      (
        execute_log.2,
        rest,
        ends
            ∙ done
            ∙ ap
                (λ (ttl : ℕ). (
                  out,
                  none,
                  execute_log.2,
                  replicate execute_log.2 (for_key key) (λ addr. put_sent addr name key new ttl)
                      ++ rest,
                ))
                lapses,
        ap (λ (s : Store). find_at s (for_key key) name key)
              (logged-store c owner (run_mutate name key arg new out proc v now) _ disk)
            ∙ find-run_mutate name key arg new out proc v now owner.store alive runs,
        ap
              (λ (ttl : ℕ).
                find_at (apply_put c backup name key new ttl true later backup_disk).2.store
                  (routed_partition name key) name key)
              (sym lapses)
            ∙ apply_put-remaining_ttl_ms c backup name key new v.expire_at sent_at later backup_disk
                h a b,
      )
