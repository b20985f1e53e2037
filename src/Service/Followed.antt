-- ===== src/Service/Followed.antt =====
-- imap/service.go: the replay of what each request logs follows the request.
use medusa.Base.{
  ℕ, ◌≡◌, refl, ap, sym, subst, ◌∙◌, List, [], ◌∷◌, ◌++◌, Bytes, Bool, true, false, Option, none,
  some, inl, inr, Bool-cases, if◌then◌else◌, ◌==◌, ==_iff, same,
}
use medusa.Bytes.{slt}
use medusa.Partition.{for_key}
use medusa.Shard.{live}
use medusa.Processor.{Processor, lookup_processor}
use medusa.Txn
use medusa.Txn.{Txn, Mutation}
use medusa.Store.{Store, set_shard, update, update_multi}
use medusa.Reads.{same_place}
use medusa.Queue.{queue_map, queue_seg_map, routed_partition}
use medusa.Queue.Keys.{home_ordinary}
use medusa.Queue.Closed.{Keeps, queue_op-Keeps}
use medusa.Scan.Cleanup.{sweep_shard-live}
use medusa.Owned.{sweep_expired}
use medusa.Invariant.{IsStore}
use medusa.Wal.{op_put, op_remove}
use medusa.Wal.Replay.{LogRecord}
use medusa.Service.{expire_from_ttl, put_entry, remove_entry, mutation_records}
use medusa.Service.Restart.{replay_calls}
use medusa.Service.Agree.{
  Agree, Agree-unchanged, find_at, find-put, find-remove, find-txn_set, find-txn_del,
  find-set_shard,
}
use medusa.Service.Change.{
  Request, change, put, remove, evict_key, execute, clear, sweep_now, execute_change, queue_change,
}
use medusa.Service.Replayed.{
  Lasts, AllLast, AllLast-split, replayed, replayed-append, put-Agree, remove-Agree, clear-Agree,
  action-Agree,
}

module _ (later : ℕ) where
  mutation_records-append :
      (a b : List Mutation) → mutation_records (a ++ b) ≡ mutation_records a ++ mutation_records b
  unfolding mutation_records
  mutation_records-append [] b = refl
  mutation_records-append (m ∷ a) b =
      ap
        (λ (l : List LogRecord).
          (if m.deleted
            then (op_remove, remove_entry m.map_name m.key)
            else (op_put, put_entry m.map_name m.key m.contents 0))
          ∷ l)
        (mutation_records-append a b)

  module _ (s r : Store) (home : ℕ) where
    -- Replaying the mutations so far makes what the critical section has made of the shard.
    abbrev Follows : Txn → Type 0
    Follows t =
        AllLast later (mutation_records t.muts)
        → Agree later (set_shard s home t.shard) (replayed later (mutation_records t.muts) r)

    -- One mutation more
    Follows-next :
        (t t' : Txn) (m : Mutation) (last : LogRecord)
        → t'.muts ≡ t.muts ++ (m ∷ [])
        → mutation_records (m ∷ []) ≡ last ∷ []
        → (Lasts later last
            → (u : Store) → Agree later (set_shard s home t.shard) u
            → Agree later (set_shard s home t'.shard) (replayed later (last ∷ []) u))
        → Follows t
        → Follows t'
    Follows-next t t' m last grown one step w l =
        let records : mutation_records t'.muts ≡ mutation_records t.muts ++ (last ∷ []) =
          ap mutation_records grown
          ∙ mutation_records-append t.muts (m ∷ [])
          ∙ ap (λ (x : List LogRecord). mutation_records t.muts ++ x) one in
        let (before, (at_last, _)) =
          AllLast-split later (mutation_records t.muts) (last ∷ [])
            (subst (AllLast later) records l) in
        subst (λ (u : Store). Agree later (set_shard s home t'.shard) u)
          (sym (
            ap (λ (x : List LogRecord). replayed later x r) records
            ∙ replayed-append later (mutation_records t.muts) (last ∷ []) r))
          (step at_last (replayed later (mutation_records t.muts) r) (w before))

    Keeps-Follows : Keeps home Follows
    Keeps-Follows = record {
      by_set = λ t name key val at_home w.
          Follows-next t (Txn.set t name key val)
            (record { map_name = name; key = key; contents = val; deleted = false })
            (op_put, put_entry name key val 0) (unfold Txn.set in refl)
            (unfold mutation_records in refl)
            (λ l u h.
              put-Agree later (set_shard s home t.shard) _ u (put_entry name key val 0)
                (λ q n k.
                  find-txn_set s home name key q n k t val
                  ∙ ap
                      (λ (p : ℕ).
                        if same_place p name key q n k
                        then some (record { stored = val; expire_at = 0 })
                        else find_at (set_shard s home t.shard) q n k)
                      (sym at_home))
                l h)
            w;
      by_del = λ t name key at_home w.
          Follows-next t (Txn.del t name key)
            (record { map_name = name; key = key; contents = []; deleted = true })
            (op_remove, remove_entry name key) (unfold Txn.del in refl)
            (unfold mutation_records in refl)
            (λ l u h.
              remove-Agree later (set_shard s home t.shard) _ u (remove_entry name key)
                (λ q n k.
                  find-txn_del s home name key q n k t
                  ∙ ap
                      (λ (p : ℕ).
                        if same_place p name key q n k
                        then none
                        else find_at (set_shard s home t.shard) q n k)
                      (sym at_home))
                h)
            w;
    }

  queue-Agree :
      (s r : Store) (name op arg : Bytes) (now : ℕ)
      → AllLast later (queue_change name op arg now s).0
      → Agree later s r
      → Agree later
          (queue_change name op arg now s).1
          (replayed later (queue_change name op arg now s).0 r)
  unfolding update_multi
  queue-Agree s r name op arg now l h =
      let home = for_key name in
      let opened : Txn = record { shard = s.shards home; muts = [] } in
      queue_op-Keeps (Follows s r home) name op arg now opened (Keeps-Follows s r home)
        (λ _.
          unfold mutation_records replay_calls in
          Agree-unchanged later s (set_shard s home (s.shards home)) r
            (λ q n k lt. ap (live later) (
              find-set_shard s home (s.shards home) q n k ∙ elim (Bool-cases (q == home)) [
                | inl e ↦ rw e (ap (λ (p : ℕ). find_at s p n k) (sym ((==_iff q home).0 e)))
                | inr e ↦ rw e
              ]))
            h)
        l

  execute-Agree :
      (s r : Store) (name key op arg : Bytes) (now : ℕ) (queues segments : Bool)
      (found : Option Processor)
      → same name queue_seg_map ≡ segments
      → AllLast later (execute_change name key op arg now s queues segments found).0
      → Agree later s r
      → Agree later
          (execute_change name key op arg now s queues segments found).1
          (replayed later (execute_change name key op arg now s queues segments found).0 r)
  execute-Agree s r name key op arg now true segments found e l h =
      queue-Agree s r key op arg now l h
  execute-Agree s r name key op arg now false true found e l h = unfold replay_calls in h
  execute-Agree s r name key op arg now false false none e l h = unfold replay_calls in h
  execute-Agree s r name key op arg now false false (some proc) e l h =
      unfold update in action-Agree later s r name key _ _ _ (home_ordinary name key e) l h

  sweep-Agree :
      (s r : Store) (now : ℕ)
      → IsStore s
      → slt later now ≡ false
      → Agree later s r
      → Agree later (sweep_expired now s).1 r
  unfolding sweep_expired
  sweep-Agree s r now w since h =
      Agree-unchanged later s _ r
        (λ q n k lt.
          (sweep_shard-live now later (s.shards q) n k (record { stored = []; expire_at = 0 }) (w q)
            since).0)
        h

  -- If what the request logs lasts until `later`, the stores agree after the request on the one and
  -- the replay of its records on the other when they agreed before.
  pub change-Agree :
      (q : Request) (now : ℕ) (s r : Store)
      → IsStore s
      → slt later now ≡ false
      → AllLast later (change q now s).0
      → Agree later s r
      → Agree later (change q now s).1 (replayed later (change q now s).0 r)
  change-Agree (put name key contents ttl is_backup) now s r w since (l, _) h =
      put-Agree later s _ r (put_entry name key contents (expire_from_ttl ttl now))
        (λ q n k.
          find-put s (routed_partition name key) name key q n k contents (expire_from_ttl ttl now)
            now)
        l h
  change-Agree (remove name key is_backup) now s r w since l h =
      remove-Agree later s _ r (remove_entry name key)
        (λ q n k. find-remove s (routed_partition name key) name key q n k now) h
  change-Agree (evict_key name key) now s r w since l h =
      remove-Agree later s _ r (remove_entry name key)
        (λ q n k. find-remove s (routed_partition name key) name key q n k now) h
  change-Agree (execute name key op arg) now s r w since l h =
      execute-Agree s r name key op arg now (same name queue_map) (same name queue_seg_map)
        (lookup_processor op) refl l h
  change-Agree (clear name) now s r w since l h = clear-Agree later s r name h
  change-Agree sweep_now now s r w since l h = unfold replay_calls in sweep-Agree s r now w since h
