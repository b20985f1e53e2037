-- ===== src/Service/Replayed.antt =====
-- imap/service.go: replaying the records of a request makes the change that the request made.
use medusa.Base.{
  ℕ, ◌≡◌, refl, ap, sym, ◌∙◌, List, [], ◌∷◌, ◌++◌, Bytes, false, none, some, inl, inr, Bool-cases,
  if◌then◌else◌, ◌==◌, ==_iff, map, length, same,
}
use medusa.Partition.{for_key}
use medusa.Shard.{live, open_bucket}
use medusa.Processor.{Action, keep, set, del}
use medusa.Store
use medusa.Store.{Store, set_shard, update, update_multi, apply_action}
use medusa.Reads.{same_place}
use medusa.Queue.{routed_partition}
use medusa.Scan.{Entry}
use medusa.Owned.{clear_map}
use medusa.Wal.{op_put, op_remove, op_clear}
use medusa.Wal.Replay.{LogRecord, call}
use medusa.Service.{put_entry, remove_entry, action_records}
use medusa.Service.Restart.{lapsed, is_legacy, replay_put, replay_call, replay_calls}
use medusa.Service.Agree.{
  Agree, Agree-written, Agree-unchanged, find_at, find-put, find-remove, find-clear_map,
  find-clear_none, find-keep, find-del,
}
use medusa.Service.Change.{clear_change}

-- The record is not a put that has lapsed by `later`, nor one of a queue in the format of old.
abbrev pub Lasts : ℕ → LogRecord → Type 0
Lasts later (op_put, e) = (lapsed e later ≡ false) × (is_legacy e ≡ false)
Lasts later (op_remove, e) = Unit
Lasts later (op_clear, e) = Unit

abbrev pub AllLast : ℕ → List LogRecord → Type 0
AllLast later [] = Unit
AllLast later (r ∷ rs) = Lasts later r × AllLast later rs

-- What `OpenWAL` makes of the records at `later`
abbrev pub replayed : ℕ → List LogRecord → Store → Store
replayed later rs s = replay_calls (map call rs) later s

pub replayed-append :
    (later : ℕ) (rs ss : List LogRecord) (s : Store)
    → replayed later (rs ++ ss) s ≡ replayed later ss (replayed later rs s)
unfolding replay_calls
replayed-append later [] ss s = refl
replayed-append later (r ∷ rs) ss s = replayed-append later rs ss (replay_call (call r) later s)

-- Of a list of records that last, both parts do.
pub AllLast-split :
    (later : ℕ) (rs ss : List LogRecord)
    → AllLast later (rs ++ ss)
    → AllLast later rs × AllLast later ss
AllLast-split later [] ss h = (tt, h)
AllLast-split later (r ∷ rs) ss (hr, h) = let (a, b) = AllLast-split later rs ss h in ((hr, a), b)

module _ (later : ℕ) where
  pub replayed-put :
      (s : Store) (e : Entry) (q : ℕ) (name key : Bytes)
      → Lasts later (op_put, e)
      → find_at (replayed later ((op_put, e) ∷ []) s) q name key ≡ (
          if same_place (routed_partition e.map_name e.key) e.map_name e.key q name key
          then some (record { stored = e.contents; expire_at = e.expire_at })
          else find_at s q name key)
  unfolding replay_calls replay_call replay_put
  replayed-put s e q name key (l, g) =
      rw (l, g)
        (find-put s (routed_partition e.map_name e.key) e.map_name e.key q name key e.contents
          e.expire_at later)

  pub replayed-remove :
      (s : Store) (e : Entry) (q : ℕ) (name key : Bytes)
      → find_at (replayed later ((op_remove, e) ∷ []) s) q name key ≡ (
          if same_place (routed_partition e.map_name e.key) e.map_name e.key q name key
          then none
          else find_at s q name key)
  unfolding replay_calls replay_call
  replayed-remove s e q name key =
      find-remove s (routed_partition e.map_name e.key) e.map_name e.key q name key later

  pub replayed-clear :
      (s : Store) (e : Entry) (q : ℕ) (name key : Bytes)
      → find_at (replayed later ((op_clear, e) ∷ []) s) q name key
        ≡ (if same e.map_name name then none else find_at s q name key)
  unfolding replay_calls replay_call
  replayed-clear s e q name key = find-clear_map s e.map_name q name key

  -- A change that the replay of one record makes as well
  pub put-Agree :
      (s s' r : Store) (e : Entry)
      → ((q : ℕ) (name key : Bytes)
          → find_at s' q name key ≡ (
              if same_place (routed_partition e.map_name e.key) e.map_name e.key q name key
              then some (record { stored = e.contents; expire_at = e.expire_at })
              else find_at s q name key))
      → Lasts later (op_put, e)
      → Agree later s r
      → Agree later s' (replayed later ((op_put, e) ∷ []) r)
  put-Agree s s' r e found l h =
      Agree-written later s s' r (replayed later ((op_put, e) ∷ []) r)
        (same_place (routed_partition e.map_name e.key) e.map_name e.key)
        (some (record { stored = e.contents; expire_at = e.expire_at })) found
        (λ q name key. replayed-put r e q name key l) h

  pub remove-Agree :
      (s s' r : Store) (e : Entry)
      → ((q : ℕ) (name key : Bytes)
          → find_at s' q name key ≡ (
              if same_place (routed_partition e.map_name e.key) e.map_name e.key q name key
              then none
              else find_at s q name key))
      → Agree later s r
      → Agree later s' (replayed later ((op_remove, e) ∷ []) r)
  remove-Agree s s' r e found h =
      Agree-written later s s' r (replayed later ((op_remove, e) ∷ []) r)
        (same_place (routed_partition e.map_name e.key) e.map_name e.key) none found
        (λ q name key. replayed-remove r e q name key) h

  pub clear-Agree :
      (s r : Store) (name : Bytes)
      → Agree later s r
      → Agree later (clear_change name s).1 (replayed later (clear_change name s).0 r)
  clear-Agree s r name h = elim (Bool-cases (length (clear_map name s).0 == 0)) [
    | inl e ↦ rw e (
        unfold replay_calls in
        Agree-unchanged later s (clear_map name s).1 r
          (λ q n k lt.
            ap (live later)
              (find-clear_none s name q n k ((==_iff (length (clear_map name s).0) 0).0 e) lt))
          h)
    | inr e ↦ rw e (
        Agree-written later s (clear_map name s).1 r
          (replayed later ((op_clear, put_entry name [] [] 0) ∷ []) r) (λ q n k. same name n) none
          (λ q n k. find-clear_map s name q n k)
          (λ q n k. replayed-clear r (put_entry name [] [] 0) q n k) h)
  ]

  pub action-Agree :
      (s r : Store) (name key new_val : Bytes) (expire_at : ℕ) (a : Action)
      → routed_partition name key ≡ for_key key
      → AllLast later (
          action_records name key new_val
            (apply_action s (for_key key) name key expire_at new_val a).0
            (apply_action s (for_key key) name key expire_at new_val a).1)
      → Agree later s r
      → Agree later (apply_action s (for_key key) name key expire_at new_val a).2 (
          replayed later
            (action_records name key new_val
              (apply_action s (for_key key) name key expire_at new_val a).0
              (apply_action s (for_key key) name key expire_at new_val a).1)
            r)
  unfolding apply_action
  action-Agree s r name key new_val expire_at keep home l h =
      unfold replay_calls in
      Agree-unchanged later s
        (set_shard s (for_key key) (open_bucket (s.shards (for_key key)) name)) r
        (λ q n k lt. ap (live later) (find-keep s (for_key key) name key q n k)) h
  action-Agree s r name key new_val expire_at set home (l, _) h =
      put-Agree s _ r (put_entry name key new_val expire_at)
        (λ q n k.
          unfold Store.put in
          ap (λ (p : ℕ). find_at (Store.put s p name key new_val expire_at 0).1 q n k) (sym home)
          ∙ find-put s (routed_partition name key) name key q n k new_val expire_at 0)
        l h
  action-Agree s r name key new_val expire_at del home l h =
      remove-Agree s _ r (remove_entry name key)
        (λ q n k.
          find-del s (for_key key) name key q n k
          ∙ ap (λ (p : ℕ). if same_place p name key q n k then none else find_at s q n k)
              (sym home))
        h
