-- ===== src/Invariant.antt =====
-- imap/store.go: every operation keeps the store a map of maps, in which no key stands twice.
use medusa.Base.{ℕ, List, [], ◌∷◌, Bytes, Option-cases, Bool-cases, inl, inr, ◌==◌}
use medusa.Shard.{Shard, Bucket, find, live, bucket}
use medusa.Txn
use medusa.Txn.{Txn}
use medusa.Processor.{Action, Processor, keep, set, del}
use medusa.Store
use medusa.Store.{Store, new_store, set_shard, cache_loaded, update, apply_action, update_multi}
use medusa.Partition.{for_key}
use medusa.Queue.{queue_op}
use medusa.Queue.Closed.{Keeps, queue_op-Keeps}
use medusa.Scan.{Entry, Keyset, prune_to_keyset, drop_migrated, sweep_shard}
use medusa.Scan.Distinct.{
  IsShard, IsShard-assign, IsShard-open_bucket, IsShard-delete, IsShard-discard,
  IsShard-discard_reclaim, IsShard-retain,
}
use medusa.Scan.Migration.{IsShard-drop_migrated}
use medusa.Owned.{sweep_expired, clear_map, clear_bucket}

-- The operations of the store that change it.
pub data StoreOp : Type 0 where
  put : ℕ → Bytes → Bytes → Bytes → ℕ → ℕ → StoreOp
  cache_loaded_op : ℕ → Bytes → Bytes → Bytes → ℕ → StoreOp
  remove : ℕ → Bytes → Bytes → ℕ → StoreOp
  execute : ℕ → Bytes → Bytes → Processor → Bytes → ℕ → StoreOp
  queue : ℕ → Bytes → Bytes → Bytes → ℕ → StoreOp
  prune : ℕ → Keyset → StoreOp
  drop_moved : ℕ → List Entry → StoreOp
  sweep : ℕ → StoreOp
  clear : Bytes → StoreOp

unfoldable pub step : StoreOp → Store → Store
step (put p name key contents expire_at now) s = (Store.put s p name key contents expire_at now).1
step (cache_loaded_op p name key contents now) s = (cache_loaded s p name key contents now).1
step (remove p name key now) s = (Store.remove s p name key now).1
step (execute p name key proc arg now) s =
    (update s p name key
      (λ cur exists. let (new_val, action, out) = proc cur exists arg in (new_val, action, out))
      now).3
step (queue p name op arg now) s = (update_multi s p (queue_op name op arg now)).2
step (prune p keyset) s = set_shard s p (prune_to_keyset keyset (s.shards p)).1
step (drop_moved p es) s = set_shard s p (drop_migrated es (s.shards p)).1
step (sweep now) s = (sweep_expired now s).1
step (clear name) s = (clear_map name s).1

unfoldable pub run : List StoreOp → Store → Store
unfolding step
run [] s = s
run (o ∷ ops) s = run ops (step o s)

-- Every shard of the store is a map of maps.
abbrev pub IsStore : Store → Type 0
IsStore s = (p : ℕ) → IsShard (s.shards p)

IsStore-set_shard :
    (s : Store) (p : ℕ) (sh : Shard) → IsStore s → IsShard sh → IsStore (set_shard s p sh)
unfolding set_shard
IsStore-set_shard s p sh w h q = elim (Bool-cases (q == p)) [ inl e ↦ rw e h | inr e ↦ rw e (w q) ]

IsStore-cache_loaded :
    (s : Store) (p : ℕ) (name key contents : Bytes) (now : ℕ)
    → IsStore s
    → IsStore (cache_loaded s p name key contents now).1
unfolding cache_loaded
IsStore-cache_loaded s p name key contents now w =
    elim (Option-cases (live now (find (s.shards p) name key))) [
      | inl e ↦ rw (e, cache_loaded) (IsStore-set_shard s p _ w (IsShard-assign _ _ _ _ (w p)))
      | inr (v, e) ↦
          rw (e, cache_loaded) (IsStore-set_shard s p _ w (IsShard-open_bucket _ _ (w p)))
    ]

IsStore-remove :
    (s : Store) (p : ℕ) (name key : Bytes) (now : ℕ)
    → IsStore s
    → IsStore (Store.remove s p name key now).1
unfolding Store.remove
IsStore-remove s p name key now w = elim (Option-cases (find (s.shards p) name key)) [
  | inl e ↦ rw (e, Store.remove) w
  | inr (v, e) ↦ rw (e, Store.remove) (IsStore-set_shard s p _ w (IsShard-discard _ _ _ (w p)))
]

IsStore-apply_action :
    (s : Store) (p : ℕ) (name key : Bytes) (expire_at : ℕ) (new_val : Bytes) (a : Action)
    → IsStore s
    → IsStore (apply_action s p name key expire_at new_val a).2
unfolding apply_action
IsStore-apply_action s p name key expire_at new_val keep w =
    IsStore-set_shard s p _ w (IsShard-open_bucket _ _ (w p))
IsStore-apply_action s p name key expire_at new_val set w =
    IsStore-set_shard s p _ w (IsShard-assign _ _ _ _ (w p))
IsStore-apply_action s p name key expire_at new_val del w =
    IsStore-set_shard s p _ w (IsShard-discard _ _ _ (IsShard-open_bucket _ _ (w p)))

-- The shard of a critical section is a map of maps.
abbrev HasShard : Txn → Type 0
HasShard t = IsShard t.shard

accessors-Keeps : (home : ℕ) → Keeps home HasShard
unfolding Txn.set Txn.del
accessors-Keeps home = record {
  by_set = λ t name key val h w. IsShard-assign t.shard name key _ w;
  by_del = λ t name key h w. IsShard-discard_reclaim t.shard name key w;
}

IsShard-clear_bucket :
    (name : Bytes) (b : Bucket) (sh : Shard) → IsShard sh → IsShard (clear_bucket name b sh)
unfolding clear_bucket
IsShard-clear_bucket name [] sh w = w
IsShard-clear_bucket name (e ∷ b) sh w = IsShard-delete name sh w

-- Every operation of the store, on any arguments, leaves each shard a map of maps in which no map
-- name and no key stands twice, when each shard was one before.
pub step-IsStore : (o : StoreOp) (s : Store) → IsStore s → IsStore (step o s)
unfolding step
step-IsStore (put p name key contents expire_at now) s w =
    unfold Store.put in IsStore-set_shard s p _ w (IsShard-assign _ _ _ _ (w p))
step-IsStore (cache_loaded_op p name key contents now) s w =
    IsStore-cache_loaded s p name key contents now w
step-IsStore (remove p name key now) s w = IsStore-remove s p name key now w
step-IsStore (execute p name key proc arg now) s w =
    unfold update in IsStore-apply_action s p name key _ _ _ w
step-IsStore (queue p name op arg now) s w =
    unfold update_multi in
    IsStore-set_shard s p _ w
      (queue_op-Keeps HasShard name op arg now _ (accessors-Keeps (for_key name)) (w p))
step-IsStore (prune p keyset) s w =
    unfold prune_to_keyset in IsStore-set_shard s p _ w (IsShard-retain _ (s.shards p) (w p))
step-IsStore (drop_moved p es) s w =
    IsStore-set_shard s p _ w (IsShard-drop_migrated es (s.shards p) (w p))
step-IsStore (sweep now) s w =
    unfold sweep_expired sweep_shard in λ p. IsShard-retain _ (s.shards p) (w p)
step-IsStore (clear name) s w =
    unfold clear_map in λ p. IsShard-clear_bucket name (bucket (s.shards p) name) (s.shards p) (w p)

pub run-IsStore : (ops : List StoreOp) (s : Store) → IsStore s → IsStore (run ops s)
unfolding run
run-IsStore [] s w = w
run-IsStore (o ∷ ops) s w = run-IsStore ops (step o s) (step-IsStore o s w)
