-- ===== src/Service/Recovery.antt =====
-- imap/service.go: a node that crashed reads back, from the log, a store that agrees with the lost one.
use medusa.Base.{
  ℕ, ◌≡◌, ◌<◌, refl, ap, sym, subst, List, [], ◌∷◌, ◌++◌, Bytes, Bool, true, false, Option, none,
  some, length, take, same, append-nil, append_assoc,
}
use medusa.Bytes.{slt}
use medusa.Partition.{for_key}
use medusa.Processor.{Processor, lookup_processor}
use medusa.Store.{Store, update}
use medusa.Queue.{queue_map, queue_seg_map, routed_partition}
use medusa.Invariant.{IsStore, step-IsStore, step, StoreOp}
use medusa.Invariant
use medusa.Wal.{Codec}
use medusa.Wal.Replay.{LogRecord, log_bytes, Fits, AllFit, AllFit-split, bytes_of_record}
use medusa.Wal.Torn.{replay_wal-torn}
use medusa.Service.{Node, expire_from_ttl}
use medusa.Service.Restart.{open_wal, replay_calls}
use medusa.Service.Agree.{Agree}
use medusa.Service.Change.{
  Request, change, serve, put, remove, evict_key, execute, clear, sweep_now, execute_change,
}
use medusa.Service.Logged.{HasLog, changed_to, serve-change}
use medusa.Service.Replayed.{AllLast, AllLast-split, replayed, replayed-append}
use medusa.Service.Followed.{change-Agree}

execute-IsStore :
    (s : Store) (name key op arg : Bytes) (now : ℕ) (queues segments : Bool)
    (found : Option Processor)
    → IsStore s
    → IsStore (execute_change name key op arg now s queues segments found).1
execute-IsStore s name key op arg now true segments found w =
    unfold step in step-IsStore (Invariant.queue (for_key key) key op arg now) s w
execute-IsStore s name key op arg now false true found w = w
execute-IsStore s name key op arg now false false none w = w
execute-IsStore s name key op arg now false false (some proc) w =
    unfold step update in step-IsStore (Invariant.execute (for_key key) name key proc arg now) s w

pub change-IsStore : (q : Request) (now : ℕ) (s : Store) → IsStore s → IsStore (change q now s).1
unfolding step
change-IsStore (put name key contents ttl is_backup) now s w =
    step-IsStore
      (Invariant.put (routed_partition name key) name key contents (expire_from_ttl ttl now) now) s
      w
change-IsStore (remove name key is_backup) now s w =
    step-IsStore (Invariant.remove (routed_partition name key) name key now) s w
change-IsStore (evict_key name key) now s w =
    step-IsStore (Invariant.remove (routed_partition name key) name key now) s w
change-IsStore (execute name key op arg) now s w =
    execute-IsStore s name key op arg now (same name queue_map) (same name queue_seg_map)
      (lookup_processor op) w
change-IsStore (clear name) now s w = step-IsStore (Invariant.clear name) s w
change-IsStore sweep_now now s w = step-IsStore (Invariant.sweep now) s w

-- Requests, each with the time at which it is served
abbrev pub History : Type 0
History = List (Request × ℕ)

abbrev pub serve_all : Codec → History → Node → Node
serve_all c [] n = n
serve_all c ((q, now) ∷ qs) n = serve_all c qs (serve c q now n)

-- What the requests log on a node with this store
abbrev pub records_of : History → Store → List LogRecord
records_of [] s = []
records_of ((q, now) ∷ qs) s = (change q now s).0 ++ records_of qs (change q now s).1

-- No request is served after `later`.
abbrev pub AllBefore : ℕ → History → Type 0
AllBefore later [] = Unit
AllBefore later ((q, now) ∷ qs) = (slt later now ≡ false) × AllBefore later qs

module _ (c : Codec) (later : ℕ) (base : Store) where
  -- The log of the node holds `rs`, and its store agrees with what replaying them on `base` gives.
  abbrev Recoverable : Node → List LogRecord → Type 0
  Recoverable n rs = HasLog c n rs × IsStore n.store × Agree later n.store (replayed later rs base)

  serve-Recoverable :
      (n : Node) (rs : List LogRecord) (q : Request) (now : ℕ)
      → slt later now ≡ false
      → AllFit c (change q now n.store).0
      → AllLast later (change q now n.store).0
      → Recoverable n rs
      → Recoverable (changed_to c n rs (change q now n.store)) (rs ++ (change q now n.store).0)
  serve-Recoverable n rs q now since fits last (w, well, agree) = (
    refl,
    change-IsStore q now n.store well,
    subst (λ (u : Store). Agree later (change q now n.store).1 u)
        (sym (replayed-append later rs (change q now n.store).0 base))
        (change-Agree later q now n.store (replayed later rs base) well since last agree),
  )

  serve_all-Recoverable :
      (qs : History) (n : Node) (rs : List LogRecord)
      → AllBefore later qs
      → AllFit c (records_of qs n.store)
      → AllLast later (records_of qs n.store)
      → Recoverable n rs
      → Recoverable (serve_all c qs n) (rs ++ records_of qs n.store)
  serve_all-Recoverable [] n rs since fits last w = subst (Recoverable n) (sym (append-nil rs)) w
  serve_all-Recoverable ((q, now) ∷ qs) n rs (at_now, since) fits last w =
      let d = change q now n.store in
      let (fit, fits') = AllFit-split c d.0 (records_of qs d.1) fits in
      let (at_last, last') = AllLast-split later d.0 (records_of qs d.1) last in
      let n' = changed_to c n rs d in
      subst (λ (m : Node). Recoverable (serve_all c qs m) (rs ++ (d.0 ++ records_of qs d.1)))
        (sym (serve-change c n rs w.0 now q fit))
        (subst (Recoverable (serve_all c qs n')) (append_assoc rs d.0 (records_of qs d.1)) (
          serve_all-Recoverable qs n' (rs ++ d.0) since fits' last'
            (serve-Recoverable n rs q now at_now fit at_last w)))

module _ (c : Codec) (later : ℕ) (base : Store) where
  -- From a store that agrees with the node's, the replay of what was logged gives what the node has.
  pub serve_all-Agree :
      (qs : History) (n : Node)
      → n.wal ≡ some (some [])
      → IsStore n.store
      → AllBefore later qs
      → AllFit c (records_of qs n.store)
      → AllLast later (records_of qs n.store)
      → Agree later n.store base
      → Agree later (serve_all c qs n).store (replayed later (records_of qs n.store) base)
  serve_all-Agree qs n empty well since fits last agree =
      (serve_all-Recoverable c later base qs n [] since fits last
        (empty, well, unfold replay_calls in agree)).2

-- Puts, removes, evictions, calls of processors and of queues, clears and sweeps, but no read-through
-- Gets, are served, with every append synced, on a node whose log is empty; then the node crashes in the
-- middle of writing one more record, and another one with the store of `fresh` opens the log at `later`.
-- If no request is served after `later`, that store reads the same at `later` as the node's store did at
-- the start, no key of the node's store stood twice, each record can be marshalled and fits, no put that
-- was logged has lapsed by `later`, and none is of a queue in the format of old, then the recovered store
-- reads the same at `later` as the one that was lost.
pub open_wal-serve_all :
    (c : Codec) (later : ℕ) (n fresh : Node) (qs : History) (r : LogRecord) (k : ℕ)
    → n.wal ≡ some (some [])
    → IsStore n.store
    → Agree later n.store fresh.store
    → AllBefore later qs
    → AllFit c (records_of qs n.store)
    → AllLast later (records_of qs n.store)
    → Fits c r
    → k < length (bytes_of_record c r)
    → (file : Bytes) × ((serve_all c qs n).wal ≡ some (some file))
      × Agree later
          (serve_all c qs n).store
          (open_wal c fresh (file ++ take k (bytes_of_record c r)) later).store
unfolding open_wal
open_wal-serve_all c later n fresh qs r k empty well agree since fits last hr hk =
    let rs = records_of qs n.store in
    let (logged, _, agrees) =
      serve_all-Recoverable c later fresh.store qs n [] since fits last
        (empty, well, unfold replay_calls in agree) in
    (
      log_bytes c rs,
      logged,
      subst
          (λ (calls : List (ℕ × _)).
            Agree later (serve_all c qs n).store (replay_calls calls later fresh.store))
          (sym (ap (λ (x : List (ℕ × _) × ℕ). x.0) (replay_wal-torn c rs r k fits hr hk))) agrees,
    )
