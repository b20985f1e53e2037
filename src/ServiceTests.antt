-- ===== src/ServiceTests.antt =====
-- imap/service.go: concrete nodes and requests.
use medusa.Base.{
  inl, inr, Bool-cases, leb, ◌||◌, not, ◌==◌, if◌then◌else◌, ℕ, zero, suc, ◌≡◌, ◌<◌, ◌≤◌, ◌+◌, ◌^◌,
  refl, List, [], ◌∷◌, ◌++◌, Bytes, Bool, true, false, Option, none, some, bytes_of, arith, length,
  take,
}
use medusa.Store
use medusa.Store.{new_store, set_shard}
use medusa.Partition.Table.{new_table}
use medusa.Queue.{routed_partition}
use medusa.Wal.{op_put, synced, emptied, record_bytes}
use medusa.Wal.Tagged.{tagged, encode, write_bytes}
use medusa.Wal.Replay.{bytes_of_record}
use medusa.GoMap
use medusa.Invariant.{IsStore}
use medusa.Partition.{partition_count}
use medusa.Service.Queries.{owns}
use medusa.Service.Handle.{handle, reconcile_request}
use medusa.Service.Reconcile.{named_key, reconcile-find}
use medusa.Scan.{Entry}
use medusa.Service.{
  Fault, with_state, Node, put_entry, expire_from_ttl, remaining_ttl_ms, Effect, replicate,
  put_sent,
}
use medusa.Service.Requests.{apply_put, apply_execute}
use medusa.Service.Restart.{open_wal, checkpoint, restore, snapshot, unlapsed}
use medusa.Service.Loading.{AllModern}
use medusa.Service.Home.{IsHome-new_store, find-new_store}
use medusa.Service.Crash.{restart-checkpoint}
use medusa.Service.Overlap.{restart-untruncated}
use medusa.Service.Agree.{Agree, find_at}
use medusa.Service.Change.{put, remove, sweep_now}
use medusa.Service.Recovery.{History, serve_all, open_wal-serve_all}
use medusa.Service.Expiry.{expire_from_ttl-remaining_ttl_ms, open_wal-resurrects}
use medusa.Service.Lapsing.{apply_execute-remaining_ttl_ms}
use medusa.Processor.{append_proc, lookup_processor}
use medusa.Partition.{for_key}
use medusa.Service.Sync.{push_all}
use medusa.Service.Delivered.{Lossy, answered_at, request_lost, lossy_send, read_at, push_all-read}

abbrev users : Bytes
users = bytes_of "users"

abbrev ann : Bytes
ann = bytes_of "ann"

-- A node with an empty store and an empty log
abbrev node : Node
node = record {
  self = bytes_of "a";
  table = new_table [] 1;
  addrs = [];
  store = new_store;
  wal = some (some []);
  loaders = [];
}

abbrev history : History
history =
    (put users ann (7 ∷ []) 0 false, 10)
    ∷ (put users (bytes_of "ben") (8 ∷ []) 0 false, 20)
    ∷ (remove users ann false, 30)
    ∷ (sweep_now, 40)
    ∷ []

open_wal-serve_all_example :
    (file : Bytes) × ((serve_all tagged history node).wal ≡ some (some file))
    × Agree 50
        (serve_all tagged history node).store
        (open_wal tagged node
          (file ++ take 8 (bytes_of_record tagged (op_put, put_entry users ann (9 ∷ []) 0)))
          50).store
unfolding encode write_bytes record_bytes medusa.Bytes.put_be expire_from_ttl medusa.Base.same
open_wal-serve_all_example =
    open_wal-serve_all tagged 50 node node history (op_put, put_entry users ann (9 ∷ []) 0) 8 refl
      (λ p. (tt, tt)) (λ p name key lt. refl) (refl, (refl, (refl, (refl, tt))))
      ((refl, omega arith), ((refl, omega arith), ((refl, omega arith), tt)))
      ((refl, refl), ((refl, refl), (tt, tt))) (refl, omega arith) (omega arith)

expire_from_ttl-remaining_ttl_ms_example :
    (expire_from_ttl (remaining_ttl_ms 5000500 1000) (1000 + 700) ≤ 5000500 + 700)
    × (5000500 + 700 < expire_from_ttl (remaining_ttl_ms 5000500 1000) (1000 + 700) + 1000000)
expire_from_ttl-remaining_ttl_ms_example =
    expire_from_ttl-remaining_ttl_ms 5000500 1000 700 (omega arith) (omega arith)

-- A member with a backup for every partition, and an entry that expires at 5000500
abbrev lapsing : Node
lapsing = record {
  self = bytes_of "a";
  table = new_table (bytes_of "a" ∷ bytes_of "b" ∷ []) 1;
  addrs = (bytes_of "a", bytes_of "h:1") ∷ (bytes_of "b", bytes_of "h:2") ∷ [];
  store = (Store.put new_store (for_key ann) users ann (7 ∷ []) 5000500 10).1;
  wal = some (some []);
  loaders = [];
}

apply_execute-remaining_ttl_ms_example :
    (owner : Node) × (rest : List Effect) × (apply_execute tagged lapsing users ann
        (bytes_of "append")
        (8 ∷ [])
        4999000
        5000000
        (λ i. synced)
      ≡ (
        7 ∷ 8 ∷ [],
        none,
        owner,
        replicate owner (for_key ann) (λ addr. put_sent addr users ann (7 ∷ 8 ∷ []) 0) ++ rest,
      ))
    × (find_at owner.store (for_key ann) users ann
        ≡ some (record { stored = 7 ∷ 8 ∷ []; expire_at = 5000500 }))
    × (find_at
          (apply_put tagged node users ann (7 ∷ 8 ∷ []) 0 true 5000100 (λ i. synced)).2.store
          (routed_partition users ann)
          users
          ann
        ≡ some (record { stored = 7 ∷ 8 ∷ []; expire_at = 0 }))
unfolding lookup_processor medusa.Base.same medusa.Shard.live medusa.Shard.find
    medusa.Processor.append_proc apply_execute set_shard GoMap.lookup Store.put for_key
    medusa.Shard.assign GoMap.insert
apply_execute-remaining_ttl_ms_example =
    apply_execute-remaining_ttl_ms tagged lapsing node users ann (8 ∷ []) (7 ∷ 8 ∷ []) (7 ∷ 8 ∷ [])
      (bytes_of "append") append_proc (record { stored = 7 ∷ []; expire_at = 5000500 }) 4999000
      5000000 5000100 (λ i. synced) (λ i. synced) refl refl refl refl refl (omega arith)
      (omega arith) (omega arith) refl

open_wal-resurrects_example :
    (file : Bytes) × (live_node : Node) × (serve_all tagged
        ((put users ann (7 ∷ []) 0 false, 10) ∷ (put users ann (8 ∷ []) 5 false, 20) ∷ [])
        node
      ≡ live_node)
    × (live_node.wal ≡ some (some file))
    × (Store.get live_node.store (routed_partition users ann) users ann 6000000 ≡ none)
    × (Store.get
          (open_wal tagged node file 6000000).store
          (routed_partition users ann)
          users
          ann
          6000000
        ≡ some (7 ∷ []))
unfolding encode write_bytes expire_from_ttl medusa.Base.same medusa.Shard.expired
open_wal-resurrects_example =
    open_wal-resurrects tagged node node users ann (7 ∷ []) (8 ∷ []) 5 10 20 6000000 refl refl
      (refl, omega arith) (refl, omega arith) refl

-- A node whose partition 3 holds two entries
abbrev follower : Node
follower =
    with_state node
      (set_shard new_store 3 (
        (
          users,
          (ann, record { stored = 7 ∷ []; expire_at = 0 })
              ∷ (bytes_of "ben", record { stored = 8 ∷ []; expire_at = 0 })
              ∷ [],
        )
        ∷ []))
      (some (some []))

IsStore-follower : IsStore follower.store
unfolding set_shard GoMap.has medusa.Base.same
IsStore-follower q = elim (Bool-cases (q == 3)) [
  | inl e ↦ rw e ((refl, tt), ((refl, (refl, tt)), tt))
  | inr e ↦ rw e (tt, tt)
]

reconcile-find_example :
    find_at
      (handle tagged follower 20 (λ i. synced) (reconcile_request 3 ((users, ann) ∷ [])) 20).1.store
      3
      users
      (bytes_of "ben")
    ≡ (if leb partition_count 3
          || (owns follower 3
              || (not (3 == 3) || named_key ((users, ann) ∷ []) users (bytes_of "ben")))
        then find_at follower.store 3 users (bytes_of "ben")
        else none)
reconcile-find_example =
    reconcile-find tagged follower 3 (λ i. synced) ((users, ann) ∷ []) 20 20 3 users
      (bytes_of "ben") IsStore-follower

abbrev first_requests : History
first_requests = (put users ann (7 ∷ []) 0 false, 10) ∷ []

abbrev later_requests : History
later_requests =
    (put users (bytes_of "ben") (8 ∷ []) 0 false, 40) ∷ (remove users ann false, 45) ∷ []

abbrev accepts : List Entry → Option Fault
accepts entries = none

AllModern-first : AllModern (unlapsed (snapshot (serve_all tagged first_requests node) 20) 30)
unfolding unlapsed snapshot apply_put encode medusa.Scan.snapshot_partition set_shard
    medusa.Base.same medusa.Partition.for_key medusa.Shard.assign GoMap.insert GoMap.lookup
    medusa.Shard.expired
AllModern-first = (refl, tt)

restart-checkpoint_example :
    (file : Bytes) × ((serve_all tagged later_requests
        (checkpoint (serve_all tagged first_requests node) accepts emptied 20).1).wal
      ≡ some (some file))
    × Agree 50
        (serve_all tagged later_requests
          (checkpoint (serve_all tagged first_requests node) accepts emptied 20).1).store
        (open_wal tagged
          (restore node (snapshot (serve_all tagged first_requests node) 20) 30)
          (file ++ take 8 (bytes_of_record tagged (op_put, put_entry users ann (9 ∷ []) 0)))
          50).store
unfolding encode write_bytes record_bytes medusa.Bytes.put_be expire_from_ttl medusa.Base.same
restart-checkpoint_example =
    restart-checkpoint tagged node node first_requests later_requests accepts 20 30 50
      (op_put, put_entry users ann (9 ∷ []) 0) 8 refl (λ p. (tt, tt)) IsHome-new_store
      find-new_store ((refl, omega arith), tt) refl AllModern-first refl refl (refl, (refl, tt))
      ((refl, omega arith), ((refl, omega arith), tt)) ((refl, refl), (tt, tt)) (refl, omega arith)
      (omega arith)

restart-untruncated_example :
    (file : Bytes) × ((serve_all tagged first_requests node).wal ≡ some (some file))
    × Agree 50
        (serve_all tagged first_requests node).store
        (open_wal tagged
          (restore node (snapshot (serve_all tagged first_requests node) 20) 30)
          (file ++ take 8 (bytes_of_record tagged (op_put, put_entry users ann (9 ∷ []) 0)))
          50).store
unfolding encode write_bytes record_bytes medusa.Bytes.put_be expire_from_ttl medusa.Base.same
restart-untruncated_example =
    restart-untruncated tagged node node first_requests 20 30 50
      (op_put, put_entry users ann (9 ∷ []) 0) 8 refl (λ p. (tt, tt)) IsHome-new_store
      find-new_store (refl, tt) ((refl, omega arith), tt) ((refl, refl), tt) AllModern-first refl
      refl (refl, omega arith) (omega arith)

-- Two writes of a key, and an entry of another that was pushed before them
abbrev pushed : List Entry
pushed =
    record { map_name = users; key = bytes_of "ben"; contents = 8 ∷ []; expire_at = 0 }
    ∷ record { map_name = users; key = ann; contents = 6 ∷ []; expire_at = 9000000 }
    ∷ record { map_name = users; key = ann; contents = 7 ∷ []; expire_at = 0 }
    ∷ []

-- The first reply comes at 40, the second push has lapsed when it arrives, and a fourth fate is left.
abbrev holder : Lossy
holder = (node, answered_at 40 ∷ answered_at 30000000 ∷ answered_at 60 ∷ request_lost ∷ [])

push_all-read_example :
    read_at
      (push_all
        (lossy_send tagged (λ _. synced))
        node
        (new_table [] 1)
        (bytes_of "b")
        0
        pushed
        holder).1.0
      users
      ann
      1000
    ≡ some (7 ∷ [])
unfolding push_all lossy_send
push_all-read_example =
    push_all-read tagged (λ _. synced) node (new_table [] 1) (bytes_of "b") 0 1000 pushed holder
      (record { map_name = users; key = ann; contents = 7 ∷ []; expire_at = 0 }) refl
      (inr (inr (inl (refl, tt)))) refl
