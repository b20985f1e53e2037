-- ===== src/Service/Change.antt =====
-- imap/service.go: what each request does to the store, and the records it logs.
use medusa.Base.{
  ℕ, List, [], ◌∷◌, Bytes, Bool, true, false, Option, none, some, if◌then◌else◌, ◌==◌, length, same,
}
use medusa.Partition.{for_key}
use medusa.Processor.{Processor, lookup_processor}
use medusa.Store
use medusa.Store.{Store, update, update_multi}
use medusa.Queue.{queue_map, queue_seg_map, routed_partition, queue_op}
use medusa.Owned.{clear_map, sweep_expired}
use medusa.Wal.{Codec, op_put, op_remove, op_clear, Disk, synced}
use medusa.Wal.Replay.{LogRecord}
use medusa.Service.{
  Node, expire_from_ttl, put_entry, remove_entry, mutation_records, action_records,
}
use medusa.Service.Requests.{
  capture, apply_put, apply_remove, apply_evict, apply_execute, local_clear_map,
}
use medusa.Service.Restart.{sweep}

-- A request that changes the node that serves it, or its periodic sweep.
pub data Request : Type 0 where
  put : Bytes → Bytes → Bytes → ℕ → Bool → Request
  remove : Bytes → Bytes → Bool → Request
  evict_key : Bytes → Bytes → Request
  execute : Bytes → Bytes → Bytes → Bytes → Request
  clear : Bytes → Request
  sweep_now : Request

abbrev pub all_synced : ℕ → Disk
all_synced i = synced

-- The node after the request, when the disk wrote all that was appended.
abbrev pub serve : Codec → Request → ℕ → Node → Node
serve c (put name key contents ttl is_backup) now n =
    (apply_put c n name key contents ttl is_backup now all_synced).2
serve c (remove name key is_backup) now n = (apply_remove c n name key is_backup now all_synced).2
serve c (evict_key name key) now n = (apply_evict c n name key now all_synced).2
serve c (execute name key proc_name arg) now n =
    (apply_execute c n name key proc_name arg now now all_synced).2
serve c (clear name) now n = (local_clear_map c n name all_synced).2
serve c sweep_now now n = (sweep n now).1

abbrev pub Change : Type 0
Change = List LogRecord × Store

abbrev pub queue_change : Bytes → Bytes → Bytes → ℕ → Store → Change
queue_change name op arg now s =
    let r = update_multi s (for_key name) (queue_op name op arg now) in (mutation_records r.1, r.2)

abbrev pub processor_change : Bytes → Bytes → Processor → Bytes → ℕ → Store → Change
processor_change name key proc arg now s =
    let r = update s (for_key key) name key (capture proc arg) now in
    (action_records name key r.0.0 r.1 r.2, r.3)

abbrev pub clear_change : Bytes → Store → Change
clear_change name s =
    let r = clear_map name s in
    ((if length r.0 == 0 then [] else (op_clear, put_entry name [] [] 0) ∷ []), r.1)

-- On a map that is `queues` or not, that is `segments` or not
abbrev pub execute_change :
    Bytes → Bytes → Bytes → Bytes → ℕ → Store → Bool → Bool → Option Processor → Change
execute_change name key op arg now s true segments found = queue_change key op arg now s
execute_change name key op arg now s false true found = ([], s)
execute_change name key op arg now s false false none = ([], s)
execute_change name key op arg now s false false (some proc) =
    processor_change name key proc arg now s

-- The records of a request, and the store it leaves.
abbrev pub change : Request → ℕ → Store → Change
change (put name key contents ttl is_backup) now s =
    let expire_at = expire_from_ttl ttl now in
    (
      (op_put, put_entry name key contents expire_at) ∷ [],
      (Store.put s (routed_partition name key) name key contents expire_at now).1,
    )
change (remove name key is_backup) now s = (
  (op_remove, remove_entry name key) ∷ [],
  (Store.remove s (routed_partition name key) name key now).1,
)
change (evict_key name key) now s = (
  (op_remove, remove_entry name key) ∷ [],
  (Store.remove s (routed_partition name key) name key now).1,
)
change (execute name key proc_name arg) now s =
    execute_change name key proc_name arg now s (same name queue_map) (same name queue_seg_map)
      (lookup_processor proc_name)
change (clear name) now s = clear_change name s
change sweep_now now s = ([], (sweep_expired now s).1)
