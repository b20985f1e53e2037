-- ===== src/Queue/Isolation.antt =====
-- imap/queue.go: an operation on one queue changes no entry of another queue or another map.
use medusa.Base.{ℕ, ◌≡◌, ◌≢◌, Bytes}
use medusa.Shard.{find}
use medusa.Txn
use medusa.Txn.{Txn}
use medusa.Queue.{queue_map, queue_seg_map, queue_seg_key}

-- An entry that is neither the metadata nor a segment of the queue.
pub record Foreign (name other key : Bytes) : Type 0 where
  pub no_meta : queue_map ≡ other → name ≢ key
  pub no_segment : (i : ℕ) → queue_seg_map ≡ other → queue_seg_key i name ≢ key

module _ (name other key : Bytes) (foreign : Foreign name other key) where
  Kept : {R : Type 0} → Txn → R × Txn → Type 0
  Kept t r = find r.1.shard other key ≡ find t.shard other key
