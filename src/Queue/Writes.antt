-- ===== src/Queue/Writes.antt =====
-- imap/queue.go: what an operation's writes, to one segment and to the metadata, leave in the shard.
use medusa.Base.{ℕ, ◌^◌, ◌<◌, ◌≡◌, ◌≢◌, some, Bytes, same_self}
use medusa.Shard.{find}
use medusa.Txn
use medusa.Txn.{Txn, lasting, find-set, find-del}
use medusa.Queue.{queue_map, queue_seg_map, queue_seg_key}
use medusa.Queue.Keys.{maps-ne, queue_seg_key-ne}

module _ (t : Txn) (name : Bytes) (k : ℕ) (m : Bytes) where
  -- the segment `k` is written, then the metadata
  abbrev pub write : Bytes → Txn
  write b = Txn.set (Txn.set t queue_seg_map (queue_seg_key k name) b) queue_map name m

  -- the segment `k` is deleted, then the metadata is written
  abbrev pub erase : Txn
  erase = Txn.set (Txn.del t queue_seg_map (queue_seg_key k name)) queue_map name m

  pub meta-write : (b : Bytes) → find (write b).shard queue_map name ≡ some (lasting m)
  meta-write b = simp (find-set, same_self)

  pub meta-erase : find erase.shard queue_map name ≡ some (lasting m)
  meta-erase = simp (find-set, same_self)

  pub seg-write :
      (b : Bytes) → find (write b).shard queue_seg_map (queue_seg_key k name) ≡ some (lasting b)
  seg-write b = simp (find-set, same_self, maps-ne)

  pub seg-write_ne :
      (b : Bytes) (i : ℕ)
      → k < 2 ^ 64
      → i < 2 ^ 64
      → k ≢ i
      → find (write b).shard queue_seg_map (queue_seg_key i name)
        ≡ find t.shard queue_seg_map (queue_seg_key i name)
  seg-write_ne b i hk hi n = simp (find-set, same_self, maps-ne, queue_seg_key-ne k i name hk hi n)

  pub seg-erase_ne :
      (i : ℕ)
      → k < 2 ^ 64
      → i < 2 ^ 64
      → k ≢ i
      → find erase.shard queue_seg_map (queue_seg_key i name)
        ≡ find t.shard queue_seg_map (queue_seg_key i name)
  seg-erase_ne i hk hi n =
      simp (find-set, find-del, same_self, maps-ne, queue_seg_key-ne k i name hk hi n)
