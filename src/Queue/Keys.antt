-- ===== src/Queue/Keys.antt =====
-- imap/queue.go: the keys of a queue's entries never collide, and all of them route to one partition.
use medusa.Base.{
  ℕ, ◌^◌, ◌<◌, ◌≡◌, ◌≢◌, refl, ap, sym, ◌∙◌, Bytes, false, arith, same, same_ne, drop,
  length-append,
}
use medusa.Bytes.{put_uint64, uint64, uint64-put_uint64, drop-put_be, length-put_be}
use medusa.Partition.{for_key}
use medusa.Queue.{queue_map, queue_seg_map, queue_seg_key, routed_partition}

pub maps-ne : same queue_map queue_seg_map ≡ false
unfolding same
maps-ne = refl

pub maps-ne' : same queue_seg_map queue_map ≡ false
unfolding same
maps-ne' = refl

pub queue_seg_key-id :
    (i j : ℕ) (name other : Bytes)
    → i < 2 ^ 64
    → j < 2 ^ 64
    → queue_seg_key i name ≡ queue_seg_key j other
    → i ≡ j
unfolding queue_seg_key
queue_seg_key-id i j name other hi hj e =
    sym (uint64-put_uint64 i name hi) ∙ ap uint64 e ∙ uint64-put_uint64 j other hj

pub queue_seg_key-name :
    (i j : ℕ) (name other : Bytes) → queue_seg_key i name ≡ queue_seg_key j other → name ≡ other
unfolding queue_seg_key
queue_seg_key-name i j name other e =
    sym (drop-put_be 8 i name) ∙ ap (drop 8) e ∙ drop-put_be 8 j other

pub queue_seg_key-ne :
    (i j : ℕ) (name : Bytes)
    → i < 2 ^ 64
    → j < 2 ^ 64
    → i ≢ j
    → same (queue_seg_key i name) (queue_seg_key j name) ≡ false
queue_seg_key-ne i j name hi hj n =
    same_ne (queue_seg_key i name) (queue_seg_key j name)
      (λ e. n (queue_seg_key-id i j name name hi hj e))

-- Every segment of a queue, and its metadata, route to the partition of the queue's name.
pub routed_partition-affine :
    (seg_id : ℕ) (name : Bytes)
    → (routed_partition queue_seg_map (queue_seg_key seg_id name) ≡ for_key name)
      × (routed_partition queue_map name ≡ for_key name)
unfolding routed_partition queue_seg_key same
routed_partition-affine seg_id name = (
  rw drop-put_be (ground (arith, length-append (put_uint64 seg_id) name, length-put_be 8 seg_id)),
  refl,
)

-- A key of a map that does not hold queue segments routes by its hash.
pub home_ordinary :
    (name key : Bytes) → same name queue_seg_map ≡ false → routed_partition name key ≡ for_key key
unfolding routed_partition
home_ordinary name key e = rw e
