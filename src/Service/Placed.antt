-- ===== src/Service/Placed.antt =====
-- imap/service.go: what a write leaves as it was: the node's id, its table and the members' addresses.
use medusa.Base.{
  ℕ, ◌≡◌, refl, List, [], ◌∷◌, Bytes, Bool, true, false, Option, none, some, ap, same, arith,
}
use medusa.Partition.Table.{Table, owner_of}
use medusa.Store
use medusa.Store.{Store}
use medusa.Queue.{routed_partition}
use medusa.Wal.{Codec, WalError, Disk, op_put}
use medusa.Wal.Replay.{LogRecord}
use medusa.Service.{Node, logged, with_state, expire_from_ttl, put_entry}
use medusa.Service.Requests.{apply_put, finish_put, after_put}
use medusa.Service.Queries.{owns}

-- Two nodes with the same place in the cluster
pub record Placed (n n' : Node) : Type 0 where
  pub self_kept : n'.self ≡ n.self
  pub table_kept : n'.table ≡ n.table
  pub addrs_kept : n'.addrs ≡ n.addrs

pub with_state-Placed :
    (n : Node) (s : Store) (w : Option medusa.Wal.Wal) → Placed n (with_state n s w)
with_state-Placed n s w = record { self_kept = refl; table_kept = refl; addrs_kept = refl }

pub Placed-owns : (n n' : Node) (p : ℕ) → Placed n n' → owns n' p ≡ owns n p
unfolding owns
Placed-owns n n' p k =
    rw (k.self_kept) (ap (λ (t : Table). same (owner_of t p) n.self) k.table_kept)

module _ (c : Codec) where
  logged-Placed :
      {A : Type 0}
      → (n : Node) (mutate : Store → A × Store) (records : A → List LogRecord) (disk : ℕ → Disk)
      → Placed n (logged c n mutate records disk).2
  unfolding logged
  logged-Placed n mutate records disk = record {
    self_kept = ground arith;
    table_kept = ground arith;
    addrs_kept = ground arith;
  }

  finish_put-Placed :
      (n : Node) (name key contents : Bytes) (ttl : ℕ) (is_backup : Bool)
      (r : Bool × Option WalError × Node)
      → Placed n r.2
      → Placed n (finish_put name key contents ttl is_backup r).2
  unfolding after_put
  finish_put-Placed n name key contents ttl is_backup (created, some e, n') k = k
  finish_put-Placed n name key contents ttl true (created, none, n') k = k
  finish_put-Placed n name key contents ttl false (created, none, n') k = k

  pub apply_put-Placed :
      (n : Node) (name key contents : Bytes) (ttl : ℕ) (is_backup : Bool) (now : ℕ)
      (disk : ℕ → Disk)
      → Placed n (apply_put c n name key contents ttl is_backup now disk).2
  unfolding apply_put
  apply_put-Placed n name key contents ttl is_backup now disk =
      finish_put-Placed n name key contents ttl is_backup _ (
        logged-Placed n
          (λ s.
            Store.put s (routed_partition name key) name key contents (expire_from_ttl ttl now) now)
          (λ created. (op_put, put_entry name key contents (expire_from_ttl ttl now)) ∷ []) disk)
