-- ===== src/Client/Available.antt =====
-- imap/map.go: a call succeeds when the owner does not answer and some backup does.
use medusa.Base.{
  ℕ, zero, suc, ◌+◌, ◌<◌, ◌≡◌, refl, ap, sym, ◌∙◌, subst, Bytes, Bool, true, false, Option, none,
  some, same, arith, Bool-cases, Option-cases, inl, inr,
}
use medusa.GoMap
use medusa.GoMap.{GoMap}
use medusa.Partition.{for_key}
use medusa.Partition.Table.{Table, backup_at, num_backups}
use medusa.Queue.{is_reserved_map}
use medusa.Wal.{Codec, Disk}
use medusa.Service.{Node}
use medusa.Service.Requests.{apply_put}
use medusa.Service.Queries.{owns}
use medusa.Service.Placed.{Placed, apply_put-Placed}
use medusa.Service.Handle.{Message, Reply, put_request, put_response}
use medusa.Client.{
  ClientError, no_answer, Tried, done, failed_with, World, here, there, put_reply, try_from,
  owner_or_backups, owner_addr, put_with_ttl,
}

abbrev pub IsDone : {A : Type 0} → Tried A → Type 0
IsDone (done a) = Unit {0}
IsDone (failed_with e) = ⊥

-- The backup at a place of a partition's list is another node, at a known address.
abbrev pub BackupAt : Node → ℕ → ℕ → Bytes → Bytes → Type 0
BackupAt n p i id addr =
    (backup_at n.table p i ≡ some id)
    × (same id n.self ≡ false)
    × (GoMap.lookup id n.addrs ≡ some addr)

Placed-BackupAt :
    (n n' : Node) (p i : ℕ) (id addr : Bytes)
    → Placed n n'
    → BackupAt n p i id addr
    → BackupAt n' p i id addr
Placed-BackupAt n n' p i id addr k (b, s, a) = (
  ap (λ (t : Table). backup_at t p i) k.table_kept ∙ b,
  ap (λ (self : Bytes). same id self) k.self_kept ∙ s,
  ap (λ (m : GoMap Bytes). GoMap.lookup id m) k.addrs_kept ∙ a,
)

module _ {Net : Type 0} (send : Net → Bytes → Message → Option Reply × Net) {A : Type 0}
    (local : World send → Tried A × World send) (remote : Bytes → World send → Tried A × World send)
    (p : ℕ) where
  -- A try that failed goes on with the next backup.
  tried_next :
      (i m : ℕ) (r : Tried A × World send)
      → ((e : ClientError) → IsDone (try_from send local remote p (i + 1) m e r.1).0)
      → IsDone
          (elim r.0 as (λ _. Tried A × World send) [
            | done a ↦ (done a, r.1)
            | failed_with e ↦ try_from send local remote p (i + 1) m e r.1
          ]).0
  tried_next i m (done a, w) next = tt
  tried_next i m (failed_with e, w) next = next e

  tried_done :
      (i m : ℕ) (r : Tried A × World send)
      → IsDone r.0
      → IsDone
          (elim r.0 as (λ _. Tried A × World send) [
            | done a ↦ (done a, r.1)
            | failed_with e ↦ try_from send local remote p (i + 1) m e r.1
          ]).0
  tried_done i m (done a, w) h = tt
  tried_done i m (failed_with e, w) h = absurd h

  -- An owner that failed is followed by the first backup.
  owner_then :
      (r : Tried A × World send)
      → ((e : ClientError)
          → IsDone (try_from send local remote p 0 (num_backups r.1.0.table p) e r.1).0)
      → IsDone
          (elim r.0 as (λ _. Tried A × World send) [
            | done a ↦ r
            | failed_with e ↦ try_from send local remote p 0 (num_backups r.1.0.table p) e r.1
          ]).0
  owner_then (done a, w) next = tt
  owner_then (failed_with e, w) next = next e

  module _ (local-Placed : (w : World send) → Placed w.0 (local w).1.0)
      (remote-Placed : (addr : Bytes) (w : World send) → Placed w.0 (remote addr w).1.0)
      (id addr : Bytes) (answers : (w : World send) → IsDone (remote addr w).0) where
    -- The loop over the backups ends well if one of them always answers.
    try_from-IsDone :
        (m j i : ℕ) (last : ClientError) (w : World send)
        → j < m
        → BackupAt w.0 p (i + j) id addr
        → IsDone (try_from send local remote p i m last w).0
    unfolding try_from
    try_from-IsDone zero j i last w lt b = elim lt [ ]
    try_from-IsDone (suc m) zero i last w lt b =
        let at_i : BackupAt w.0 p i id addr =
          subst (λ (k : ℕ). BackupAt w.0 p k id addr) (omega arith) b in
        rw (at_i.0, try_from)
          (rw (at_i.1, try_from)
            (rw (at_i.2, try_from) (tried_done i m (remote addr w) (answers w))))
    try_from-IsDone (suc m) (suc j) i last w lt b =
        let later : BackupAt w.0 p ((i + 1) + j) id addr =
          subst (λ (k : ℕ). BackupAt w.0 p k id addr) (omega arith) b in
        let skipped = try_from-IsDone m j (i + 1) last w (omega arith) later in
        elim (Option-cases (backup_at w.0.table p i)) [
          | inl e ↦ rw (e, try_from) skipped
          | inr (id', e) ↦ elim (Bool-cases (same id' w.0.self)) [
            | inl own ↦
                rw (e, try_from)
                  (rw (own, try_from)
                    (tried_next i m (local w) (λ f.
                      try_from-IsDone m j (i + 1) f (local w).1 (omega arith) (
                        Placed-BackupAt w.0 (local w).1.0 p ((i + 1) + j) id addr (local-Placed w)
                          later))))
            | inr other ↦ elim (Option-cases (GoMap.lookup id' w.0.addrs)) [
              | inl g ↦ rw (e, try_from) (rw (other, try_from) (rw (g, try_from) skipped))
              | inr (addr', g) ↦
                  rw (e, try_from)
                    (rw (other, try_from)
                      (rw (g, try_from)
                        (tried_next i m (remote addr' w) (λ f.
                          try_from-IsDone m j (i + 1) f (remote addr' w).1 (omega arith) (
                            Placed-BackupAt w.0 (remote addr' w).1.0 p ((i + 1) + j) id addr
                              (remote-Placed addr' w) later)))))
            ]
          ]
        ]

    -- So does the whole call, whatever the owner does.
    owner_or_backups-IsDone :
        (at_owner : Bytes → World send → Tried A × World send) (j : ℕ) (w : World send)
        → ((x : Bytes) (w' : World send) → Placed w'.0 (at_owner x w').1.0)
        → j < num_backups w.0.table p
        → BackupAt w.0 p j id addr
        → IsDone (owner_or_backups send local remote p at_owner w).0
    unfolding owner_or_backups
    owner_or_backups-IsDone at_owner j w kept lt b =
        let r = at_owner (owner_addr send local remote w.0 p) w in
        let k = kept (owner_addr send local remote w.0 p) w in
        owner_then r (λ e.
          try_from-IsDone (num_backups r.1.0.table p) j 0 e r.1
            (subst (λ (t : Table). j < num_backups t p) (sym k.table_kept) lt)
            (Placed-BackupAt w.0 r.1.0 p (0 + j) id addr k
              (subst (λ (n : ℕ). BackupAt w.0 p n id addr) (omega arith) b)))

unmoved : (n : Node) → Placed n n
unmoved n = record { self_kept = refl; table_kept = refl; addrs_kept = refl }

answered :
    (reply : Option Reply)
    → (created : Bool) × (reply ≡ some (put_response created))
    → IsDone (elim (put_reply reply) as (λ _. Tried Bool) [
      | none ↦ failed_with no_answer
      | some a ↦ done a
    ])
answered reply (created, e) = rw e tt

module _ {Net : Type 0} (send : Net → Bytes → Message → Option Reply × Net) (c : Codec)
    (now sent_at : ℕ) (disk : ℕ → Disk) where
  -- A put through a node that does not own the key succeeds if some backup of the partition, which is
  -- another node at an address that this node knows, answers a backup's put each time it is sent one:
  -- wherever it stands among the backups, and whatever the owner and the other backups do.
  pub put_with_ttl-IsDone :
      (name key contents : Bytes) (ttl : ℕ) (w : World send) (j : ℕ) (id addr : Bytes)
      → is_reserved_map name ≡ false
      → owns w.0 (for_key key) ≡ false
      → j < num_backups w.0.table (for_key key)
      → BackupAt w.0 (for_key key) j id addr
      → ((net : Net)
          → (created : Bool) × ((send net addr (put_request name key contents ttl true)).0
              ≡ some (put_response created)))
      → IsDone (put_with_ttl send c now sent_at disk name key contents ttl w).0
  unfolding put_with_ttl
  put_with_ttl-IsDone name key contents ttl w j id addr ordinary elsewhere lt b answers =
      let put_at = λ (is_backup : Bool) (x : Bytes) (w : World send).
        there send put_reply (put_request name key contents ttl is_backup) x w in
      let put_here =
        λ (w : World send). here send (λ n. apply_put c n name key contents ttl true now disk) w in
      rw (ordinary, put_with_ttl)
        (rw (elsewhere, put_with_ttl)
          (owner_or_backups-IsDone send put_here (put_at true) (for_key key)
            (λ w. apply_put-Placed c w.0 name key contents ttl true now disk) (λ x w. unmoved w.0)
            id addr
            (λ w. answered (send w.1 addr (put_request name key contents ttl true)).0 (answers w.1))
            (put_at false) j w (λ x w. unmoved w.0) lt b))
