-- ===== src/Service/Expiry.antt =====
-- imap/service.go: lifetimes, relative in messages and absolute in stores and logs.
use medusa.Base.{
  ℕ, ◌+◌, ◌-◌, ◌*◌, ◌/◌, ◌%◌, ◌^◌, ◌<◌, ◌≤◌, ◌≡◌, refl, ap, sym, subst, ◌∙◌, List, [], ◌∷◌, ◌++◌,
  map, Bytes, Bool, true, false, Option, none, some, arith, inl, inr, Bool-cases, ◌==◌, ==_iff,
  same, same_self,
}
use medusa.Bytes.{slt}
use medusa.Shard.{expired}
use medusa.Store
use medusa.Store.{Store}
use medusa.Reads.{get-put, same_place}
use medusa.Queue.{queue_map, routed_partition}
use medusa.Scan.{Entry}
use medusa.Wal.{Codec, WalError, Disk, op_put}
use medusa.Wal.Replay.{call, log_bytes, Fits, replay_wal-whole}
use medusa.Service.{Node, put_entry, expire_from_ttl, remaining_ttl_ms}
use medusa.Service.Requests.{finish_put, apply_put, after_put}
use medusa.Service.Agree.{find_at, find-put}
use medusa.Service.Restart.{open_wal, replay_calls, replay_call, replay_put, lapsed}
use medusa.Service.Change.{change, serve, put}
use medusa.Service.Logged.{logged-store, serve-change, changed_to}
use medusa.Service.Recovery.{serve_all}

remaining-quotient :
    (expire_at now : ℕ)
    → expire_at < 2 ^ 63
    → now ≤ expire_at
    → remaining_ttl_ms expire_at now ≡ (expire_at - now) / 1000000
unfolding remaining_ttl_ms
remaining-quotient expire_at now h d =
    let left : (expire_at + 2 ^ 64 - now) % 2 ^ 64 ≡ expire_at - now = omega arith in
    let sign : slt (expire_at - now) 0 ≡ false = ground arith in
    elim (Bool-cases (expire_at == 0)) [
      | inl e ↦ let z : expire_at ≡ 0 = (==_iff expire_at 0).0 e in rw e (omega (arith, z))
      | inr e ↦ rw e (rw left (rw sign refl))
    ]

expire-sum :
    (ttl now : ℕ)
    → 0 < ttl
    → now + ttl * 1000000 < 2 ^ 63
    → expire_from_ttl ttl now ≡ now + ttl * 1000000
unfolding expire_from_ttl
expire-sum ttl now h d = let sign : slt 0 ttl ≡ true = ground arith in rw sign (omega arith)

-- A lifetime of which at least a millisecond remains when it is sent, and which is received `delay` later,
-- ends at most `delay` after the entry's own expiry, and less than a millisecond before that, for times
-- that are not negative and within int64.
pub expire_from_ttl-remaining_ttl_ms :
    (expire_at now delay : ℕ)
    → expire_at + delay < 2 ^ 63
    → now + 1000000 ≤ expire_at
    → (expire_from_ttl (remaining_ttl_ms expire_at now) (now + delay) ≤ expire_at + delay)
      × (expire_at + delay
          < expire_from_ttl (remaining_ttl_ms expire_at now) (now + delay) + 1000000)
expire_from_ttl-remaining_ttl_ms expire_at now delay h d =
    let q : ℕ = (expire_at - now) / 1000000 in
    let low : q * 1000000 ≤ expire_at - now = omega arith in
    let high : expire_at - now < q * 1000000 + 1000000 = omega arith in
    let same : expire_from_ttl (remaining_ttl_ms expire_at now) (now + delay)
        ≡ now + delay + q * 1000000 =
      ap (λ (t : ℕ). expire_from_ttl t (now + delay))
        (remaining-quotient expire_at now (omega (arith, h)) (omega arith))
      ∙ expire-sum q (now + delay) (omega (arith, high, d)) (omega (arith, low, h, d)) in
    (omega (arith, same, low, d), omega (arith, same, high, d))

pub remaining-none :
    (expire_at now : ℕ)
    → expire_at < 2 ^ 63
    → now ≤ expire_at
    → expire_at < now + 1000000
    → remaining_ttl_ms expire_at now ≡ 0
remaining-none expire_at now h a b = remaining-quotient expire_at now h a ∙ omega arith

same_place_self : (p : ℕ) (name key : Bytes) → same_place p name key p name key ≡ true
same_place_self p name key = ground (arith, ==_iff p p, same_self name, same_self key)

lapsed-expired :
    (new : Bytes) (e later : ℕ) (name key : Bytes)
    → expired (record { stored = new; expire_at = e }) later ≡ true
    → lapsed (put_entry name key new e) later ≡ true
unfolding expired
lapsed-expired new e later name key h = ground arith

replay-skips :
    (s : Store) (name key old new : Bytes) (e later : ℕ)
    → same name queue_map ≡ false
    → lapsed (put_entry name key new e) later ≡ true
    → replay_calls
        (map call ((op_put, put_entry name key old 0) ∷ (op_put, put_entry name key new e) ∷ []))
        later
        s
      ≡ (Store.put s (routed_partition name key) name key old 0 later).1
unfolding replay_calls replay_call replay_put
replay-skips s name key old new e later ordinary gone = rw (ordinary, gone) refl

module _ (c : Codec) where
  finish_put-store :
      (name key contents : Bytes) (ttl : ℕ) (is_backup : Bool) (r : Bool × Option WalError × Node)
      → (finish_put name key contents ttl is_backup r).2.store ≡ r.2.store
  unfolding after_put
  finish_put-store name key contents ttl is_backup (created, some e, n) = refl
  finish_put-store name key contents ttl true (created, none, n) = refl
  finish_put-store name key contents ttl false (created, none, n) = refl

  -- The store has the new value whether or not the log took the record.
  pub apply_put-store :
      (n : Node) (name key contents : Bytes) (ttl : ℕ) (is_backup : Bool) (now : ℕ)
      (disk : ℕ → Disk)
      → (apply_put c n name key contents ttl is_backup now disk).2.store
        ≡ (Store.put n.store
            (routed_partition name key)
            name
            key
            contents
            (expire_from_ttl ttl now)
            now).1
  unfolding apply_put
  apply_put-store n name key contents ttl is_backup now disk =
      finish_put-store name key contents ttl is_backup _
      ∙ logged-store c n
          (λ s.
            Store.put s (routed_partition name key) name key contents (expire_from_ttl ttl now) now)
          (λ created. (op_put, put_entry name key contents (expire_from_ttl ttl now)) ∷ []) disk

  -- A value whose expiry lies ahead by less than a millisecond when an owner replicates it, with the
  -- lifetime that remains, is stored by a backup as one that never expires, whenever it arrives and
  -- whatever the backup's disk does.
  pub apply_put-remaining_ttl_ms :
      (backup : Node) (name key contents : Bytes) (expire_at sent_at now : ℕ) (disk : ℕ → Disk)
      → expire_at < 2 ^ 63
      → sent_at ≤ expire_at
      → expire_at < sent_at + 1000000
      → find_at
          (apply_put c backup name key contents
            (remaining_ttl_ms expire_at sent_at)
            true
            now
            disk).2.store
          (routed_partition name key)
          name
          key
        ≡ some (record { stored = contents; expire_at = 0 })
  apply_put-remaining_ttl_ms backup name key contents expire_at sent_at now disk h a b =
      let p = routed_partition name key in
      let never : expire_from_ttl (remaining_ttl_ms expire_at sent_at) now ≡ 0 =
        ap (λ (t : ℕ). expire_from_ttl t now) (remaining-none expire_at sent_at h a b)
        ∙ unfold expire_from_ttl in refl in
      ap (λ (s : Store). find_at s p name key)
        (apply_put-store backup name key contents (remaining_ttl_ms expire_at sent_at) true now
          disk)
      ∙ find-put backup.store p name key p name key contents
          (expire_from_ttl (remaining_ttl_ms expire_at sent_at) now) now
      ∙ rw (same_place_self p name key, never) refl

  -- If a key of a map that is not the queues' is put with no lifetime, put again with one, and the
  -- second value has expired when the node restarts, then a read on the node that did not restart finds
  -- nothing, and a read on a node that opened its log finds the first value.
  pub open_wal-resurrects :
      (n fresh : Node) (name key old new : Bytes) (ttl at_old at_new later : ℕ)
      → n.wal ≡ some (some [])
      → same name queue_map ≡ false
      → Fits c (op_put, put_entry name key old 0)
      → Fits c (op_put, put_entry name key new (expire_from_ttl ttl at_new))
      → expired (record { stored = new; expire_at = expire_from_ttl ttl at_new }) later ≡ true
      → (file : Bytes) × (live_node : Node) × (serve_all c
            ((put name key old 0 false, at_old) ∷ (put name key new ttl false, at_new) ∷ [])
            n
          ≡ live_node)
        × (live_node.wal ≡ some (some file))
        × (Store.get live_node.store (routed_partition name key) name key later ≡ none)
        × (Store.get (open_wal c fresh file later).store (routed_partition name key) name key later
            ≡ some old)
  unfolding open_wal
  open_wal-resurrects n fresh name key old new ttl at_old at_new later empty ordinary fit_old
        fit_new gone =
      let p = routed_partition name key in
      let expire_at = expire_from_ttl ttl at_new in
      let d = change (put name key old 0 false) at_old n.store in
      let n1 = changed_to c n [] d in
      let d' = change (put name key new ttl false) at_new n1.store in
      let n2 = changed_to c n1 d.0 d' in
      (
        log_bytes c (d.0 ++ d'.0),
        n2,
        ap (serve c (put name key new ttl false) at_new)
              (serve-change c n [] empty at_old (put name key old 0 false) (fit_first, tt))
            ∙ serve-change c n1 d.0 refl at_new (put name key new ttl false) (fit_new, tt),
        refl,
        get-put n1.store p name key new expire_at at_new p name key later
            ∙ rw (same_place_self p name key, gone) refl,
        ap
              (λ (calls : List (ℕ × Entry)).
                Store.get (replay_calls calls later fresh.store) p name key later)
              (ap (λ (x : List (ℕ × Entry) × ℕ). x.0)
                  (replay_wal-whole c (d.0 ++ d'.0) (fit_first, (fit_new, tt)))
                ∙ ap (λ (e : ℕ). map call ((op_put, put_entry name key old e) ∷ d'.0)) never)
            ∙ ap (λ (s : Store). Store.get s p name key later)
                (replay-skips fresh.store name key old new expire_at later ordinary
                  (lapsed-expired new expire_at later name key gone))
            ∙ get-put fresh.store p name key old 0 later p name key later
            ∙ rw same_place_self (unfold expired in refl),
      )
    where
      never : expire_from_ttl 0 at_old ≡ 0
      never = unfold expire_from_ttl in refl

      fit_first : Fits c (op_put, put_entry name key old (expire_from_ttl 0 at_old))
      fit_first = subst (λ (e : ℕ). Fits c (op_put, put_entry name key old e)) (sym never) fit_old
