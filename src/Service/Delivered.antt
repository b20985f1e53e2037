-- ===== src/Service/Delivered.antt =====
-- imap/service.go: what the pushes of `Migrate` report over a network that may lose any request and any
-- reply, to a holder that runs `Handle`.
use medusa.Base.{
  ℕ, ◌≡◌, ◌⊎◌, inl, inr, refl, ap, ◌∙◌, subst, List, [], ◌∷◌, Bytes, Bool, true, false, ◌&&◌,
  Option, none, some, ==_iff, same_self, arith, Bool-cases,
}
use medusa.Shard.{expired}
use medusa.Store
use medusa.Store.{Store}
use medusa.Reads.{get-put, same_place}
use medusa.Partition.Table.{Table}
use medusa.Queue.{routed_partition}
use medusa.Scan.{Entry}
use medusa.Wal.{Codec, Disk}
use medusa.Service.{Node, remaining_ttl_ms, expire_from_ttl}
use medusa.Service.Requests.{Outcome, apply_put}
use medusa.Service.Handle.{Message, put_request, Reply, put_response, respond, handle}
use medusa.Service.Sync.{is_put_response, in_flight_lapsed, push_all}
use medusa.Service.Expiry.{apply_put-store}

-- What becomes of a message that is sent to the holder: it arrives at a time of the holder's clock and
-- its reply comes back or is lost, or it is lost itself.
pub data Fate : Type 0 where
  answered_at : ℕ → Fate
  reply_lost : ℕ → Fate
  request_lost : Fate

-- The holder, and the fates of the messages to come; there are no others.
abbrev pub Lossy : Type 0
Lossy = Node × List Fate

module _ (c : Codec) (disk : ℕ → Disk) where
  unfoldable pub lossy_send : Lossy → Bytes → Message → Option Reply × Lossy
  unfolding handle
  lossy_send (holder, []) addr message = (none, (holder, []))
  lossy_send (holder, request_lost ∷ fates) addr message = (none, (holder, fates))
  lossy_send (holder, reply_lost t ∷ fates) addr message =
      (none, ((handle c holder t disk message t).1, fates))
  lossy_send (holder, answered_at t ∷ fates) addr message =
      (some (handle c holder t disk message t).0, ((handle c holder t disk message t).1, fates))

-- No entry of a list stands at a place.
abbrev pub Elsewhere : Bytes → Bytes → List Entry → Type 0
Elsewhere name key [] = Unit {0}
Elsewhere name key (e ∷ es) =
    (same_place (routed_partition e.map_name e.key) e.map_name e.key (routed_partition name key)
        name key
      ≡ false)
    × Elsewhere name key es

-- An entry stands on a list, and none after it has its place.
abbrev pub LastAt : Entry → List Entry → Type 0
LastAt e [] = ⊥
LastAt e (x ∷ xs) = ((x ≡ e) × Elsewhere e.map_name e.key xs) ⊎ LastAt e xs

-- A read on a node
abbrev pub read_at : Node → Bytes → Bytes → ℕ → Option Bytes
read_at n name key later = Store.get n.store (routed_partition name key) name key later

respond-node : {A : Type 0} (f : A → Reply) (o : Outcome A) → (respond f o).1 ≡ o.2
respond-node f (a, none, n, effects) = refl
respond-node f (a, some e, n, effects) = refl

module _ (c : Codec) (disk : ℕ → Disk) where
  -- What a holder's store is after a put of a backup
  put_request-store :
      (holder : Node) (name key contents : Bytes) (ttl t : ℕ)
      → (handle c holder t disk (put_request name key contents ttl true) t).1.store
        ≡ (Store.put holder.store
            (routed_partition name key)
            name
            key
            contents
            (expire_from_ttl ttl t)
            t).1
  unfolding handle
  put_request-store holder name key contents ttl t =
      ap (λ (n : Node). n.store)
        (respond-node put_response (apply_put c holder name key contents ttl true t disk))
      ∙ apply_put-store c holder name key contents ttl true t disk

  -- A put at another place changes no read.
  put_request-apart :
      (holder : Node) (name key contents : Bytes) (ttl t : ℕ) (name' key' : Bytes) (later : ℕ)
      → same_place (routed_partition name key) name key (routed_partition name' key') name' key'
        ≡ false
      → read_at
          (handle c holder t disk (put_request name key contents ttl true) t).1
          name'
          key'
          later
        ≡ read_at holder name' key' later
  put_request-apart holder name key contents ttl t name' key' later apart =
      ap (λ (s : Store). Store.get s (routed_partition name' key') name' key' later)
        (put_request-store holder name key contents ttl t)
      ∙ get-put holder.store (routed_partition name key) name key contents (expire_from_ttl ttl t) t
          (routed_partition name' key') name' key' later
      ∙ rw apart refl

  -- A put without a lifetime is read.
  put_request-read :
      (holder : Node) (name key contents : Bytes) (t later : ℕ)
      → read_at (handle c holder t disk (put_request name key contents 0 true) t).1 name key later
        ≡ some contents
  unfolding expire_from_ttl expired
  put_request-read holder name key contents t later =
      ap (λ (s : Store). Store.get s (routed_partition name key) name key later)
        (put_request-store holder name key contents 0 t)
      ∙ get-put holder.store (routed_partition name key) name key contents (expire_from_ttl 0 t) t
          (routed_partition name key) name key later
      ∙ ground (
        arith,
        ==_iff (routed_partition name key) (routed_partition name key),
        same_self name,
        same_self key,
      )

  -- The same of a message that may be lost
  lossy_send-apart :
      (net : Lossy) (addr name key contents : Bytes) (ttl : ℕ) (name' key' : Bytes) (later : ℕ)
      → same_place (routed_partition name key) name key (routed_partition name' key') name' key'
        ≡ false
      → read_at
          (lossy_send c disk net addr (put_request name key contents ttl true)).1.0
          name'
          key'
          later
        ≡ read_at net.0 name' key' later
  unfolding lossy_send
  lossy_send-apart (holder, []) addr name key contents ttl name' key' later apart = refl
  lossy_send-apart (holder, request_lost ∷ fates) addr name key contents ttl name' key' later
        apart =
      refl
  lossy_send-apart (holder, reply_lost t ∷ fates) addr name key contents ttl name' key' later
        apart =
      put_request-apart holder name key contents ttl t name' key' later apart
  lossy_send-apart (holder, answered_at t ∷ fates) addr name key contents ttl name' key' later
        apart =
      put_request-apart holder name key contents ttl t name' key' later apart

  lossy_send-read :
      (net : Lossy) (addr name key contents : Bytes) (later : ℕ)
      → is_put_response (lossy_send c disk net addr (put_request name key contents 0 true)).0 ≡ true
      → read_at
          (lossy_send c disk net addr (put_request name key contents 0 true)).1.0
          name
          key
          later
        ≡ some contents
  unfolding lossy_send
  lossy_send-read (holder, []) addr name key contents later e = cc
  lossy_send-read (holder, request_lost ∷ fates) addr name key contents later e = cc
  lossy_send-read (holder, reply_lost t ∷ fates) addr name key contents later e = cc
  lossy_send-read (holder, answered_at t ∷ fates) addr name key contents later e =
      put_request-read holder name key contents t later

and_true : (a b : Bool) → (a && b) ≡ true → (a ≡ true) × (b ≡ true)
and_true true b e = (refl, e)
and_true false b e = cc

module _ (c : Codec) (disk : ℕ → Disk) (n : Node) (table : Table) (addr : Bytes)
    (now later : ℕ) where
  push_all-Elsewhere :
      (es : List Entry) (net : Lossy) (name key : Bytes)
      → Elsewhere name key es
      → read_at (push_all (lossy_send c disk) n table addr now es net).1.0 name key later
        ≡ read_at net.0 name key later
  unfolding push_all
  push_all-Elsewhere [] net name key apart = refl
  push_all-Elsewhere (e ∷ es) net name key apart =
      elim (Bool-cases (in_flight_lapsed e.expire_at (remaining_ttl_ms e.expire_at now))) [
        | inl lapsed ↦ rw lapsed (push_all-Elsewhere es net name key apart.1)
        | inr live ↦ rw live (
            push_all-Elsewhere es
              (lossy_send c disk net addr
                (put_request e.map_name e.key e.contents (remaining_ttl_ms e.expire_at now) true)).1
              name key apart.1
            ∙ lossy_send-apart c disk net addr e.map_name e.key e.contents
                (remaining_ttl_ms e.expire_at now) name key later apart.0)
      ]

  -- An entry with no lifetime whose push was answered, and none after it at its place, is read.
  push_all-here :
      (x : Entry) (es : List Entry) (net : Lossy)
      → (push_all (lossy_send c disk) n table addr now (x ∷ es) net).0 ≡ true
      → Elsewhere x.map_name x.key es
      → x.expire_at ≡ 0
      → read_at
          (push_all (lossy_send c disk) n table addr now (x ∷ es) net).1.0
          x.map_name
          x.key
          later
        ≡ some x.contents
  unfolding push_all remaining_ttl_ms
  push_all-here x es net took apart forever = rw forever (
      push_all-Elsewhere es
        (lossy_send c disk net addr (put_request x.map_name x.key x.contents 0 true)).1 x.map_name
        x.key apart
      ∙ lossy_send-read c disk net addr x.map_name x.key x.contents later
          (and_true _ _ (rw forever at took)).0)

  -- When the pushes of a hand-over report that the holder took everything, over a network that may lose
  -- any request and any reply, a read at the holder finds each entry of no lifetime that was pushed last
  -- at its place, with its contents and at any time, whatever the holder's disk and clock do.
  pub push_all-read :
      (es : List Entry) (net : Lossy) (e : Entry)
      → (push_all (lossy_send c disk) n table addr now es net).0 ≡ true
      → LastAt e es
      → e.expire_at ≡ 0
      → read_at (push_all (lossy_send c disk) n table addr now es net).1.0 e.map_name e.key later
        ≡ some e.contents
  unfolding push_all
  push_all-read [] net e took l forever = absurd l
  push_all-read (x ∷ es) net e took (inl (here, apart)) forever =
      subst
        (λ (y : Entry).
          y.expire_at ≡ 0
          → Elsewhere y.map_name y.key es
          → read_at (push_all (lossy_send c disk) n table addr now (x ∷ es) net).1.0 y.map_name
              y.key later
            ≡ some y.contents)
        here (λ z near. push_all-here x es net took near z) forever apart
  push_all-read (x ∷ es) net e took (inr l) forever =
      elim (Bool-cases (in_flight_lapsed x.expire_at (remaining_ttl_ms x.expire_at now))) [
        | inl lapsed ↦ rw lapsed (push_all-read es net e (rw lapsed at took) l forever)
        | inr live ↦ rw live (push_all-read es _ e (and_true _ _ (rw live at took)).1 l forever)
      ]
