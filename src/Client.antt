-- ===== src/Client.antt =====
-- imap/map.go: a client's calls, which run on the owner of the key's partition, here or at a peer, and
-- when the owner gives no answer on the first backup that does. `send` stands for the transport and the
-- peers behind it, whose state it threads.
pub mod Gather
pub mod Queues
pub mod Available
use medusa.Base.{
  ℕ, zero, suc, ◌+◌, ◌≡◌, refl, List, [], ◌∷◌, ◌++◌, Bytes, Bool, true, false, Option, none, some,
  if◌then◌else◌, same, length, ◌==◌, bytes_of,
}
use medusa.Bytes.{uint64}
use medusa.GoMap
use medusa.Partition.{for_key}
use medusa.Partition.Table.{owner_of, num_backups, backup_at}
use medusa.Processor.{encode_cas}
use medusa.Store
use medusa.Queue.{is_reserved_map}
use medusa.Wal.{Codec, Disk}
use medusa.Service.{Node, Effect, ServiceError}
use medusa.Service.Requests.{Outcome, apply_put, apply_remove, apply_evict, apply_execute}
use medusa.Service.Queries.{owns, get_through}
use medusa.Service.Handle.{
  Message, put_request, get_request, remove_request, execute_request, evict_request, Reply,
  put_response, get_response, remove_response, execute_response, evict_response,
}

pub data ClientError : Type 0 where
  reserved_name : ClientError
  empty_holder : ClientError
  of_service : ServiceError → ClientError
  no_answer : ClientError

pub data Tried (A : Type 0) : Type 0 where
  done : A → Tried A
  failed_with : ClientError → Tried A

-- What a reply says to a call: nothing, if it is of another type or an error.
abbrev pub put_reply : Option Reply → Option Bool
put_reply none = none
put_reply (some (put_response created)) = some created
put_reply (some _) = none

abbrev pub get_reply : Option Reply → Option (Option Bytes)
get_reply none = none
get_reply (some (get_response found)) = some found
get_reply (some _) = none

abbrev pub remove_reply : Option Reply → Option Bool
remove_reply none = none
remove_reply (some (remove_response existed)) = some existed
remove_reply (some _) = none

abbrev pub execute_reply : Option Reply → Option Bytes
execute_reply none = none
execute_reply (some (execute_response out)) = some out
execute_reply (some _) = none

abbrev pub evict_reply : Option Reply → Option Bool
evict_reply none = none
evict_reply (some (evict_response existed)) = some existed
evict_reply (some _) = none

module _ {Net : Type 0} (send : Net → Bytes → Message → Option Reply × Net) where
  -- This node, its peers, and the effects so far
  abbrev pub World : Type 0
  World = Node × Net × List Effect

  abbrev pub here : {A : Type 0} → (Node → Outcome A) → World → Tried A × World
  here call (n, net, effects) =
      let (a, failed, n', more) = call n in
      (
        elim failed [ none ↦ done a | some e ↦ failed_with (of_service e) ],
        (n', net, effects ++ more),
      )

  abbrev pub there :
      {A : Type 0} → (Option Reply → Option A) → Message → Bytes → World → Tried A × World
  there read message addr (n, net, effects) =
      let (reply, net') = send net addr message in
      (elim (read reply) [ none ↦ failed_with no_answer | some a ↦ done a ], (n, net', effects))

  module _ {A : Type 0} (local : World → Tried A × World)
      (remote : Bytes → World → Tried A × World) where
    -- `tryBackups` over the backups `i`, `i + 1`, …, `m` of them, with the last failure
    unfoldable pub try_from : ℕ → ℕ → ℕ → ClientError → World → Tried A × World
    unfolding backup_at same
    try_from p i zero last w = (failed_with last, w)
    try_from p i (suc m) last w =
        let skipped = try_from p (i + 1) m last w in
        let after : Tried A × World → Tried A × World =
          λ r. elim r.0 [ done a ↦ (done a, r.1) | failed_with e ↦ try_from p (i + 1) m e r.1 ] in
        elim (backup_at w.0.table p i) [
          | none ↦ skipped
          | some id ↦
              if same id w.0.self then after (local w) else elim (GoMap.lookup id w.0.addrs) [
                | none ↦ skipped
                | some addr ↦ after (remote addr w)
              ]
        ]

    -- The owner's address; an unknown one is empty.
    abbrev owner_addr : Node → ℕ → Bytes
    owner_addr n p = elim (GoMap.lookup (owner_of n.table p) n.addrs) [
      | none ↦ []
      | some addr ↦ addr
    ]

    -- The owner at a peer, and then the backups
    unfoldable pub owner_or_backups :
        ℕ → (Bytes → World → Tried A × World) → World → Tried A × World
    unfolding try_from num_backups owner_of
    owner_or_backups p at_owner w =
        let r = at_owner (owner_addr w.0 p) w in
        elim r.0 [ done a ↦ r | failed_with e ↦ try_from p 0 (num_backups r.1.0.table p) e r.1 ]

  module _ (c : Codec) (now sent_at : ℕ) (disk : ℕ → Disk) where
    -- `putWithTTL`; what is done carries no flag that the caller sees.
    unfoldable pub put_with_ttl : Bytes → Bytes → Bytes → ℕ → World → Tried Bool × World
    unfolding owns owner_or_backups is_reserved_map apply_put
    put_with_ttl name key contents ttl w =
        let put_at = λ (is_backup : Bool) (addr : Bytes) (w : World).
          there put_reply (put_request name key contents ttl is_backup) addr w in
        let put_here = λ (is_backup : Bool) (w : World).
          here (λ n. apply_put c n name key contents ttl is_backup now disk) w in
        if is_reserved_map name
        then (failed_with reserved_name, w)
        else if owns w.0 (for_key key)
        then put_here false w
        else owner_or_backups (put_here true) (put_at true) (for_key key) (put_at false) w

    -- `Execute`
    unfoldable pub client_execute : Bytes → Bytes → Bytes → Bytes → World → Tried Bytes × World
    unfolding owns owner_or_backups apply_execute
    client_execute name key processor arg w =
        let run_at = λ (addr : Bytes) (w : World).
          there execute_reply (execute_request name key processor arg) addr w in
        let run_here =
          λ (w : World). here (λ n. apply_execute c n name key processor arg now sent_at disk) w in
        if owns w.0 (for_key key)
        then run_here w
        else owner_or_backups run_here run_at (for_key key) run_at w

    -- `Remove`
    unfoldable pub client_remove : Bytes → Bytes → World → Tried Bool × World
    unfolding owns owner_or_backups is_reserved_map apply_remove
    client_remove name key w =
        let remove_at = λ (is_backup : Bool) (addr : Bytes) (w : World).
          there remove_reply (remove_request name key is_backup) addr w in
        let remove_here = λ (is_backup : Bool) (w : World).
          here (λ n. apply_remove c n name key is_backup now disk) w in
        if is_reserved_map name
        then (failed_with reserved_name, w)
        else if owns w.0 (for_key key)
        then remove_here false w
        else owner_or_backups (remove_here true) (remove_at true) (for_key key) (remove_at false) w

    -- `Evict`
    unfoldable pub client_evict : Bytes → Bytes → World → Tried Bool × World
    unfolding owns is_reserved_map apply_evict owner_of
    client_evict name key w =
        let owner =
          elim (GoMap.lookup (owner_of w.0.table (for_key key)) w.0.addrs) as (λ _. Bytes) [
            | none ↦ []
            | some addr ↦ addr
          ] in
        if is_reserved_map name
        then (failed_with reserved_name, w)
        else if owns w.0 (for_key key)
        then here (λ n. apply_evict c n name key now disk) w
        else there evict_reply (evict_request name key) owner w

    -- The reply of a processor that answers yes or no: `len(out) == 1 && out[0] == 1`
    abbrev pub as_flag : Tried Bytes → Tried Bool
    as_flag (failed_with e) = failed_with e
    as_flag (done []) = done false
    as_flag (done (b ∷ [])) = done (b == 1)
    as_flag (done (b ∷ x ∷ out)) = done false

    -- `PutIfAbsent`
    abbrev pub put_if_absent : Bytes → Bytes → Bytes → World → Tried Bool × World
    put_if_absent name key contents w =
        let (t, w') = client_execute name key (bytes_of "putifabsent") contents w in (as_flag t, w')

    -- `CompareAndSwap`
    abbrev pub compare_and_swap : Bytes → Bytes → Bytes → Bytes → World → Tried Bool × World
    compare_and_swap name key expected new_val w =
        let (t, w') = client_execute name key (bytes_of "cas") (encode_cas expected new_val) w in
        (as_flag t, w')

    -- The fence token of the reply to an acquire; a reply of another length says that the lock is held.
    abbrev pub as_token : Tried Bytes → Tried (Option ℕ)
    as_token (failed_with e) = failed_with e
    as_token (done out) = done (if length out == 8 then some (uint64 out) else none)

    -- `Lock`
    unfoldable pub lock : Bytes → Bytes → Bytes → World → Tried (Option ℕ) × World
    unfolding client_execute uint64
    lock name key holder w =
        let (t, w') = client_execute name key (bytes_of "lockacquire") holder w in
        if length holder == 0 then (failed_with empty_holder, w) else (as_token t, w')

    -- `Unlock`
    unfoldable pub unlock : Bytes → Bytes → Bytes → World → Tried Bool × World
    unfolding client_execute
    unlock name key holder w =
        let (t, w') = client_execute name key (bytes_of "lockrelease") holder w in
        if length holder == 0 then (failed_with empty_holder, w) else (as_flag t, w')
