-- ===== src/Client/Gather.antt =====
-- imap/map.go: reads that fall back to the backups, and the calls that ask every member.
use medusa.Base.{
  ℕ, zero, suc, ◌+◌, ◌%◌, ◌^◌, List, [], ◌∷◌, ◌++◌, Bytes, Option, none, some, if◌then◌else◌, same,
}
use medusa.GoMap
use medusa.Partition.{for_key}
use medusa.Partition.Table.{owner_of, num_backups, backup_at}
use medusa.Aggregate.{lookup_aggregator}
use medusa.Store
use medusa.Queue.{is_reserved_map}
use medusa.Wal.{Codec, Disk}
use medusa.Service.{Node, wal_failed, unknown_aggregator}
use medusa.Service.Requests.{local_clear_map}
use medusa.Service.Queries.{owns, get_through, local_map_size, local_aggregate}
use medusa.Service.Handle.{
  Message, get_request, size_request, clear_request, aggregate_request, Reply, failure,
  size_response, clear_response, aggregate_response,
}
use medusa.Client.{ClientError, reserved_name, of_service, no_answer, World, get_reply}

-- The first of two errors
abbrev first_error : Option ClientError → Option ClientError → Option ClientError
first_error none e = e
first_error (some x) e = some x

abbrev pub size_reply : Option Reply → Option ℕ
size_reply none = none
size_reply (some (size_response count)) = some count
size_reply (some _) = none

abbrev pub clear_reply : Option Reply → Option ℕ
clear_reply none = none
clear_reply (some (clear_response removed)) = some removed
clear_reply (some _) = none

-- `sendAggregate`: a peer that does not know the aggregator is told from one that gives no answer.
pub data Partial : Type 0 where
  partial_of : Bytes → Partial
  not_known : Bytes → Partial
  not_reached : Partial

abbrev pub aggregate_reply : Option Reply → Partial
aggregate_reply none = not_reached
aggregate_reply (some (aggregate_response b)) = partial_of b
aggregate_reply (some (failure (unknown_aggregator name))) = not_known name
aggregate_reply (some _) = not_reached

module _ {Net : Type 0} (send : Net → Bytes → Message → Option Reply × Net) where
  -- The loop of `Get` over the backups: what was found so far and the last error.
  unfoldable pub get_from :
      Bytes
      → Bytes
      → ℕ
      → ℕ
      → ℕ
      → ℕ
      → Option ClientError
      → World send
      → (Option Bytes × Option ClientError) × World send
  unfolding backup_at same Store.get
  get_from name key now p i zero last w = ((none, last), w)
  get_from name key now p i (suc m) last w =
      let (n, net, effects) = w in
      let skipped = get_from name key now p (i + 1) m last w in
      elim (backup_at n.table p i) [
        | none ↦ skipped
        | some id ↦
            if same id n.self
            then elim (Store.get n.store p name key now) [
              | none ↦ get_from name key now p (i + 1) m none w
              | some v ↦ ((some v, none), w)
            ]
            else elim (GoMap.lookup id n.addrs) [
              | none ↦ skipped
              | some addr ↦
                  let (reply, net') = send net addr (get_request name key) in
                  let w' : World send = (n, net', effects) in
                  elim (get_reply reply) [
                    | none ↦ get_from name key now p (i + 1) m (some no_answer) w'
                    | some found ↦ elim found [
                      | none ↦ get_from name key now p (i + 1) m none w'
                      | some v ↦ ((some v, none), w')
                    ]
                  ]
            ]
      ]

  -- `Get`
  unfoldable pub client_get :
      Bytes → Bytes → ℕ → World send → (Option Bytes × Option ClientError) × World send
  unfolding owns get_through get_from num_backups owner_of
  client_get name key now (n, net, effects) =
      let p = for_key key in
      let owner = elim (GoMap.lookup (owner_of n.table p) n.addrs) as (λ _. Bytes) [
        | none ↦ []
        | some addr ↦ addr
      ] in
      let (reply, net') = send net owner (get_request name key) in
      let (found, failed, n') = get_through n name key now in
      let at_peers : (Option Bytes × Option ClientError) × World send =
        get_from name key now p 0 (num_backups n.table p) none (n, net', effects) in
      if owns n p
      then elim failed [
        | some e ↦ ((none, some (of_service e)), (n', net, effects))
        | none ↦ elim found [
          | some v ↦ ((some v, none), (n', net, effects))
          | none ↦ get_from name key now p 0 (num_backups n'.table p) none (n', net, effects)
        ]
      ]
      else elim (get_reply reply) [
        | none ↦ at_peers
        | some there ↦ elim there [
          | none ↦ at_peers
          | some v ↦ ((some v, none), (n, net', effects))
        ]
      ]

  -- The loop of `Size` over the members, each an id and an address: the sum, and the first error.
  unfoldable pub size_loop :
      Bytes
      → ℕ
      → List (Bytes × Bytes)
      → ℕ
      → Option ClientError
      → Node × Net
      → ℕ × Option ClientError × Net
  unfolding same local_map_size
  size_loop name now [] total failed (n, net) = (total, failed, net)
  size_loop name now ((id, addr) ∷ members) total failed (n, net) =
      let own =
        size_loop name now members ((total + local_map_size n name now) % 2 ^ 64) failed (n, net) in
      let (reply, net') = send net addr (size_request name) in
      if same id n.self then own else elim (size_reply reply) [
        | none ↦ size_loop name now members total (first_error failed (some no_answer)) (n, net')
        | some count ↦ size_loop name now members ((total + count) % 2 ^ 64) failed (n, net')
      ]

  -- `Size`
  unfoldable pub client_size :
      Bytes → ℕ → List (Bytes × Bytes) → Node × Net → ℕ × Option ClientError × Net
  unfolding size_loop
  client_size name now members start = size_loop name now members 0 none start

  -- The loop of `Aggregate`: the partials, and the first error; an aggregator that is not known ends it.
  unfoldable pub aggregate_loop :
      Bytes
      → Bytes
      → ℕ
      → List (Bytes × Bytes)
      → List Bytes
      → Option ClientError
      → Node × Net
      → Option (List Bytes) × Option ClientError × Net
  unfolding same local_aggregate
  aggregate_loop name agg_name now [] partials failed (n, net) = (some partials, failed, net)
  aggregate_loop name agg_name now ((id, addr) ∷ members) partials failed (n, net) =
      let (own, unknown) = local_aggregate n name agg_name now in
      let (reply, net') = send net addr (aggregate_request name agg_name) in
      if same id n.self
      then elim unknown [
        | some e ↦ (none, some (of_service e), net)
        | none ↦ aggregate_loop name agg_name now members (partials ++ (own ∷ [])) failed (n, net)
      ]
      else elim (aggregate_reply reply) [
        | not_known missing ↦ (none, some (of_service (unknown_aggregator missing)), net')
        | not_reached ↦
            aggregate_loop name agg_name now members partials (first_error failed (some no_answer))
              (n, net')
        | partial_of b ↦
            aggregate_loop name agg_name now members (partials ++ (b ∷ [])) failed (n, net')
      ]

  -- `Aggregate`
  unfoldable pub client_aggregate :
      Bytes → Bytes → ℕ → List (Bytes × Bytes) → Node × Net → Bytes × Option ClientError × Net
  unfolding lookup_aggregator aggregate_loop
  client_aggregate name agg_name now members (n, net) = elim (lookup_aggregator agg_name) [
    | none ↦ ([], some (of_service (unknown_aggregator agg_name)), net)
    | some agg ↦
        let (partials, failed, net') = aggregate_loop name agg_name now members [] none (n, net) in
        (elim partials [ none ↦ [] | some ps ↦ agg.combine ps ], failed, net')
  ]

  -- The loop of `Clear`: the first error
  unfoldable pub clear_loop :
      Codec
      → Bytes
      → (ℕ → Disk)
      → List (Bytes × Bytes)
      → Option ClientError
      → Node × Net
      → Option ClientError × Node × Net
  unfolding same local_clear_map
  clear_loop c name disk [] failed (n, net) = (failed, n, net)
  clear_loop c name disk ((id, addr) ∷ members) failed (n, net) =
      let (removed, wal_error, n') = local_clear_map c n name disk in
      let own : Option ClientError = elim wal_error [
        | none ↦ none
        | some e ↦ some (of_service (wal_failed e))
      ] in
      let (reply, net') = send net addr (clear_request name) in
      let answer : Option ClientError = elim (clear_reply reply) [
        | none ↦ some no_answer
        | some count ↦ none
      ] in
      if same id n.self
      then clear_loop c name disk members (first_error failed own) (n', net)
      else clear_loop c name disk members (first_error failed answer) (n, net')

  -- `Clear`
  unfoldable pub client_clear :
      Codec
      → Bytes
      → (ℕ → Disk)
      → List (Bytes × Bytes)
      → Node × Net
      → Option ClientError × Node × Net
  unfolding is_reserved_map clear_loop
  client_clear c name disk members (n, net) =
      if is_reserved_map name
      then (some reserved_name, n, net)
      else clear_loop c name disk members none (n, net)
