-- ===== src/Membership/Detection.antt =====
-- cluster/membership.go: pinging the peers, and the messages of the cluster. Whether a peer answers
-- its ping, and when that is known, are functions of its id; the detector's statistics on a history of
-- heartbeats are a parameter.
use medusa.Base.{
  ℕ, ◌+◌, ◌%◌, List, [], ◌∷◌, Bytes, Bool, true, false, not, Option, none, some, if◌then◌else◌, leb,
  same, ◌==◌,
}
use medusa.GoMap
use medusa.GoMap.{GoMap, lookup-delete}
use medusa.Membership.{
  Member, Membership, with_maps, merge, remove_locked, rejoin, sorted_members, snapshot_proto,
}

-- `phiHistory`: a new one, the record of a heartbeat, whether it is warm, and whether its phi at a time
-- reaches the threshold.
pub record Detector (H : Type 0) : Type 0 where
  pub new_history : H
  pub record_beat : ℕ → H → H
  pub warm : H → Bool
  pub phi_high : ℕ → H → Bool

-- The peers of a loop over `Members` that skips the node itself
abbrev pub peers : {H : Type 0} → Membership H → List Member → List Member
peers m [] = []
peers m (peer ∷ rest) =
    let others = peers m rest in if same peer.id m.self.id then others else peer ∷ others

module _ {H : Type 0} (d : Detector H) (threshold : ℕ) (answers : Bytes → Bool)
    (at : Bytes → ℕ) where
  -- A peer's history, made if there is none
  abbrev pub history_of : Membership H → Bytes → H
  history_of m id = elim (GoMap.lookup id m.phi) [ none ↦ d.new_history | some h ↦ h ]

  abbrev pub misses_of : Membership H → Bytes → ℕ
  misses_of m id = elim (GoMap.lookup id m.misses) [ none ↦ 0 | some n ↦ n ]

  -- The branch of a ping that failed
  unfoldable pub missed : Membership H → Bytes → Bool × Membership H
  unfolding remove_locked
  missed m id =
      let h = history_of m id in
      let count : ℕ = (misses_of m id + 1) % 256 in
      let m' =
        with_maps m m.members (GoMap.insert id count m.misses) (GoMap.insert id h m.phi)
          m.removed in
      let suspect = if d.warm h then d.phi_high (at id) h else leb threshold count in
      if suspect then remove_locked m' id (at id) else (false, m')

  -- The body of the loop of `DetectFailures`
  unfoldable pub detect_one : Membership H → Bytes → Bool × Membership H
  unfolding missed GoMap.insert GoMap.delete
  detect_one m id =
      let beat = d.record_beat (at id) (history_of m id) in
      if not (GoMap.has id m.members)
      then (false, m)
      else if answers id
      then (
        false,
        with_maps m m.members (GoMap.delete id m.misses) (GoMap.insert id beat m.phi) m.removed,
      )
      else missed m id

  -- The loop over the snapshot of the peers: the ids evicted.
  unfoldable pub detect_loop : Membership H → List Member → List Bytes × Membership H
  unfolding detect_one
  detect_loop m [] = ([], m)
  detect_loop m (peer ∷ rest) =
      let (evicted, m') = detect_one m peer.id in
      let (more, m'') = detect_loop m' rest in (if evicted then peer.id ∷ more else more, m'')

-- `DetectFailures`
unfoldable pub detect_failures :
    {H : Type 0}
    → Detector H
    → ℕ
    → (Bytes → Bool)
    → (Bytes → ℕ)
    → Membership H
    → List Bytes × Membership H
unfolding detect_loop sorted_members
detect_failures d threshold answers at m =
    detect_loop d (if threshold == 0 then 1 else threshold) answers at m
      (peers m (sorted_members m))

-- The addresses to which `Gossip` and `AnnounceLeave` send
unfoldable pub peer_addrs : List Member → List Bytes
peer_addrs [] = []
peer_addrs (peer ∷ rest) = peer.addr ∷ peer_addrs rest

module _ {H : Type 0} where
  -- The loop of `CheckLiveness`
  unfoldable pub liveness_loop :
      (Bytes → Bool) → (Bytes → ℕ) → Membership H → List Member → List Bytes × Membership H
  unfolding remove_locked
  liveness_loop answers at m [] = ([], m)
  liveness_loop answers at m (peer ∷ rest) =
      let (evicted, m') = remove_locked m peer.id (at peer.id) in
      let (more, m'') = liveness_loop answers at m' rest in
      let answered = liveness_loop answers at m rest in
      if answers peer.id then answered else (if evicted then peer.id ∷ more else more, m'')

  -- `CheckLiveness`
  unfoldable pub check_liveness :
      (Bytes → Bool) → (Bytes → ℕ) → Membership H → List Bytes × Membership H
  unfolding liveness_loop sorted_members
  check_liveness answers at m = liveness_loop answers at m (peers m (sorted_members m))

  -- The members of a message `join` to each seed in turn, or no answer: whether one was reached.
  unfoldable pub join_loop :
      (Bytes → Option (List Member)) → Membership H → List Bytes → Bool × Membership H
  unfolding merge
  join_loop send_join m [] = (false, m)
  join_loop send_join m (seed ∷ seeds) =
      let rest = join_loop send_join m seeds in
      if same seed m.self.addr then rest else elim (send_join seed) [
        | none ↦ rest
        | some members ↦
            let (reached, m') = join_loop send_join (merge m members).1 seeds in (true, m')
      ]

  -- `Join`: whether a seed was reached, and where the view is gossiped to.
  unfoldable pub join :
      (Bytes → Option (List Member)) → Membership H → List Bytes → Bool × List Bytes × Membership H
  unfolding join_loop peer_addrs sorted_members
  join send_join m seeds =
      let (reached, m') = join_loop send_join m seeds in
      (reached, if reached then peer_addrs (peers m' (sorted_members m')) else [], m')

pub data ClusterMessage : Type 0 where
  join_request : Option Member → ClusterMessage
  member_list : List Member → ClusterMessage
  heartbeat : ClusterMessage
  leave : Bytes → ClusterMessage
  other_message : ℕ → ClusterMessage

-- The members of the reply to a join; the other replies are empty. An unhandled type is `none`.
unfoldable pub handle :
    {H : Type 0} → Membership H → ClusterMessage → ℕ → Option (List Member) × Membership H
unfolding rejoin merge remove_locked snapshot_proto
handle m (join_request none) now = (some (snapshot_proto m).1, m)
handle m (join_request (some candidate)) now =
    let m' = rejoin m candidate in (some (snapshot_proto m').1, m')
handle m (member_list members) now = (some [], (merge m members).1)
handle m heartbeat now = (some [], m)
handle m (leave id) now = (some [], (remove_locked m id now).1)
handle m (other_message t) now = (none, m)
