-- ===== src/Grid/Dispatch.antt =====
-- medusa.go: the dispatch of the messages that a node gets, the checks of its peers, and its shutdown.
use medusa.Base.{ℕ, List, [], Bytes, Bool, ◌||◌, Option, none, if◌then◌else◌, ◌==◌}
use medusa.Membership.{Member, table_without, sorted_members}
use medusa.Membership.Detection
use medusa.Membership.Detection.{
  Detector, detect_failures, peers, peer_addrs, ClusterMessage, check_liveness,
}
use medusa.Scan.{Entry}
use medusa.Wal.{Codec, Disk, Truncation}
use medusa.Service.{Effect, Fault, ServiceError}
use medusa.Service.Restart.{checkpoint, close_wal}
use medusa.Service.Handle
use medusa.Service.Handle.{Message, Reply}
use medusa.Service.Sync.{migrate}
use medusa.Grid.{GridNode, follow}

-- What a frame holds, by the part of the node that owns its message type
pub data Incoming : Type 0 where
  to_members : ClusterMessage → Incoming
  to_maps : Message → Incoming
  unowned : ℕ → Incoming

-- The part that answers
pub data Dispatched : Type 0 where
  by_members : Option (List Member) → Dispatched
  by_maps : Reply → Dispatched
  not_handled : ℕ → Dispatched

-- The types that `dispatch` gives to the membership and to the maps
unfoldable pub is_member_type : ℕ → Bool
is_member_type t = t == 2 || t == 5 || t == 4 || t == 12

unfoldable pub is_map_type : ℕ → Bool
is_map_type t =
    t == 6
    || t == 8
    || t == 10
    || t == 13
    || t == 15
    || t == 17
    || t == 19
    || t == 21
    || t == 23
    || t == 25

module _ {H : Type 0} (c : Codec) (now sent_at : ℕ) (disk : ℕ → Disk) where
  -- `dispatch`, on a message that was decoded
  unfoldable pub dispatch : Incoming → GridNode H → Dispatched × GridNode H × List Effect
  unfolding Detection.handle Handle.handle follow
  dispatch (to_members message) g =
      let (reply, m) = Detection.handle g.mem message now in
      (by_members reply, record g { mem = m; maps = follow m g.maps }, [])
  dispatch (to_maps message) g =
      let (reply, maps, effects) = Handle.handle c g.maps now disk message sent_at in
      (by_maps reply, record g { maps = maps }, effects)
  dispatch (unowned t) g = (not_handled t, g, [])

-- `CheckLiveness` of medusa.go
unfoldable pub check_peers :
    {H : Type 0} → (Bytes → Bool) → (Bytes → ℕ) → GridNode H → List Bytes × GridNode H
unfolding check_liveness follow
check_peers answers at g =
    let (evicted, m) = check_liveness answers at g.mem in
    (evicted, record g { mem = m; maps = follow m g.maps })

-- `Close` after the maintenance loop stopped: the error of the last checkpoint, and what is left.
unfoldable pub shut_down :
    {H : Type 0}
    → (List Entry → Option Fault)
    → Truncation
    → ℕ
    → GridNode H
    → Option ServiceError × GridNode H
unfolding checkpoint close_wal
shut_down write_file truncation now g =
    let (failed, maps) = checkpoint g.maps write_file truncation now in
    if g.has_dir then (failed, record g { maps = close_wal maps }) else (none, g)

-- `Leave`: the hand-over to the members without this node, the addresses to which it announces that it
-- leaves, and `Close`
unfoldable pub leave :
    {H Net : Type 0}
    → (Net → Bytes → Message → Option Reply × Net)
    → Codec
    → (ℕ → Bool)
    → (ℕ → ℕ)
    → (ℕ → ℕ → Disk)
    → (List Entry → Option Fault)
    → Truncation
    → ℕ
    → GridNode H × Net
    → List Bytes × Option ServiceError × GridNode H × Net
unfolding migrate table_without shut_down peer_addrs sorted_members
leave send c going migrated_at disk write_file truncation now (g, net) =
    let without = table_without g.mem g.mem.self.id in
    let (complete, maps, net') = migrate send c without going migrated_at disk (g.maps, net) in
    let (failed, g') = shut_down write_file truncation now (record g { maps = maps }) in
    (peer_addrs (peers g.mem (sorted_members g.mem)), failed, g', net')
