-- ===== src/Membership.antt =====
-- cluster/membership.go: the view of the cluster that a node keeps, and the partition table made of
-- it. `H` stands for the failure detector's history of a peer (cluster/phi.go).
pub mod Coherent
pub mod Views
pub mod Detection
pub mod Answered
use medusa.Base.{
  ℕ, ◌+◌, ◌-◌, ◌%◌, ◌^◌, ◌≡◌, List, [], ◌∷◌, Bytes, Bool, true, false, not, ◌&&◌, ◌||◌,
  if◌then◌else◌, same, Option, none, some, length, ◌==◌,
}
use medusa.Bytes.{slt}
use medusa.GoMap
use medusa.GoMap.{GoMap}
use medusa.Partition.Table.{Table, new_table}
use medusa.Partition.Order.{str_lt, sort}

-- `Member` of cluster/member.go
pub record Member : Type 0 where
  pub id : Bytes
  pub addr : Bytes

pub record Membership (H : Type 0) : Type 0 where
  pub self : Member
  pub backups : ℕ
  pub members : GoMap Member
  pub version : ℕ
  pub table_ver : ℕ
  pub table : Table
  pub misses : GoMap ℕ
  pub phi : GoMap H
  pub removed : GoMap ℕ

-- The ids over which `for id := range m.members` runs.
unfoldable pub ids {ℓ} : {V : Type ℓ} → GoMap V → List Bytes
ids [] = []
ids ((id, v) ∷ m) = id ∷ ids m

-- The `switch` of `merge` on a member that is neither self nor evicted: the members, `changed`
-- and `setChanged`.
unfoldable pub merge_known : Member → Option Member → GoMap Member → GoMap Member × Bool × Bool
merge_known mem none members = (GoMap.insert mem.id mem members, true, true)
merge_known mem (some existing) members =
    if not (length mem.addr == 0) && not (same existing.addr mem.addr)
    then (GoMap.insert mem.id mem members, true, false)
    else (members, false, false)

-- `!ok || existing.Addr != mem.Addr`
abbrev pub is_news : Member → Option Member → Bool
is_news mem none = true
is_news mem (some existing) = not (same existing.addr mem.addr)

module _ {H : Type 0} where
  -- `m.members`, `m.misses`, `m.phi` and `m.removed` replaced
  abbrev pub with_maps : Membership H → GoMap Member → GoMap ℕ → GoMap H → GoMap ℕ → Membership H
  with_maps m members misses phi removed = record {
    self = m.self;
    backups = m.backups;
    members = members;
    version = m.version;
    table_ver = m.table_ver;
    table = m.table;
    misses = misses;
    phi = phi;
    removed = removed;
  }

  -- `m.version++`
  abbrev pub bump : Membership H → Membership H
  bump m = record {
    self = m.self;
    backups = m.backups;
    members = m.members;
    version = (m.version + 1) % 2 ^ 64;
    table_ver = m.table_ver;
    table = m.table;
    misses = m.misses;
    phi = m.phi;
    removed = m.removed;
  }

  abbrev pub rebuild_locked : Membership H → Membership H
  rebuild_locked m = record {
    self = m.self;
    backups = m.backups;
    members = m.members;
    version = m.version;
    table_ver = (m.table_ver + 1) % 2 ^ 64;
    table = new_table (ids m.members) m.backups;
    misses = m.misses;
    phi = m.phi;
    removed = m.removed;
  }

  -- `New`
  abbrev pub new : Member → ℕ → Membership H
  new self backups = record {
    self = self;
    backups = backups;
    members = (self.id, self) ∷ [];
    version = 0;
    table_ver = 1;
    table = new_table (self.id ∷ []) backups;
    misses = [];
    phi = [];
    removed = [];
  }

  -- One round of the loop of `merge`
  unfoldable pub merge_one : Membership H → Member → GoMap Member → GoMap Member × Bool × Bool
  unfolding merge_known
  merge_one m mem members =
      if (length mem.id == 0 || same mem.id m.self.id) || GoMap.has mem.id m.removed
      then (members, false, false)
      else merge_known mem (GoMap.lookup mem.id members) members

  unfoldable pub merge_loop : Membership H → List Member → GoMap Member → GoMap Member × Bool × Bool
  unfolding merge_one
  merge_loop m [] members = (members, false, false)
  merge_loop m (mem ∷ rest) members =
      let r = merge_one m mem members in
      let q = merge_loop m rest r.0 in (q.0, r.1 || q.1, r.2 || q.2)

  -- `merge`
  unfoldable pub merge : Membership H → List Member → Bool × Membership H
  unfolding merge_loop
  merge m list =
      let r = merge_loop m list m.members in
      let m' = with_maps m r.0 m.misses m.phi m.removed in
      if r.1 then (true, if r.2 then rebuild_locked (bump m') else bump m') else (false, m')

  -- `removeLocked`, which `Remove` calls under the lock
  unfoldable pub remove_locked : Membership H → Bytes → ℕ → Bool × Membership H
  remove_locked m id now =
      if same id m.self.id
      then (false, m)
      else if not (GoMap.has id m.members)
      then (false, m)
      else (
        true,
        rebuild_locked (
            bump (
              with_maps m (GoMap.delete id m.members) (GoMap.delete id m.misses)
                (GoMap.delete id m.phi) (GoMap.insert id now m.removed))),
      )

  -- `rejoin`
  unfoldable pub rejoin : Membership H → Member → Membership H
  rejoin m mem =
      let m' =
        with_maps m m.members (GoMap.delete mem.id m.misses) (GoMap.delete mem.id m.phi)
          (GoMap.delete mem.id m.removed) in
      if length mem.id == 0 || same mem.id m.self.id
      then m
      else if is_news mem (GoMap.lookup mem.id m.members)
      then rebuild_locked
          (bump (with_maps m' (GoMap.insert mem.id mem m.members) m'.misses m'.phi m'.removed))
      else m'

  -- `PruneTombstones` at `now`, on int64 patterns.
  unfoldable pub prune_tombstones : Membership H → ℕ → ℕ → Membership H
  unfolding GoMap.keep_if
  prune_tombstones m ttl now =
      let cutoff = (now + 2 ^ 64 - ttl) % 2 ^ 64 in
      let kept =
        if not (slt 0 ttl)
        then []
        else GoMap.keep_if (λ id at_time. not (slt at_time cutoff)) m.removed in
      with_maps m m.members m.misses m.phi kept

  -- `TableWithout`
  unfoldable pub table_without : Membership H → Bytes → Table
  unfolding ids GoMap.keep_if
  table_without m id =
      new_table (ids (GoMap.keep_if (λ mid mem. not (same mid id)) m.members)) m.backups

-- The values over which `for _, mem := range m.members` runs.
unfoldable pub values {ℓ} : {V : Type ℓ} → GoMap V → List V
values [] = []
values ((id, v) ∷ m) = v ∷ values m

abbrev id_before : Member → Member → Bool
id_before a b = str_lt a.id b.id

module _ {H : Type 0} where
  -- `Members`, sorted by id
  unfoldable pub sorted_members : Membership H → List Member
  unfolding values sort str_lt
  sorted_members m = sort id_before (values m.members)

  -- `AddrOf`
  unfoldable pub addr_of : Membership H → Bytes → Option Bytes
  addr_of m id = elim (GoMap.lookup id m.members) [ none ↦ none | some mem ↦ some mem.addr ]

  abbrev pub table_version : Membership H → ℕ
  table_version m = m.table_ver

  -- `snapshotProto`: the version and the members of the message
  unfoldable pub snapshot_proto : Membership H → ℕ × List Member
  unfolding values
  snapshot_proto m = (m.version, values m.members)
