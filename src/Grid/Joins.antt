-- ===== src/Grid/Joins.antt =====
-- medusa.go: an isolated node joins the cluster in the round in which a seed answers.
use medusa.Base.{
  ℕ, ◌+◌, ◌-◌, ◌%◌, ◌^◌, ◌≡◌, ◌⊎◌, inl, inr, refl, ap, ◌∙◌, subst, List, [], ◌∷◌, Bytes, Bool, true,
  false, ◌&&◌, ◌||◌, Option, none, some, if◌then◌else◌, ◌==◌, same, same_self, length, arith,
  Bool-cases, Option-cases,
}
use medusa.GoMap
use medusa.GoMap.{GoMap}
use medusa.Membership.{Member, Membership, merge, merge_loop, merge_one, merge_known}
use medusa.Membership.Detection.{Detector, join, join_loop}
use medusa.Wal.{Codec}
use medusa.Bytes.{slt}
use medusa.Service.{Node, ServiceError}
use medusa.Service.Restart.{checkpoint}
use medusa.Service.Handle.{Message, Reply}
use medusa.Grid.{GridNode, snapshot_interval}
use medusa.Grid.Round.{
  Inputs, is_isolated, join_seeds, State, tend_members, rebalance, sweep_round, cap_entries,
  save_round, tick, after_checkpoint,
}

-- A member with the id stands in a list.
abbrev pub Lists : Bytes → List Member → Type 0
Lists id [] = ⊥
Lists id (mem ∷ rest) = (mem.id ≡ id) ⊎ Lists id rest

abbrev pub Among : Bytes → List Bytes → Type 0
Among seed [] = ⊥
Among seed (s ∷ seeds) = (s ≡ seed) ⊎ Among seed seeds

merge_known-has :
    (id : Bytes) (mem : Member) (known : Option Member) (ms : GoMap Member)
    → GoMap.has id ms ≡ true
    → GoMap.has id (merge_known mem known ms).0 ≡ true
unfolding merge_known
merge_known-has id mem none ms h = ground (arith, GoMap.has-insert mem.id id mem ms)
merge_known-has id mem (some old) ms h = ground (arith, GoMap.has-insert mem.id id mem ms)

-- A member that is merged is in the view.
merge_known_adds :
    (mem : Member) (ms : GoMap Member)
    → GoMap.has mem.id (merge_known mem (GoMap.lookup mem.id ms) ms).0 ≡ true
unfolding merge_known
merge_known_adds mem ms = elim (Bool-cases (GoMap.has mem.id ms)) [
  | inl e ↦ merge_known-has mem.id mem (GoMap.lookup mem.id ms) ms e
  | inr e ↦
      rw (GoMap.lookup-absent mem.id ms e, merge_known)
        (ground (arith, GoMap.has-insert mem.id mem.id mem ms, same_self mem.id))
]

-- An id that gossip can add to a view: not empty, not the node's own, and with no tombstone
abbrev pub Addable : {H : Type 0} → Membership H → Bytes → Type 0
Addable m id =
    ((length id == 0) ≡ false) × (same id m.self.id ≡ false) × (GoMap.has id m.removed ≡ false)

module _ {H : Type 0} (m : Membership H) (id : Bytes) where
  merge_one-has :
      (mem : Member) (ms : GoMap Member)
      → GoMap.has id ms ≡ true
      → GoMap.has id (merge_one m mem ms).0 ≡ true
  unfolding merge_one
  merge_one-has mem ms h =
      elim (Bool-cases
        ((length mem.id == 0 || same mem.id m.self.id) || GoMap.has mem.id m.removed)) [
          | inl e ↦ rw e h
          | inr e ↦ rw e (merge_known-has id mem (GoMap.lookup mem.id ms) ms h)
        ]

  merge_one_adds :
      (mem : Member) (ms : GoMap Member)
      → mem.id ≡ id
      → Addable m id
      → GoMap.has id (merge_one m mem ms).0 ≡ true
  unfolding merge_one
  merge_one_adds mem ms e (a, b, r) =
      let named : (length mem.id == 0) ≡ false = rw e a in
      let other : same mem.id m.self.id ≡ false = rw e b in
      let alive : GoMap.has mem.id m.removed ≡ false = rw e r in
      rw (named, merge_one)
        (rw (other, merge_one)
          (rw (alive, merge_one)
            (subst
              (λ (x : Bytes). GoMap.has x (merge_known mem (GoMap.lookup mem.id ms) ms).0 ≡ true) e
              (merge_known_adds mem ms))))

  merge_loop-has :
      (list : List Member) (ms : GoMap Member)
      → GoMap.has id ms ≡ true
      → GoMap.has id (merge_loop m list ms).0 ≡ true
  unfolding merge_loop
  merge_loop-has [] ms h = h
  merge_loop-has (mem ∷ rest) ms h =
      merge_loop-has rest (merge_one m mem ms).0 (merge_one-has mem ms h)

  merge_loop_adds :
      (list : List Member) (ms : GoMap Member)
      → Lists id list
      → Addable m id
      → GoMap.has id (merge_loop m list ms).0 ≡ true
  unfolding merge_loop
  merge_loop_adds [] ms l a = absurd l
  merge_loop_adds (mem ∷ rest) ms (inl e) a =
      merge_loop-has rest (merge_one m mem ms).0 (merge_one_adds mem ms e a)
  merge_loop_adds (mem ∷ rest) ms (inr l) a = merge_loop_adds rest (merge_one m mem ms).0 l a

-- What a merge does beside the members: nothing to the node's own id and address and the tombstones
abbrev Same : {H : Type 0} → Membership H → Membership H → Type 0
Same m m' = (m'.self ≡ m.self) × (m'.removed ≡ m.removed)

module _ {H : Type 0} (m : Membership H) (list : List Member) where
  merge-members : (merge m list).1.members ≡ (merge_loop m list m.members).0
  unfolding merge
  merge-members = ground arith

  merge-Same : Same m (merge m list).1
  unfolding merge
  merge-Same = (ground arith, ground arith)

merge-Addable :
    {H : Type 0} (m : Membership H) (list : List Member) (id : Bytes)
    → Addable m id
    → Addable (merge m list).1 id
merge-Addable m list id (a, b, r) =
    let (own, tombs) = merge-Same m list in
    (a, ap (λ (z : Member). same id z.id) own ∙ b, ap (λ (z : GoMap ℕ). GoMap.has id z) tombs ∙ r)

module _ {H : Type 0} (send_join : Bytes → Option (List Member)) (id : Bytes) where
  merge-has :
      (m : Membership H) (list : List Member)
      → GoMap.has id m.members ≡ true
      → GoMap.has id (merge m list).1.members ≡ true
  merge-has m list h =
      ap (λ (z : GoMap Member). GoMap.has id z) (merge-members m list)
      ∙ merge_loop-has m id list m.members h

  -- The branches of a round of the loop of `Join`
  join_loop_cases :
      (P : Membership H → Type 0) (m : Membership H) (seed : Bytes) (seeds : List Bytes)
      → (P (join_loop send_join m seeds).1)
      → ((list : List Member)
          → same seed m.self.addr ≡ false
          → send_join seed ≡ some list
          → P (join_loop send_join (merge m list).1 seeds).1)
      → P (join_loop send_join m (seed ∷ seeds)).1
  unfolding join_loop
  join_loop_cases P m seed seeds skipped reached = elim (Bool-cases (same seed m.self.addr)) [
    | inl e ↦ rw e skipped
    | inr e ↦ elim (Option-cases (send_join seed)) [
      | inl f ↦ rw (e, join_loop) (rw (f, join_loop) skipped)
      | inr (list, f) ↦ rw (e, join_loop) (rw (f, join_loop) (reached list e f))
    ]
  ]

  join_loop-has :
      (m : Membership H) (seeds : List Bytes)
      → GoMap.has id m.members ≡ true
      → GoMap.has id (join_loop send_join m seeds).1.members ≡ true
  unfolding join_loop
  join_loop-has m [] h = h
  join_loop-has m (seed ∷ seeds) h =
      join_loop_cases (λ m'. GoMap.has id m'.members ≡ true) m seed seeds (join_loop-has m seeds h)
        (λ list e f. join_loop-has (merge m list).1 seeds (merge-has m list h))

  join_loop_adds :
      (m : Membership H) (seeds : List Bytes) (seed : Bytes) (list : List Member)
      → Among seed seeds
      → same seed m.self.addr ≡ false
      → send_join seed ≡ some list
      → Lists id list
      → Addable m id
      → GoMap.has id (join_loop send_join m seeds).1.members ≡ true
  unfolding join_loop
  join_loop_adds m [] seed list among other answer l a = absurd among
  join_loop_adds m (s ∷ seeds) seed list (inl e) other answer l a =
      let other' : same s m.self.addr ≡ false = rw e other in
      let answer' : send_join s ≡ some list = rw e answer in
      rw (other', join_loop)
        (rw (answer', join_loop)
          (join_loop-has (merge m list).1 seeds (
            ap (λ (z : GoMap Member). GoMap.has id z) (merge-members m list)
            ∙ merge_loop_adds m id list m.members l a)))
  join_loop_adds m (s ∷ seeds) seed list (inr among) other answer l a =
      join_loop_cases (λ m'. GoMap.has id m'.members ≡ true) m s seeds
        (join_loop_adds m seeds seed list among other answer l a)
        (λ list' e f.
          join_loop_adds (merge m list').1 seeds seed list among
            (ap (λ (z : Member). same seed z.addr) (merge-Same m list').0 ∙ other) answer l
            (merge-Addable m list' id a))

join_seeds_adds :
    {H : Type 0} (d : Detector H) (i : Inputs) (m : Membership H) (seeds : List Bytes)
    (seed id : Bytes) (list : List Member)
    → i.discovered ≡ some seeds
    → Among seed seeds
    → same seed m.self.addr ≡ false
    → i.send_join seed ≡ some list
    → Lists id list
    → Addable m id
    → GoMap.has id (join_seeds d i m).members ≡ true
unfolding join_seeds join
join_seeds_adds d i m [] seed id list e among other answer l a = absurd among
join_seeds_adds d i m (s ∷ seeds) seed id list e among other answer l a =
    rw (e, join_seeds)
      (join_loop_adds i.send_join id m (s ∷ seeds) seed list among other answer l a)

after_checkpoint-mem :
    {H : Type 0} (g : GridNode H) (saved_at : ℕ) (failed : Option ServiceError) (maps : Node)
    → (after_checkpoint g saved_at failed maps).mem ≡ g.mem
after_checkpoint-mem g saved_at (some e) maps = refl
after_checkpoint-mem g saved_at none maps = refl

module _ {H Net : Type 0} (d : Detector H) (send : Net → Bytes → Message → Option Reply × Net)
    (c : Codec) (i : Inputs) where
  -- The later parts of a round leave the membership alone.
  abbrev mem_of : State d send c i → Membership H
  mem_of s = s.0.mem

  if_mem :
      (b : Bool) (x y : State d send c i) {m : Membership H}
      → mem_of x ≡ m
      → mem_of y ≡ m
      → mem_of (if b then x else y) ≡ m
  if_mem true x y p q = p
  if_mem false x y p q = q

  rebalance-mem : (s : State d send c i) → mem_of (rebalance d send c i s) ≡ mem_of s
  unfolding rebalance
  rebalance-mem (g, net, effects) =
      if_mem (g.mem.table_ver == g.last_migrated_version) (g, net, effects) _ refl refl

  cap_entries-mem : (s : State d send c i) → mem_of (cap_entries d send c i s) ≡ mem_of s
  unfolding cap_entries
  cap_entries-mem (g, net, effects) = if_mem (g.max_entries == 0) (g, net, effects) _ refl refl

  save_round-mem : (s : State d send c i) → mem_of (save_round d send c i s) ≡ mem_of s
  unfolding save_round
  save_round-mem (g, net, effects) =
      if_mem
        (g.has_dir
          && (g.checkpoint_due
              || slt snapshot_interval ((i.due_at + 2 ^ 64 - g.last_save_nano) % 2 ^ 64)))
        _ (g, net, effects)
        (after_checkpoint-mem g i.saved_at
          (checkpoint g.maps i.write_file i.truncation i.snapshot_at).0
          (checkpoint g.maps i.write_file i.truncation i.snapshot_at).1)
        refl

  tend_members-isolated :
      (s : State d send c i)
      → is_isolated d (mem_of s) ≡ true
      → mem_of (tend_members d send c i s) ≡ join_seeds d i (mem_of s)
  unfolding tend_members
  tend_members-isolated (g, net, effects) e = rw e refl

  sweep_round-mem : (s : State d send c i) → mem_of (sweep_round d send c i s) ≡ mem_of s
  unfolding sweep_round
  sweep_round-mem (g, net, effects) = refl

  pub tick-mem :
      (s : State d send c i) → mem_of (tick d send c i s) ≡ mem_of (tend_members d send c i s)
  unfolding tick
  tick-mem s =
      let tended = tend_members d send c i s in
      let moved = rebalance d send c i tended in
      let swept = sweep_round d send c i moved in
      save_round-mem (cap_entries d send c i swept)
      ∙ cap_entries-mem swept
      ∙ sweep_round-mem moved
      ∙ rebalance-mem tended

  -- In the round in which an isolated node discovers a seed other than itself that answers the join with
  -- a list, every member on that list enters the node's view and stays in it to the end of the round,
  -- except the node itself and the ids under a tombstone, whatever the other seeds answer.
  pub tick_joins :
      (s : State d send c i) (seeds : List Bytes) (seed id : Bytes) (list : List Member)
      → is_isolated d (mem_of s) ≡ true
      → i.discovered ≡ some seeds
      → Among seed seeds
      → same seed (mem_of s).self.addr ≡ false
      → i.send_join seed ≡ some list
      → Lists id list
      → Addable (mem_of s) id
      → GoMap.has id (mem_of (tick d send c i s)).members ≡ true
  tick_joins s seeds seed id list alone found among other answer l a =
      ap (λ (m : Membership H). GoMap.has id m.members) (tick-mem s ∙ tend_members-isolated s alone)
      ∙ join_seeds_adds d i (mem_of s) seeds seed id list found among other answer l a
