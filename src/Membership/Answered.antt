-- ===== src/Membership/Answered.antt =====
-- cluster/membership.go: the failure detector evicts no peer that answered.
use medusa.Base.{
  ℕ, ◌+◌, ◌%◌, ◌≡◌, refl, ap, sym, ◌∙◌, List, [], ◌∷◌, Bytes, Bool, true, false, not, inl, inr,
  Bool-cases, if◌then◌else◌, leb, same, same→eq, ◌==◌,
}
use medusa.GoMap
use medusa.GoMap.{GoMap, lookup-delete}
use medusa.Membership.{Member, Membership, with_maps, remove_locked, sorted_members}
use medusa.Membership.Coherent.{IsCoherent, remove_locked-IsCoherent}
use medusa.Membership.Detection.{
  Detector, history_of, misses_of, missed, detect_one, detect_loop, detect_failures, peers,
}

module _ {H : Type 0} where
  -- A change of other maps than the members'
  IsCoherent-with_maps :
      (m : Membership H) (misses : GoMap ℕ) (phi : GoMap H) (removed : GoMap ℕ)
      → IsCoherent m
      → IsCoherent (with_maps m m.members misses phi removed)
  IsCoherent-with_maps m misses phi removed c = record { own = c.own; current = c.current }

  lookup-remove_locked :
      (m : Membership H) (id : Bytes) (now : ℕ) (other : Bytes)
      → same id other ≡ false
      → GoMap.lookup other (remove_locked m id now).1.members ≡ GoMap.lookup other m.members
  unfolding remove_locked
  lookup-remove_locked m id now other h = elim (Bool-cases (same id m.self.id)) [
    | inl e ↦ rw e
    | inr e ↦ elim (Bool-cases (GoMap.has id m.members)) [
      | inl f ↦ rw (e, f) (lookup-delete id other m.members ∙ rw h)
      | inr f ↦ rw (e, f)
    ]
  ]

module _ {H : Type 0} (d : Detector H) (threshold : ℕ) (answers : Bytes → Bool)
    (at : Bytes → ℕ) where
  -- The view is coherent, and the member is as it was.
  abbrev Spared : Membership H → Bytes → Membership H → Type 0
  Spared m id m' = IsCoherent m' × (GoMap.lookup id m'.members ≡ GoMap.lookup id m.members)

  missed-Spared :
      (m : Membership H) (peer id : Bytes)
      → IsCoherent m
      → same peer id ≡ false
      → Spared m id (missed d threshold answers at m peer).1
  unfolding missed
  missed-Spared m peer id c ne =
      after (if d.warm h then d.phi_high (at peer) h else leb threshold count)
    where
      h : H
      h = history_of d threshold answers at m peer

      count : ℕ
      count = (misses_of d threshold answers at m peer + 1) % 256

      m' : Membership H
      m' =
          with_maps m m.members (GoMap.insert peer count m.misses) (GoMap.insert peer h m.phi)
            m.removed

      after :
          (suspect : Bool)
          → Spared m id (if suspect then remove_locked m' peer (at peer) else (false, m')).1
      after true = (
        remove_locked-IsCoherent m' peer (at peer) (IsCoherent-with_maps m _ _ _ c),
        lookup-remove_locked m' peer (at peer) id ne,
      )
      after false = (IsCoherent-with_maps m _ _ _ c, refl)

  detect_one-Spared :
      (m : Membership H) (peer id : Bytes)
      → IsCoherent m
      → answers id ≡ true
      → Spared m id (detect_one d threshold answers at m peer).1
  unfolding detect_one
  detect_one-Spared m peer id c answered = after (GoMap.has peer m.members) (answers peer) refl
    where
      beat : H
      beat = d.record_beat (at peer) (history_of d threshold answers at m peer)

      after :
          (there answer : Bool)
          → answers peer ≡ answer
          → Spared m id
              (if not there
                then (false, m)
                else if answer
                then (
                  false,
                  with_maps m m.members
                      (GoMap.delete peer m.misses)
                      (GoMap.insert peer beat m.phi)
                      m.removed,
                )
                else missed d threshold answers at m peer).1
      after false answer e = (c, refl)
      after true true e = (IsCoherent-with_maps m _ _ _ c, refl)
      after true false e = missed-Spared m peer id c (elim (Bool-cases (same peer id)) [
        | inr ne ↦ ne
        | inl eq ↦
            let clash : true ≡ false = sym answered ∙ ap answers (sym (same→eq peer id eq)) ∙ e in
            cc
      ])

  detect_loop-Spared :
      (list : List Member) (m : Membership H) (id : Bytes)
      → IsCoherent m
      → answers id ≡ true
      → Spared m id (detect_loop d threshold answers at m list).1
  unfolding detect_loop
  detect_loop-Spared [] m id c answered = (c, refl)
  detect_loop-Spared (peer ∷ rest) m id c answered =
      let (c', kept) = detect_one-Spared m peer.id id c answered in
      let (c'', still) =
        detect_loop-Spared rest (detect_one d threshold answers at m peer.id).1 id c' answered in
      (c'', still ∙ kept)

-- One round of failure detection, whatever the detector's statistics say, keeps the view coherent (the
-- node is a member with its own address, and the table is that of the members), and a peer that
-- answered its ping is the member that it was.
pub detect_failures-answered :
    {H : Type 0} (d : Detector H) (threshold : ℕ) (answers : Bytes → Bool) (at : Bytes → ℕ)
    (m : Membership H) (id : Bytes)
    → IsCoherent m
    → answers id ≡ true
    → IsCoherent (detect_failures d threshold answers at m).1
      × (GoMap.lookup id (detect_failures d threshold answers at m).1.members
          ≡ GoMap.lookup id m.members)
unfolding detect_failures
detect_failures-answered d threshold answers at m id c answered =
    detect_loop-Spared d (if threshold == 0 then 1 else threshold) answers at
      (peers m (sorted_members m)) m id c answered
