-- ===== src/Service/Loading.antt =====
-- imap/store.go: entries of one store that are loaded into another.
use medusa.Base.{
  ◌⊎◌, ℕ, ◌≡◌, refl, ap, sym, ◌∙◌, List, [], ◌∷◌, Bytes, Bool, true, false, ◌&&◌, ◌||◌, none, some,
  arith, inl, inr, Bool-cases, Option-cases, if◌then◌else◌, ◌==◌, ==_iff, same, same_iff, same_self,
}
use medusa.Shard.{Value, live}
use medusa.Store
use medusa.Store.{Store}
use medusa.Queue.{routed_partition}
use medusa.Scan.{Entry, listed}
use medusa.Legacy.{load_entries, load_all}
use medusa.Service.Restart.{is_legacy}
use medusa.Service.Agree.{find_at, find-put}

-- No entry is a queue in the format of old.
abbrev pub AllModern : List Entry → Type 0
AllModern [] = Unit
AllModern (e ∷ es) = (is_legacy e ≡ false) × AllModern es

load_all-modern :
    (es : List Entry) (now : ℕ) (s : Store)
    → AllModern es
    → load_all es now s ≡ load_entries es now s
unfolding load_all load_entries
load_all-modern [] now s h = refl
load_all-modern (e ∷ es) now s (m, h) = rw m (
    load_all-modern es now
      (Store.put s (routed_partition e.map_name e.key) e.map_name e.key e.contents e.expire_at
        now).1
      h)

abbrev pub named : List Entry → Bytes → Bytes → Bool
named [] name key = false
named (e ∷ es) name key = (same e.map_name name && same e.key key) || named es name key

pub named-listed :
    (es : List Entry) (name key : Bytes) (v : Value)
    → listed es name key v ≡ true
    → named es name key ≡ true
named-listed [] name key v h = h
named-listed (e ∷ es) name key v h = ground (arith, named-listed es name key v)

abbrev pub value_of : Entry → Value
value_of e = record { stored = e.contents; expire_at = e.expire_at }

listed_first :
    (e : Entry) (es : List Entry) (name key : Bytes)
    → (same e.map_name name && same e.key key) ≡ true
    → listed (e ∷ es) name key (value_of e) ≡ true
listed_first e es name key h = ground (arith, same_self e.contents, ==_iff e.expire_at e.expire_at)

home_of :
    (e : Entry) (name key : Bytes)
    → (same e.map_name name && same e.key key) ≡ true
    → routed_partition e.map_name e.key ≡ routed_partition name key
home_of e name key h =
    let n : e.map_name ≡ name = ground (arith, same_iff e.map_name name) in
    let k : e.key ≡ key = ground (arith, same_iff e.key key) in λ i. routed_partition (n i) (k i)

module _ (src : Store) where
  -- The entries are entries of the store `src`.
  abbrev pub AreOf : List Entry → Type 0
  AreOf es =
      (name key : Bytes) (v : Value)
      → listed es name key v ≡ true
      → find_at src (routed_partition name key) name key ≡ some v

  AreOf-tail : (e : Entry) (es : List Entry) → AreOf (e ∷ es) → AreOf es
  AreOf-tail e es h name key v l = h name key v (ground (arith, l))

  load_entries-find :
      (es : List Entry) (now : ℕ) (s : Store) (q : ℕ) (name key : Bytes)
      → AreOf es
      → find_at (load_entries es now s) q name key ≡ (
          if (q == routed_partition name key) && named es name key
          then find_at src (routed_partition name key) name key
          else find_at s q name key)
  unfolding load_entries
  load_entries-find [] now s q name key h = ground arith
  load_entries-find (e ∷ es) now s q name key h =
      let home = routed_partition e.map_name e.key in
      let put_here = find-put s home e.map_name e.key q name key e.contents e.expire_at now in
      load_entries-find es now _ q name key (AreOf-tail e es h)
      ∙ elim (Bool-cases (same e.map_name name && same e.key key)) [
        | inl here ↦
            let there : find_at src (routed_partition name key) name key ≡ some (value_of e) =
              h name key (value_of e) (listed_first e es name key here) in
            let same_home : home ≡ routed_partition name key = home_of e name key here in
            ground (arith, put_here, there, same_home, here)
        | inr gone ↦ ground (arith, put_here, gone)
      ]

module _ (src fresh : Store) (es : List Entry) (at later q : ℕ) (name key : Bytes) where
  -- Loading entries of a store into an empty one gives each entry of it that is named, or whose
  -- absence no read at `later` sees.
  pub load_all-live :
      AreOf src es
      → AllModern es
      → find_at fresh q name key ≡ none
      → ((v : Value)
          → find_at src q name key ≡ some v
          → (routed_partition name key ≡ q)
            × ((live later (some v) ≡ none) ⊎ (named es name key ≡ true)))
      → live later (find_at src q name key) ≡ live later (find_at (load_all es at fresh) q name key)
  load_all-live are modern empty lists = elim (Option-cases (find_at src q name key)) [
    | inl e ↦ ap (live later) (e ∙ sym (restored ∙ absent e))
    | inr (v, e) ↦ elim (Bool-cases (named es name key)) [
      | inl there ↦ ap (live later) (sym (restored ∙ present (lists v e).0 there))
      | inr missing ↦
          ap (live later) e
          ∙ unseen v (lists v e).1 missing
          ∙ sym (ap (live later) (restored ∙ gone missing))
    ]
  ]
    where
      restored : find_at (load_all es at fresh) q name key ≡ (
          if (q == routed_partition name key) && named es name key
          then find_at src (routed_partition name key) name key
          else find_at fresh q name key)
      restored =
          ap (λ (s : Store). find_at s q name key) (load_all-modern es at fresh modern)
          ∙ load_entries-find src es at fresh q name key are

      absent :
          find_at src q name key ≡ none
          → (if (q == routed_partition name key) && named es name key
              then find_at src (routed_partition name key) name key
              else find_at fresh q name key)
            ≡ none
      absent e = elim (Bool-cases (q == routed_partition name key)) [
        | inl here ↦
            let same_home =
              ap (λ (p : ℕ). find_at src p name key)
                (sym ((==_iff q (routed_partition name key)).0 here))
              ∙ e in
            ground (arith, empty, same_home)
        | inr other ↦ ground (arith, empty, other)
      ]

      present :
          routed_partition name key ≡ q
          → named es name key ≡ true
          → (if (q == routed_partition name key) && named es name key
              then find_at src (routed_partition name key) name key
              else find_at fresh q name key)
            ≡ find_at src q name key
      present h there =
          let here : q == routed_partition name key ≡ true =
            (==_iff q (routed_partition name key)).1 (sym h) in
          rw (here, there) (ap (λ (p : ℕ). find_at src p name key) h)

      gone :
          named es name key ≡ false
          → (if (q == routed_partition name key) && named es name key
              then find_at src (routed_partition name key) name key
              else find_at fresh q name key)
            ≡ none
      gone missing = ground (arith, missing, empty)

      unseen :
          (v : Value)
          → (live later (some v) ≡ none) ⊎ (named es name key ≡ true)
          → named es name key ≡ false
          → live later (some v) ≡ live later none
      unseen v (inl h) missing = h ∙ unfold live in refl
      unseen v (inr h) missing = cc
