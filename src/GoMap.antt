-- ===== src/GoMap.antt =====
-- Go's `map[string]V` as an association list: lookup, assignment, `delete`. The order of `range`
-- is unspecified in Go; the list's order stands for whichever order a run takes.
use medusa.Base.{
  ◌≡◌, refl, Option, none, some, List, [], ◌∷◌, Bytes, same, same_iff, same→eq, Bool, false, not,
  ◌||◌, Bool-cases, inl, inr, subst, ◌∙◌,
}
use medusa.Base.{if◌then◌else◌, arith}

abbrev pub GoMap {ℓ} : Type ℓ → Type ℓ
GoMap V = List (Bytes × V)

-- `o`, if its value passes the test
abbrev pub only_if {ℓ} : {V : Type ℓ} → (V → Bool) → Option V → Option V
only_if f none = none
only_if f (some v) = if f v then some v else none

same_swap : (k j : Bytes) → same j k ≡ false → same k j ≡ false
same_swap k j h = ground (arith, same_iff j k, same_iff k j)

module _ {ℓ} {V : Type ℓ} where
  unfoldable pub lookup : Bytes → GoMap V → Option V
  lookup k [] = none
  lookup k ((j, v) ∷ m) = if same j k then some v else lookup k m

  unfoldable pub insert : Bytes → V → GoMap V → GoMap V
  insert k v [] = (k, v) ∷ []
  insert k v ((j, w) ∷ m) = if same j k then (k, v) ∷ m else (j, w) ∷ insert k v m

  unfoldable pub delete : Bytes → GoMap V → GoMap V
  delete k [] = []
  delete k ((j, w) ∷ m) = let rest = delete k m in if same j k then rest else (j, w) ∷ rest

  pub lookup-insert :
      (k j : Bytes) (v : V) (m : GoMap V)
      → lookup j (insert k v m) ≡ (if same k j then some v else lookup j m)
  unfolding lookup insert
  lookup-insert k j v [] = refl
  lookup-insert k j v ((i, w) ∷ m) =
      ground (arith, same_iff k j, same_iff i k, same_iff i j, lookup-insert k j v m)

  pub lookup-delete :
      (k j : Bytes) (m : GoMap V) → lookup j (delete k m) ≡ (if same k j then none else lookup j m)
  unfolding lookup delete
  lookup-delete k j [] = ground arith
  lookup-delete k j ((i, w) ∷ m) =
      ground (arith, same_iff k j, same_iff i k, same_iff i j, lookup-delete k j m)

  -- `for k, v := range m { if … { delete(m, k) } }`
  unfoldable pub keep_if : (Bytes → V → Bool) → GoMap V → GoMap V
  keep_if f [] = []
  keep_if f ((j, w) ∷ m) = let rest = keep_if f m in if f j w then (j, w) ∷ rest else rest

  -- `_, ok := m[k]`
  unfoldable pub has : Bytes → GoMap V → Bool
  has k [] = false
  has k ((j, w) ∷ m) = same j k || has k m

  -- No key stands twice.
  abbrev pub Distinct : GoMap V → Type 0
  Distinct [] = Unit
  Distinct ((j, w) ∷ m) = (has j m ≡ false) × Distinct m

  pub lookup-absent : (k : Bytes) (m : GoMap V) → has k m ≡ false → lookup k m ≡ none
  unfolding lookup has
  lookup-absent k [] h = refl
  lookup-absent k ((j, w) ∷ m) h = ground (arith, lookup-absent k m)

  pub has-insert :
      (k j : Bytes) (v : V) (m : GoMap V) → has j (insert k v m) ≡ (same k j || has j m)
  unfolding has insert
  has-insert k j v [] = refl
  has-insert k j v ((i, w) ∷ m) =
      ground (arith, same_iff k j, same_iff i k, same_iff i j, has-insert k j v m)

  has-keep_if :
      (f : Bytes → V → Bool) (k : Bytes) (m : GoMap V)
      → has k m ≡ false
      → has k (keep_if f m) ≡ false
  unfolding has keep_if
  has-keep_if f k [] h = refl
  has-keep_if f k ((j, w) ∷ m) h = ground (arith, has-keep_if f k m)

  pub lookup-keep_if :
      (f : Bytes → V → Bool) (k : Bytes) (m : GoMap V)
      → Distinct m
      → lookup k (keep_if f m) ≡ only_if (f k) (lookup k m)
  unfolding lookup keep_if
  lookup-keep_if f k [] d = refl
  lookup-keep_if f k ((j, w) ∷ m) (new, d) = elim (Bool-cases (same j k)) [
    | inl e ↦ ground (arith, same_iff j k, lookup-keep_if f k m d, lookup-absent k m)
    | inr e ↦ ground (arith, lookup-keep_if f k m d)
  ]

  pub Distinct-insert : (k : Bytes) (v : V) (m : GoMap V) → Distinct m → Distinct (insert k v m)
  unfolding insert
  Distinct-insert k v [] d = (unfold has in refl, tt)
  Distinct-insert k v ((j, w) ∷ m) (new, d) = elim (Bool-cases (same j k)) [
    | inl e ↦ rw e ((subst (λ (x : Bytes). has x m ≡ false) (same→eq j k e) new), d)
    | inr e ↦ rw e ((has-insert k j v m ∙ rw (same_swap k j e) new), Distinct-insert k v m d)
  ]

  pub Distinct-keep_if : (f : Bytes → V → Bool) (m : GoMap V) → Distinct m → Distinct (keep_if f m)
  unfolding keep_if
  Distinct-keep_if f [] d = tt
  Distinct-keep_if f ((j, w) ∷ m) (new, d) = elim (Bool-cases (f j w)) [
    | inl e ↦ rw e (has-keep_if f j m new, Distinct-keep_if f m d)
    | inr e ↦ rw e (Distinct-keep_if f m d)
  ]

  -- `delete` removes what has the key.
  delete-keep_if : (k : Bytes) (m : GoMap V) → delete k m ≡ keep_if (λ j w. not (same j k)) m
  unfolding delete keep_if
  delete-keep_if k [] = refl
  delete-keep_if k ((j, w) ∷ m) = ground (arith, delete-keep_if k m)

  pub Distinct-delete : (k : Bytes) (m : GoMap V) → Distinct m → Distinct (delete k m)
  Distinct-delete k m d = rw delete-keep_if (Distinct-keep_if (λ j w. not (same j k)) m d)
