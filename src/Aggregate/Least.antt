-- ===== src/Aggregate/Least.antt =====
-- imap/aggregate.go: the loop of `extremum` finds the least or the greatest of the values.
use medusa.Base.{
  ℕ, ◌^◌, ◌+◌, ◌%◌, ◌≤◌, ◌≡◌, ◌≢◌, ◌⊎◌, ==_iff, subst, refl, sym, Option, none, some, List, [], ◌∷◌,
  Bytes, Bool, true, false, arith, length, ◌==◌, Bool-cases, inl, inr,
}
use medusa.Processor.{read_int64}
use medusa.Aggregate.{extremum_from, see, beats}

-- The order of the int64 values that two patterns stand for: `biased` is the value and 2 ^ 63.
abbrev pub biased : ℕ → ℕ
biased x = (x + 2 ^ 63) % 2 ^ 64

abbrev pub AtMost : Bool → ℕ → ℕ → Type 0
AtMost true b x = biased b ≤ biased x
AtMost false b x = biased x ≤ biased b

-- Every value that is not empty is at least the bound, or at most it.
abbrev pub Bounds : Bool → ℕ → List Bytes → Type 0
Bounds smaller b [] = Unit {0}
Bounds smaller b (v ∷ values) =
    ((length v ≡ 0) ⊎ AtMost smaller b (read_int64 v)) × Bounds smaller b values

-- The number is that of a value.
abbrev pub Among : ℕ → List Bytes → Type 0
Among b [] = ⊥
Among b (v ∷ values) = ((length v ≢ 0) × (read_int64 v ≡ b)) ⊎ Among b values

abbrev pub AllEmpty : List Bytes → Type 0
AllEmpty [] = Unit {0}
AllEmpty (v ∷ values) = (length v ≡ 0) × AllEmpty values

-- The minimum of the values that are not empty, or their maximum; nothing, if all are.
abbrev pub IsExtremum : Bool → List Bytes → Option ℕ → Type 0
IsExtremum smaller values none = AllEmpty values
IsExtremum smaller values (some b) = Among b values × Bounds smaller b values

AtMost-refl : (smaller : Bool) (a : ℕ) → AtMost smaller a a
AtMost-refl true a = omega arith
AtMost-refl false a = omega arith

AtMost-trans :
    (smaller : Bool) (b a x : ℕ) → AtMost smaller b a → AtMost smaller a x → AtMost smaller b x
AtMost-trans true b a x p q = omega (arith, p, q)
AtMost-trans false b a x p q = omega (arith, p, q)

AtMost-beats : (smaller : Bool) (x a : ℕ) → beats smaller x a ≡ true → AtMost smaller x a
AtMost-beats true x a h = ground arith
AtMost-beats false x a h = ground arith

AtMost-beats_not : (smaller : Bool) (x a : ℕ) → beats smaller x a ≡ false → AtMost smaller a x
AtMost-beats_not true x a h = ground arith
AtMost-beats_not false x a h = ground arith

-- What the loop makes of a first candidate
abbrev Found : Bool → ℕ → List Bytes → Option ℕ → Type 0
Found smaller a xs o =
    (b : ℕ) × (o ≡ some b) × ((b ≡ a) ⊎ Among b xs) × AtMost smaller b a × Bounds smaller b xs

module _ (smaller : Bool) (a : ℕ) (x : Bytes) (xs : List Bytes) (o : Option ℕ) where
  Found-empty : length x ≡ 0 → Found smaller a xs o → Found smaller a (x ∷ xs) o
  Found-empty e (b, eq, inl here, least, bounds) = (b, eq, inl here, least, (inl e, bounds))
  Found-empty e (b, eq, inr later, least, bounds) = (b, eq, inr (inr later), least, (inl e, bounds))

  Found-kept : AtMost smaller a (read_int64 x) → Found smaller a xs o → Found smaller a (x ∷ xs) o
  Found-kept k (b, eq, inl here, least, bounds) =
      (b, eq, inl here, least, (inr (AtMost-trans smaller b a (read_int64 x) least k), bounds))
  Found-kept k (b, eq, inr later, least, bounds) = (
    b,
    eq,
    inr (inr later),
    least,
    (inr (AtMost-trans smaller b a (read_int64 x) least k), bounds),
  )

  Found-taken :
      length x ≢ 0
      → AtMost smaller (read_int64 x) a
      → Found smaller (read_int64 x) xs o
      → Found smaller a (x ∷ xs) o
  Found-taken ne k (b, eq, inl here, least, bounds) = (
    b,
    eq,
    inr (inl (ne, sym here)),
    AtMost-trans smaller b (read_int64 x) a least k,
    (inr least, bounds),
  )
  Found-taken ne k (b, eq, inr later, least, bounds) =
      (b, eq, inr (inr later), AtMost-trans smaller b (read_int64 x) a least k, (inr least, bounds))

extremum_from-Found :
    (smaller : Bool) (a : ℕ) (xs : List Bytes)
    → Found smaller a xs (extremum_from smaller (some a) xs)
unfolding extremum_from see
extremum_from-Found smaller a [] = (a, refl, inl refl, AtMost-refl smaller a, tt)
extremum_from-Found smaller a (x ∷ xs) = elim (Bool-cases (length x == 0)) [
  | inl e ↦
      rw e (
        Found-empty smaller a x xs _ ((==_iff (length x) 0).0 e) (extremum_from-Found smaller a xs))
  | inr e ↦ elim (Bool-cases (beats smaller (read_int64 x) a)) [
    | inl better ↦ rw e (
        rw better (
          Found-taken smaller a x xs _ (λ z. cc (e, (==_iff (length x) 0).1 z))
            (AtMost-beats smaller (read_int64 x) a better)
            (extremum_from-Found smaller (read_int64 x) xs)))
    | inr worse ↦ rw e (
        rw worse (
          Found-kept smaller a x xs _ (AtMost-beats_not smaller (read_int64 x) a worse)
            (extremum_from-Found smaller a xs)))
  ]
]

-- The same of a loop that has seen nothing
Found-IsExtremum :
    (smaller : Bool) (x : Bytes) (xs : List Bytes) (o : Option ℕ)
    → length x ≢ 0
    → Found smaller (read_int64 x) xs o
    → IsExtremum smaller (x ∷ xs) o
Found-IsExtremum smaller x xs o ne (b, eq, among, least, bounds) =
    subst (IsExtremum smaller (x ∷ xs)) (sym eq)
      (elim among [ inl here ↦ inl (ne, sym here) | inr later ↦ inr later ], (inr least, bounds))

IsExtremum-empty :
    (smaller : Bool) (x : Bytes) (xs : List Bytes) (o : Option ℕ)
    → length x ≡ 0
    → IsExtremum smaller xs o
    → IsExtremum smaller (x ∷ xs) o
IsExtremum-empty smaller x xs none e h = (e, h)
IsExtremum-empty smaller x xs (some b) e (among, bounds) = (inr among, (inl e, bounds))

pub extremum_from-IsExtremum :
    (smaller : Bool) (xs : List Bytes) → IsExtremum smaller xs (extremum_from smaller none xs)
unfolding extremum_from see
extremum_from-IsExtremum smaller [] = tt
extremum_from-IsExtremum smaller (x ∷ xs) = elim (Bool-cases (length x == 0)) [
  | inl e ↦ rw e (
      IsExtremum-empty smaller x xs _ ((==_iff (length x) 0).0 e)
        (extremum_from-IsExtremum smaller xs))
  | inr e ↦ rw e (
      Found-IsExtremum smaller x xs _ (λ z. cc (e, (==_iff (length x) 0).1 z))
        (extremum_from-Found smaller (read_int64 x) xs))
]
