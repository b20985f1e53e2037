-- ===== src/Partition/Order.antt =====
-- Go's `sort.Strings` and `sort.Slice`, as an insertion sort; the order of strings. The comparisons
-- that the program sorts by are total, so that every correct sort returns the same list.
use mathlib.Core.List.{Permᴰ}
use mathlib.Core.List.Permᴰ.{nil, cons, swap, trans}
use medusa.Base.{
  ◌+◌, ◌≡◌, refl, subst, ap, ◌∙◌, inl, inr, List, [], ◌∷◌, Bytes, Bool, true, false, arith, ltb,
  ◌==◌, if◌then◌else◌, ◌&&◌, ◌||◌, Bool-cases, length,
}

-- `a < b` on strings
unfoldable pub str_lt : Bytes → Bytes → Bool
str_lt a [] = false
str_lt [] (y ∷ ys) = true
str_lt (x ∷ xs) (y ∷ ys) = ltb x y || (x == y && str_lt xs ys)

pub str_lt_irrefl : (a : Bytes) → str_lt a a ≡ false
unfolding str_lt
str_lt_irrefl [] = refl
str_lt_irrefl (x ∷ xs) = ground (arith, str_lt_irrefl xs)

pub str_lt_trans : (a b c : Bytes) → str_lt a b ≡ true → str_lt b c ≡ true → str_lt a c ≡ true
unfolding str_lt
str_lt_trans a b [] p q = cc
str_lt_trans a [] (z ∷ zs) p q = cc
str_lt_trans [] (y ∷ ys) (z ∷ zs) p q = refl
str_lt_trans (x ∷ xs) (y ∷ ys) (z ∷ zs) p q = ground (arith, str_lt_trans xs ys zs)

pub str_lt_total : (a b : Bytes) → str_lt a b ≡ false → str_lt b a ≡ false → a ≡ b
unfolding str_lt
str_lt_total [] [] p q = refl
str_lt_total [] (y ∷ ys) p q = cc
str_lt_total (x ∷ xs) [] p q = cc
str_lt_total (x ∷ xs) (y ∷ ys) p q = ground (arith, str_lt_total xs ys)

module _ {A : Type 0} (before : A → A → Bool) where
  unfoldable pub insert : A → List A → List A
  insert x [] = x ∷ []
  insert x (y ∷ ys) = let rest = insert x ys in if before y x then y ∷ rest else x ∷ y ∷ ys

  unfoldable pub sort : List A → List A
  unfolding insert
  sort [] = []
  sort (x ∷ xs) = insert x (sort xs)

  pub length-insert : (x : A) (xs : List A) → length (insert x xs) ≡ length xs + 1
  unfolding insert
  length-insert x [] = refl
  length-insert x (y ∷ ys) = ground (arith, length-insert x ys)

  pub length-sort : (xs : List A) → length (sort xs) ≡ length xs
  unfolding sort
  length-sort [] = refl
  length-sort (x ∷ xs) = omega (arith, length-insert x (sort xs), length-sort xs)

-- A comparison that sorts in one way only: two items that neither go first are the same.
pub record IsStrict {A : Type 0} (before : A → A → Bool) : Type 0 where
  pub irreflexive : (a : A) → before a a ≡ false
  pub transitive : (a b c : A) → before a b ≡ true → before b c ≡ true → before a c ≡ true
  pub connected : (a b : A) → before a b ≡ false → before b a ≡ false → a ≡ b

module _ {A : Type 0} (before : A → A → Bool) (strict : IsStrict before) where
  not_both : (a b : A) → before a b ≡ true → before b a ≡ true → ⊥
  not_both a b p q = ground (arith, strict.irreflexive a, strict.transitive a b a p q)

  -- What does not come after `z` goes before what comes after it.
  goes_first : (x y z : A) → before z x ≡ false → before z y ≡ true → before x y ≡ true
  goes_first x y z p q = elim (Bool-cases (before x z)) [
    | inl r ↦ strict.transitive x z y r q
    | inr r ↦ subst (λ (w : A). before w y ≡ true) (strict.connected z x p r) q
  ]

  -- Two items in front of a list, each inserted before the other.
  front :
      (x y : A) (l : List A)
      → Path
          (List A)
          (if before y x then y ∷ x ∷ l else x ∷ y ∷ l)
          (if before x y then x ∷ y ∷ l else y ∷ x ∷ l)
  front x y l = elim (Bool-cases (before x y)) [
    | inl p ↦ elim (Bool-cases (before y x)) [
      | inl q ↦ absurd (not_both x y p q)
      | inr q ↦ rw (p, q)
    ]
    | inr p ↦ elim (Bool-cases (before y x)) [
      | inl q ↦ rw (p, q)
      | inr q ↦
          rw (p, q)
            (ap (λ (w : A × A). w.0 ∷ w.1 ∷ l)
              (λ i. (strict.connected x y p q i, strict.connected y x q p i)))
    ]
  ]

  insert-insert :
      (x y : A) (l : List A)
      → insert before x (insert before y l) ≡ insert before y (insert before x l)
  unfolding insert
  insert-insert x y [] = front x y []
  insert-insert x y (z ∷ l) = elim (Bool-cases (before z y)) [
    | inl p ↦ elim (Bool-cases (before z x)) [
      | inl q ↦ rw (p, q) (rw p (ap (◌∷◌ z) (insert-insert x y l)))
      | inr q ↦ rw (p, q) (rw (goes_first x y z q p, p))
    ]
    | inr p ↦ elim (Bool-cases (before z x)) [
      | inl q ↦ rw (p, q) (rw (goes_first y x z p q, p))
      | inr q ↦ rw (p, q) (rw p (front x y (z ∷ l)))
    ]
  ]

  -- The order of the input does not matter.
  pub sort_reorder : {l m : List A} → Permᴰ l m → sort before l ≡ sort before m
  unfolding sort
  sort_reorder nil = refl
  sort_reorder (cons {a} {b} e p) = λ i. insert before (e i) (sort_reorder p i)
  sort_reorder (swap {a = a} {b = b} {l = l} e f) =
      insert-insert a b (sort before l)
      ∙ (λ i. insert before (f i) (insert before (e i) (sort before l)))
  sort_reorder (trans p q) = sort_reorder p ∙ sort_reorder q
