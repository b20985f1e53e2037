-- ===== src/Aggregate/Extremum.antt =====
-- imap/aggregate.go: `extremum` of the members' extrema is `extremum` of all the values.
use medusa.Base.{
  concat, ℕ, ◌^◌, ◌<◌, ◌≡◌, refl, ap, sym, ◌∙◌, Option, none, some, List, [], ◌∷◌, ◌++◌, Bytes,
  Bool, true, false, arith, length, if◌then◌else◌, ◌==◌, map, Bool-cases, inl, inr,
}
use medusa.Bytes.{AreBytes, put_uint64, length-put_be}
use medusa.Processor.{read_int64}
use medusa.Processor.Counter.{read_int64-put_uint64, read_int64-lt}
use medusa.Aggregate.Least.{IsExtremum, extremum_from-IsExtremum}
use medusa.Aggregate.{extremum, extremum_from, see, beats}

-- The first best of two candidates
join : Bool → Option ℕ → Option ℕ → Option ℕ
join smaller none y = y
join smaller (some b) none = some b
join smaller (some b) (some x) = see smaller (some b) x

join_assoc :
    (smaller : Bool) (a b c : Option ℕ)
    → join smaller (join smaller a b) c ≡ join smaller a (join smaller b c)
unfolding join see
join_assoc smaller none b c = refl
join_assoc smaller (some a) none c = refl
join_assoc smaller (some a) (some b) none = ground arith
join_assoc true (some a) (some b) (some c) = ground arith
join_assoc false (some a) (some b) (some c) = ground arith

-- What one element offers: nothing if it is empty.
candidate : Bytes → Option ℕ
candidate it = if length it == 0 then none else some (read_int64 it)

see-join :
    (smaller : Bool) (best : Option ℕ) (it : Bytes)
    → (if length it == 0 then best else see smaller best (read_int64 it))
      ≡ join smaller best (candidate it)
unfolding join candidate see
see-join smaller none it = ground arith
see-join smaller (some b) it = ground arith

extremum_from-cons :
    (smaller : Bool) (best : Option ℕ) (x : Bytes) (xs : List Bytes)
    → extremum_from smaller best (x ∷ xs)
      ≡ extremum_from smaller (join smaller best (candidate x)) xs
extremum_from-cons smaller best x xs =
    unfold extremum_from in ap (λ o. extremum_from smaller o xs) (see-join smaller best x)

-- The loop of `extremum`, from a candidate, is the join with the loop from nothing.
extremum_from-join :
    (smaller : Bool) (best : Option ℕ) (xs : List Bytes)
    → extremum_from smaller best xs ≡ join smaller best (extremum_from smaller none xs)
extremum_from-join smaller none xs = unfold join in refl
extremum_from-join smaller (some b) [] = unfold extremum_from join in refl
extremum_from-join smaller (some b) (x ∷ xs) =
    extremum_from-cons smaller (some b) x xs
    ∙ extremum_from-join smaller (join smaller (some b) (candidate x)) xs
    ∙ join_assoc smaller (some b) (candidate x) (extremum_from smaller none xs)
    ∙ ap (join smaller (some b)) (sym (from_none (extremum_from-join smaller (candidate x) xs)))
  where
    from_none :
        extremum_from smaller (candidate x) xs
          ≡ join smaller (candidate x) (extremum_from smaller none xs)
        → extremum_from smaller none (x ∷ xs)
          ≡ join smaller (candidate x) (extremum_from smaller none xs)
    from_none ih = extremum_from-cons smaller none x xs ∙ unfold join in ih

extremum_from-append :
    (smaller : Bool) (best : Option ℕ) (xs ys : List Bytes)
    → extremum_from smaller best (xs ++ ys)
      ≡ extremum_from smaller (extremum_from smaller best xs) ys
unfolding extremum_from
extremum_from-append smaller best [] ys = refl
extremum_from-append smaller best (x ∷ xs) ys =
    extremum_from-append smaller (if length x == 0 then best else see smaller best (read_int64 x))
      xs ys

abbrev AllBytes : List Bytes → Type 0
AllBytes [] = Unit
AllBytes (x ∷ xs) = AreBytes x × AllBytes xs

abbrev pub AllGroups : List (List Bytes) → Type 0
AllGroups [] = Unit
AllGroups (g ∷ groups) = AllBytes g × AllGroups groups

-- A candidate is an int64 pattern.
abbrev IsWord : Option ℕ → Type 0
IsWord none = Unit
IsWord (some n) = n < 2 ^ 64

IsWord-see :
    (smaller : Bool) (best : Option ℕ) (x : ℕ)
    → IsWord best
    → x < 2 ^ 64
    → IsWord (see smaller best x)
unfolding see
IsWord-see smaller none x hb hx = hx
IsWord-see smaller (some b) x hb hx = elim (Bool-cases (beats smaller x b)) [
  | inl e ↦ rw e hx
  | inr e ↦ rw e hb
]

extremum_from-IsWord :
    (smaller : Bool) (best : Option ℕ) (xs : List Bytes)
    → IsWord best
    → AllBytes xs
    → IsWord (extremum_from smaller best xs)
unfolding extremum_from
extremum_from-IsWord smaller best [] hb h = hb
extremum_from-IsWord smaller best (x ∷ xs) hb (hx, h) = elim (Bool-cases (length x == 0)) [
  | inl e ↦ rw e (extremum_from-IsWord smaller best xs hb h)
  | inr e ↦ rw e (
      extremum_from-IsWord smaller (see smaller best (read_int64 x)) xs
        (IsWord-see smaller best (read_int64 x) hb (read_int64-lt x hx)) h)
]

candidate-put :
    (o : Option ℕ) → IsWord o → candidate (elim o [ none ↦ [] | some b ↦ put_uint64 b ]) ≡ o
unfolding candidate
candidate-put none h = refl
candidate-put (some b) h = rw (length-put_be 8 b) (ap some (read_int64-put_uint64 b h))

-- A member's partial offers what its loop found.
candidate-extremum :
    (smaller : Bool) (xs : List Bytes)
    → AllBytes xs
    → candidate (extremum xs smaller) ≡ extremum_from smaller none xs
unfolding extremum
candidate-extremum smaller xs h =
    candidate-put (extremum_from smaller none xs) (extremum_from-IsWord smaller none xs tt h)

abbrev pub extrema : Bool → List (List Bytes) → List Bytes
extrema smaller groups = map (λ g. extremum g smaller) groups

extremum_from-extrema :
    (smaller : Bool) (groups : List (List Bytes))
    → AllGroups groups
    → extremum_from smaller none (extrema smaller groups)
      ≡ extremum_from smaller none (concat groups)
extremum_from-extrema smaller [] h = refl
extremum_from-extrema smaller (g ∷ groups) (hg, h) =
    extremum_from-cons smaller none (extremum g smaller) (extrema smaller groups)
    ∙ rest (extremum_from-extrema smaller groups h)
  where
    rest :
        extremum_from smaller none (extrema smaller groups)
          ≡ extremum_from smaller none (concat groups)
        → extremum_from smaller
            (join smaller none (candidate (extremum g smaller)))
            (extrema smaller groups)
          ≡ extremum_from smaller none (g ++ concat groups)
    rest ih =
        unfold join in
        rw (candidate-extremum smaller g hg) (
          extremum_from-join smaller (extremum_from smaller none g) (extrema smaller groups)
          ∙ ap (join smaller (extremum_from smaller none g)) ih
          ∙ sym (
              extremum_from-append smaller none g (concat groups)
              ∙ extremum_from-join smaller (extremum_from smaller none g) (concat groups)))

-- The bytes of a result
abbrev pub written : Option ℕ → Bytes
written none = []
written (some b) = put_uint64 b

-- The distributed minimum and maximum: what the members' partial extrema combine to, members without a
-- value included, is the minimum or the maximum of all their values, as int64 values and among those that
-- are not empty; it is empty if all of those are. It is what one member would compute on all values. The
-- values are made of bytes.
pub extremum-combine :
    (smaller : Bool) (groups : List (List Bytes))
    → AllGroups groups
    → (extremum (extrema smaller groups) smaller ≡ extremum (concat groups) smaller)
      × ((o : Option ℕ) × (extremum (extrema smaller groups) smaller ≡ written o)
          × IsExtremum smaller (concat groups) o)
unfolding extremum
extremum-combine smaller groups h =
    let same = extremum_from-extrema smaller groups h in
    (
      ap (λ (o : Option ℕ). elim o as (λ _. Bytes) [ none ↦ [] | some best ↦ put_uint64 best ])
          same,
      (
        extremum_from smaller none (concat groups),
        ap written same,
        extremum_from-IsExtremum smaller (concat groups),
      ),
    )
