-- ===== src/Partition/Rank.antt =====
-- partition/table.go: in a sorted list an item stands at the place that the number of items before it
-- gives, so that a member holds the partition's copy that its rendezvous weight says.
use medusa.Base.{
  ℕ, zero, suc, ◌+◌, ◌≤◌, ◌<◌, ◌≡◌, ◌⊎◌, refl, Bool-cases, inl, inr, ap, sym, subst, ◌∙◌, List, [],
  ◌∷◌, Bytes, Bool, true, false, Option, some, arith, get_elem?, ltb, ◌==◌, ◌&&◌, ◌||◌,
  if◌then◌else◌,
}
use medusa.Partition.{partition_count}
use medusa.Partition.Order.{insert, sort, IsStrict}
use medusa.Partition.Table.{
  Table, Ranked, hrw_weight, ranks_before, scores, ranking, table_of, owner_of, backup_at,
}
use medusa.Partition.Owner.{ranked_member, or_empty, table_of-owner, table_of-backup}

module _ {A : Type 0} where
  abbrev Has : A → List A → Type 0
  Has x [] = ⊥
  Has x (y ∷ l) = (y ≡ x) ⊎ Has x l

  count : (A → Bool) → List A → ℕ
  count test [] = 0
  count test (y ∷ l) = (if test y then 1 else 0) + count test l

module _ {A : Type 0} (before : A → A → Bool) where
  count-insert :
      (test : A → Bool) (x : A) (l : List A)
      → count test (insert before x l) ≡ (if test x then 1 else 0) + count test l
  unfolding count insert
  count-insert test x [] = refl
  count-insert test x (y ∷ l) = elim (Bool-cases (before y x)) [
    | inl e ↦ rw e (omega (arith, count-insert test x l))
    | inr e ↦ rw e refl
  ]

  count-sort : (test : A → Bool) (l : List A) → count test (sort before l) ≡ count test l
  unfolding count sort
  count-sort test [] = refl
  count-sort test (x ∷ l) = omega (arith, count-insert test x (sort before l), count-sort test l)

  Has-insert_self : (x : A) (l : List A) → Has x (insert before x l)
  unfolding insert
  Has-insert_self x [] = inl refl
  Has-insert_self x (y ∷ l) = elim (Bool-cases (before y x)) [
    | inl e ↦ rw e (inr (Has-insert_self x l))
    | inr e ↦ rw e (inl refl)
  ]

  Has-insert : (x z : A) (l : List A) → Has z l → Has z (insert before x l)
  unfolding insert
  Has-insert x z [] h = absurd h
  Has-insert x z (y ∷ l) h = elim (Bool-cases (before y x)) [
    | inr e ↦ rw e (inr h)
    | inl e ↦ rw e (elim h [ inl here ↦ inl here | inr later ↦ inr (Has-insert x z l later) ])
  ]

  Has-sort : (z : A) (l : List A) → Has z l → Has z (sort before l)
  unfolding sort
  Has-sort z [] h = absurd h
  Has-sort z (x ∷ l) (inl e) =
      subst (λ (w : A). Has w (insert before x (sort before l))) e
        (Has-insert_self x (sort before l))
  Has-sort z (x ∷ l) (inr h) = Has-insert x z (sort before l) (Has-sort z l h)

  -- Nothing in the list goes before the item.
  abbrev NoneBefore : A → List A → Type 0
  NoneBefore x [] = Unit {0}
  NoneBefore x (y ∷ l) = (before y x ≡ false) × NoneBefore x l

  abbrev IsSorted : List A → Type 0
  IsSorted [] = Unit {0}
  IsSorted (x ∷ l) = NoneBefore x l × IsSorted l

  NoneBefore-Has : (x z : A) (l : List A) → NoneBefore x l → Has z l → before z x ≡ false
  NoneBefore-Has x z [] n h = absurd h
  NoneBefore-Has x z (y ∷ l) n (inl e) = ap (λ (w : A). before w x) (sym e) ∙ n.0
  NoneBefore-Has x z (y ∷ l) n (inr h) = NoneBefore-Has x z l n.1 h

  count-NoneBefore : (x : A) (l : List A) → NoneBefore x l → count (λ y. before y x) l ≡ 0
  unfolding count
  count-NoneBefore x [] n = refl
  count-NoneBefore x (y ∷ l) n = rw (n.0) (omega (arith, count-NoneBefore x l n.1))

module _ {A : Type 0} (before : A → A → Bool) (strict : IsStrict before) where
  asymmetric : (x y : A) → before x y ≡ true → before y x ≡ false
  asymmetric x y h = elim (Bool-cases (before y x)) [
    | inl e ↦ cc (strict.irreflexive x, strict.transitive x y x h e)
    | inr e ↦ e
  ]

  not_before : (x y z : A) → before y x ≡ false → before z y ≡ false → before z x ≡ false
  not_before x y z p q = elim (Bool-cases (before z x)) [
    | inr e ↦ e
    | inl e ↦ elim (Bool-cases (before x y)) [
      | inl r ↦ cc (q, strict.transitive z x y e r)
      | inr r ↦ cc (q, e, ap (λ (w : A). before z w) (strict.connected x y r p))
    ]
  ]

  NoneBefore-step :
      (x y : A) (l : List A) → before y x ≡ false → NoneBefore before y l → NoneBefore before x l
  NoneBefore-step x y [] p n = tt
  NoneBefore-step x y (z ∷ l) p n = (not_before x y z p n.0, NoneBefore-step x y l p n.1)

  NoneBefore-insert :
      (y x : A) (l : List A)
      → before x y ≡ false
      → NoneBefore before y l
      → NoneBefore before y (insert before x l)
  unfolding insert
  NoneBefore-insert y x [] p n = (p, tt)
  NoneBefore-insert y x (z ∷ l) p n = elim (Bool-cases (before z x)) [
    | inl e ↦ rw e ((n.0, NoneBefore-insert y x l p n.1))
    | inr e ↦ rw e ((p, n))
  ]

  IsSorted-insert : (x : A) (l : List A) → IsSorted before l → IsSorted before (insert before x l)
  unfolding insert
  IsSorted-insert x [] s = (tt, tt)
  IsSorted-insert x (y ∷ l) s = elim (Bool-cases (before y x)) [
    | inl e ↦ rw e ((NoneBefore-insert y x l (asymmetric y x e) s.0, IsSorted-insert x l s.1))
    | inr e ↦ rw e (((e, NoneBefore-step x y l e s.0), s))
  ]

  IsSorted-sort : (l : List A) → IsSorted before (sort before l)
  unfolding sort
  IsSorted-sort [] = tt
  IsSorted-sort (x ∷ l) = IsSorted-insert x (sort before l) (IsSorted-sort l)

  same_item :
      (x y : A) (l : List A) → NoneBefore before y l → Has x (y ∷ l) → before y x ≡ false → y ≡ x
  same_item x y l n (inl here) e = here
  same_item x y l n (inr later) e = strict.connected y x e (NoneBefore-Has before y x l n later)

  -- In a sorted list an item stands behind as many others as go before it.
  get_elem?-IsSorted :
      (x : A) (l : List A)
      → IsSorted before l
      → Has x l
      → get_elem? l (count (λ y. before y x) l) ≡ some x
  unfolding count
  get_elem?-IsSorted x [] s h = absurd h
  get_elem?-IsSorted x (y ∷ l) s (inl here) = elim (Bool-cases (before y x)) [
    | inl e ↦ cc (strict.irreflexive x, e, ap (λ (w : A). before w x) here)
    | inr e ↦ rw e (rw (count-NoneBefore before x l (NoneBefore-step x y l e s.0)) (ap some here))
  ]
  get_elem?-IsSorted x (y ∷ l) s (inr later) = elim (Bool-cases (before y x)) [
    | inl e ↦
        let next : 1 + count (λ z. before z x) l ≡ suc (count (λ z. before z x) l) = omega arith in
        rw e (rw next (get_elem?-IsSorted x l s.1 later))
    | inr e ↦ rw e (
        rw (count-NoneBefore before x l (NoneBefore-step x y l e s.0))
          (ap some (same_item x y l s.0 (inr later) e)))
  ]

  get_elem?-sort :
      (x : A) (l : List A)
      → Has x l
      → get_elem? (sort before l) (count (λ y. before y x) l) ≡ some x
  get_elem?-sort x l h =
      ap (get_elem? (sort before l)) (sym (count-sort before (λ y. before y x) l))
      ∙ get_elem?-IsSorted x (sort before l) (IsSorted-sort l) (Has-sort before x l h)

ranks_before-IsStrict : IsStrict ranks_before
unfolding ranks_before
ranks_before-IsStrict = record {
  irreflexive = λ a. ground arith;
  transitive = λ a b c p q. ground arith;
  connected = λ a b p q. ground arith;
}

-- How many of the members `j`, `j + 1`, … outrank the member `m` whose weight is `w`: they have a greater
-- weight, or the same and a smaller index.
unfoldable pub outranking_from : ℕ → ℕ → ℕ → ℕ → List Bytes → ℕ
outranking_from p w m j [] = 0
outranking_from p w m j (id ∷ ids) =
    (if ltb w (hrw_weight id p) || (hrw_weight id p == w && ltb j m) then 1 else 0)
    + outranking_from p w m (j + 1) ids

abbrev pub outranking : List Bytes → ℕ → ℕ → Bytes → ℕ
outranking members p m id = outranking_from p (hrw_weight id p) m 0 members

count-scores :
    (p j : ℕ) (ids : List Bytes) (x : Ranked)
    → count (λ r. ranks_before r x) (scores p j ids) ≡ outranking_from p x.weight x.idx j ids
unfolding count scores outranking_from ranks_before
count-scores p j [] x = refl
count-scores p j (id ∷ ids) x = ground (arith, count-scores p (j + 1) ids x)

Has-scores :
    (p j : ℕ) (ids : List Bytes) (m : ℕ) (id : Bytes)
    → get_elem? ids m ≡ some id
    → Has (record { weight = hrw_weight id p; idx = j + m }) (scores p j ids)
unfolding scores
Has-scores p j [] m id h = cc h
Has-scores p j (i ∷ ids) zero id h = inl (ground arith)
Has-scores p j (i ∷ ids) (suc m) id h =
    let next : j + suc m ≡ j + 1 + m = omega arith in
    inr (
      subst (λ (k : ℕ). Has (record { weight = hrw_weight id p; idx = k }) (scores p (j + 1) ids))
        (sym next) (Has-scores p (j + 1) ids m id h))

ranked_member-outranking :
    (members : List Bytes) (p m : ℕ) (id : Bytes)
    → get_elem? members m ≡ some id
    → ranked_member members p (outranking members p m id) ≡ some id
unfolding ranking
ranked_member-outranking members p m id h =
    let x : Ranked = record { weight = hrw_weight id p; idx = m } in
    let first : 0 + m ≡ m = omega arith in
    let there : Has x (scores p 0 members) =
      subst (λ (k : ℕ). Has (record { weight = hrw_weight id p; idx = k }) (scores p 0 members))
        first (Has-scores p 0 members m id h) in
    let place =
      ap (get_elem? (sort ranks_before (scores p 0 members))) (sym (count-scores p 0 members x))
      ∙ get_elem?-sort ranks_before ranks_before-IsStrict x (scores p 0 members) there in
    rw (place, ranked_member) h

-- The holder of a copy: the owner, or a backup
abbrev pub holder_of : Table → ℕ → ℕ → Option Bytes
holder_of t p zero = some (owner_of t p)
holder_of t p (suc i) = backup_at t p i

-- In the table of a list of members, a member that `k` others outrank for a partition, by a greater
-- rendezvous weight or by the same and an earlier place in the list, owns the partition if `k` is 0, and is
-- its backup `k - 1` otherwise, if there are at least `k` backups.
pub table_of-outranking :
    (members : List Bytes) (backup_count p m k : ℕ) (id : Bytes)
    → p < partition_count
    → get_elem? members m ≡ some id
    → outranking members p m id ≡ k
    → k ≤ backup_count
    → holder_of (table_of members backup_count) p k ≡ some id
table_of-outranking members backup_count p m zero id hp h e few = ap some (
    table_of-owner members backup_count p hp
    ∙ ap (λ (j : ℕ). or_empty (ranked_member members p j)) (sym e)
    ∙ ap or_empty (ranked_member-outranking members p m id h))
table_of-outranking members backup_count p m (suc i) id hp h e few =
    let place : i + 1 ≡ outranking members p m id = omega (arith, e) in
    table_of-backup members backup_count p i hp (omega arith)
    ∙ ap (ranked_member members p) place
    ∙ ranked_member-outranking members p m id h
