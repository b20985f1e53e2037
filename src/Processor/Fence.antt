-- ===== src/Processor/Fence.antt =====
-- imap/processor.go: the lock's fence over runs of operations: a later holder has a greater token.
use medusa.Base.{
  ℕ, ◌+◌, ◌^◌, ◌<◌, ◌≤◌, ◌≡◌, ◌≢◌, refl, ap, sym, ◌∙◌, ◌⊎◌, inl, inr, Option, List, [], ◌∷◌, Bytes,
  arith, length, same, same_iff, same→eq, Bool-cases,
}
use medusa.Processor.{decode_lock, fence_bytes}
use medusa.Processor.Lock.{
  LockOp, acquire, release, lock_op, lock_ops, or_empty, fence_of, holder_of,
  decode_lock-encode_lock, acquire_free, acquire_again, acquire_refused, acquire_unnamed,
  release_held, release_other,
}

-- What one operation may do to the entry: nothing, take a free lock with the next fence, or free
-- it with the same fence.
abbrev Moves : Option Bytes → Option Bytes → Type 0
Moves e e' =
    (e' ≡ e)
    ⊎ ((holder_of e ≡ []) × (fence_of e' ≡ fence_of e + 1))
    ⊎ ((fence_of e' ≡ fence_of e) × (holder_of e' ≡ []))

holder-cases : (a b : Bytes) → (a ≡ b) ⊎ (a ≢ b)
holder-cases a b = elim (Bool-cases (same a b)) [
  | inl e ↦ inl (same→eq a b e)
  | inr n ↦ inr (λ p. ground (arith, same_iff a b))
]

Moves-lock_op : (o : LockOp) (e : Option Bytes) → fence_of e + 1 < 2 ^ 64 → Moves e (lock_op o e).0
Moves-lock_op (acquire []) e room = rw acquire_unnamed (inl refl)
Moves-lock_op (acquire (c ∷ cs)) e room = elim (holder-cases (holder_of e) []) [
  | inl free ↦ rw (acquire_free (c ∷ cs) e (λ p. cc) room free) (
      inr (
        inl (
          free,
          ap (λ (l : ℕ × Bytes). l.0) (decode_lock-encode_lock (fence_of e + 1) (c ∷ cs) room),
        )))
  | inr held ↦ elim (holder-cases (holder_of e) (c ∷ cs)) [
    | inl mine ↦ rw (acquire_again (c ∷ cs) e (λ p. cc) mine) (inl refl)
    | inr other ↦ rw (acquire_refused (c ∷ cs) e held other) (inl refl)
  ]
]
Moves-lock_op (release caller) e room = elim (holder-cases (holder_of e) caller) [
  | inr other ↦ rw (release_other caller e (inr other)) (inl refl)
  | inl mine ↦ elim (holder-cases (holder_of e) []) [
    | inl free ↦ rw (release_other caller e (inl free)) (inl refl)
    | inr held ↦ rw (release_held caller e (λ p. held (mine ∙ p)) mine) (
        let d = decode_lock-encode_lock (fence_of e) [] (omega arith) in
        inr (inr (ap (λ (l : ℕ × Bytes). l.0) d, ap (λ (l : ℕ × Bytes). l.1) d)))
  ]
]

-- After `holder` took the lock with the token `fence`: it still has it, or its token is old.
abbrev Passed : ℕ → Bytes → Option Bytes → Type 0
Passed fence holder e =
    ((holder_of e ≡ holder) × (fence_of e ≡ fence))
    ⊎ ((holder_of e ≡ []) × (fence ≤ fence_of e))
    ⊎ (fence < fence_of e)

Passed-move :
    (fence : ℕ) (holder : Bytes) (e e' : Option Bytes)
    → holder ≢ []
    → Moves e e'
    → Passed fence holder e
    → Passed fence holder e' × (fence_of e' ≤ fence_of e + 1)
Passed-move fence holder e e' ne (inl same_entry) p = rw same_entry (p, omega arith)
Passed-move fence holder e e' ne (inr (inl (free, next))) (inl (held, at)) =
    absurd (ne (sym held ∙ free))
Passed-move fence holder e e' ne (inr (inl (free, next))) (inr (inl (_, old))) =
    (inr (inr (omega arith)), omega arith)
Passed-move fence holder e e' ne (inr (inl (free, next))) (inr (inr old)) =
    (inr (inr (omega arith)), omega arith)
Passed-move fence holder e e' ne (inr (inr (kept, free))) (inl (held, at)) =
    (inr (inl (free, omega arith)), omega arith)
Passed-move fence holder e e' ne (inr (inr (kept, free))) (inr (inl (_, old))) =
    (inr (inl (free, omega arith)), omega arith)
Passed-move fence holder e e' ne (inr (inr (kept, free))) (inr (inr old)) =
    (inr (inr (omega arith)), omega arith)

Passed-lock_ops :
    (fence : ℕ) (holder : Bytes) (ops : List LockOp) (e : Option Bytes)
    → holder ≢ []
    → fence_of e + length ops + 1 < 2 ^ 64
    → Passed fence holder e
    → Passed fence holder (lock_ops ops e) × (fence_of (lock_ops ops e) ≤ fence_of e + length ops)
unfolding lock_ops
Passed-lock_ops fence holder [] e ne room p = (p, omega arith)
Passed-lock_ops fence holder (o ∷ ops) e ne room p =
    let (next, step) = Passed-move fence holder e _ ne (Moves-lock_op o e (omega arith)) p in
    let (q, grown) = Passed-lock_ops fence holder ops (lock_op o e).0 ne (omega arith) next in
    (q, omega arith)

-- A token that is granted to another caller is greater.
token_grows :
    (fence : ℕ) (holder caller : Bytes) (e : Option Bytes)
    → caller ≢ []
    → caller ≢ holder
    → fence_of e + 1 < 2 ^ 64
    → Passed fence holder e
    → (lock_op (acquire caller) e).1 ≢ []
    → (token : ℕ) × (fence < token)
      × ((lock_op (acquire caller) e).1 ≡ fence_bytes token)
      × (decode_lock (or_empty (lock_op (acquire caller) e).0) ≡ (token, caller))
token_grows fence holder caller e nc other room p granted = elim (holder-cases (holder_of e) []) [
  | inl free ↦ (
    fence_of e + 1,
    (elim p [
      | inl (_, at) ↦ omega arith
      | inr (inl (_, old)) ↦ omega arith
      | inr (inr old) ↦ omega arith
    ]),
    rw (acquire_free caller e nc room free) refl,
    rw (acquire_free caller e nc room free) (decode_lock-encode_lock (fence_of e + 1) caller room),
  )
  | inr held ↦ elim (holder-cases (holder_of e) caller) [
    | inr taken ↦ absurd (granted (rw (acquire_refused caller e held taken) refl))
    | inl mine ↦ (
      fence_of e,
      (elim p [
        | inl (first, _) ↦ absurd (other (sym mine ∙ first))
        | inr (inl (free, _)) ↦ absurd (held free)
        | inr (inr old) ↦ old
      ]),
      rw (acquire_again caller e nc mine) refl,
      rw (acquire_again caller e nc mine) (λ i. (fence_of e, mine i)),
    )
  ]
]

-- Fencing: when `holder` has the lock with the token `fence`, and later, after any run of acquires
-- and releases by anyone, another caller acquires it, then the entry carries a token greater than
-- `fence`, which is the one the caller gets (fences below 2 ^ 64).
pub fence_increases :
    (fence : ℕ) (holder caller : Bytes) (ops : List LockOp) (e : Option Bytes)
    → holder ≢ []
    → caller ≢ []
    → caller ≢ holder
    → fence_of e + length ops + 1 < 2 ^ 64
    → holder_of e ≡ holder
    → fence_of e ≡ fence
    → (lock_op (acquire caller) (lock_ops ops e)).1 ≢ []
    → (token : ℕ) × (fence < token)
      × ((lock_op (acquire caller) (lock_ops ops e)).1 ≡ fence_bytes token)
      × (decode_lock (or_empty (lock_op (acquire caller) (lock_ops ops e)).0) ≡ (token, caller))
fence_increases fence holder caller ops e nh nc other room held at granted =
    let (p, grown) = Passed-lock_ops fence holder ops e nh room (inl (held, at)) in
    token_grows fence holder caller (lock_ops ops e) nc other (omega arith) p granted
