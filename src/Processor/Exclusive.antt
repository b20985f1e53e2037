-- ===== src/Processor/Exclusive.antt =====
-- imap/processor.go: mutual exclusion of the lock, by what its callers were told.
use medusa.Base.{
  ℕ, ◌+◌, ◌%◌, ◌^◌, ◌≡◌, ◌≢◌, refl, ap, sym, ◌∙◌, ◌⊎◌, inl, inr, Option, none, some, List, [], ◌∷◌,
  Bytes, Bool, true, false, if◌then◌else◌, ◌&&◌, ltb, arith, length, length-append, same, same_iff,
  same→eq, Bool-cases,
}
use medusa.Bytes.{put_uint64, length-put_be, drop-put_be}
use medusa.Processor.{encode_lock, decode_lock, fence_bytes, lock_acquire_proc, apply_proc}
use medusa.Processor.Lock.{
  LockOp, acquire, release, lock_op, lock_ops, fence_of, holder_of, acquire_again, acquire_refused,
  acquire_unnamed, release_held, release_other,
}

-- Whether `caller` takes itself for the holder after the result of one more operation: it does after an
-- acquire of its own with a token, and no longer after one without, or after a release that returned 1.
unfoldable pub informed : Bytes → LockOp → Bytes → Bool → Bool
unfolding same
informed caller (acquire holder) token before =
    if same holder caller then ltb 0 (length token) else before
informed caller (release holder) released before =
    if same holder caller && same released (1 ∷ []) then false else before

unfoldable pub believes : Bytes → List LockOp → Option Bytes → Bool → Bool
unfolding informed lock_op
believes caller [] entry before = before
believes caller (o ∷ ops) entry before =
    let (entry', result) = lock_op o entry in
    believes caller ops entry' (informed caller o result before)

-- The entry names `caller`.
abbrev names : Bytes → Option Bytes → Bool
names caller entry = ltb 0 (length caller) && same (holder_of entry) caller

holder-encode_lock :
    (fence : ℕ) (holder : Bytes) → (decode_lock (encode_lock fence holder)).1 ≡ holder
unfolding decode_lock encode_lock
holder-encode_lock fence holder = ground (
  arith,
  length-append (put_uint64 fence) holder,
  length-put_be 8 fence,
  drop-put_be 8 fence holder,
)

length-fence_bytes : (fence : ℕ) → length (fence_bytes fence) ≡ 8
length-fence_bytes fence = length-put_be 8 fence

-- Of a free lock, whatever its fence
acquire_wraps :
    (caller : Bytes) (entry : Option Bytes)
    → caller ≢ []
    → holder_of entry ≡ []
    → lock_op (acquire caller) entry ≡ (
      some (encode_lock ((fence_of entry + 1) % 2 ^ 64) caller),
      fence_bytes ((fence_of entry + 1) % 2 ^ 64),
    )
unfolding lock_op apply_proc lock_acquire_proc
acquire_wraps [] entry ne free = absurd (ne refl)
acquire_wraps (c ∷ cs) none ne free = ground arith
acquire_wraps (c ∷ cs) (some b) ne free = ground arith

bytes-cases : (a b : Bytes) → (a ≡ b) ⊎ (a ≢ b)
bytes-cases a b = elim (Bool-cases (same a b)) [
  | inl e ↦ inl (same→eq a b e)
  | inr n ↦ inr (λ p. ground (arith, same_iff a b))
]

named_only :
    (caller : Bytes) (e : Option Bytes)
    → (if same [] caller then false else names caller e) ≡ names caller e
unfolding same
named_only [] e = refl
named_only (c ∷ cs) e = refl

module _ (caller by : Bytes) (e : Option Bytes) where
  informed-acquire :
      informed caller (acquire by) (lock_op (acquire by) e).1 (names caller e)
      ≡ names caller (lock_op (acquire by) e).0
  unfolding informed
  informed-acquire = elim (bytes-cases by []) [
    | inl unnamed ↦ rw (unnamed, acquire_unnamed e) (named_only caller e)
    | inr ne ↦ elim (bytes-cases (holder_of e) []) [
      | inl free ↦
          rw (acquire_wraps by e ne free, length-fence_bytes, holder-encode_lock, free)
            (ground (arith, same_iff by caller, same_iff [] caller))
      | inr held ↦ elim (bytes-cases (holder_of e) by) [
        | inl mine ↦
            rw (acquire_again by e ne mine) rw length-fence_bytes
              (ground (arith, mine, same_iff by caller))
        | inr other ↦
            rw (acquire_refused by e held other)
              (ground (arith, same_iff by caller, same_iff (holder_of e) caller))
      ]
    ]
  ]

  informed-release :
      informed caller (release by) (lock_op (release by) e).1 (names caller e)
      ≡ names caller (lock_op (release by) e).0
  unfolding informed
  informed-release = elim (bytes-cases (holder_of e) by) [
    | inr other ↦ rw (release_other by e (inr other)) (ground (arith))
    | inl mine ↦ elim (bytes-cases (holder_of e) []) [
      | inl free ↦ rw (release_other by e (inl free)) ground arith
      | inr held ↦
          rw (release_held by e (λ p. held (mine ∙ p)) mine) rw holder-encode_lock
            (ground (arith, mine, same_iff by caller, same_iff [] caller))
    ]
  ]

believes-names :
    (caller : Bytes) (ops : List LockOp) (e : Option Bytes)
    → believes caller ops e (names caller e) ≡ names caller (lock_ops ops e)
unfolding believes lock_ops
believes-names caller [] e = refl
believes-names caller (acquire by ∷ ops) e =
    rw (informed-acquire caller by e) (believes-names caller ops (lock_op (acquire by) e).0)
believes-names caller (release by ∷ ops) e =
    rw (informed-release caller by e) (believes-names caller ops (lock_op (release by) e).0)

names-none : (caller : Bytes) → names caller none ≡ false
unfolding decode_lock
names-none [] = refl
names-none (c ∷ cs) = unfold same in ground arith

held_by :
    (caller : Bytes) (ops : List LockOp)
    → believes caller ops none false ≡ true
    → holder_of (lock_ops ops none) ≡ caller
held_by caller ops h =
    let named : names caller (lock_ops ops none) ≡ true =
      sym (believes-names caller ops none)
      ∙ ap (believes caller ops none) (names-none caller)
      ∙ h in
    same→eq (holder_of (lock_ops ops none)) caller (ground arith)

-- Mutual exclusion: from a lock that nobody has taken, after any acquires and releases by anyone in any
-- order, two callers of which each takes itself for the holder, by the results of its own operations, are
-- the same one, and the entry names it.
pub lock_exclusive :
    (ops : List LockOp) (caller other : Bytes)
    → believes caller ops none false ≡ true
    → believes other ops none false ≡ true
    → (caller ≡ other) × (holder_of (lock_ops ops none) ≡ caller)
lock_exclusive ops caller other mine theirs =
    let first = held_by caller ops mine in
    let second = held_by other ops theirs in (sym first ∙ second, first)
