-- ===== src/Processor/Cas.antt =====
-- imap/processor.go: compare-and-swap, and put-if-absent.
use medusa.Base.{
  ◌+◌, ◌^◌, ◌<◌, ◌≡◌, ◌≢◌, refl, ap, ◌∙◌, Option, none, some, [], ◌∷◌, ◌++◌, Bytes, arith, length,
  take, drop, same, same_iff, length-append, take-append, drop-append, drop-add, ◌⊎◌, inl, inr,
  Bool-cases, same→eq,
}
use medusa.Bytes.{put_uint32, uint32, uint32-put_uint32, length-put_be, drop-put_be}
use medusa.Processor.{encode_cas, split_cas, cas_proc, apply_proc}

-- `splitCAS` takes apart what `encodeCAS` packed, for an expected value shorter than 2 ^ 32 bytes.
pub split_cas-encode_cas :
    (expected new_val : Bytes)
    → length expected < 2 ^ 32
    → split_cas (encode_cas expected new_val) ≡ some (expected, new_val)
unfolding split_cas encode_cas
split_cas-encode_cas expected new_val h =
    let arg = encode_cas expected new_val in
    let n : uint32 arg ≡ length expected = uint32-put_uint32 (length expected) _ h in
    let body : drop 4 arg ≡ expected ++ new_val = drop-put_be 4 (length expected) _ in
    let size : length arg ≡ 4 + length expected + length new_val = omega (
      arith,
      length-append (put_uint32 (length expected)) (expected ++ new_val),
      length-put_be 4 (length expected),
      length-append expected new_val,
    ) in
    let front : take (length expected) (drop 4 arg) ≡ expected =
      rw body (take-append (length expected) expected new_val refl) in
    let back : drop (4 + length expected) arg ≡ new_val =
      drop-add 4 (length expected) arg
      ∙ rw body (drop-append (length expected) expected new_val refl) in
    rw n (ground (arith, size, front, back))

-- `cas` swaps exactly when the entry is present and equals the expected value; it answers 1 then,
-- and 0 with the entry unchanged otherwise, for an expected value shorter than 2 ^ 32 bytes.
pub cas_proc_lem :
    (expected new_val : Bytes) (entry : Option Bytes)
    → length expected < 2 ^ 32
    → ((entry ≡ some expected)
        × (apply_proc cas_proc (encode_cas expected new_val) entry ≡ (some new_val, 1 ∷ [])))
      ⊎ ((entry ≢ some expected)
          × (apply_proc cas_proc (encode_cas expected new_val) entry ≡ (entry, 0 ∷ [])))
unfolding apply_proc cas_proc
cas_proc_lem expected new_val none h =
    inr ((λ e. cc), ground (arith, split_cas-encode_cas expected new_val h))
cas_proc_lem expected new_val (some b) h = elim (Bool-cases (same b expected)) [
  | inl e ↦
      inl (ap some (same→eq b expected e), ground (arith, split_cas-encode_cas expected new_val h))
  | inr e ↦ inr (
    (λ p. ground (arith, same_iff b expected)),
    ground (arith, split_cas-encode_cas expected new_val h),
  )
]
