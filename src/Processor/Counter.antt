-- ===== src/Processor/Counter.antt =====
-- imap/processor.go: `incr` as a distributed counter.
use medusa.Base.{
  ℕ, ◌+◌, ◌%◌, ◌^◌, ◌<◌, ◌≡◌, refl, ap, ◌∙◌, Option, none, some, List, [], ◌∷◌, Bytes, arith,
  append-nil,
}
use medusa.Bytes.{AreBytes, uint64-lt, put_uint64, uint64-put_uint64, length-put_be}
use medusa.Processor.{read_int64, incr_proc, apply_proc}

pub read_int64-put_uint64 : (n : ℕ) → n < 2 ^ 64 → read_int64 (put_uint64 n) ≡ n
unfolding read_int64
read_int64-put_uint64 n h =
    ground (arith, length-put_be 8 n, rw append-nil at (uint64-put_uint64 n [] h))

pub read_int64-lt : (b : Bytes) → AreBytes b → read_int64 b < 2 ^ 64
unfolding read_int64
read_int64-lt b h = ground (arith, uint64-lt b h)

-- A counter after a run of `incr` calls with these arguments.
unfoldable pub incr_all : List Bytes → Option Bytes → Option Bytes
incr_all [] entry = entry
incr_all (arg ∷ args) entry = incr_all args (apply_proc incr_proc arg entry).0

abbrev pub total : List Bytes → ℕ
total [] = 0
total (arg ∷ args) = read_int64 arg + total args

abbrev counted : Option Bytes → ℕ
counted none = 0
counted (some b) = read_int64 b

incr_once :
    (arg : Bytes) (entry : Option Bytes)
    → (apply_proc incr_proc arg entry).0
      ≡ some (put_uint64 ((counted entry + read_int64 arg) % 2 ^ 64))
unfolding apply_proc incr_proc
incr_once arg none = refl
incr_once arg (some b) = refl

incr_all-counted :
    (arg : Bytes) (args : List Bytes) (entry : Option Bytes)
    → incr_all (arg ∷ args) entry
      ≡ some (put_uint64 ((counted entry + total (arg ∷ args)) % 2 ^ 64))
unfolding incr_all
incr_all-counted arg [] entry = incr_once arg entry ∙ ap some (ap put_uint64 (omega arith))
incr_all-counted arg (next ∷ args) entry =
    let m : ℕ = (counted entry + read_int64 arg) % 2 ^ 64 in
    let back : read_int64 (put_uint64 m) ≡ m = read_int64-put_uint64 m (omega arith) in
    rw (incr_once arg entry) (
      incr_all-counted next args (some (put_uint64 m))
      ∙ ap some (ap put_uint64 (rw back (omega arith))))

-- No update is lost: after any run of `incr` calls on an absent counter, the entry holds the sum of
-- the arguments modulo 2 ^ 64.
pub incr_all-total :
    (arg : Bytes) (args : List Bytes)
    → incr_all (arg ∷ args) none ≡ some (put_uint64 (total (arg ∷ args) % 2 ^ 64))
incr_all-total arg args = incr_all-counted arg args none ∙ ap some (ap put_uint64 (omega arith))
