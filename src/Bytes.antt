-- ===== src/Bytes.antt =====
-- Go's `encoding/binary` as the program uses it: `binary.BigEndian.{PutUint32, PutUint64, Uint32,
-- Uint64}`. A uint64, and an int64 as its two's complement pattern, is a number below 2 ^ 64.
use medusa.Base.{ℕ, zero, suc, ◌+◌, ◌*◌, ◌/◌, ◌%◌, ◌^◌, ◌<◌, ◌≤◌, ◌≡◌, refl, ap, ◌∙◌}
use medusa.Base.{[], ◌∷◌, ◌++◌, Bytes, arith, length, take, drop, take-append, drop-append}
use medusa.Base.{length-append, length-take, Bool, ltb}
use native.Mathlib.Nat.{pow-suc}

-- The `k` low bytes of `n`, the most significant first.
unfoldable pub put_be : ℕ → ℕ → Bytes
put_be zero n = []
put_be (suc k) n = put_be k (n / 256) ++ (n % 256 ∷ [])

-- The number that the bytes spell, over what stands before them.
unfoldable pub be_from : ℕ → Bytes → ℕ
be_from acc [] = acc
be_from acc (b ∷ bs) = be_from (acc * 256 + b) bs

abbrev pub put_uint32 : ℕ → Bytes
put_uint32 = put_be 4

abbrev pub put_uint64 : ℕ → Bytes
put_uint64 = put_be 8

-- `binary.BigEndian.Uint32(b)` reads the first four bytes; the callers check the length.
unfoldable pub uint32 : Bytes → ℕ
unfolding be_from
uint32 b = be_from 0 (take 4 b)

unfoldable pub uint64 : Bytes → ℕ
unfolding be_from
uint64 b = be_from 0 (take 8 b)

pub length-put_be : (k n : ℕ) → length (put_be k n) ≡ k
unfolding put_be
length-put_be zero n = refl
length-put_be (suc k) n =
    omega (arith, length-append (put_be k (n / 256)) (n % 256 ∷ []), length-put_be k (n / 256))

be_from-append :
    (acc : ℕ) (xs : Bytes) (b : ℕ) → be_from acc (xs ++ (b ∷ [])) ≡ be_from acc xs * 256 + b
unfolding be_from
be_from-append acc [] b = refl
be_from-append acc (x ∷ xs) b = be_from-append (acc * 256 + x) xs b

be_from-put_be : (k n : ℕ) → n < 256 ^ k → be_from 0 (put_be k n) ≡ n
unfolding be_from put_be
be_from-put_be zero n h = omega arith
be_from-put_be (suc k) n h =
    be_from-append 0 (put_be k (n / 256)) (n % 256)
    ∙ omega (arith, be_from-put_be k (n / 256) (omega (arith, pow-suc 256 k)))

pub uint32-put_uint32 : (n : ℕ) (rest : Bytes) → n < 2 ^ 32 → uint32 (put_uint32 n ++ rest) ≡ n
unfolding uint32
uint32-put_uint32 n rest h =
    ap (be_from 0) (take-append 4 (put_be 4 n) rest (length-put_be 4 n)) ∙ be_from-put_be 4 n h

pub uint64-put_uint64 : (n : ℕ) (rest : Bytes) → n < 2 ^ 64 → uint64 (put_uint64 n ++ rest) ≡ n
unfolding uint64
uint64-put_uint64 n rest h =
    ap (be_from 0) (take-append 8 (put_be 8 n) rest (length-put_be 8 n)) ∙ be_from-put_be 8 n h

pub drop-put_be : (k n : ℕ) (rest : Bytes) → drop k (put_be k n ++ rest) ≡ rest
drop-put_be k n rest = drop-append k (put_be k n) rest (length-put_be k n)

-- `a < b` on the int64 patterns `a` and `b`.
abbrev pub slt : ℕ → ℕ → Bool
slt a b = ltb ((a + 2 ^ 63) % 2 ^ 64) ((b + 2 ^ 63) % 2 ^ 64)

-- Go's `byte` range, for every element.
abbrev pub AreBytes : Bytes → Type 0
AreBytes [] = Unit
AreBytes (b ∷ bs) = (b < 256) × AreBytes bs

pow_pos : (k : ℕ) → 0 < 256 ^ k
pow_pos zero = omega arith
pow_pos (suc k) = omega (arith, pow-suc 256 k, pow_pos k)

le_scaled : (m p : ℕ) → 0 < p → m ≤ m * p
le_scaled m p h = grind arith

be_from-lt :
    (acc m k : ℕ) (b : Bytes) → acc < m → AreBytes b → length b ≤ k → be_from acc b < m * 256 ^ k
unfolding be_from
be_from-lt acc m k [] lt h n = omega (arith, le_scaled m (256 ^ k) (pow_pos k))
be_from-lt acc m zero (x ∷ b) lt (hx, h) n = absurd (omega arith)
be_from-lt acc m (suc k) (x ∷ b) lt (hx, h) n = omega (
  arith,
  be_from-lt (acc * 256 + x) (m * 256) k b (omega arith) h (omega arith),
  ap (λ (t : ℕ). m * t) (pow-suc 256 k),
)

AreBytes-take : (n : ℕ) (b : Bytes) → AreBytes b → AreBytes (take n b)
AreBytes-take zero b h = tt
AreBytes-take (suc n) [] h = tt
AreBytes-take (suc n) (x ∷ b) (hx, h) = (hx, AreBytes-take n b h)

pub uint64-lt : (b : Bytes) → AreBytes b → uint64 b < 2 ^ 64
unfolding uint64
uint64-lt b h = omega (
  arith,
  be_from-lt 0 1 8 (take 8 b) (omega arith) (AreBytes-take 8 b h) (omega (arith, length-take 8 b)),
)

AreBytes-append : (a b : Bytes) → AreBytes a → AreBytes b → AreBytes (a ++ b)
AreBytes-append [] b ha hb = hb
AreBytes-append (x ∷ a) b (hx, ha) hb = (hx, AreBytes-append a b ha hb)

AreBytes-put_be : (k n : ℕ) → AreBytes (put_be k n)
unfolding put_be
AreBytes-put_be zero n = tt
AreBytes-put_be (suc k) n =
    AreBytes-append (put_be k (n / 256)) (n % 256 ∷ []) (AreBytes-put_be k (n / 256))
      (omega arith, tt)

pub put_uint64-bytes : (n : ℕ) → AreBytes (put_uint64 n)
put_uint64-bytes n = AreBytes-put_be 8 n
