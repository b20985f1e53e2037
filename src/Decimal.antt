-- ===== src/Decimal.antt =====
-- The decimal texts of package strconv, as httpapi/httpapi.go, transport/poseidon.go and
-- cmd/medusa-node/main.go use them. Signed numbers are 64-bit patterns.
use medusa.Base.{
  ℕ, zero, suc, ◌+◌, ◌-◌, ◌*◌, ◌/◌, ◌%◌, ◌^◌, ◌<◌, ◌≡◌, refl, [], ◌∷◌, Bytes, Bool, true, false,
  ◌&&◌, Option, none, some, if◌then◌else◌, ltb, leb, ◌==◌, ==_iff, arith,
}
use medusa.Bytes.{slt}

-- The decimal digits of `n` before `acc`, at most `fuel` of them
unfoldable pub digits : ℕ → ℕ → Bytes → Bytes
digits zero n acc = acc
digits (suc fuel) n acc =
    let more = digits fuel (n / 10) ((48 + n % 10) ∷ acc) in
    if ltb n 10 then (48 + n) ∷ acc else more

-- `strconv.FormatUint(n, 10)`; a uint64 has at most 20 digits.
unfoldable pub format_uint : ℕ → Bytes
unfolding digits
format_uint n = digits 20 n []

-- `strconv.FormatInt(n, 10)` and `strconv.Itoa`
unfoldable pub format_int : ℕ → Bytes
unfolding format_uint
format_int n = if slt n 0 then b'-' ∷ format_uint (2 ^ 64 - n) else format_uint n

-- The number that digits stand for after `acc`; another character is a syntax error.
unfoldable pub read_digits : ℕ → Bytes → Option ℕ
read_digits acc [] = some acc
read_digits acc (c ∷ cs) =
    let rest = read_digits (acc * 10 + (c - 48)) cs in if leb 48 c && leb c 57 then rest else none

-- A magnitude within the range of int64; past it `Atoi` returns the nearest bound with an error.
abbrev bounded : Bool → ℕ → ℕ
bounded negative n =
    if negative
    then (if leb n (2 ^ 63) then (2 ^ 64 - n) % 2 ^ 64 else 2 ^ 63)
    else (if ltb n (2 ^ 63) then n else 2 ^ 63 - 1)

unfoldable pub atoi_digits : Bool → Bytes → ℕ × Bool
unfolding read_digits
atoi_digits negative [] = (0, false)
atoi_digits negative (c ∷ cs) = elim (read_digits 0 (c ∷ cs)) [
  | none ↦ (0, false)
  | some n ↦ (bounded negative n, if negative then leb n (2 ^ 63) else ltb n (2 ^ 63))
]

-- `strconv.Atoi`: the number, and whether there is no error
unfoldable pub atoi : Bytes → ℕ × Bool
unfolding atoi_digits
atoi [] = (0, false)
atoi (c ∷ cs) =
    if c == b'-'
    then atoi_digits true cs
    else if c == b'+'
    then atoi_digits false cs
    else atoi_digits false (c ∷ cs)

-- Whether the text of `t` is read back as `t`
abbrev is_read_back : ℕ → Bool
is_read_back t = (atoi (format_int t)).0 == t

-- Whether the texts of the numbers before `k` are
read_back_before : ℕ → Bool
read_back_before zero = true
read_back_before (suc k) = read_back_before k && is_read_back k

read_back_lem : (k t : ℕ) → t < k → read_back_before k ≡ true → is_read_back t ≡ true
unfolding read_back_before
read_back_lem zero t lt h = elim lt [ ]
read_back_lem (suc k) t lt h = ground (arith, read_back_lem k t)

bytes_read_back : read_back_before 256 ≡ true
unfolding read_back_before atoi format_int
bytes_read_back = refl

-- The text of a byte is read back.
pub atoi-format_int : (t : ℕ) → t < 256 → (atoi (format_int t)).0 ≡ t
atoi-format_int t h = (==_iff (atoi (format_int t)).0 t).0 (read_back_lem 256 t h bytes_read_back)
