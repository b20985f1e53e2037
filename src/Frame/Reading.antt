-- ===== src/Frame/Reading.antt =====
-- transport/frame.go and io.ReadFull: reading a given number of bytes, and the five-byte header.
use medusa.Base.{
  ℕ, suc, ◌+◌, ◌<◌, ◌≡◌, refl, ap, sym, ◌∙◌, [], ◌∷◌, ◌++◌, Bytes, Bool, true, false, arith, length,
  take, take-append, drop-append, length-append, leb, get_elem?, none, some, Option,
}
use medusa.Bytes.{put_uint32, length-put_be}
use medusa.Frame.{Read, got, failed, read_full, frame_type}

pub read_full-append :
    (n : ℕ) (xs rest : Bytes) → length xs ≡ n → read_full n (xs ++ rest) ≡ got (xs, rest)
unfolding read_full
read_full-append n xs rest e =
    let enough : leb n (length (xs ++ rest)) ≡ true = ground (arith, length-append xs rest) in
    rw enough (λ i. got (take-append n xs rest e i, drop-append n xs rest e i))

-- The five bytes in front of a payload: its length and one byte more.
abbrev pub record_header : ℕ → Bytes → Bytes
record_header b payload = put_uint32 (length payload) ++ (b ∷ [])

get_elem?-length : (xs : Bytes) (b : ℕ) → get_elem? (xs ++ (b ∷ [])) (length xs) ≡ some b
get_elem?-length [] b = refl
get_elem?-length (x ∷ xs) b = get_elem?-length xs b

header-type : (b : ℕ) (payload : Bytes) → get_elem? (record_header b payload) 4 ≡ some b
header-type b payload =
    ap (get_elem? (record_header b payload)) (sym (length-put_be 4 (length payload)))
    ∙ get_elem?-length (put_uint32 (length payload)) b

pub frame_type-record_header : (b : ℕ) (payload : Bytes) → frame_type (record_header b payload) ≡ b
unfolding frame_type
frame_type-record_header b payload =
    ap (λ (o : Option ℕ). elim o as (λ _. ℕ) [ none ↦ 0 | some x ↦ x ]) (header-type b payload)

pub length-record_header : (b : ℕ) (payload : Bytes) → length (record_header b payload) ≡ 5
length-record_header b payload =
    length-append (put_uint32 (length payload)) (b ∷ [])
    ∙ omega (arith, length-put_be 4 (length payload))

abbrev pub is_failed : {A : Type 0} → Read A → Bool
is_failed (failed e) = true
is_failed (got a) = false

pub read_full-short : (n : ℕ) (s : Bytes) → length s < n → is_failed (read_full n s) ≡ true
unfolding read_full
read_full-short n s h = ground arith

pub take-past : (xs ys : Bytes) (j : ℕ) → take (length xs + j) (xs ++ ys) ≡ xs ++ take j ys
take-past [] ys j = let e : 0 + j ≡ j = omega arith in ap (λ (n : ℕ). take n ys) e
take-past (x ∷ xs) ys j =
    let e : length (x ∷ xs) + j ≡ suc (length xs + j) = omega arith in
    ap (λ (n : ℕ). take n (x ∷ xs ++ ys)) e ∙ ap (◌∷◌ x) (take-past xs ys j)
