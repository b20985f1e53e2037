-- ===== src/Wal/Tagged.antt =====
-- A codec of log entries that satisfies what the log asks of the generated one.
use medusa.Base.{ℕ, zero, suc, ◌≡◌, refl, ap, sym, ◌∙◌, [], ◌∷◌, Bytes, Option, none, some}
use medusa.Scan.{Entry}
use medusa.Wal.{Codec}

-- Each byte after a 1, and a 0 at the end
unfoldable pub write_bytes : Bytes → Bytes → Bytes
write_bytes [] rest = 0 ∷ rest
write_bytes (b ∷ bs) rest = 1 ∷ b ∷ write_bytes bs rest

unfoldable read_bytes : Bytes → Bytes × Bytes
read_bytes [] = ([], [])
read_bytes (zero ∷ rest) = ([], rest)
read_bytes (suc x ∷ []) = ([], [])
read_bytes (suc x ∷ b ∷ rest) = let r = read_bytes rest in (b ∷ r.0, r.1)

abbrev read_expire : Bytes → ℕ
read_expire [] = 0
read_expire (x ∷ rest) = x

unfoldable pub encode : Entry → Bytes
unfolding write_bytes
encode e = write_bytes e.map_name (write_bytes e.key (write_bytes e.contents (e.expire_at ∷ [])))

unfoldable pub decode : Bytes → Option Entry
unfolding read_bytes
decode b =
    let m = read_bytes b in
    let k = read_bytes m.1 in
    let v = read_bytes k.1 in
    some (record { map_name = m.0; key = k.0; contents = v.0; expire_at = read_expire v.1 })

read_bytes-write_bytes : (bs rest : Bytes) → read_bytes (write_bytes bs rest) ≡ (bs, rest)
unfolding read_bytes write_bytes
read_bytes-write_bytes [] rest = refl
read_bytes-write_bytes (b ∷ bs) rest =
    ap (λ (r : Bytes × Bytes). (b ∷ r.0, r.1)) (read_bytes-write_bytes bs rest)

pub decode-encode : (e : Entry) → decode (encode e) ≡ some e
unfolding encode decode
decode-encode e =
    rw read_bytes-write_bytes (rw read_bytes-write_bytes (rw read_bytes-write_bytes refl))

-- A codec: the fields one after the other.
abbrev pub tagged : Codec
tagged = record {
  marshal = λ e. some (encode e);
  unmarshal = decode;
  unmarshal_marshal = λ e b m.
      sym (
        ap (λ (o : Option Bytes). elim o as (λ _. Option Entry) [ none ↦ none | some x ↦ decode x ])
          m)
      ∙ decode-encode e;
}
