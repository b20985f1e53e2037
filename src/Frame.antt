-- ===== src/Frame.antt =====
-- transport/frame.go: messages framed on a byte stream. A reader is the bytes that it has yet to
-- give, after which it is at its end; a writer takes every byte it is given.
pub mod Reading
pub mod RoundTrip
use medusa.Base.{
  ℕ, zero, suc, ◌+◌, ◌*◌, ◌%◌, ◌^◌, ◌<◌, ◌≤◌, ◌≡◌, ◌≢◌, refl, ap, sym, ◌∙◌, List, [], ◌∷◌, ◌++◌,
  Bytes, Bool, true, false, arith, length, get_elem?, none, some, take, drop, take-append,
  drop-append, length-append, length-take, drop-add, if◌then◌else◌, ltb, leb, ◌==◌, append_assoc,
  inl, inr, Bool-cases,
}
use medusa.Bytes.{put_uint32, uint32, uint32-put_uint32, length-put_be, drop-put_be}

abbrev pub header_size : ℕ
header_size = 5

abbrev pub max_frame_size : ℕ
max_frame_size = 64 * 2 ^ 20

pub data FrameError : Type 0 where
  eof unexpected_eof frame_too_large : FrameError

pub data Read (A : Type 0) : Type 0 where
  got : A → Read A
  failed : FrameError → Read A

-- `writeFrame`: the bytes written
unfoldable pub write_frame : ℕ → Bytes → Bytes
write_frame t payload = put_uint32 (length payload) ++ (t % 256 ∷ payload)

-- `io.ReadFull` of `n` bytes, as its documentation says: the end before the first byte is EOF, and
-- in the middle it is ErrUnexpectedEOF.
unfoldable pub read_full : ℕ → Bytes → Read (Bytes × Bytes)
read_full n stream =
    if leb n (length stream)
    then got (take n stream, drop n stream)
    else if length stream == 0
    then failed eof
    else failed unexpected_eof

-- `hdr[headerSize-1]`; the header has five bytes.
unfoldable pub frame_type : Bytes → ℕ
frame_type hdr = elim (get_elem? hdr 4) [ none ↦ 0 | some b ↦ b ]

-- `readFrame`, from the header that was read
unfoldable pub read_payload : Bytes → Bytes → Read (ℕ × Bytes × Bytes)
read_payload hdr stream =
    let n = uint32 hdr in
    if ltb max_frame_size n
    then failed frame_too_large
    else elim (read_full n stream) [ failed e ↦ failed e | got r ↦ got (frame_type hdr, r.0, r.1) ]

-- `readFrame`: the type, the payload and the rest of the stream
unfoldable pub read_frame : Bytes → Read (ℕ × Bytes × Bytes)
read_frame stream = elim (read_full header_size stream) [
  | failed e ↦ failed e
  | got r ↦ read_payload r.0 r.1
]
