-- ===== src/Transport/Agreement.antt =====
-- transport/tcp.go, inmem.go and poseidon.go: the loop of a connection answers its requests in order, and
-- what the three transports give a caller.
use medusa.Base.{
  ℕ, zero, suc, ◌+◌, ◌%◌, ◌<◌, ◌≤◌, ◌≡◌, ◌≢◌, refl, List, [], ◌∷◌, ◌++◌, Bytes, length,
  length-append, arith, ltb, if◌then◌else◌,
}
use medusa.Bytes.{put_uint32}
use medusa.Frame.{failed, write_frame, read_frame, max_frame_size, header_size}
use medusa.Frame.RoundTrip.{read_frame-write_frame}
use medusa.Transport.{
  error_type, Answer, answered, refused, Sent, ErrorCodec, Handler, write_answer, serve_loop,
  serve_conn, stalled, initial_window,
}

-- A request: its type and its payload
abbrev pub Request : Type 0
Request = ℕ × Bytes

abbrev pub AllFit : List Request → Type 0
AllFit [] = Unit {0}
AllFit ((t, payload) ∷ reqs) = (t < 256) × (length payload ≤ max_frame_size) × AllFit reqs

unfoldable pub request_frames : List Request → Bytes
request_frames [] = []
request_frames ((t, payload) ∷ reqs) = write_frame t payload ++ request_frames reqs

module _ (c : ErrorCodec) {S : Type 0} (h : Handler S) where
  -- What the handler answers to the requests one after the other
  unfoldable pub answer_frames : S → List Request → Bytes × S
  answer_frames s [] = ([], s)
  answer_frames s ((t, payload) ∷ reqs) =
      let (answer, s') = h s t payload in
      let (out, s'') = answer_frames s' reqs in (write_answer c answer ++ out, s'')

read_frame-nil : read_frame [] ≡ failed medusa.Frame.eof
unfolding read_frame medusa.Frame.read_full
read_frame-nil = refl

module _ (c : ErrorCodec) {S : Type 0} (h : Handler S) where
  serve_loop-frames :
      (fuel : ℕ) (s : S) (reqs : List Request)
      → AllFit reqs
      → length reqs < fuel
      → serve_loop c h fuel s (request_frames reqs) ≡ answer_frames c h s reqs
  unfolding serve_loop request_frames answer_frames
  serve_loop-frames zero s reqs fit enough = absurd (omega arith)
  serve_loop-frames (suc fuel) s [] fit enough = rw (read_frame-nil, serve_loop) refl
  serve_loop-frames (suc fuel) s ((t, payload) ∷ reqs) fit enough =
      rw (read_frame-write_frame t payload (request_frames reqs) fit.0 fit.1, serve_loop)
        (rw (serve_loop-frames fuel (h s t payload).1 reqs fit.2 (omega arith)) refl)

length-write_frame : (t : ℕ) (payload : Bytes) → 0 < length (write_frame t payload)
unfolding write_frame
length-write_frame t payload =
    omega (arith, length-append (put_uint32 (length payload)) (t % 256 ∷ payload))

length-request_frames : (reqs : List Request) → length reqs ≤ length (request_frames reqs)
unfolding request_frames
length-request_frames [] = omega arith
length-request_frames ((t, payload) ∷ reqs) = omega (
  arith,
  length-append (write_frame t payload) (request_frames reqs),
  length-write_frame t payload,
  length-request_frames reqs,
)

module _ (c : ErrorCodec) {S : Type 0} (h : Handler S) where
  -- On a connection that carries any number of requests, each within the frame limit, the serving loop
  -- writes the handler's answers in the order of the requests and stops at the end of the stream.
  pub serve_conn-requests :
      (s : S) (reqs : List Request)
      → AllFit reqs
      → serve_conn c h s (request_frames reqs) ≡ answer_frames c h s reqs
  unfolding serve_conn
  serve_conn-requests s reqs fit =
      serve_loop-frames c h (length (request_frames reqs) + 1) s reqs fit
        (omega (arith, length-request_frames reqs))

-- An answer that a frame carries
abbrev pub Carried : ErrorCodec → Answer → Type 0
Carried c (answered t payload) = (t < 256) × (t ≢ error_type) × (length payload ≤ max_frame_size)
Carried c (refused message) = length (c.marshal 1 message) ≤ max_frame_size

-- The body in which an answer travels
abbrev pub answer_body : ErrorCodec → Answer → Bytes
answer_body c (answered t payload) = payload
answer_body c (refused message) = c.marshal 1 message

-- What a stream window leaves of a call from the state `s`, whose outcome with no window is `direct`: a
-- request that is longer does not reach the handler, an answer that is longer does not reach the caller.
abbrev pub cut_short : {S : Type 0} → S → Bytes → Bytes → Sent × S → Sent × S
cut_short s request body direct =
    if ltb initial_window (length request)
    then (stalled, s)
    else if ltb initial_window (length body)
    then (stalled, direct.1)
    else direct
