-- ===== src/Transport.antt =====
-- transport/transport.go, tcp.go, inmem.go and poseidon.go: one request and its reply over each of the
-- three transports. A handler threads the state `S` of the node that it serves. The encoding of the
-- protobuf message Error is generated code, and a parameter.
pub mod Agreement
pub mod Pool
pub mod Conserved
use medusa.Base.{
  ℕ, zero, suc, ◌+◌, ◌-◌, ◌*◌, ◌/◌, ◌%◌, ◌^◌, List, [], ◌∷◌, ◌++◌, Bytes, Bool, true, false, Option,
  none, some, if◌then◌else◌, ◌==◌, bytes_of, length, ltb,
}
use medusa.Decimal.{format_int, atoi}
use medusa.Frame.{FrameError, got, failed, write_frame, read_frame}

-- MESSAGE_TYPE_ERROR
abbrev pub error_type : ℕ
error_type = 1

-- What a `Handler` returns: a type and a payload, or the text of an error
pub data Answer : Type 0 where
  answered : ℕ → Bytes → Answer
  refused : Bytes → Answer

-- What `Send` returns: the reply, a `RemoteError`, an undecodable one, an error of the stream, or the
-- context's error after an HTTP/2 stream came to a halt
pub data Sent : Type 0 where
  reply : ℕ → Bytes → Sent
  remote_error : ℕ → Bytes → Sent
  undecodable : ℕ → Sent
  lost : FrameError → Sent
  stalled : Sent

-- The HTTP/2 stream window of both ends. It is not refunded while a body is read, so a body that is longer
-- is never read to its end.
abbrev pub initial_window : ℕ
initial_window = 16 * 2 ^ 20

-- `medusav1.Error` with its code and message
pub record ErrorCodec : Type 0 where
  pub marshal : ℕ → Bytes → Bytes
  pub unmarshal : Bytes → Option (ℕ × Bytes)

abbrev pub Handler : Type 0 → Type 0
Handler S = S → ℕ → Bytes → Answer × S

-- The error that a payload of an error reply stands for
abbrev pub decoded : Option (ℕ × Bytes) → ℕ → Sent
decoded none status = undecodable status
decoded (some (code, message)) status = remote_error code message

-- The header field `m-type`, the status and the body of an HTTP response
pub record Response : Type 0 where
  pub m_type : Bytes
  pub status : ℕ
  pub body : Bytes

module _ (c : ErrorCodec) where
  -- The reply that `serveConn` writes
  unfoldable pub write_answer : Answer → Bytes
  unfolding write_frame
  write_answer (answered t payload) = write_frame t payload
  write_answer (refused message) = write_frame error_type (c.marshal 1 message)

  module _ {S : Type 0} (h : Handler S) where
    -- The loop of `serveConn` on the bytes that a client sends: the bytes it writes, and the state. A
    -- round that does not end the loop reads a header, so the length of the stream is fuel enough.
    unfoldable pub serve_loop : ℕ → S → Bytes → Bytes × S
    unfolding read_frame write_answer
    serve_loop zero s stream = ([], s)
    serve_loop (suc fuel) s stream = elim (read_frame stream) [
      | failed e ↦ ([], s)
      | got (t, payload, rest) ↦
          let (answer, s') = h s t payload in
          let (out, s'') = serve_loop fuel s' rest in (write_answer answer ++ out, s'')
    ]

    -- `serveConn`
    unfoldable pub serve_conn : S → Bytes → Bytes × S
    unfolding serve_loop
    serve_conn s stream = serve_loop (length stream + 1) s stream

  -- The end of the TCP transport's `Send`, on the bytes that come back
  unfoldable pub read_reply : Bytes → Sent
  unfolding read_frame
  read_reply stream = elim (read_frame stream) [
    | failed e ↦ lost e
    | got (t, payload, rest) ↦
        if t == error_type then decoded (c.unmarshal payload) 0 else reply t payload
  ]

  module _ {S : Type 0} (h : Handler S) where
    -- A `Send` of the TCP transport over a connection that `serveConn` serves
    unfoldable pub tcp_send : S → ℕ → Bytes → Sent × S
    unfolding write_frame read_reply serve_conn
    tcp_send s t payload =
        let (out, s') = serve_conn h s (write_frame t payload) in (read_reply out, s')

  -- The response that `httpHandler` writes
  unfoldable pub http_response : Answer → Response
  unfolding format_int
  http_response (answered t payload) = record {
    m_type = format_int t;
    status = 200;
    body = payload;
  }
  http_response (refused message) = record {
    m_type = format_int error_type;
    status = 500;
    body = c.marshal 1 message;
  }

  -- The end of the Poseidon transport's `Send`, on the response if there is one
  unfoldable pub read_response : Option Response → Sent
  unfolding atoi
  read_response none = stalled
  read_response (some r) =
      if ltb initial_window (length r.body)
      then stalled
      else if r.status == 200
      then reply ((atoi r.m_type).0 % 2 ^ 32) r.body
      else decoded (c.unmarshal r.body) r.status

  module _ {S : Type 0} (h : Handler S) where
    -- `httpHandler`, on the header field `m-type` and the body of a request: a body beyond the window leaves
    -- it waiting for the rest.
    unfoldable pub http_handler : S → Bytes → Bytes → Option Response × S
    unfolding atoi http_response
    http_handler s m_type body =
        if ltb initial_window (length body)
        then (none, s)
        else let (answer, s') = h s ((atoi m_type).0 % 2 ^ 32) body in
          (some (http_response answer), s')

    -- The Poseidon transport's `Send` to a peer with `httpHandler`
    unfoldable pub poseidon_send : S → ℕ → Bytes → Sent × S
    unfolding http_handler read_response format_int
    poseidon_send s t payload =
        let (r, s') = http_handler s (format_int t) payload in (read_response r, s')

-- What the in-memory transport makes of an answer
unfoldable pub in_memory : Answer → Sent
in_memory (answered t payload) = reply t payload
in_memory (refused message) = remote_error 1 message

-- The in-memory transport's `Send` to a transport that listens
unfoldable pub inmem_send : {S : Type 0} → Handler S → S → ℕ → Bytes → Sent × S
unfolding in_memory
inmem_send h s t payload = let (answer, s') = h s t payload in (in_memory answer, s')
