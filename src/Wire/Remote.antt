-- ===== src/Wire/Remote.antt =====
-- imap/service.go: a request to a peer over a transport is what `Handle` does with it at the peer.
use medusa.Base.{ℕ, List, ◌++◌, Bytes, length, ltb, if◌then◌else◌}
use medusa.Wal.{Codec, Disk}
use medusa.Service.{Node, Effect}
use medusa.Service.Handle.{Message, Reply, handle}
use medusa.Transport.{ErrorCodec, stalled, initial_window}
use medusa.Transport.Agreement.{answer_body}
use medusa.Wire.{Wire, from_transport, Called, raised, answer_of}
use medusa.Wire.Sending.{told}

-- What the caller is told, and what the peer is afterwards with what it sent and emitted
abbrev pub outcome :
    Wire
    → Codec
    → ℕ
    → ℕ
    → (ℕ → Disk)
    → Node
    → List Effect
    → Bytes
    → Message
    → Called Reply × (Node × List Effect)
outcome w c now sent_at disk n effects addr m =
    let (r, n', more) = handle c n now disk m sent_at in (told w addr m r, (n', effects ++ more))

-- The same where a body longer than the stream window brings the call to a halt, of the request before the
-- peer handles it, of the answer after that.
abbrev pub windowed_outcome :
    ErrorCodec
    → Wire
    → Codec
    → ℕ
    → ℕ
    → (ℕ → Disk)
    → Node
    → List Effect
    → Bytes
    → Message
    → Bytes
    → Called Reply × (Node × List Effect)
windowed_outcome ec w c now sent_at disk n effects addr m bytes =
    let (r, n', more) = handle c n now disk m sent_at in
    if ltb initial_window (length bytes)
    then (raised (from_transport stalled), (n, effects))
    else if ltb initial_window (length (answer_body ec (answer_of w r)))
    then (raised (from_transport stalled), (n', effects ++ more))
    else outcome w c now sent_at disk n effects addr m
