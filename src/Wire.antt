-- ===== src/Wire.antt =====
-- imap/service.go: the calls that send a request to a peer, from the message to the bytes of a transport's
-- `Send` and back, and `Handle` on the bytes that arrive. The marshalling of the messages is generated code,
-- and with the texts of errors a parameter.
pub mod Answers
pub mod Sending
pub mod Remote
use medusa.Base.{
  ℕ, zero, suc, List, [], ◌∷◌, ◌++◌, Bytes, Bool, true, false, ◌||◌, ◌&&◌, Option, none, some,
  if◌then◌else◌, ◌==◌, bytes_of,
}
use medusa.Wal.{Codec, Disk}
use medusa.Service.{Node, Effect, ServiceError, unknown_aggregator}
use medusa.Service.Handle.{
  KeyRef, Message, put_request, get_request, remove_request, execute_request, digest_request,
  size_request, clear_request, aggregate_request, evict_request, reconcile_request, other_request,
  Reply, failure, put_response, get_response, remove_response, execute_response, digest_response,
  size_response, clear_response, aggregate_response, evict_response, reconcile_response, handle,
}
use medusa.Client.{get_reply, remove_reply, execute_reply, evict_reply}
use medusa.Client.Gather.{size_reply, clear_reply}
use medusa.Transport.{error_type, Answer, answered, refused, Handler, Sent, reply, remote_error}

-- The generated marshalling, `strconv.Quote`, and the texts of errors
pub record Wire : Type 0 where
  pub marshal : Message → Option Bytes
  pub unmarshal : ℕ → Bytes → Option Message
  pub marshal_reply : Reply → Option Bytes
  pub unmarshal_reply : ℕ → Bytes → Option Reply
  pub quote : Bytes → Bytes
  pub text_of : ServiceError → Bytes
  pub malformed : Bytes

-- The types of transport.proto
abbrev pub message_type : Message → ℕ
message_type (put_request name key contents ttl is_backup) = 6
message_type (get_request name key) = 8
message_type (remove_request name key is_backup) = 10
message_type (execute_request name key proc_name arg) = 13
message_type (digest_request p digest) = 15
message_type (size_request name) = 17
message_type (clear_request name) = 19
message_type (aggregate_request name agg_name) = 21
message_type (evict_request name key) = 23
message_type (reconcile_request p keys) = 25
message_type (other_request t) = t

abbrev pub reply_type : Reply → ℕ
reply_type (failure e) = error_type
reply_type (put_response created) = 7
reply_type (get_response found) = 9
reply_type (remove_response existed) = 11
reply_type (execute_response out) = 14
reply_type (digest_response same) = 16
reply_type (size_response count) = 18
reply_type (clear_response removed) = 20
reply_type (aggregate_response part) = 22
reply_type (evict_response existed) = 24
reply_type (reconcile_response pruned) = 26

-- The cases of `Handle` before its default
abbrev pub is_request : ℕ → Bool
is_request t =
    t == 6
    || t == 8
    || t == 10
    || t == 13
    || t == 15
    || t == 17
    || t == 19
    || t == 21
    || t == 23
    || t == 25

-- `ErrUnknownAggregator.Error()`
abbrev pub unknown_text : Bytes
unknown_text = bytes_of "imap: unknown aggregator"

-- `strings.HasPrefix` and `strings.Contains`
unfoldable pub has_prefix : Bytes → Bytes → Bool
has_prefix s [] = true
has_prefix [] (y ∷ sub) = false
has_prefix (x ∷ s) (y ∷ sub) = x == y && has_prefix s sub

unfoldable pub contains : Bytes → Bytes → Bool
unfolding has_prefix
contains [] sub = has_prefix [] sub
contains (x ∷ s) sub = has_prefix (x ∷ s) sub || contains s sub

pub data SendError : Type 0 where
  not_marshalled not_unmarshalled : SendError
  from_transport : Sent → SendError
  wrong_type : ℕ → SendError
  unknown_at : Bytes → SendError

pub data Called (A : Type 0) : Type 0 where
  returned : A → Called A
  raised : SendError → Called A

module _ (w : Wire) where
  -- The text of an error that `Handle` returns: `fmt.Errorf("%w %q", ErrUnknownAggregator, name)`, or
  -- another
  unfoldable pub error_text : ServiceError → Bytes
  error_text (unknown_aggregator name) = unknown_text ++ (32 ∷ w.quote name)
  error_text e = w.text_of e

  -- What `Handle` returns to the transport for the outcome of a request
  unfoldable pub answer_of : Reply → Answer
  unfolding error_text
  answer_of (failure e) = refused (error_text e)
  answer_of r = elim (w.marshal_reply r) [
    | none ↦ refused w.malformed
    | some out ↦ answered (reply_type r) out
  ]

  -- `UnmarshalVT` of a request, or the default case
  abbrev pub parsed : ℕ → Bytes → Option Message
  parsed t payload = if is_request t then w.unmarshal t payload else some (other_request t)

  -- `Handle` on the bytes of a request. The state has what the node sent and emitted so far.
  unfoldable pub handle_bytes : Codec → ℕ → ℕ → (ℕ → Disk) → Handler (Node × List Effect)
  unfolding handle answer_of
  handle_bytes c now sent_at disk (n, effects) t payload = elim (parsed t payload) [
    | none ↦ (refused w.malformed, (n, effects))
    | some m ↦
        let (r, n', more) = handle c n now disk m sent_at in (answer_of r, (n', effects ++ more))
  ]

-- The end of a call, on what the transport returned: the type that is wanted, and `UnmarshalVT`
abbrev pub receive : {A : Type 0} → ℕ → (Bytes → Option A) → Sent → Called A
receive want decode (reply t payload) =
    if t == want
    then elim (decode payload) [ none ↦ raised not_unmarshalled | some a ↦ returned a ]
    else raised (wrong_type t)
receive want decode sent = raised (from_transport sent)

-- The end of `sendAggregate`: an error of the peer that has the sentinel's text is that error.
abbrev pub receive_partial : Bytes → (Bytes → Option Bytes) → Sent → Called Bytes
receive_partial addr decode (remote_error code text) =
    if contains text unknown_text
    then raised (unknown_at addr)
    else raised (from_transport (remote_error code text))
receive_partial addr decode sent = receive 22 decode sent

-- What a decoded reply says; those of the other calls are with the client.
abbrev pub digest_reply : Option Reply → Option Bool
digest_reply (some (digest_response b)) = some b
digest_reply _ = none

abbrev pub partial_reply : Option Reply → Option Bytes
partial_reply (some (aggregate_response part)) = some part
partial_reply _ = none

abbrev pub reconcile_reply : Option Reply → Option ℕ
reconcile_reply (some (reconcile_response pruned)) = some pruned
reconcile_reply _ = none

module _ (w : Wire) {Net : Type 0} (tr : Net → Bytes → ℕ → Bytes → Sent × Net) (net : Net)
    (addr : Bytes) where
  -- The start of a call: the message is marshalled and sent.
  abbrev pub exchange : {A : Type 0} → Message → (Sent → Called A) → Called A × Net
  exchange m read = elim (w.marshal m) [
    | none ↦ (raised not_marshalled, net)
    | some bytes ↦ let (sent, net') = tr net addr (message_type m) bytes in (read sent, net')
  ]

  -- The payload of the reply is not read.
  unfoldable pub send_put : Bytes → Bytes → Bytes → ℕ → Bool → Called (Unit {0}) × Net
  send_put name key contents ttl is_backup =
      exchange (put_request name key contents ttl is_backup) (receive 7 (λ payload. some tt))

  unfoldable pub send_get : Bytes → Bytes → Called (Option Bytes) × Net
  send_get name key =
      exchange (get_request name key)
        (receive 9 (λ payload. get_reply (w.unmarshal_reply 9 payload)))

  unfoldable pub send_remove : Bytes → Bytes → Bool → Called Bool × Net
  send_remove name key is_backup =
      exchange (remove_request name key is_backup)
        (receive 11 (λ payload. remove_reply (w.unmarshal_reply 11 payload)))

  unfoldable pub send_execute : Bytes → Bytes → Bytes → Bytes → Called Bytes × Net
  send_execute name key proc_name arg =
      exchange (execute_request name key proc_name arg)
        (receive 14 (λ payload. execute_reply (w.unmarshal_reply 14 payload)))

  unfoldable pub send_digest : ℕ → ℕ → Called Bool × Net
  send_digest p digest =
      exchange (digest_request p digest)
        (receive 16 (λ payload. digest_reply (w.unmarshal_reply 16 payload)))

  unfoldable pub send_size : Bytes → Called ℕ × Net
  send_size name =
      exchange (size_request name)
        (receive 18 (λ payload. size_reply (w.unmarshal_reply 18 payload)))

  unfoldable pub send_clear : Bytes → Called ℕ × Net
  send_clear name =
      exchange (clear_request name)
        (receive 20 (λ payload. clear_reply (w.unmarshal_reply 20 payload)))

  unfoldable pub send_aggregate : Bytes → Bytes → Called Bytes × Net
  unfolding contains
  send_aggregate name agg_name =
      exchange (aggregate_request name agg_name)
        (receive_partial addr (λ payload. partial_reply (w.unmarshal_reply 22 payload)))

  unfoldable pub send_evict : Bytes → Bytes → Called Bool × Net
  send_evict name key =
      exchange (evict_request name key)
        (receive 24 (λ payload. evict_reply (w.unmarshal_reply 24 payload)))

  unfoldable pub send_reconcile : ℕ → List KeyRef → Called ℕ × Net
  send_reconcile p keys =
      exchange (reconcile_request p keys)
        (receive 26 (λ payload. reconcile_reply (w.unmarshal_reply 26 payload)))
