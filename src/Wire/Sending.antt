-- ===== src/Wire/Sending.antt =====
-- imap/service.go: the calls to a peer as one, and what each reply, error or stalled stream tells its caller.
use medusa.Base.{ℕ, ◌≡◌, refl, ap, sym, ◌∙◌, Bytes, true, Option, some, arith, ◌≢◌, ==_iff}
use medusa.Service.{ServiceError, unknown_aggregator}
use medusa.Service.Handle.{
  Message, put_request, get_request, remove_request, execute_request, digest_request, size_request,
  clear_request, aggregate_request, evict_request, reconcile_request, other_request, Reply, failure,
  put_response, get_response, remove_response, execute_response, digest_response, size_response,
  clear_response, aggregate_response, evict_response, reconcile_response,
}
use medusa.Transport.{reply, Sent, remote_error, in_memory, stalled}
use medusa.Wire.Answers.{IsSent, Answers}
use medusa.Wire.{
  Wire, message_type, reply_type, not_marshalled, from_transport, unknown_at, Called, returned,
  raised, error_text, answer_of, exchange, receive, receive_partial, send_put, send_get,
  send_remove, send_execute, send_digest, send_size, send_clear, send_aggregate, send_evict,
  send_reconcile, partial_reply,
}

abbrev pub as_reply : {A Net : Type 0} → (A → Reply) → Called A × Net → Called Reply × Net
as_reply f (returned a, net) = (returned (f a), net)
as_reply f (raised e, net) = (raised e, net)

module _ (w : Wire) {Net : Type 0} (tr : Net → Bytes → ℕ → Bytes → Sent × Net) where
  -- The ten calls as one, with what they return as a reply. `sendPut` returns no more than its success.
  unfoldable pub send_message : Net → Bytes → Message → Called Reply × Net
  unfolding send_put send_get send_remove send_execute send_digest send_size send_clear
      send_aggregate send_evict send_reconcile
  send_message net addr (put_request name key contents ttl is_backup) =
      as_reply (λ done. put_response true) (send_put w tr net addr name key contents ttl is_backup)
  send_message net addr (get_request name key) =
      as_reply get_response (send_get w tr net addr name key)
  send_message net addr (remove_request name key is_backup) =
      as_reply remove_response (send_remove w tr net addr name key is_backup)
  send_message net addr (execute_request name key proc_name arg) =
      as_reply execute_response (send_execute w tr net addr name key proc_name arg)
  send_message net addr (digest_request p digest) =
      as_reply digest_response (send_digest w tr net addr p digest)
  send_message net addr (size_request name) = as_reply size_response (send_size w tr net addr name)
  send_message net addr (clear_request name) =
      as_reply clear_response (send_clear w tr net addr name)
  send_message net addr (aggregate_request name agg_name) =
      as_reply aggregate_response (send_aggregate w tr net addr name agg_name)
  send_message net addr (evict_request name key) =
      as_reply evict_response (send_evict w tr net addr name key)
  send_message net addr (reconcile_request p keys) =
      as_reply reconcile_response (send_reconcile w tr net addr p keys)
  send_message net addr (other_request t) = (raised not_marshalled, net)

-- What a caller is told of the outcome of its request: the reply, without what a put created; an error as
-- its text, but for an aggregator that the peer does not know.
abbrev pub told : Wire → Bytes → Message → Reply → Called Reply
told w addr (aggregate_request name agg_name) (failure (unknown_aggregator missing)) =
    raised (unknown_at addr)
told w addr m (failure e) = raised (from_transport (remote_error 1 (error_text w e)))
told w addr m (put_response created) = returned (put_response true)
told w addr m r = returned r

-- The marshalling of a reply returns it.
abbrev pub Returns : Wire → Reply → Type 0
Returns w (failure e) = Unit {0}
Returns w r =
    (out : Bytes) × (w.marshal_reply r ≡ some out) × (w.unmarshal_reply (reply_type r) out ≡ some r)

in_memory-answer_of :
    (w : Wire) (r : Reply) (t : ℕ) (out : Bytes)
    → reply_type r ≡ t
    → t ≢ 1
    → w.marshal_reply r ≡ some out
    → in_memory (answer_of w r) ≡ reply t out
unfolding in_memory answer_of
in_memory-answer_of w (failure e) t out h ne k = absurd (ne (sym h))
in_memory-answer_of w r t out h ne k = rw (k, answer_of) (ap (λ (x : ℕ). reply x out) h)

receive-reply :
    {A : Type 0} (t : ℕ) (decode : Bytes → Option A) (out : Bytes) (a : A)
    → decode out ≡ some a
    → receive t decode (reply t out) ≡ returned a
receive-reply t decode out a d = rw ((==_iff t t).1 refl) (rw (d, receive) refl)

module _ (w : Wire) {Net : Type 0} (tr : Net → Bytes → ℕ → Bytes → Sent × Net) (net net' : Net)
    (addr : Bytes) where
  exchange_lem :
      {A : Type 0} (m : Message) (read : Sent → Called A) (bytes : Bytes) (sent : Sent)
      → w.marshal m ≡ some bytes
      → tr net addr (message_type m) bytes ≡ (sent, net')
      → exchange w tr net addr m read ≡ (read sent, net')
  exchange_lem m read bytes sent h k = rw (h, exchange) (ap (λ (z : Sent × Net). (read z.0, z.1)) k)

  failed_call :
      {A : Type 0} (m : Message) (f : A → Reply) (t : ℕ) (decode : Bytes → Option A) (bytes : Bytes)
      (e : ServiceError)
      → w.marshal m ≡ some bytes
      → tr net addr (message_type m) bytes ≡ (in_memory (answer_of w (failure e)), net')
      → as_reply f (exchange w tr net addr m (receive t decode))
        ≡ (raised (from_transport (remote_error 1 (error_text w e))), net')
  unfolding answer_of in_memory
  failed_call m f t decode bytes e h k =
      ap (as_reply f) (exchange_lem m (receive t decode) bytes _ h k)

  answered_call :
      {A : Type 0} (m : Message) (f : A → Reply) (t : ℕ) (decode : Bytes → Option A)
      (bytes out : Bytes) (r : Reply) (a : A)
      → w.marshal m ≡ some bytes
      → tr net addr (message_type m) bytes ≡ (in_memory (answer_of w r), net')
      → reply_type r ≡ t
      → t ≢ 1
      → w.marshal_reply r ≡ some out
      → decode out ≡ some a
      → as_reply f (exchange w tr net addr m (receive t decode)) ≡ (returned (f a), net')
  answered_call m f t decode bytes out r a h k typed ne back d =
      ap (as_reply f) (
        exchange_lem m (receive t decode) bytes (reply t out) h
          (k ∙ ap (λ (x : Sent). (x, net')) (in_memory-answer_of w r t out typed ne back)))
      ∙ ap (λ (x : Called _). as_reply f (x, net')) (receive-reply t decode out a d)

  unknown_call :
      (name agg_name bytes : Bytes)
      → w.marshal (aggregate_request name agg_name) ≡ some bytes
      → tr net addr 21 bytes
        ≡ (in_memory (answer_of w (failure (unknown_aggregator agg_name))), net')
      → as_reply aggregate_response (send_aggregate w tr net addr name agg_name)
        ≡ (raised (unknown_at addr), net')
  unfolding send_aggregate answer_of error_text in_memory
  unknown_call name agg_name bytes h k =
      ap (as_reply aggregate_response)
        (exchange_lem (aggregate_request name agg_name) (receive_partial addr _) bytes _ h k)

  pub send_message-told :
      (m : Message) (r : Reply) (bytes : Bytes)
      → IsSent m
      → w.marshal m ≡ some bytes
      → tr net addr (message_type m) bytes ≡ (in_memory (answer_of w r), net')
      → Answers m r
      → Returns w r
      → send_message w tr net addr m ≡ (told w addr m r, net')
  unfolding send_message send_aggregate
  send_message-told (put_request name key contents ttl is_backup) (put_response created) bytes ok h
        k fits (out, back, u) =
      answered_call (put_request name key contents ttl is_backup) (λ done. put_response true) 7
        (λ payload. some tt) bytes out (put_response created) tt h k refl (omega arith) back (refl)
  send_message-told (put_request name key contents ttl is_backup) (failure e) bytes ok h k fits
        back =
      failed_call (put_request name key contents ttl is_backup) (λ done. put_response true) 7
        (λ payload. some tt) bytes e h k
  send_message-told (put_request name key contents ttl is_backup) r bytes ok h k fits back =
      absurd (omega (arith, fits))
  send_message-told (get_request name key) (get_response found) bytes ok h k fits (out, back, u) =
      answered_call (get_request name key) get_response 9 _ bytes out (get_response found) found h k
        refl (omega arith) back (rw u refl)
  send_message-told (get_request name key) (failure e) bytes ok h k fits back =
      failed_call (get_request name key) get_response 9 _ bytes e h k
  send_message-told (get_request name key) r bytes ok h k fits back = absurd (omega (arith, fits))
  send_message-told (remove_request name key is_backup) (remove_response existed) bytes ok h k fits
        (out, back, u) =
      answered_call (remove_request name key is_backup) remove_response 11 _ bytes out
        (remove_response existed) existed h k refl (omega arith) back (rw u refl)
  send_message-told (remove_request name key is_backup) (failure e) bytes ok h k fits back =
      failed_call (remove_request name key is_backup) remove_response 11 _ bytes e h k
  send_message-told (remove_request name key is_backup) r bytes ok h k fits back =
      absurd (omega (arith, fits))
  send_message-told (execute_request name key proc_name arg) (execute_response res) bytes ok h k
        fits (out, back, u) =
      answered_call (execute_request name key proc_name arg) execute_response 14 _ bytes out
        (execute_response res) res h k refl (omega arith) back (rw u refl)
  send_message-told (execute_request name key proc_name arg) (failure e) bytes ok h k fits back =
      failed_call (execute_request name key proc_name arg) execute_response 14 _ bytes e h k
  send_message-told (execute_request name key proc_name arg) r bytes ok h k fits back =
      absurd (omega (arith, fits))
  send_message-told (digest_request p digest) (digest_response matches) bytes ok h k fits
        (out, back, u) =
      answered_call (digest_request p digest) digest_response 16 _ bytes out
        (digest_response matches) matches h k refl (omega arith) back (rw u refl)
  send_message-told (digest_request p digest) (failure e) bytes ok h k fits back =
      failed_call (digest_request p digest) digest_response 16 _ bytes e h k
  send_message-told (digest_request p digest) r bytes ok h k fits back =
      absurd (omega (arith, fits))
  send_message-told (size_request name) (size_response count) bytes ok h k fits (out, back, u) =
      answered_call (size_request name) size_response 18 _ bytes out (size_response count) count h k
        refl (omega arith) back (rw u refl)
  send_message-told (size_request name) (failure e) bytes ok h k fits back =
      failed_call (size_request name) size_response 18 _ bytes e h k
  send_message-told (size_request name) r bytes ok h k fits back = absurd (omega (arith, fits))
  send_message-told (clear_request name) (clear_response removed) bytes ok h k fits (out, back, u) =
      answered_call (clear_request name) clear_response 20 _ bytes out (clear_response removed)
        removed h k refl (omega arith) back (rw u refl)
  send_message-told (clear_request name) (failure e) bytes ok h k fits back =
      failed_call (clear_request name) clear_response 20 _ bytes e h k
  send_message-told (clear_request name) r bytes ok h k fits back = absurd (omega (arith, fits))
  send_message-told (evict_request name key) (evict_response existed) bytes ok h k fits
        (out, back, u) =
      answered_call (evict_request name key) evict_response 24 _ bytes out (evict_response existed)
        existed h k refl (omega arith) back (rw u refl)
  send_message-told (evict_request name key) (failure e) bytes ok h k fits back =
      failed_call (evict_request name key) evict_response 24 _ bytes e h k
  send_message-told (evict_request name key) r bytes ok h k fits back = absurd (omega (arith, fits))
  send_message-told (reconcile_request p keys) (reconcile_response pruned) bytes ok h k fits
        (out, back, u) =
      answered_call (reconcile_request p keys) reconcile_response 26 _ bytes out
        (reconcile_response pruned) pruned h k refl (omega arith) back (rw u refl)
  send_message-told (reconcile_request p keys) (failure e) bytes ok h k fits back =
      failed_call (reconcile_request p keys) reconcile_response 26 _ bytes e h k
  send_message-told (reconcile_request p keys) r bytes ok h k fits back =
      absurd (omega (arith, fits))
  send_message-told (aggregate_request name agg_name) (aggregate_response part) bytes ok h k fits
        (out, back, u) =
      ap (as_reply aggregate_response) (
        exchange_lem (aggregate_request name agg_name) (receive_partial addr _) bytes (reply 22 out)
          h
          (k
            ∙ ap (λ (x : Sent). (x, net'))
                (in_memory-answer_of w (aggregate_response part) 22 out refl (omega arith) back)))
      ∙ ap (λ (x : Called Bytes). as_reply aggregate_response (x, net'))
          (receive-reply 22 (λ payload. partial_reply (w.unmarshal_reply 22 payload)) out part
            (rw u refl))
  send_message-told (aggregate_request name agg_name) (failure e) bytes ok h k fits back =
      rw fits (unknown_call name agg_name bytes h (rw fits at k))
  send_message-told (aggregate_request name agg_name) r bytes ok h k fits back =
      absurd (omega (arith, fits))
  send_message-told (other_request t) r bytes ok h k fits back = absurd ok

  stalled_call :
      {A : Type 0} (m : Message) (f : A → Reply) (t : ℕ) (decode : Bytes → Option A) (bytes : Bytes)
      → w.marshal m ≡ some bytes
      → tr net addr (message_type m) bytes ≡ (stalled, net')
      → as_reply f (exchange w tr net addr m (receive t decode))
        ≡ (raised (from_transport stalled), net')
  stalled_call m f t decode bytes h k =
      ap (as_reply f) (exchange_lem m (receive t decode) bytes stalled h k)

  pub send_message-stalled :
      (m : Message) (bytes : Bytes)
      → IsSent m
      → w.marshal m ≡ some bytes
      → tr net addr (message_type m) bytes ≡ (stalled, net')
      → send_message w tr net addr m ≡ (raised (from_transport stalled), net')
  unfolding send_message send_aggregate
  send_message-stalled (put_request name key contents ttl is_backup) bytes ok h k =
      stalled_call (put_request name key contents ttl is_backup) (λ done. put_response true) 7
        (λ payload. some tt) bytes h k
  send_message-stalled (get_request name key) bytes ok h k =
      stalled_call (get_request name key) get_response _ _ bytes h k
  send_message-stalled (remove_request name key is_backup) bytes ok h k =
      stalled_call (remove_request name key is_backup) remove_response _ _ bytes h k
  send_message-stalled (execute_request name key proc_name arg) bytes ok h k =
      stalled_call (execute_request name key proc_name arg) execute_response _ _ bytes h k
  send_message-stalled (digest_request p digest) bytes ok h k =
      stalled_call (digest_request p digest) digest_response _ _ bytes h k
  send_message-stalled (size_request name) bytes ok h k =
      stalled_call (size_request name) size_response _ _ bytes h k
  send_message-stalled (clear_request name) bytes ok h k =
      stalled_call (clear_request name) clear_response _ _ bytes h k
  send_message-stalled (evict_request name key) bytes ok h k =
      stalled_call (evict_request name key) evict_response _ _ bytes h k
  send_message-stalled (reconcile_request p keys) bytes ok h k =
      stalled_call (reconcile_request p keys) reconcile_response _ _ bytes h k
  send_message-stalled (aggregate_request name agg_name) bytes ok h k =
      ap (as_reply aggregate_response)
        (exchange_lem (aggregate_request name agg_name) (receive_partial addr _) bytes stalled h k)
  send_message-stalled (other_request t) bytes ok h k = absurd ok
