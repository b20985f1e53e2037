-- ===== src/Wire/Answers.antt =====
-- imap/service.go: a reply of `Handle` is of the type that answers its request, or an error.
use medusa.Base.{
  ℕ, ◌+◌, ◌<◌, ◌≡◌, refl, [], Bytes, true, Option, none, some, arith, inl, inr, Bool-cases,
  Option-cases, leb,
}
use medusa.Partition.{partition_count}
use medusa.Wal.{Codec, Disk}
use medusa.Service.{Node, Effect, ServiceError, unknown_aggregator}
use medusa.Service.Requests.{Outcome, local_clear_map}
use medusa.Service.Queries.{owns, local_aggregate}
use medusa.Service.Handle.{
  Message, put_request, get_request, remove_request, execute_request, digest_request, size_request,
  clear_request, aggregate_request, evict_request, reconcile_request, other_request, Reply, failure,
  put_response, get_response, remove_response, execute_response, digest_response, size_response,
  clear_response, aggregate_response, evict_response, reconcile_response, respond, handle,
}
use medusa.Transport.{}
use medusa.Wire.{message_type, reply_type, is_request}

-- A request that has a call
abbrev pub IsSent : Message → Type 0
IsSent (other_request t) = ⊥
IsSent _ = Unit {0}

-- A reply is of the type of a request, or an error that the request can have.
abbrev pub Answers : Message → Reply → Type 0
Answers (aggregate_request name agg_name) (failure e) = e ≡ unknown_aggregator agg_name
Answers m (failure e) = Unit {0}
Answers m r = reply_type r ≡ message_type m + 1

respond-Answers :
    {A : Type 0} (f : A → Reply) (m : Message)
    → ((e : ServiceError) → Answers m (failure e))
    → ((a : A) → Answers m (f a))
    → (o : Outcome A) → Answers m (respond f o).0
respond-Answers f m fails answers (a, none, n, effects) = answers a
respond-Answers f m fails answers (a, some e, n, effects) = fails e

local_aggregate-error :
    (n : Node) (name agg_name : Bytes) (now : ℕ) (e : ServiceError)
    → (local_aggregate n name agg_name now).1 ≡ some e
    → e ≡ unknown_aggregator agg_name
unfolding local_aggregate
local_aggregate-error n name agg_name now e h = ground arith

aggregate-Answers :
    (name agg_name part : Bytes) (failed : Option ServiceError) (n : Node)
    → ((e : ServiceError) → failed ≡ some e → e ≡ unknown_aggregator agg_name)
    → Answers (aggregate_request name agg_name) (respond aggregate_response (part, failed, n, [])).0
aggregate-Answers name agg_name part none n why = omega arith
aggregate-Answers name agg_name part (some e) n why = why e refl

module _ (c : Codec) (n : Node) (now sent_at : ℕ) (disk : ℕ → Disk) where
  pub handle-Answers : (m : Message) → IsSent m → Answers m (handle c n now disk m sent_at).0
  unfolding handle medusa.Service.Handle.reconcile medusa.Service.Queries.local_aggregate
  handle-Answers (put_request name key contents ttl is_backup) ok =
      respond-Answers put_response (put_request name key contents ttl is_backup) (λ e. tt)
        (λ a. omega arith) _
  handle-Answers (get_request name key) ok =
      respond-Answers get_response (get_request name key) (λ e. tt) (λ a. omega arith) _
  handle-Answers (remove_request name key is_backup) ok =
      respond-Answers remove_response (remove_request name key is_backup) (λ e. tt)
        (λ a. omega arith) _
  handle-Answers (execute_request name key proc_name arg) ok =
      respond-Answers execute_response (execute_request name key proc_name arg) (λ e. tt)
        (λ a. omega arith) _
  handle-Answers (digest_request p digest) ok = elim (Bool-cases (leb partition_count p)) [
    | inl out ↦ rw out tt
    | inr within ↦ rw within (omega arith)
  ]
  handle-Answers (size_request name) ok = omega arith
  handle-Answers (clear_request name) ok = elim (Option-cases (local_clear_map c n name disk).1) [
    | inl e ↦ rw (e, handle) (omega arith)
    | inr (failed, e) ↦ rw (e, handle) tt
  ]
  handle-Answers (aggregate_request name agg_name) ok =
      aggregate-Answers name agg_name _ _ n (local_aggregate-error n name agg_name now)
  handle-Answers (evict_request name key) ok =
      respond-Answers evict_response (evict_request name key) (λ e. tt) (λ a. omega arith) _
  handle-Answers (reconcile_request p keys) ok = elim (Bool-cases (leb partition_count p)) [
    | inl out ↦ rw out tt
    | inr within ↦ elim (Bool-cases (owns n p)) [
      | inl own ↦ rw within (rw own (omega arith))
      | inr other ↦ rw within (rw other (omega arith))
    ]
  ]
  handle-Answers (other_request t) ok = absurd ok

pub sent-type :
    (m : Message) → IsSent m → (is_request (message_type m) ≡ true) × (message_type m < 256)
sent-type (get_request name key) ok = (refl, omega arith)
sent-type (other_request t) ok = absurd ok
sent-type m ok = (refl, omega arith)
