-- ===== src/Queue/Closed.antt =====
-- imap/queue.go: what the accessors `set` and `del` keep on the keys of one partition, a queue
-- operation keeps.
use medusa.Bytes.{put_uint64}
use medusa.Base.{
  bytes_of, ℕ, ◌≡◌, refl, [], ◌∷◌, inl, inr, Option, none, some, Bytes, Bool, true, false, arith,
  Bool-cases, if◌then◌else◌, length, ◌==◌, sym, subst, same,
}
use medusa.Partition.{for_key}
use medusa.Queue.Keys.{routed_partition-affine}
use medusa.Txn
use medusa.Txn.{Txn}
use medusa.Queue.{
  queue_map, queue_seg_map, queue_seg_key, queue_op, queue_offer, queue_poll, queue_peek,
  queue_head, offer_into, poll_item, or_nil, routed_partition, decode_queue_meta, Result, ok, err,
  unknown_operation,
}

-- A property of critical sections that the two accessors keep on the keys of the partition `home`.
pub record Keeps (home : ℕ) (P : Txn → Type 0) : Type 0 where
  pub by_set :
      (t : Txn) (name key val : Bytes)
      → routed_partition name key ≡ home
      → P t
      → P (Txn.set t name key val)
  pub by_del :
      (t : Txn) (name key : Bytes) → routed_partition name key ≡ home → P t → P (Txn.del t name key)

module _ (P : Txn → Type 0) where
  Has : {R : Type 0} → R × Txn → Type 0
  Has r = P r.1

  Has-if : {R : Type 0} (b : Bool) (x y : R × Txn) → Has x → Has y → Has (if b then x else y)
  Has-if true x y hx hy = hx
  Has-if false x y hx hy = hy

  Has-elim :
      {A : Type 0} (t : Txn) (o : Option A) (f : A → Bytes × Txn)
      → P t
      → ((a : A) → Has (f a))
      → Has {R = Bytes} (elim o [ none ↦ (0 ∷ [], t) | some a ↦ f a ])
  unfolding Has
  Has-elim t none f w h = w
  Has-elim t (some a) f w h = h a

  module _ (name : Bytes) (keeps : Keeps (for_key name) P) (now : ℕ) (t : Txn) (head tail count : ℕ)
      (w : P t) where
    meta_home : routed_partition queue_map name ≡ for_key name
    meta_home = (routed_partition-affine 0 name).1

    seg_home : (i : ℕ) → routed_partition queue_seg_map (queue_seg_key i name) ≡ for_key name
    seg_home i = (routed_partition-affine i name).0

    Has-offer_into :
        (tail' : ℕ) (seg arg : Bytes) → Has (offer_into name now t head tail count tail' seg arg)
    unfolding Has offer_into
    Has-offer_into tail' seg arg =
        keeps.by_set _ _ _ _ meta_home (keeps.by_set t _ _ _ (seg_home tail') w)

    Has-offer : (arg : Bytes) → Has (queue_offer name now t head tail count arg)
    unfolding queue_offer
    Has-offer arg = Has-if _ _ _ (Has-offer_into _ _ arg) (Has-offer_into _ _ arg)

    Has-poll_item : (item rest : Bytes) → Has (poll_item name now t head tail count item rest)
    unfolding Has poll_item
    Has-poll_item item rest = keeps.by_set _ _ _ _ meta_home (elim (Bool-cases (length rest == 0)) [
      | inl e ↦ rw e (keeps.by_del t _ _ (seg_home head) w)
      | inr e ↦ rw e (keeps.by_set t _ _ _ (seg_home head) w)
    ])

    Has-poll : (mv : Option Bytes) → Has (queue_poll name now t head tail count mv)
    unfolding queue_poll
    Has-poll none = unfold Has in w
    Has-poll (some mv) = Has-if (count == 0) _ _ (unfold Has in w) (
        Has-elim t (Txn.get t queue_seg_map (queue_seg_key head name) now) _ w
          λ seg. Has-elim t (queue_head seg) _ w λ r. Has-poll_item r.0 r.1)

    peek-txn : (mv : Option Bytes) → (queue_peek name now t head tail count mv).1 ≡ t
    unfolding queue_peek
    peek-txn none = refl
    peek-txn (some mv) = ground arith

    Has-peek : (mv : Option Bytes) → Has (queue_peek name now t head tail count mv)
    unfolding Has
    Has-peek mv = subst (λ (u : Txn). P u) (sym (peek-txn mv)) w

  Has-done : (r : Bytes × Txn) → Has r → Has {R = Result Bytes} (ok r.0, r.1)
  unfolding Has
  Has-done r h = h

  Has-here : (t : Txn) (r : Result Bytes) → P t → Has (r, t)
  unfolding Has
  Has-here t r w = w

  Has-queue_op :
      (name op arg : Bytes) (now : ℕ) (t : Txn)
      → Keeps (for_key name) P
      → P t
      → Has (queue_op name op arg now t)
  unfolding queue_op
  Has-queue_op name op arg now t keeps w =
      let mv = Txn.get t queue_map name now in
      let m = decode_queue_meta (or_nil mv) in
      Has-if (same op (bytes_of "queueoffer")) _ _
        (Has-done _ (Has-offer name keeps now t m.0 m.1 m.2 w arg))
        (Has-if (same op (bytes_of "queuepoll")) _ _
          (Has-done _ (Has-poll name keeps now t m.0 m.1 m.2 w mv))
          (Has-if (same op (bytes_of "queuepeek")) _ _
            (Has-done _ (Has-peek name keeps now t m.0 m.1 m.2 w mv))
            (Has-if (same op (bytes_of "queuesize")) _ _ (Has-here t (ok (put_uint64 m.2)) w)
              (Has-here t (err (unknown_operation op)) w))))

pub queue_op-Keeps :
    (P : Txn → Type 0) (name op arg : Bytes) (now : ℕ) (t : Txn)
    → Keeps (for_key name) P
    → P t
    → P (queue_op name op arg now t).1
unfolding Has
queue_op-Keeps P name op arg now t k w = Has-queue_op P name op arg now t k w
