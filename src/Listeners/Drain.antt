-- ===== src/Listeners/Drain.antt =====
-- imap/listener.go: the dispatcher's own turns empty the queue.
use medusa.Base.{
  ℕ, zero, suc, ◌≡◌, ◌≢◌, refl, ap, List, [], ◌∷◌, ◌++◌, map, append-nil, true, false, length,
  arith, sym, ◌∙◌, subst,
}
use medusa.Listeners.{
  EntryEvent, Dispatcher, not_started, waiting, received, returned, Listeners, new_listeners, Trace,
  called, Turn, takes, delivers, take_event, deliver, turn, run,
}
use medusa.Listeners.Delivery.{
  accepted_of, delivered_of, in_hand, backlog, accepted_of-append, delivered_of-append, Started,
  Running, IsValid, new_listeners-IsValid, Accounted, run-Accounted,
}

-- The dispatcher's turns that deliver `n` events
unfoldable pub rounds : ℕ → List Turn
rounds zero = []
rounds (suc n) = takes false ∷ delivers ∷ rounds n

-- A round of a dispatcher that waits
round_lem :
    (l : Listeners) (x : EntryEvent) (ch : List EntryEvent)
    → l.ch ≡ x ∷ ch
    → l.closed ≡ false
    → l.dispatcher ≡ waiting
    → deliver (take_event l false)
      ≡ (record l { dispatcher = waiting; ch = ch }, called l.fns x ∷ [])
unfolding take_event deliver
round_lem l x ch e c w = rw (w, take_event) (rw (e, take_event) (rw (c, take_event) refl))

-- A dispatcher that waits empties the queue, with a call of the listeners for each event.
drains :
    (l : Listeners) (ch : List EntryEvent)
    → l.ch ≡ ch
    → l.closed ≡ false
    → l.dispatcher ≡ waiting
    → ((run l (rounds (length ch))).1 ≡ map (called l.fns) ch)
      × (backlog (run l (rounds (length ch))).0 ≡ [])
unfolding run rounds in_hand turn
drains l [] e c w = (refl, rw (w, e) refl)
drains l (x ∷ ch) e c w =
    let l' = record l { dispatcher = waiting; ch = ch } in
    let (calls, none_left) = drains l' ch refl c refl in
    let r = round_lem l x ch e c w in
    rw (r, run) (ap (λ (z : List Trace). called l.fns x ∷ z) calls, none_left)

-- The dispatcher's turns that deliver the backlog
abbrev pub dispatches : Listeners → List Turn
dispatches l = delivers ∷ rounds (length l.ch)

abbrev Drained : Listeners → Listeners → Type 0
Drained l l' = backlog (run l' (rounds (length l.ch))).0 ≡ []

deliver_waiting : (l : Listeners) → l.dispatcher ≡ waiting → (deliver l).0 ≡ l
unfolding deliver
deliver_waiting l e = ground arith

deliver_received :
    (l : Listeners) (x : EntryEvent)
    → l.dispatcher ≡ received x
    → (deliver l).0 ≡ record l { dispatcher = waiting }
unfolding deliver
deliver_received l x e = ground arith

drains_from :
    (l : Listeners) (d : Dispatcher)
    → l.dispatcher ≡ d
    → IsValid l
    → l.closed ≡ false
    → l.fns ≢ []
    → backlog (run l (dispatches l)).0 ≡ []
unfolding run turn in_hand
drains_from l not_started e v c some_fn = absurd (some_fn (subst (Started l.fns) e v.started_by))
drains_from l waiting e v c some_fn =
    subst (Drained l) (sym (deliver_waiting l e)) (drains l l.ch refl c e).1
drains_from l (received x) e v c some_fn =
    let l' = record l { dispatcher = waiting } in
    subst (Drained l) (sym (deliver_received l x e)) (drains l' l.ch refl c refl).1
drains_from l returned e v c some_fn =
    let r : l.closed ≡ true = subst (Running l.closed) e v.runs in cc

deliver_accepts : (l : Listeners) → accepted_of (deliver l).1 ≡ []
unfolding deliver accepted_of
deliver_accepts l = ground arith

rounds_accept : (l : Listeners) (n : ℕ) → accepted_of (run l (rounds n)).1 ≡ []
unfolding run rounds turn accepted_of
rounds_accept l zero = refl
rounds_accept l (suc n) =
    let l' = take_event l false in
    accepted_of-append (deliver l').1 (run (deliver l').0 (rounds n)).1
    ∙ rw (deliver_accepts l') (rounds_accept (deliver l').0 n)

dispatches_accept : (l : Listeners) → accepted_of (run l (dispatches l)).1 ≡ []
unfolding run turn accepted_of
dispatches_accept l =
    accepted_of-append (deliver l).1 (run (deliver l).0 (rounds (length l.ch))).1
    ∙ rw (deliver_accepts l) (rounds_accept (deliver l).0 (length l.ch))

-- Once a listener is registered, and until the close, the dispatcher's own turns deliver every event
-- that was accepted in any order of the turns before: none is left behind.
pub run_delivers :
    (ts : List Turn) (l : Listeners) (seen : List Trace)
    → run new_listeners ts ≡ (l, seen)
    → l.closed ≡ false
    → l.fns ≢ []
    → delivered_of (seen ++ (run l (dispatches l)).1) ≡ accepted_of seen
unfolding accepted_of in_hand
run_delivers ts l seen e c some_fn =
    let (v, before, heard) =
      subst (Accounted new_listeners) e (run-Accounted new_listeners ts new_listeners-IsValid) in
    let (v', after, heard') = run-Accounted l (dispatches l) v in
    let more = (run l (dispatches l)).1 in
    let later : backlog l ≡ delivered_of more =
      sym (append-nil (backlog l))
      ∙ ap (λ (z : List EntryEvent). backlog l ++ z) (sym (dispatches_accept l))
      ∙ after
      ∙ ap (λ (z : List EntryEvent). delivered_of more ++ z)
          (drains_from l l.dispatcher refl v c some_fn)
      ∙ append-nil (delivered_of more) in
    delivered_of-append seen more
    ∙ ap (λ (z : List EntryEvent). delivered_of seen ++ z) (sym later)
    ∙ sym before
