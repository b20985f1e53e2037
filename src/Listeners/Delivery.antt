-- ===== src/Listeners/Delivery.antt =====
-- imap/listener.go: what the listeners are called with, over every order of the goroutines' turns.
use medusa.Base.{
  ℕ, ◌≡◌, ◌≢◌, ◌≤◌, inl, inr, refl, ap, List, [], ◌∷◌, ◌++◌, append_assoc, append-nil, Bool, true,
  false, Option, none, some, ltb, length, length-append, arith, ltb→lt, Bool-cases, Option-cases,
  sym, ◌∙◌, subst,
}
use medusa.Listeners.{
  EntryEvent, Dispatcher, not_started, waiting, received, returned, Listeners, listener_queue,
  new_listeners, Trace, accepted, refused, called, Turn, arms, publishes, reads_gate, sends, takes,
  delivers, closes, arm, publish, read_gate, send_event, take_event, deliver, close, turn, run,
  started, selected,
}

-- The events that a run accepted, and those that it delivered, each in order
unfoldable pub accepted_of : List Trace → List EntryEvent
accepted_of [] = []
accepted_of (accepted e ∷ seen) = e ∷ accepted_of seen
accepted_of (refused e ∷ seen) = accepted_of seen
accepted_of (called fns e ∷ seen) = accepted_of seen

unfoldable pub delivered_of : List Trace → List EntryEvent
delivered_of [] = []
delivered_of (accepted e ∷ seen) = delivered_of seen
delivered_of (refused e ∷ seen) = delivered_of seen
delivered_of (called fns e ∷ seen) = e ∷ delivered_of seen

-- Every delivery calls some listener.
abbrev pub Heard : List Trace → Type 0
Heard [] = Unit {0}
Heard (accepted e ∷ seen) = Heard seen
Heard (refused e ∷ seen) = Heard seen
Heard (called fns e ∷ seen) = (fns ≢ []) × Heard seen

unfoldable pub in_hand : Dispatcher → List EntryEvent
in_hand (received e) = e ∷ []
in_hand not_started = []
in_hand waiting = []
in_hand returned = []

-- The events that were accepted and not yet delivered
abbrev pub backlog : Listeners → List EntryEvent
backlog l = in_hand l.dispatcher ++ l.ch

pub accepted_of-append :
    (xs ys : List Trace) → accepted_of (xs ++ ys) ≡ accepted_of xs ++ accepted_of ys
unfolding accepted_of
accepted_of-append [] ys = refl
accepted_of-append (accepted e ∷ xs) ys = ap (λ z. e ∷ z) (accepted_of-append xs ys)
accepted_of-append (refused e ∷ xs) ys = accepted_of-append xs ys
accepted_of-append (called fns e ∷ xs) ys = accepted_of-append xs ys

pub delivered_of-append :
    (xs ys : List Trace) → delivered_of (xs ++ ys) ≡ delivered_of xs ++ delivered_of ys
unfolding delivered_of
delivered_of-append [] ys = refl
delivered_of-append (accepted e ∷ xs) ys = delivered_of-append xs ys
delivered_of-append (refused e ∷ xs) ys = delivered_of-append xs ys
delivered_of-append (called fns e ∷ xs) ys = ap (λ z. e ∷ z) (delivered_of-append xs ys)

Heard-append : (xs ys : List Trace) → Heard xs → Heard ys → Heard (xs ++ ys)
Heard-append [] ys h k = k
Heard-append (accepted e ∷ xs) ys h k = Heard-append xs ys h k
Heard-append (refused e ∷ xs) ys h k = Heard-append xs ys h k
Heard-append (called fns e ∷ xs) ys h k = (h.0, Heard-append xs ys h.1 k)

abbrev pub Started : List ℕ → Dispatcher → Type 0
Started fns not_started = fns ≡ []
Started fns waiting = fns ≢ []
Started fns (received e) = fns ≢ []
Started fns returned = fns ≢ []

abbrev pub Running : Bool → Dispatcher → Type 0
Running closed returned = closed ≡ true
Running closed not_started = Unit {0}
Running closed waiting = Unit {0}
Running closed (received e) = Unit {0}

-- The backlog is bounded, the dispatcher runs exactly when there is a listener, and it returns only
-- after the close.
pub record IsValid (l : Listeners) : Type 0 where
  pub bounded : length l.ch ≤ listener_queue
  pub started_by : Started l.fns l.dispatcher
  pub runs : Running l.closed l.dispatcher

pub new_listeners-IsValid : IsValid new_listeners
new_listeners-IsValid = record { bounded = omega arith; started_by = refl; runs = tt }

-- What a turn does to the backlog
abbrev pub Accounted : Listeners → Listeners × List Trace → Type 0
Accounted l r =
    IsValid r.0 × (backlog l ++ accepted_of r.1 ≡ delivered_of r.1 ++ backlog r.0) × Heard r.1

quiet : (l l' : Listeners) → IsValid l' → backlog l' ≡ backlog l → Accounted l (l', [])
unfolding accepted_of delivered_of
quiet l l' v e = (v, append-nil (backlog l) ∙ sym e, tt)

abbrev Kept : Listeners → Listeners → Type 0
Kept l l' = IsValid l' × (backlog l' ≡ backlog l)

arm-Kept : (l : Listeners) (fn : Option ℕ) → IsValid l → Kept l (arm l fn)
unfolding arm
arm-Kept l none v = (v, refl)
arm-Kept l (some fn) v = ground arith

read_gate-Kept : (l : Listeners) (e : EntryEvent) → IsValid l → Kept l (read_gate l e)
unfolding read_gate
read_gate-Kept l e v = ground arith

Running-closed : (b : Bool) (d : Dispatcher) → Running b d → Running true d
Running-closed b not_started h = tt
Running-closed b waiting h = tt
Running-closed b (received e) h = tt
Running-closed b returned h = refl

close-Kept : (l : Listeners) → IsValid l → Kept l (close l)
unfolding close
close-Kept l v = ground (arith, Running-closed l.closed l.dispatcher)

snoc-ne-nil : (fns : List ℕ) (fn : ℕ) → fns ++ fn ∷ [] ≢ []
snoc-ne-nil [] fn e = cc
snoc-ne-nil (f ∷ fns) fn e = cc

-- The dispatcher before and after a listener is published
started_kept :
    (closed : Bool) (fns : List ℕ) (fn : ℕ) (d : Dispatcher)
    → Started fns d
    → Running closed d
    → Started (fns ++ fn ∷ []) (started fns d)
      × Running closed (started fns d)
      × (in_hand (started fns d) ≡ in_hand d)
unfolding in_hand
started_kept closed [] fn not_started h r = (snoc-ne-nil [] fn, tt, refl)
started_kept closed (f ∷ fns) fn not_started h r = cc
started_kept closed [] fn waiting h r = absurd (h refl)
started_kept closed (f ∷ fns) fn waiting h r = (snoc-ne-nil (f ∷ fns) fn, tt, refl)
started_kept closed [] fn (received e) h r = absurd (h refl)
started_kept closed (f ∷ fns) fn (received e) h r = (snoc-ne-nil (f ∷ fns) fn, tt, refl)
started_kept closed [] fn returned h r = absurd (h refl)
started_kept closed (f ∷ fns) fn returned h r = (snoc-ne-nil (f ∷ fns) fn, r, refl)

publish-Kept : (l : Listeners) → IsValid l → Kept l (publish l)
unfolding publish
publish-Kept l v = elim (Option-cases l.adding) [
  | inl e ↦ rw (e, publish) (v, refl)
  | inr (fn, e) ↦
      let (begun, runs, held) = started_kept l.closed l.fns fn l.dispatcher v.started_by v.runs in
      rw (e, publish)
        (
          record { bounded = v.bounded; started_by = begun; runs = runs },
          ap (λ (z : List EntryEvent). z ++ l.ch) held,
        )
]

-- What the select of `dispatch` picks
selected_kept :
    (closed stop : Bool) (fns : List ℕ) (ch : List EntryEvent)
    → length ch ≤ listener_queue
    → fns ≢ []
    → (length (selected closed stop ch).1 ≤ listener_queue)
      × Started fns (selected closed stop ch).0
      × Running closed (selected closed stop ch).0
      × (in_hand (selected closed stop ch).0 ++ (selected closed stop ch).1 ≡ ch)
unfolding in_hand
selected_kept false stop fns [] b h = (b, h, tt, refl)
selected_kept true stop fns [] b h = (b, h, refl, refl)
selected_kept false stop fns (e ∷ ch) b h = (omega arith, h, tt, refl)
selected_kept true true fns (e ∷ ch) b h = (b, h, refl, refl)
selected_kept true false fns (e ∷ ch) b h = (omega arith, h, tt, refl)

take_event_at :
    (l : Listeners) (stop : Bool) (d : Dispatcher)
    → l.dispatcher ≡ d
    → IsValid l
    → Kept l (take_event l stop)
unfolding take_event in_hand
take_event_at l stop not_started e v =
    rw (e, take_event) (v, ap (λ (d : Dispatcher). in_hand d ++ l.ch) e)
take_event_at l stop waiting e v =
    let (bounded, begun, runs, all) =
      selected_kept l.closed stop l.fns l.ch v.bounded (subst (Started l.fns) e v.started_by) in
    rw (e, take_event) (record { bounded = bounded; started_by = begun; runs = runs }, all)
take_event_at l stop (received x) e v =
    rw (e, take_event) (v, ap (λ (d : Dispatcher). in_hand d ++ l.ch) e)
take_event_at l stop returned e v =
    rw (e, take_event) (v, ap (λ (d : Dispatcher). in_hand d ++ l.ch) e)

send_event_at :
    (l : Listeners) (pending : List EntryEvent)
    → l.emitting ≡ pending
    → IsValid l
    → Accounted l (send_event l)
unfolding send_event accepted_of delivered_of
send_event_at l [] e v = rw (e, send_event) (quiet l l v refl)
send_event_at l (x ∷ rest) e v = elim (Bool-cases (ltb (length l.ch) listener_queue)) [
  | inl fits ↦
      rw (e, send_event)
        (rw fits (
          record {
            bounded =
                omega
                  (arith, ltb→lt (length l.ch) listener_queue fits, length-append l.ch (x ∷ []));
            started_by = v.started_by;
            runs = v.runs;
          },
          append_assoc (in_hand l.dispatcher) l.ch (x ∷ []),
          tt,
        ))
  | inr full ↦
      rw (e, send_event)
        (rw full (
          record { bounded = v.bounded; started_by = v.started_by; runs = v.runs },
          append-nil (backlog l),
          tt,
        ))
]

deliver_at :
    (l : Listeners) (d : Dispatcher) → l.dispatcher ≡ d → IsValid l → Accounted l (deliver l)
unfolding deliver accepted_of delivered_of in_hand
deliver_at l (received x) e v =
    rw (e, deliver)
      (
        record {
          bounded = v.bounded;
          started_by = subst (Started l.fns) e v.started_by;
          runs = tt;
        },
        ap (λ (z : List EntryEvent). x ∷ z) (append-nil l.ch),
        (subst (Started l.fns) e v.started_by, tt),
      )
deliver_at l not_started e v =
    rw (e, deliver) (v, append-nil l.ch ∙ ap (λ (d : Dispatcher). in_hand d ++ l.ch) (sym e), tt)
deliver_at l waiting e v =
    rw (e, deliver) (v, append-nil l.ch ∙ ap (λ (d : Dispatcher). in_hand d ++ l.ch) (sym e), tt)
deliver_at l returned e v =
    rw (e, deliver) (v, append-nil l.ch ∙ ap (λ (d : Dispatcher). in_hand d ++ l.ch) (sym e), tt)

pub turn-Accounted : (l : Listeners) (t : Turn) → IsValid l → Accounted l (turn l t)
unfolding turn
turn-Accounted l (arms fn) v = let k = arm-Kept l fn v in quiet l (arm l fn) k.0 k.1
turn-Accounted l publishes v = let k = publish-Kept l v in quiet l (publish l) k.0 k.1
turn-Accounted l (reads_gate e) v = let k = read_gate-Kept l e v in quiet l (read_gate l e) k.0 k.1
turn-Accounted l sends v = send_event_at l l.emitting refl v
turn-Accounted l (takes stop) v =
    let k = take_event_at l stop l.dispatcher refl v in quiet l (take_event l stop) k.0 k.1
turn-Accounted l delivers v = deliver_at l l.dispatcher refl v
turn-Accounted l closes v = let k = close-Kept l v in quiet l (close l) k.0 k.1

pub run-Accounted : (l : Listeners) (ts : List Turn) → IsValid l → Accounted l (run l ts)
unfolding run
run-Accounted l [] v = quiet l l v refl
run-Accounted l (t ∷ ts) v =
    let (v', now, heard) = turn-Accounted l t v in
    let (v'', later, more) = run-Accounted (turn l t).0 ts v' in
    let seen = (turn l t).1 in
    let rest = (run (turn l t).0 ts).1 in
    let last = (run (turn l t).0 ts).0 in
    (
      v'',
      ap (λ (z : List EntryEvent). backlog l ++ z) (accepted_of-append seen rest)
          ∙ sym (append_assoc (backlog l) (accepted_of seen) (accepted_of rest))
          ∙ ap (λ (z : List EntryEvent). z ++ accepted_of rest) now
          ∙ append_assoc (delivered_of seen) (backlog (turn l t).0) (accepted_of rest)
          ∙ ap (λ (z : List EntryEvent). delivered_of seen ++ z) later
          ∙ sym (append_assoc (delivered_of seen) (delivered_of rest) (backlog last))
          ∙ ap (λ (z : List EntryEvent). z ++ backlog last) (sym (delivered_of-append seen rest)),
      Heard-append seen rest heard more,
    )

-- In whatever order adds, emits, the dispatcher and the close take their turns, the listeners have been
-- called with the accepted events in the order of their acceptance, each event once and with at least
-- one listener; the accepted events not delivered yet are the one in the dispatcher's hand and the
-- queue, which never holds more than 1024.
pub run_delivery :
    (ts : List Turn)
    → (accepted_of (run new_listeners ts).1
        ≡ delivered_of (run new_listeners ts).1 ++ backlog (run new_listeners ts).0)
      × Heard (run new_listeners ts).1
      × (length (run new_listeners ts).0.ch ≤ listener_queue)
unfolding in_hand
run_delivery ts =
    let (v, e, h) = run-Accounted new_listeners ts new_listeners-IsValid in (e, h, v.bounded)
