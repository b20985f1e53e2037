-- ===== src/Listeners.antt =====
-- imap/listener.go: the registry of entry listeners and its dispatcher. A turn is what one goroutine
-- does between two accesses to what they share: the gate `active`, the slice of listeners, the channel.
-- A listener is known by a number, and a nil slice is an empty one.
pub mod Delivery
pub mod Drain
use medusa.Base.{
  ℕ, zero, suc, ◌+◌, ◌%◌, ◌^◌, List, [], ◌∷◌, ◌++◌, map, Bytes, Bool, true, false, Option, none,
  some, if◌then◌else◌, ltb, length, String,
}
use medusa.Service.{EventType, event_created, event_updated, event_removed}

-- `EventType.String`; its default case is for numbers that no constant names.
unfoldable pub event_name : EventType → String
event_name event_created = "created"
event_name event_updated = "updated"
event_name event_removed = "removed"

-- `EntryEvent`
pub record EntryEvent : Type 0 where
  pub kind : EventType
  pub map_name : Bytes
  pub key : Bytes
  pub contents : Bytes

-- Where the goroutine of `dispatch` is: it waits at its select, it has received an event, or it returned.
pub data Dispatcher : Type 0 where
  not_started : Dispatcher
  waiting : Dispatcher
  received : EntryEvent → Dispatcher
  returned : Dispatcher

-- `listeners`, with the two counters of the package metrics. An `add` that holds the lock has its
-- listener in `adding`; an `emit` that has read the gate open has its event in `emitting`.
pub record Listeners : Type 0 where
  pub active : Bool
  pub fns : List ℕ
  pub ch : List EntryEvent
  pub closed : Bool
  pub adding : Option ℕ
  pub emitting : List EntryEvent
  pub dispatcher : Dispatcher
  pub emitted : ℕ
  pub dropped : ℕ

-- `listenerQueue`
abbrev pub listener_queue : ℕ
listener_queue = 1024

-- `newListeners`
abbrev pub new_listeners : Listeners
new_listeners = record {
  active = false;
  fns = [];
  ch = [];
  closed = false;
  adding = none;
  emitting = [];
  dispatcher = not_started;
  emitted = 0;
  dropped = 0;
}

-- What a turn lets others see: an event that was accepted or dropped, and the calls of the listeners.
pub data Trace : Type 0 where
  accepted : EntryEvent → Trace
  refused : EntryEvent → Trace
  called : List ℕ → EntryEvent → Trace

pub data Turn : Type 0 where
  arms : Option ℕ → Turn
  publishes : Turn
  reads_gate : EntryEvent → Turn
  sends : Turn
  takes : Bool → Turn
  delivers : Turn
  closes : Turn

-- `add` up to `active.Store(true)`, with no listener for nil; it waits while another `add` holds the
-- lock.
unfoldable pub arm : Listeners → Option ℕ → Listeners
arm l none = l
arm l (some fn) = elim l.adding [
  | some other ↦ l
  | none ↦ if l.closed then l else record l { active = true; adding = some fn }
]

-- `go l.dispatch()` for the first listener
abbrev pub started : List ℕ → Dispatcher → Dispatcher
started [] d = waiting
started (f ∷ fs) d = d

-- The rest of `add`
unfoldable pub publish : Listeners → Listeners
publish l = elim l.adding [
  | none ↦ l
  | some fn ↦ record l {
    fns = l.fns ++ fn ∷ [];
    adding = none;
    dispatcher = started l.fns l.dispatcher;
  }
]

-- `emit` up to the test of the gate, on the event that it would enqueue
unfoldable pub read_gate : Listeners → EntryEvent → Listeners
read_gate l e = if l.active then record l { emitting = l.emitting ++ e ∷ [] } else l

-- The select of `emit`
unfoldable pub send_event : Listeners → Listeners × List Trace
send_event l = elim l.emitting [
  | [] ↦ (l, [])
  | e ∷ rest ↦
      if ltb (length l.ch) listener_queue
      then (
        record l { ch = l.ch ++ e ∷ []; emitting = rest; emitted = (l.emitted + 1) % 2 ^ 64 },
        accepted e ∷ [],
      )
      else (record l { emitting = rest; dropped = (l.dropped + 1) % 2 ^ 64 }, refused e ∷ [])
]

-- The select of `dispatch`: where both of its channels are ready it picks either, here by `stop`.
abbrev pub selected : Bool → Bool → List EntryEvent → Dispatcher × List EntryEvent
selected closed stop [] = (if closed then returned else waiting, [])
selected closed stop (e ∷ rest) = elim closed [
  | false ↦ (received e, rest)
  | true ↦ if stop then (returned, e ∷ rest) else (received e, rest)
]

unfoldable pub take_event : Listeners → Bool → Listeners
take_event l stop = elim l.dispatcher [
  | waiting ↦ let (d, rest) = selected l.closed stop l.ch in record l { dispatcher = d; ch = rest }
  | _ ↦ l
]

-- `for _, fn := range fns { fn(ev) }`, on the slice as it is then
unfoldable pub deliver : Listeners → Listeners × List Trace
deliver l = elim l.dispatcher [
  | received e ↦ (record l { dispatcher = waiting }, called l.fns e ∷ [])
  | _ ↦ (l, [])
]

-- `close`; it waits while an `add` holds the lock.
unfoldable pub close : Listeners → Listeners
close l = elim l.adding [
  | some other ↦ l
  | none ↦ if l.closed then l else record l { closed = true; active = false }
]

unfoldable pub turn : Listeners → Turn → Listeners × List Trace
unfolding arm publish read_gate send_event take_event deliver close
turn l (arms fn) = (arm l fn, [])
turn l publishes = (publish l, [])
turn l (reads_gate e) = (read_gate l e, [])
turn l sends = send_event l
turn l (takes stop) = (take_event l stop, [])
turn l delivers = deliver l
turn l closes = (close l, [])

unfoldable pub run : Listeners → List Turn → Listeners × List Trace
unfolding turn
run l [] = (l, [])
run l (t ∷ ts) = let (l', seen) = turn l t in let (l'', more) = run l' ts in (l'', seen ++ more)
