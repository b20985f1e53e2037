-- ===== src/NodeTests.antt =====
-- Runs of a node, its listeners, its transports and its HTTP interface on concrete inputs.
use medusa.Base.{
  ℕ, ◌+◌, ◌≡◌, ◌≤◌, ◌⊎◌, inl, inr, refl, List, [], ◌∷◌, ◌++◌, Bytes, bytes_of, true, false, Option,
  none, some, if◌then◌else◌, same, length, arith,
}
use medusa.GoMap
use medusa.Service
use medusa.Service.{event_created, Effect}
use medusa.Listeners
use medusa.Listeners.{
  EntryEvent, new_listeners, listener_queue, arms, publishes, reads_gate, sends, takes, delivers,
  closes,
}
use medusa.Listeners.Delivery.{accepted_of, delivered_of, backlog, Heard, run_delivery}
use medusa.Listeners.Drain.{dispatches, run_delivers}
use medusa.Metrics.{Counters}
use medusa.Store.{new_store}
use medusa.Wal.{synced, emptied}
use medusa.Wal.Tagged.{tagged}
use medusa.Service.{Node}
use medusa.Service.Handle.{Message, put_request, Reply, put_response}
use medusa.Wire.{Wire}
use medusa.Client.{put_with_ttl}
use medusa.Client.Available.{IsDone, put_with_ttl-IsDone}
use medusa.Transport.{Handler, answered, refused, ErrorCodec, serve_conn}
use medusa.Transport.Agreement.{request_frames, answer_frames, serve_conn-requests}
use medusa.Transport.Pool
use medusa.Transport.Conserved.{IsConserved, run-IsConserved}
use medusa.Http.{Request, write_octets}
use medusa.Http.Serve.{serve}
use medusa.Http.Gate.{IsDenied, reserved-IsDenied}
use medusa.Membership.{Member, new}
use medusa.Membership.Detection.{Detector}
use medusa.Grid.{GridNode}
use medusa.Grid.Round.{Inputs, State, tick}
use medusa.Grid.Joins.{tick_joins}
use medusa.Http.Owner.{key_path, at_time, serve_get-serve_put}

abbrev created : EntryEvent
created = record {
  kind = event_created;
  map_name = bytes_of "users";
  key = bytes_of "ann";
  contents = 7 ∷ [];
}

abbrev updated : EntryEvent
updated = record {
  kind = event_created;
  map_name = bytes_of "users";
  key = bytes_of "ann";
  contents = 8 ∷ [];
}

-- An event that is emitted before the first listener's slice is published
abbrev early : List Listeners.Turn
early =
    arms (some 1)
    ∷ reads_gate created
    ∷ sends
    ∷ publishes
    ∷ takes false
    ∷ reads_gate updated
    ∷ sends
    ∷ []

run_delivery_example :
    (accepted_of (Listeners.run new_listeners (early ++ delivers ∷ closes ∷ [])).1
      ≡ delivered_of (Listeners.run new_listeners (early ++ delivers ∷ closes ∷ [])).1
        ++ backlog (Listeners.run new_listeners (early ++ delivers ∷ closes ∷ [])).0)
    × Heard (Listeners.run new_listeners (early ++ delivers ∷ closes ∷ [])).1
    × (length (Listeners.run new_listeners (early ++ delivers ∷ closes ∷ [])).0.ch ≤ listener_queue)
run_delivery_example = run_delivery (early ++ delivers ∷ closes ∷ [])

run_delivers_example :
    delivered_of (
      (Listeners.run new_listeners early).1
      ++ (Listeners.run
          (Listeners.run new_listeners early).0
          (dispatches (Listeners.run new_listeners early).0)).1)
    ≡ accepted_of (Listeners.run new_listeners early).1
unfolding Listeners.run
run_delivers_example =
    run_delivers early (Listeners.run new_listeners early).0 (Listeners.run new_listeners early).1
      refl refl (λ e. cc)

-- A peer that counts its requests: it echoes a payload, and refuses an empty one.
abbrev echo : Handler ℕ
echo count t [] = (refused (bytes_of "empty"), count + 1)
echo count t (b ∷ payload) = (answered (t + 1) (b ∷ payload), count + 1)

-- An error's code before its message
abbrev plain_codec : ErrorCodec
plain_codec = record {
  marshal = λ code message. code ∷ message;
  unmarshal = λ bytes. elim bytes [ [] ↦ none | code ∷ message ↦ some (code, message) ];
}

serve_conn-requests_example :
    serve_conn plain_codec echo 0 (request_frames ((6, 9 ∷ []) ∷ (8, []) ∷ []))
    ≡ answer_frames plain_codec echo 0 ((6, 9 ∷ []) ∷ (8, []) ∷ [])
serve_conn-requests_example =
    serve_conn-requests plain_codec echo 0 ((6, 9 ∷ []) ∷ (8, []) ∷ [])
      (omega arith, omega arith, (omega arith, omega arith, tt))

-- Two calls to a peer, one of which is still under way when the transport is closed
abbrev calls : List Pool.Turn
calls =
    Pool.enters (bytes_of "h:2")
    ∷ Pool.takes 0 true
    ∷ Pool.enters (bytes_of "h:2")
    ∷ Pool.takes 0 true
    ∷ Pool.finishes 0 true
    ∷ Pool.closes
    ∷ Pool.finishes 0 true
    ∷ []

run-IsConserved_example : IsConserved (Pool.run Pool.new_tcp calls)
run-IsConserved_example = run-IsConserved calls

abbrev request : Bytes → List Bytes → Bytes → Request
request method segments body = record {
  method = method;
  segments = segments;
  query = λ name. [];
  authorization = bytes_of "Bearer s3cre";
  body = body;
}

-- A node that is alone, and owns partition 0 of the key "bf"
abbrev owner : Node
owner = record {
  self = bytes_of "a";
  table = record {
    members = bytes_of "a" ∷ [];
    owners = some 0 ∷ [];
    backups = [];
    backup_count = 1;
  };
  addrs = [];
  store = new_store;
  wal = some (some []);
  loaders = [];
}

abbrev unreachable : Unit {0} → Bytes → Message → Option Reply × Unit {0}
unreachable net addr message = (none, net)

abbrev at_zero : Counters
at_zero = record {
  put_ops = 0;
  get_ops = 0;
  remove_ops = 0;
  execute_ops = 0;
  aggregate_ops = 0;
  swept = 0;
  evicted = 0;
  migrations = 0;
  reconciled = 0;
  pruned = 0;
  evicted_entries = 0;
  events_emitted = 0;
  events_dropped = 0;
}

abbrev queue_wipe : Request
queue_wipe =
    request (bytes_of "DELETE") (bytes_of "v1" ∷ bytes_of "maps" ∷ bytes_of "__queue" ∷ []) []

abbrev no_duration : Bytes → ℕ ⊎ Bytes
no_duration text = inr text

reserved-IsDenied_example :
    ((serve unreachable tagged 10 10
        (λ k. synced)
        []
        at_zero
        1
        (λ s. s)
        no_duration
        []
        queue_wipe
        (owner, tt, [])).1
      ≡ (owner, tt, []))
    × IsDenied
        (serve unreachable tagged 10 10
          (λ k. synced)
          []
          at_zero
          1
          (λ s. s)
          no_duration
          []
          queue_wipe
          (owner, tt, [])).0.status
unfolding medusa.Queue.is_reserved_map same
reserved-IsDenied_example =
    reserved-IsDenied unreachable tagged 10 10 (λ k. synced) [] at_zero 1 (λ s. s) no_duration []
      queue_wipe (owner, tt, []) (bytes_of "__queue") [] refl refl

abbrev key_of_owner : List Bytes
key_of_owner = key_path (bytes_of "users") (bytes_of "bf")

serve_get-serve_put_example :
    (at_time unreachable tagged
      (λ k. synced)
      []
      at_zero
      1
      (λ s. s)
      no_duration
      20
      (request (bytes_of "GET") key_of_owner [])
      (at_time unreachable tagged
        (λ k. synced)
        []
        at_zero
        1
        (λ s. s)
        no_duration
        10
        (request (bytes_of "PUT") key_of_owner (5 ∷ []))
        (owner, tt, [])).1).0
    ≡ write_octets (5 ∷ [])
unfolding medusa.Queue.is_reserved_map same medusa.Service.Queries.owns medusa.Partition.for_key
serve_get-serve_put_example =
    serve_get-serve_put unreachable tagged (λ k. synced) [] at_zero 1 (λ s. s) no_duration
      (request (bytes_of "PUT") key_of_owner (5 ∷ [])) (request (bytes_of "GET") key_of_owner [])
      (owner, tt, []) (bytes_of "users") (bytes_of "bf") 10 20 refl refl refl refl (λ e. cc)
      (λ e. cc) (omega arith) refl refl refl

abbrev here : Member
here = record { id = bytes_of "a"; addr = bytes_of "h:1" }

abbrev peer : Member
peer = record { id = bytes_of "b"; addr = bytes_of "h:2" }

abbrev plain_detector : Detector ℕ
plain_detector = record {
  new_history = 0;
  record_beat = λ now h. h + 1;
  warm = λ h. false;
  phi_high = λ now h. false;
}

-- A node that has just started
abbrev lonely : GridNode ℕ
lonely = record {
  mem = new here 1;
  maps = owner;
  has_dir = false;
  max_entries = 0;
  last_migrated_version = 1;
  last_save_nano = 0;
  checkpoint_due = false;
  reconcile_cursor = 0;
  counters = at_zero;
}

-- A round in which the node's own address and one seed are found, and the seed answers
abbrev bootstrap : Inputs
bootstrap = record {
  discovered = some (bytes_of "h:1" ∷ bytes_of "h:2" ∷ []);
  send_join = λ addr. some (here ∷ peer ∷ []);
  answers = λ id. false;
  answered_at = λ id. 0;
  pruned_at = 0;
  synced_at = 0;
  going = λ p. true;
  migrated_at = λ p. 0;
  migrate_disk = λ p k. synced;
  swept_at = 0;
  evicted_at = 0;
  evict_disk = λ e k. synced;
  due_at = 0;
  snapshot_at = 0;
  write_file = λ entries. none;
  truncation = emptied;
  saved_at = 0;
}

abbrev before_round : State plain_detector unreachable tagged bootstrap
before_round = (lonely, tt, [])

tick_joins_example :
    GoMap.has peer.id (tick plain_detector unreachable tagged bootstrap before_round).0.mem.members
    ≡ true
unfolding same GoMap.has medusa.Membership.sorted_members
tick_joins_example =
    tick_joins plain_detector unreachable tagged bootstrap before_round
      (bytes_of "h:1" ∷ bytes_of "h:2" ∷ []) (bytes_of "h:2") peer.id (here ∷ peer ∷ []) refl refl
      (inr (inl refl)) refl refl (inr (inl refl)) (refl, refl, refl)

-- A member of three, where "b" owns partition 0 and "c" backs it up
abbrev bystander : Node
bystander = record {
  self = bytes_of "a";
  table = record {
    members = bytes_of "a" ∷ bytes_of "b" ∷ bytes_of "c" ∷ [];
    owners = some 1 ∷ [];
    backups = some 2 ∷ [];
    backup_count = 1;
  };
  addrs = (bytes_of "b", bytes_of "h:2") ∷ (bytes_of "c", bytes_of "h:3") ∷ [];
  store = new_store;
  wal = none;
  loaders = [];
}

-- "b" is down, and "c" takes what it is sent.
abbrev only_c : Unit {0} → Bytes → Message → Option Reply × Unit {0}
only_c net addr message =
    (if same addr (bytes_of "h:3") then some (put_response true) else none, net)

put_with_ttl-IsDone_example :
    IsDone
      (put_with_ttl only_c tagged 10 10
        (λ k. synced)
        (bytes_of "users")
        (bytes_of "bf")
        (5 ∷ [])
        0
        (bystander, tt, [])).0
unfolding same medusa.Queue.is_reserved_map medusa.Service.Queries.owns medusa.Partition.for_key
    medusa.Partition.Table.backup_at medusa.Partition.Table.num_backups GoMap.lookup
put_with_ttl-IsDone_example =
    put_with_ttl-IsDone only_c tagged 10 10 (λ k. synced) (bytes_of "users") (bytes_of "bf")
      (5 ∷ []) 0 (bystander, tt, []) 0 (bytes_of "c") (bytes_of "h:3") refl refl (omega arith)
      (refl, refl, refl) (λ net. (true, refl))

-- A marshalling of the puts to one key
abbrev put_wire : Wire
put_wire = record {
  marshal = λ m. elim m [ put_request name key contents ttl is_backup ↦ some contents | _ ↦ none ];
  unmarshal = λ t bytes. some (put_request (bytes_of "users") (bytes_of "bf") bytes 0 true);
  marshal_reply = λ r. elim r [ put_response _ ↦ some [] | _ ↦ none ];
  unmarshal_reply = λ t bytes. some (put_response true);
  quote = λ name. name;
  text_of = λ e. [];
  malformed = [];
}

abbrev put_backup : Message
put_backup = put_request (bytes_of "users") (bytes_of "bf") (9 ∷ []) 0 true
