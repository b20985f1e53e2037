-- ===== src/Http/Serve.antt =====
-- httpapi/httpapi.go: the handler of each route, on this node, its peers and the effects so far.
use medusa.Base.{
  ◌⊎◌, inl, inr, ℕ, List, [], ◌∷◌, ◌++◌, Bytes, bytes_of, Bool, true, false, Option, none, some,
  if◌then◌else◌, ltb, ◌==◌, length, concat,
}
use medusa.Decimal.{format_int, format_uint}
use medusa.Metrics.{Counters, write_prom}
use medusa.Queue.{is_reserved_map}
use medusa.Wal.{Codec, Disk}
use medusa.Service.{unknown_aggregator, quotient}
use medusa.Service.Queries.{local_entry_count}
use medusa.Service.Handle.{Message, Reply}
use medusa.Client.{
  ClientError, of_service, Tried, done, failed_with, World, put_with_ttl, client_execute,
  client_remove, client_evict,
}
use medusa.Client.Gather.{client_get, client_size, client_aggregate, client_clear}
use medusa.Client.Queues.{client_offer, client_poll, client_peek, client_queue_size}
use medusa.Http.{
  max_body_bytes, Request, Response, Route, healthz, readyz, metrics, stats, members, map_size,
  map_clear, key_get, key_put, key_execute, key_evict, key_remove, queue_offer, queue_poll,
  queue_peek, queue_size, route, no_method, no_path, match_route, write_text, write_error,
  write_partial, write_octets, no_content, json, render_aggregate, require_token,
}

-- The text of a `bool`
abbrev pub format_bool : Bool → Bytes
format_bool true = bytes_of "true"
format_bool false = bytes_of "false"

abbrev pub not_found : Response
not_found = write_text 404 (bytes_of "not found")

-- A size, or the count over the members that were reached
abbrev pub size_response : ℕ → Option ClientError → Response
size_response n none = write_text 200 (format_uint n)
size_response n (some e) = write_partial (bytes_of "X-Medusa-Partial-Count") (format_uint n) e

-- An aggregation, or the result over the members that were reached
abbrev pub aggregate_response : Bytes → Option ClientError → Response
aggregate_response res none = write_text 200 (render_aggregate res)
aggregate_response res (some (of_service (unknown_aggregator name))) =
    write_error 400 (of_service (unknown_aggregator name))
aggregate_response res (some e) =
    write_partial (bytes_of "X-Medusa-Partial-Result") (render_aggregate res) e

abbrev pub get_response : Option Bytes → Option ClientError → Response
get_response v (some e) = write_error 502 e
get_response none none = not_found
get_response (some v) none = write_octets v

abbrev pub put_response : Tried Bool → Response
put_response (failed_with e) = write_error 502 e
put_response (done created) = no_content

abbrev pub execute_response : Tried Bytes → Response
execute_response (failed_with e) = write_error 502 e
execute_response (done out) = write_octets out

abbrev pub evict_response : Tried Bool → Response
evict_response (failed_with e) = write_error 502 e
evict_response (done existed) = write_text 200 (format_bool existed)

abbrev pub remove_response : Tried Bool → Response
remove_response (failed_with e) = write_error 502 e
remove_response (done true) = no_content
remove_response (done false) = not_found

abbrev pub clear_response : Option ClientError → Response
clear_response (some e) = write_error 502 e
clear_response none = no_content

abbrev pub count_response : Tried ℕ → Response
count_response (failed_with e) = write_error 502 e
count_response (done n) = write_text 200 (format_int n)

abbrev pub item_response : Tried (Option Bytes) → Response
item_response (failed_with e) = write_error 502 e
item_response (done none) = no_content
item_response (done (some v)) = write_octets v

-- `http.MaxBytesReader`: a longer body is an error.
abbrev pub too_large : Response
too_large = write_text 400 (bytes_of "http: request body too large")

abbrev pub is_too_large : Request → Bool
is_too_large r = ltb max_body_bytes (length r.body)

module _ (quote : Bytes → Bytes) where
  -- The array of `member`, from the second on
  unfoldable pub members_from : List (Bytes × Bytes) → Bytes
  members_from [] = []
  members_from ((id, addr) ∷ rest) = concat (
      bytes_of ",{\"id\":"
      ∷ quote id
      ∷ bytes_of ",\"addr\":"
      ∷ quote addr
      ∷ bytes_of "}"
      ∷ members_from rest
      ∷ [])

  -- The JSON of the members; the encoder ends it with a newline.
  unfoldable pub members_json : List (Bytes × Bytes) → Bytes
  unfolding members_from
  members_json [] = bytes_of "[]" ++ 10 ∷ []
  members_json ((id, addr) ∷ rest) = concat (
      bytes_of "[{\"id\":"
      ∷ quote id
      ∷ bytes_of ",\"addr\":"
      ∷ quote addr
      ∷ bytes_of "}"
      ∷ members_from rest
      ∷ bytes_of "]"
      ∷ (10 ∷ [])
      ∷ [])

-- The JSON of `stats`
unfoldable pub stats_json : ℕ → ℕ → ℕ → Bytes
unfolding format_int
stats_json count entries backups = concat (
    bytes_of "{\"members\":"
    ∷ format_int count
    ∷ bytes_of ",\"localEntries\":"
    ∷ format_int entries
    ∷ bytes_of ",\"backups\":"
    ∷ format_int backups
    ∷ bytes_of "}"
    ∷ (10 ∷ [])
    ∷ [])

-- The names under which a route stands in the map API
abbrev pub map_of : Route → Option Bytes
map_of (map_size name) = some name
map_of (map_clear name) = some name
map_of (key_get name key) = some name
map_of (key_put name key) = some name
map_of (key_execute name key) = some name
map_of (key_evict name key) = some name
map_of (key_remove name key) = some name
map_of other = none

-- `reservedMapBlocked`
abbrev pub is_blocked : Option Bytes → Bool
is_blocked none = false
is_blocked (some name) = is_reserved_map name

module _ {Net : Type 0} (send : Net → Bytes → Message → Option Reply × Net) (c : Codec)
    (now sent_at : ℕ) (disk : ℕ → Disk) (peers : List (Bytes × Bytes)) (counters : Counters)
    (backups : ℕ) (quote : Bytes → Bytes) (parse_duration : Bytes → ℕ ⊎ Bytes) where
  -- The PUT of a value, with the query's TTL
  unfoldable pub put_value : Bytes → Bytes → Request → World send → Response × World send
  unfolding put_with_ttl
  put_value name key r w =
      let ttl_str = r.query (bytes_of "ttl") in
      let put_for : ℕ → Response × World send = λ ttl.
        let (t, w') = put_with_ttl send c now sent_at disk name key r.body ttl w in
        (put_response t, w') in
      if is_too_large r
      then (too_large, w)
      else if length ttl_str == 0
      then put_for 0
      else elim (parse_duration ttl_str) [
        | inl ns ↦ put_for (quotient ns 1000000)
        | inr why ↦ (write_text 400 (bytes_of "invalid ttl: " ++ why), w)
      ]

  unfoldable pub execute_on : Bytes → Bytes → Request → World send → Response × World send
  unfolding client_execute
  execute_on name key r w =
      let proc = r.query (bytes_of "proc") in
      let (t, w') = client_execute send c now sent_at disk name key proc r.body w in
      if length proc == 0
      then (write_text 400 (bytes_of "missing ?proc="), w)
      else if is_too_large r
      then (too_large, w)
      else (execute_response t, w')

  -- The size of a map, or an aggregation over it
  unfoldable pub measure_map : Bytes → Request → World send → Response × World send
  unfolding client_size client_aggregate render_aggregate format_uint
  measure_map name r (n, net, effects) =
      let agg = r.query (bytes_of "agg") in
      let (res, failed, net') = client_aggregate send name agg now peers (n, net) in
      let (count, unreached, net'') = client_size send name now peers (n, net) in
      if length agg == 0
      then (size_response count unreached, (n, net'', effects))
      else (aggregate_response res failed, (n, net', effects))

  unfoldable pub offer_item : Bytes → Request → World send → Response × World send
  unfolding client_offer format_int
  offer_item queue r w =
      let (t, w') = client_offer send c now sent_at disk queue r.body w in
      if is_too_large r then (too_large, w) else (count_response t, w')

  -- The handler of a route, past `reservedMapBlocked`
  unfoldable pub handle_route : Route → Request → World send → Response × World send
  unfolding put_value execute_on measure_map offer_item client_get client_remove client_evict
      client_clear client_poll client_peek client_queue_size write_prom members_json stats_json
      format_int
  handle_route healthz r w = (write_text 200 (bytes_of "ok"), w)
  handle_route readyz r w = (
    if length peers == 0
        then write_text 503 (bytes_of "no members")
        else write_text 200 (bytes_of "ready"),
    w,
  )
  handle_route metrics r w = (
    record {
      status = 200;
      headers = (bytes_of "Content-Type", bytes_of "text/plain; version=0.0.4; charset=utf-8") ∷ [];
      body = medusa.Http.octets (
          write_prom counters
            (record { members = length peers; local_entries = local_entry_count w.0 now }));
    },
    w,
  )
  handle_route stats r w = (json (stats_json (length peers) (local_entry_count w.0 now) backups), w)
  handle_route members r w = (json (members_json quote peers), w)
  handle_route (map_size name) r w = measure_map name r w
  handle_route (map_clear name) r (n, net, effects) =
      let (failed, n', net') = client_clear send c name disk peers (n, net) in
      (clear_response failed, (n', net', effects))
  handle_route (key_get name key) r w =
      let ((v, failed), w') = client_get send name key now w in (get_response v failed, w')
  handle_route (key_put name key) r w = put_value name key r w
  handle_route (key_execute name key) r w = execute_on name key r w
  handle_route (key_evict name key) r w =
      let (t, w') = client_evict send c now sent_at disk name key w in (evict_response t, w')
  handle_route (key_remove name key) r w =
      let (t, w') = client_remove send c now sent_at disk name key w in (remove_response t, w')
  handle_route (queue_offer queue) r w = offer_item queue r w
  handle_route (queue_poll queue) r w =
      let (t, w') = client_poll send c now sent_at disk queue w in (item_response t, w')
  handle_route (queue_peek queue) r w =
      let (t, w') = client_peek send c now sent_at disk queue w in (item_response t, w')
  handle_route (queue_size queue) r w =
      let (t, w') = client_queue_size send c now sent_at disk queue w in (count_response t, w')

  -- The handler that `New` builds on the mux, whose own two answers have further headers
  unfoldable pub serve_mux : Request → World send → Response × World send
  unfolding match_route handle_route is_reserved_map
  serve_mux r w = elim (match_route r.method r.segments) [
    | no_path ↦ (write_text 404 (bytes_of "404 page not found" ++ 10 ∷ []), w)
    | no_method ↦ (write_text 405 (bytes_of "Method Not Allowed" ++ 10 ∷ []), w)
    | route m ↦ if is_blocked (map_of m) then (not_found, w) else handle_route m r w
  ]

  -- `New`, with the token of `WithToken`; an empty one checks nothing.
  unfoldable pub serve : Bytes → Request → World send → Response × World send
  unfolding serve_mux require_token
  serve token r w = if length token == 0 then serve_mux r w else require_token token serve_mux r w
