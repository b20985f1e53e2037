-- ===== src/Http.antt =====
-- httpapi/httpapi.go: the routes of the HTTP interface, their handlers, and the check of the token.
-- A request has a clean path, whose decoded segments are given; `parse_duration` and `quote` stand for
-- time.ParseDuration (nanoseconds, or the text of its error) and for JSON's text of a string.
pub mod Serve
pub mod Gate
pub mod Owner
use medusa.Base.{
  ℕ, suc, ◌+◌, ◌*◌, ◌^◌, List, [], ◌∷◌, ◌++◌, Bytes, bytes_of, Bool, true, false, not, ◌&&◌, ◌||◌,
  Option, none, some, if◌then◌else◌, ltb, leb, ◌==◌, same, length, take, drop,
}
use medusa.Bytes.{uint64}
use medusa.Decimal.{format_int}
use medusa.Client.{ClientError}

-- `maxBodyBytes`
abbrev pub max_body_bytes : ℕ
max_body_bytes = 16 * 2 ^ 20

-- What a handler reads of a request. `query` is `r.URL.Query().Get`.
pub record Request : Type 0 where
  pub method : Bytes
  pub segments : List Bytes
  pub query : Bytes → Bytes
  pub authorization : Bytes
  pub body : Bytes

-- A body that was written as it is, or the text of an error
pub data Body : Type 0 where
  octets : Bytes → Body
  error_text : ClientError → Body

pub record Response : Type 0 where
  pub status : ℕ
  pub headers : List (Bytes × Bytes)
  pub body : Body

-- The patterns that `New` registers, with their path values
pub data Route : Type 0 where
  healthz readyz metrics stats members : Route
  map_size map_clear : Bytes → Route
  key_get key_put key_execute key_evict key_remove : Bytes → Bytes → Route
  queue_offer queue_poll queue_peek queue_size : Bytes → Route

-- What `http.ServeMux` finds for a request, as its documentation says
pub data Matched : Type 0 where
  route : Route → Matched
  no_method : Matched
  no_path : Matched

-- A pattern with GET matches HEAD too.
abbrev pub is_get : Bytes → Bool
is_get method = same method (bytes_of "GET") || same method (bytes_of "HEAD")

abbrev pub only_on : Bool → Route → Matched
only_on right r = if right then route r else no_method

-- A wildcard matches a segment that is not empty.
abbrev pub filled : Bytes → Matched → Matched
filled value m = if length value == 0 then no_path else m

abbrev pub probe_route : Bytes → Bytes → Matched
probe_route method a =
    if same a (bytes_of "healthz")
    then only_on (is_get method) healthz
    else if same a (bytes_of "readyz")
    then only_on (is_get method) readyz
    else if same a (bytes_of "metrics")
    then only_on (is_get method) metrics
    else if same a (bytes_of "stats")
    then only_on (is_get method) stats
    else if same a (bytes_of "members")
    then only_on (is_get method) members
    else no_path

-- Below `/v1/maps/{map}`
abbrev pub map_route : Bytes → Bytes → List Bytes → Matched
map_route method name [] =
    if is_get method
    then route (map_size name)
    else only_on (same method (bytes_of "DELETE")) (map_clear name)
map_route method name (key ∷ []) = filled key (
    if is_get method
    then route (key_get name key)
    else if same method (bytes_of "PUT")
    then route (key_put name key)
    else only_on (same method (bytes_of "DELETE")) (key_remove name key))
map_route method name (key ∷ verb ∷ []) = filled key (
    if same verb (bytes_of "execute")
    then only_on (same method (bytes_of "POST")) (key_execute name key)
    else if same verb (bytes_of "evict")
    then only_on (same method (bytes_of "POST")) (key_evict name key)
    else no_path)
map_route method name (key ∷ verb ∷ more ∷ rest) = no_path

-- Below `/v1/queues/{queue}`
abbrev pub queue_route : Bytes → Bytes → List Bytes → Matched
queue_route method queue [] = only_on (is_get method) (queue_size queue)
queue_route method queue (verb ∷ []) =
    if same verb (bytes_of "offer")
    then only_on (same method (bytes_of "POST")) (queue_offer queue)
    else if same verb (bytes_of "poll")
    then only_on (same method (bytes_of "POST")) (queue_poll queue)
    else if same verb (bytes_of "peek")
    then only_on (is_get method) (queue_peek queue)
    else no_path
queue_route method queue (verb ∷ more ∷ rest) = no_path

unfoldable pub match_route : Bytes → List Bytes → Matched
match_route method [] = no_path
match_route method (a ∷ []) = probe_route method a
match_route method (a ∷ b ∷ []) = no_path
match_route method (a ∷ b ∷ value ∷ rest) =
    if same a (bytes_of "v1") && same b (bytes_of "maps")
    then filled value (map_route method value rest)
    else if same a (bytes_of "v1") && same b (bytes_of "queues")
    then filled value (queue_route method value rest)
    else no_path

abbrev plain_text : List (Bytes × Bytes)
plain_text = (bytes_of "Content-Type", bytes_of "text/plain; charset=utf-8") ∷ []

-- `writeText`
abbrev pub write_text : ℕ → Bytes → Response
write_text status msg = record { status = status; headers = plain_text; body = octets msg }

-- `writeText` of `err.Error()`
abbrev pub write_error : ℕ → ClientError → Response
write_error status e = record { status = status; headers = plain_text; body = error_text e }

-- The same after another header was set
abbrev pub write_partial : Bytes → Bytes → ClientError → Response
write_partial header contents e = record {
  status = 502;
  headers = (header, contents) ∷ plain_text;
  body = error_text e;
}

-- A body that is written as bytes
abbrev pub write_octets : Bytes → Response
write_octets contents = record {
  status = 200;
  headers = (bytes_of "Content-Type", bytes_of "application/octet-stream") ∷ [];
  body = octets contents;
}

-- `w.WriteHeader(http.StatusNoContent)`
abbrev pub no_content : Response
no_content = record { status = 204; headers = []; body = octets [] }

abbrev pub json : Bytes → Response
json contents = record {
  status = 200;
  headers = (bytes_of "Content-Type", bytes_of "application/json") ∷ [];
  body = octets contents;
}

-- `renderAggregate`
unfoldable pub render_aggregate : Bytes → Bytes
unfolding format_int uint64
render_aggregate res =
    if length res == 0 then [] else if length res == 8 then format_int (uint64 res) else res

abbrev pub unauthorized : Response
unauthorized = record {
  status = 401;
  headers = (bytes_of "WWW-Authenticate", bytes_of "Bearer") ∷ plain_text;
  body = octets (bytes_of "unauthorized");
}

-- `r.URL.Path == "/healthz" || r.URL.Path == "/readyz"`
abbrev pub is_probe : List Bytes → Bool
is_probe (a ∷ []) = same a (bytes_of "healthz") || same a (bytes_of "readyz")
is_probe [] = false
is_probe (a ∷ b ∷ rest) = false

-- `const prefix`
abbrev pub bearer : Bytes
bearer = bytes_of "Bearer "

-- `requireToken`, around a handler that threads `W`. `subtle.ConstantTimeCompare` says whether two
-- slices are equal.
unfoldable pub require_token :
    {W : Type 0} → Bytes → (Request → W → Response × W) → Request → W → Response × W
require_token token h r w =
    let got = r.authorization in
    if is_probe r.segments
    then h r w
    else if (ltb (length got) (length bearer) || not (same (take (length bearer) got) bearer))
        || not (same (drop (length bearer) got) token)
    then (unauthorized, w)
    else h r w
