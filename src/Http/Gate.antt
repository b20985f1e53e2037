-- ===== src/Http/Gate.antt =====
-- httpapi/httpapi.go: who gets past the token, and the maps that HTTP does not reach.
use medusa.Base.{
  ℕ, ◌≡◌, ◌⊎◌, inl, inr, refl, List, [], ◌∷◌, ◌++◌, Bytes, bytes_of, Bool, true, false, not, ◌||◌,
  Option, some, if◌then◌else◌, ltb, ◌==◌, same, length, take, drop, arith, Bool-cases, subst,
}
use medusa.Metrics.{Counters}
use medusa.Queue.{is_reserved_map}
use medusa.Wal.{Codec, Disk}
use medusa.Service.Handle.{Message, Reply}
use medusa.Client.{World}
use medusa.Http.{
  Request, Response, unauthorized, is_probe, bearer, require_token, match_route, map_route, route,
  no_method, no_path, Matched, Route,
}
use medusa.Http.Serve.{serve_mux, serve, is_blocked, map_of}

-- The text after the prefix, if it is there
after_prefix :
    (prefix got token : Bytes)
    → ((ltb (length got) (length prefix) || not (same (take (length prefix) got) prefix))
        || not (same (drop (length prefix) got) token))
      ≡ not (same got (prefix ++ token))
unfolding same
after_prefix [] got token = ground arith
after_prefix (x ∷ prefix) [] token = ground arith
after_prefix (x ∷ prefix) (y ∷ got) token = ground (arith, after_prefix prefix got token)

chosen :
    {A : Type 0} {refused : Bool} (probe good : Bool) (yes_result no_result : A)
    → refused ≡ not good
    → (if probe then yes_result else if refused then no_result else yes_result)
      ≡ (if probe || good then yes_result else no_result)
chosen true good y n e = refl
chosen false true y n e = rw e refl
chosen false false y n e = rw e refl

-- With a token, a request that is no probe is served exactly if its `Authorization` header is "Bearer "
-- and the token; any other one is answered with 401 and reaches no handler.
pub require_token_lem :
    {W : Type 0} (token : Bytes) (h : Request → W → Response × W) (r : Request) (w : W)
    → require_token token h r w ≡ (
        if is_probe r.segments || same r.authorization (bearer ++ token)
        then h r w
        else (unauthorized, w))
unfolding require_token
require_token_lem token h r w =
    chosen (is_probe r.segments) (same r.authorization (bearer ++ token)) (h r w) (unauthorized, w)
      (after_prefix bearer r.authorization token)

-- The routes under a map's name
map_route-name :
    (method name : Bytes) (rest : List Bytes) (m : Route)
    → map_route method name rest ≡ route m
    → map_of m ≡ some name
map_route-name method name [] m e = ground arith
map_route-name method name (key ∷ []) m e = ground arith
map_route-name method name (key ∷ verb ∷ []) m e = ground arith
map_route-name method name (key ∷ verb ∷ more ∷ rest) m e = cc

match_route-name :
    (method name : Bytes) (rest : List Bytes) (m : Route)
    → match_route method (bytes_of "v1" ∷ bytes_of "maps" ∷ name ∷ rest) ≡ route m
    → map_of m ≡ some name
unfolding match_route same
match_route-name method name rest m e = elim (Bool-cases (length name == 0)) [
  | inl empty ↦ let no : no_path ≡ route m = rw empty at e in cc
  | inr some_name ↦ map_route-name method name rest m (rw some_name at e)
]

-- Neither the mux nor a handler let the request pass.
abbrev pub IsDenied : ℕ → Type 0
IsDenied status = (status ≡ 401) ⊎ ((status ≡ 404) ⊎ (status ≡ 405))

abbrev Untouched : {W : Type 0} → W → Response × W → Type 0
Untouched w (response, w') = (w' ≡ w) × IsDenied response.status

gated :
    {W : Type 0} (b : Bool) (w : W) (served : Response × W)
    → Untouched w served
    → Untouched w (if b then served else (unauthorized, w))
gated true w served h = h
gated false w served h = (refl, inl refl)

module _ {Net : Type 0} (send : Net → Bytes → Message → Option Reply × Net) (c : Codec)
    (now sent_at : ℕ) (disk : ℕ → Disk) (peers : List (Bytes × Bytes)) (counters : Counters)
    (backups : ℕ) (quote : Bytes → Bytes) (parse_duration : Bytes → ℕ ⊎ Bytes) where
  abbrev through_mux : Request → World send → Response × World send
  through_mux = serve_mux send c now sent_at disk peers counters backups quote parse_duration

  matched-Untouched :
      (r : Request) (w : World send) (name : Bytes) (m : Matched)
      → match_route r.method r.segments ≡ m
      → ((x : Route) → m ≡ route x → map_of x ≡ some name)
      → is_reserved_map name ≡ true
      → Untouched w (through_mux r w)
  unfolding serve_mux
  matched-Untouched r w name no_path e named h = rw (e, serve_mux) (refl, inr (inl refl))
  matched-Untouched r w name no_method e named h = rw (e, serve_mux) (refl, inr (inr refl))
  matched-Untouched r w name (route x) e named h =
      rw (e, serve_mux) (rw (named x refl, is_blocked) (rw h (refl, inr (inl refl))))

  -- No request on a path below `/v1/maps/` and the name of a reserved map, whatever its method, query,
  -- body and token, changes anything at this node or at a peer or sends anything: it is answered with
  -- 401, 404 or 405.
  pub reserved-IsDenied :
      (token : Bytes) (r : Request) (w : World send) (name : Bytes) (rest : List Bytes)
      → r.segments ≡ bytes_of "v1" ∷ bytes_of "maps" ∷ name ∷ rest
      → is_reserved_map name ≡ true
      → ((serve send c now sent_at disk peers counters backups quote parse_duration token r w).1
          ≡ w)
        × IsDenied
            (serve send c now sent_at disk peers counters backups quote parse_duration token r
              w).0.status
  unfolding serve
  reserved-IsDenied token r w name rest path h =
      let named : (x : Route) → match_route r.method r.segments ≡ route x → map_of x ≡ some name =
        λ x e.
          match_route-name r.method name rest x
            (subst (λ (z : List Bytes). match_route r.method z ≡ route x) path e) in
      let shut = matched-Untouched r w name (match_route r.method r.segments) refl named h in
      elim (Bool-cases (length token == 0)) [
        | inl e ↦ rw (e, serve) shut
        | inr e ↦
            rw (e, serve)
              (rw (require_token_lem token through_mux r w) (
                gated (is_probe r.segments || same r.authorization (bearer ++ token)) w
                  (through_mux r w) shut))
      ]
