-- ===== src/Http/Owner.antt =====
-- httpapi/httpapi.go: a value that is put on the owner of its key is what the owner returns.
use medusa.Base.{
  ℕ, ◌≡◌, ◌≤◌, ◌≢◌, ◌⊎◌, refl, ap, ◌∙◌, List, [], ◌∷◌, Bytes, bytes_of, true, false, Option, none,
  some, ◌==◌, ==_iff, same, same_self, length, arith,
}
use medusa.Metrics.{Counters}
use medusa.Partition.{for_key}
use medusa.Store
use medusa.Shard.{expired}
use medusa.Reads.{get-put}
use medusa.Queue.{is_reserved_map, routed_partition}
use medusa.Wal.{Codec, Disk}
use medusa.Partition.Table.{num_backups}
use medusa.Service.{Node, ServiceError, expire_from_ttl}
use medusa.Service.Requests.{apply_put}
use medusa.Service.Queries.{owns, get_through}
use medusa.Service.Placed.{apply_put-Placed, Placed-owns}
use medusa.Service.Expiry.{apply_put-store}
use medusa.Service.Handle.{Message, Reply}
use medusa.Client.{World, ClientError, of_service, put_with_ttl}
use medusa.Client.Gather.{client_get, get_from}
use medusa.Http.{
  max_body_bytes, Request, Response, match_route, route, key_put, key_get, write_octets,
}
use medusa.Http.Serve.{serve_mux, handle_route, put_value, get_response, is_too_large}

-- The path of a key
abbrev pub key_path : Bytes → Bytes → List Bytes
key_path name key = bytes_of "v1" ∷ bytes_of "maps" ∷ name ∷ key ∷ []

match_route-put :
    (name key : Bytes)
    → (length name == 0) ≡ false
    → (length key == 0) ≡ false
    → match_route (bytes_of "PUT") (key_path name key) ≡ route (key_put name key)
unfolding match_route same
match_route-put name key a b = rw a (rw b refl)

match_route-get :
    (name key : Bytes)
    → (length name == 0) ≡ false
    → (length key == 0) ≡ false
    → match_route (bytes_of "GET") (key_path name key) ≡ route (key_get name key)
unfolding match_route same
match_route-get name key a b = rw a (rw b refl)

ordinary_place :
    (name key : Bytes) → is_reserved_map name ≡ false → routed_partition name key ≡ for_key key
unfolding is_reserved_map routed_partition
ordinary_place name key h = ground (arith)

-- What the store returns after a put without a lifetime
stored_read :
    (c : Codec) (n : Node) (name key contents : Bytes) (now later : ℕ) (disk : ℕ → Disk)
    → Store.get
        (apply_put c n name key contents 0 false now disk).2.store
        (routed_partition name key)
        name
        key
        later
      ≡ some contents
unfolding expire_from_ttl expired
stored_read c n name key contents now later disk =
    ap (λ (s : Store.Store). Store.get s (routed_partition name key) name key later)
      (apply_put-store c n name key contents 0 false now disk)
    ∙ get-put n.store (routed_partition name key) name key contents (expire_from_ttl 0 now) now
        (routed_partition name key) name key later
    ∙ ground (
      arith,
      ==_iff (routed_partition name key) (routed_partition name key),
      same_self name,
      same_self key,
    )

module _ {Net : Type 0} (send : Net → Bytes → Message → Option Reply × Net) (c : Codec)
    (disk : ℕ → Disk) where
  -- A put on the owner
  put_on_owner :
      (n : Node) (net : Net) (effects : List medusa.Service.Effect) (name key contents : Bytes)
      (now sent_at : ℕ)
      → is_reserved_map name ≡ false
      → owns n (for_key key) ≡ true
      → (put_with_ttl send c now sent_at disk name key contents 0 (n, net, effects)).1.0
        ≡ (apply_put c n name key contents 0 false now disk).2
  unfolding put_with_ttl
  put_on_owner n net effects name key contents now sent_at h o =
      rw (h, put_with_ttl) (rw (o, put_with_ttl) refl)

  -- What `Get` on the owner makes of `getThrough`
  abbrev after_get_through :
      Bytes
      → Bytes
      → ℕ
      → Net
      → List medusa.Service.Effect
      → Option Bytes × Option ServiceError × Node
      → (Option Bytes × Option ClientError) × World send
  after_get_through name key now net effects r = elim r.1 [
    | some e ↦ ((none, some (of_service e)), (r.2, net, effects))
    | none ↦ elim r.0 [
      | some v ↦ ((some v, none), (r.2, net, effects))
      | none ↦
          get_from send name key now (for_key key) 0 (num_backups r.2.table (for_key key)) none
            (r.2, net, effects)
    ]
  ]

  -- A get on the owner, of a key that it has
  get_on_owner :
      (n : Node) (net : Net) (effects : List medusa.Service.Effect) (name key v : Bytes) (now : ℕ)
      → owns n (for_key key) ≡ true
      → get_through n name key now ≡ (some v, none, n)
      → (client_get send name key now (n, net, effects)).0 ≡ (some v, none)
  unfolding client_get
  get_on_owner n net effects name key v now o e =
      rw (o, client_get) (ap (λ r. (after_get_through name key now net effects r).0) e)

get_through_found :
    (n : Node) (name key v : Bytes) (now : ℕ)
    → Store.get n.store (routed_partition name key) name key now ≡ some v
    → get_through n name key now ≡ (some v, none, n)
unfolding get_through
get_through_found n name key v now e = rw (e, get_through) refl

module _ {Net : Type 0} (send : Net → Bytes → Message → Option Reply × Net) (c : Codec)
    (disk : ℕ → Disk) (peers : List (Bytes × Bytes)) (counters : Counters) (backups : ℕ)
    (quote : Bytes → Bytes) (parse_duration : Bytes → ℕ ⊎ Bytes) where
  -- What the mux serves at a time
  abbrev pub at_time : ℕ → Request → World send → Response × World send
  at_time now = serve_mux send c now now disk peers counters backups quote parse_duration

  serve-put :
      (r : Request) (w : World send) (name key : Bytes) (now : ℕ)
      → match_route r.method r.segments ≡ route (key_put name key)
      → is_reserved_map name ≡ false
      → length r.body ≤ max_body_bytes
      → (length (r.query (bytes_of "ttl")) == 0) ≡ true
      → (at_time now r w).1 ≡ (put_with_ttl send c now now disk name key r.body 0 w).1
  unfolding serve_mux handle_route put_value
  serve-put r w name key now e h fits forever =
      let small : is_too_large r ≡ false = ground arith in
      rw (e, serve_mux) (rw (h, serve_mux) (rw (small, put_value) (rw (forever, put_value) refl)))

  serve-get :
      (r : Request) (w : World send) (name key : Bytes) (now : ℕ)
      → match_route r.method r.segments ≡ route (key_get name key)
      → is_reserved_map name ≡ false
      → (at_time now r w).0
        ≡ get_response (client_get send name key now w).0.0 (client_get send name key now w).0.1
  unfolding serve_mux handle_route
  serve-get r w name key now e h = rw (e, serve_mux) (rw (h, serve_mux) refl)

  -- A node that owns a key of a map that is not reserved answers a GET of it, at any later time and with
  -- whatever disk and peers, by 200 and the body of the PUT of no TTL that it served before.
  pub serve_get-serve_put :
      (put get : Request) (w : World send) (name key : Bytes) (now later : ℕ)
      → put.method ≡ bytes_of "PUT"
      → get.method ≡ bytes_of "GET"
      → put.segments ≡ key_path name key
      → get.segments ≡ key_path name key
      → length name ≢ 0
      → length key ≢ 0
      → length put.body ≤ max_body_bytes
      → length (put.query (bytes_of "ttl")) ≡ 0
      → is_reserved_map name ≡ false
      → owns w.0 (for_key key) ≡ true
      → (at_time later get (at_time now put w).1).0 ≡ write_octets put.body
  serve_get-serve_put put get (n, net, effects) name key now later pm gm pp gp named keyed fits ttl
        ordinary own =
      let a : (length name == 0) ≡ false = ground arith in
      let b : (length key == 0) ≡ false = ground arith in
      let no_ttl : (length (put.query (bytes_of "ttl")) == 0) ≡ true = ground arith in
      let put_route : match_route put.method put.segments ≡ route (key_put name key) =
        rw pm (rw pp (match_route-put name key a b)) in
      let get_route : match_route get.method get.segments ≡ route (key_get name key) =
        rw gm (rw gp (match_route-get name key a b)) in
      let w' = (put_with_ttl send c now now disk name key put.body 0 (n, net, effects)).1 in
      let stored : w'.0 ≡ (apply_put c n name key put.body 0 false now disk).2 =
        put_on_owner send c disk n net effects name key put.body now now ordinary own in
      let placed = apply_put-Placed c n name key put.body 0 false now disk in
      let own' : owns w'.0 (for_key key) ≡ true =
        ap (λ (m : Node). owns m (for_key key)) stored
        ∙ Placed-owns n _ (for_key key) placed
        ∙ own in
      let found : Store.get w'.0.store (routed_partition name key) name key later ≡ some put.body =
        ap (λ (m : Node). Store.get m.store (routed_partition name key) name key later) stored
        ∙ stored_read c n name key put.body now later disk in
      let got =
        get_on_owner send c disk w'.0 w'.1 w'.2 name key put.body later own'
          (get_through_found w'.0 name key put.body later found) in
      ap (λ (z : World send). (at_time later get z).0)
        (serve-put put (n, net, effects) name key now put_route ordinary fits no_ttl)
      ∙ serve-get get w' name key later get_route ordinary
      ∙ ap (λ (z : Option Bytes × Option ClientError). get_response z.0 z.1) got
