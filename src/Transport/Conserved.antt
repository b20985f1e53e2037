-- ===== src/Transport/Conserved.antt =====
-- transport/tcp.go: no connection is lost.
use medusa.Base.{
  ℕ, zero, suc, ◌+◌, ◌≤◌, ◌≡◌, refl, ap, List, [], ◌∷◌, ◌++◌, Bytes, Bool, true, false, Option,
  none, some, if◌then◌else◌, ltb, ◌==◌, length, length-append, arith, ltb→lt, Option-cases, inl,
  inr, subst,
}
use medusa.GoMap
use medusa.GoMap.{GoMap}
use medusa.Transport.Pool.{
  Pool, Turn, enters, takes, finishes, closes, new_tcp, idle_of, pick, enter, take_conn, shut_conn,
  put_conn, finish, all_idle, close, turn, run, max_pool_per_addr,
}

-- How often a connection stands in a list
unfoldable pub count : ℕ → List ℕ → ℕ
count c [] = 0
count c (x ∷ xs) = if x == c then suc (count c xs) else count c xs

abbrev one : ℕ → Bytes × ℕ → ℕ
one c (addr, x) = if x == c then 1 else 0

unfoldable pub count_busy : ℕ → List (Bytes × ℕ) → ℕ
count_busy c [] = 0
count_busy c (q ∷ xs) = one c q + count_busy c xs

-- Each channel is within its capacity.
abbrev pub Bounded : GoMap (List ℕ) → Type 0
Bounded [] = Unit {0}
Bounded ((addr, ch) ∷ conns) = (length ch ≤ max_pool_per_addr) × Bounded conns

count-append : (c : ℕ) (xs ys : List ℕ) → count c (xs ++ ys) ≡ count c xs + count c ys
unfolding count
count-append c [] ys = omega arith
count-append c (x ∷ xs) ys = ground (arith, count-append c xs ys)

count-insert :
    (c : ℕ) (addr : Bytes) (ch : List ℕ) (conns : GoMap (List ℕ))
    → count c (all_idle (GoMap.insert addr ch conns)) + count c (idle_of addr conns)
      ≡ count c (all_idle conns) + count c ch
unfolding all_idle idle_of GoMap.insert GoMap.lookup count
count-insert c addr ch [] = omega (arith, count-append c ch [])
count-insert c addr ch ((a, old) ∷ conns) = ground (
  arith,
  count-append c ch (all_idle conns),
  count-append c old (all_idle conns),
  count-append c old (all_idle (GoMap.insert addr ch conns)),
  count-insert c addr ch conns,
)

Bounded-insert :
    (addr : Bytes) (ch : List ℕ) (conns : GoMap (List ℕ))
    → length ch ≤ max_pool_per_addr
    → Bounded conns
    → Bounded (GoMap.insert addr ch conns)
unfolding GoMap.insert
Bounded-insert addr ch [] h b = (h, tt)
Bounded-insert addr ch ((a, old) ∷ conns) h b = ground (arith, Bounded-insert addr ch conns h b.1)

idle_of-bounded :
    (addr : Bytes) (conns : GoMap (List ℕ))
    → Bounded conns
    → length (idle_of addr conns) ≤ max_pool_per_addr
unfolding idle_of GoMap.lookup
idle_of-bounded addr [] b = omega arith
idle_of-bounded addr ((a, old) ∷ conns) b = ground (arith, idle_of-bounded addr conns b.1)

count_busy-pick :
    (c i : ℕ) (xs : List (Bytes × ℕ)) (q : Bytes × ℕ) (rest : List (Bytes × ℕ))
    → pick i xs ≡ some (q, rest)
    → count_busy c xs ≡ one c q + count_busy c rest
unfolding pick count_busy
count_busy-pick c i [] q rest e = cc
count_busy-pick c zero (y ∷ ys) q rest e =
    let same_pair : (y, ys) ≡ (q, rest) = cc in
    ap (λ (z : (Bytes × ℕ) × List (Bytes × ℕ)). one c z.0 + count_busy c z.1) same_pair
count_busy-pick c (suc i) (y ∷ ys) q rest e = elim (Option-cases (pick i ys)) [
  | inl miss ↦
      let no : ◌≡◌ {A = Option ((Bytes × ℕ) × List (Bytes × ℕ))} none (some (q, rest)) =
        rw (miss, pick) at e in
      cc
  | inr ((q', rest'), hit) ↦
      let found : ◌≡◌ {A = Option ((Bytes × ℕ) × List (Bytes × ℕ))} (some (q', y ∷ rest'))
          (some (q, rest)) =
        rw (hit, pick) at e in
      let first : q' ≡ q = cc in
      let others : y ∷ rest' ≡ rest = cc in
      omega (arith, count_busy-pick c i ys q' rest' hit, ap (one c) first, ap (count_busy c) others)
]

-- Every connection that was dialled stands once in a channel, at a call of `Send` or among those that
-- were closed, and no other does; a closed transport has no channel.
pub record IsConserved (p : Pool) : Type 0 where
  pub each :
      (c : ℕ)
      → count c (all_idle p.conns) + count_busy c p.busy + count c p.shut
        ≡ (if ltb c p.dialled then 1 else 0)
  pub bounded : Bounded p.conns
  pub emptied : p.closed ≡ true → p.conns ≡ []

new_tcp-IsConserved : IsConserved new_tcp
unfolding all_idle count count_busy
new_tcp-IsConserved = record { each = λ c. ground arith; bounded = tt; emptied = λ h. refl }

choose :
    (b : Bool) (p q : Pool)
    → (b ≡ true → IsConserved p)
    → (b ≡ false → IsConserved q)
    → IsConserved (if b then p else q)
choose true p q yes_case no_case = yes_case refl
choose false p q yes_case no_case = no_case refl

enter-IsConserved : (p : Pool) (addr : Bytes) → IsConserved p → IsConserved (enter p addr)
unfolding enter
enter-IsConserved p addr v =
    choose p.closed p _ (λ _. v)
      (λ still_open. record {
        each = λ c. omega (arith, v.each c, count-insert c addr (idle_of addr p.conns) p.conns);
        bounded =
            Bounded-insert addr (idle_of addr p.conns) p.conns
              (idle_of-bounded addr p.conns v.bounded) v.bounded;
        emptied = λ h. cc;
      })

shut_conn-IsConserved :
    (p : Pool) (held : List (Bytes × ℕ)) (addr : Bytes) (x : ℕ)
    → ((c : ℕ) → count_busy c p.busy ≡ one c (addr, x) + count_busy c held)
    → IsConserved p
    → IsConserved (shut_conn p held x)
unfolding count
shut_conn-IsConserved p held addr x split v = record {
  each = λ c. ground (arith, v.each c, split c);
  bounded = v.bounded;
  emptied = v.emptied;
}

pooled-IsConserved :
    (p : Pool) (addr : Bytes) (x : ℕ) (held : List (Bytes × ℕ)) (ch : List ℕ)
    → ((c : ℕ) → count_busy c p.busy ≡ one c (addr, x) + count_busy c held)
    → IsConserved p
    → GoMap.lookup addr p.conns ≡ some ch
    → p.closed ≡ false
    → ltb (length ch) max_pool_per_addr ≡ true
    → IsConserved (record p { conns = GoMap.insert addr (ch ++ x ∷ []) p.conns; busy = held })
unfolding count idle_of
pooled-IsConserved p addr x held ch split v e still_open fits =
    let idle : idle_of addr p.conns ≡ ch = rw (e, idle_of) refl in
    record {
      each = λ c. ground (
        arith,
        v.each c,
        split c,
        count-insert c addr (ch ++ x ∷ []) p.conns,
        count-append c ch (x ∷ []),
        ap (count c) idle,
      );
      bounded =
          Bounded-insert addr (ch ++ x ∷ []) p.conns
            (omega (arith, ltb→lt (length ch) max_pool_per_addr fits, length-append ch (x ∷ [])))
            v.bounded;
      emptied = λ h. cc;
    }

put_conn-IsConserved :
    (p : Pool) (addr : Bytes) (x : ℕ) (held : List (Bytes × ℕ))
    → ((c : ℕ) → count_busy c p.busy ≡ one c (addr, x) + count_busy c held)
    → IsConserved p
    → IsConserved (put_conn p addr x held)
unfolding put_conn
put_conn-IsConserved p addr x held split v =
    let shuts = shut_conn-IsConserved p held addr x split v in
    elim (Option-cases (GoMap.lookup addr p.conns)) [
      | inl e ↦ rw (e, put_conn) shuts
      | inr (ch, e) ↦
          rw (e, put_conn)
            (choose p.closed _ _ (λ _. shuts)
              (λ still_open.
                choose (ltb (length ch) max_pool_per_addr) _ _
                  (λ fits. pooled-IsConserved p addr x held ch split v e still_open fits)
                  (λ _. shuts)))
    ]

finish-IsConserved :
    (p : Pool) (addr : Bytes) (x : ℕ) (held : List (Bytes × ℕ)) (ok : Bool)
    → ((c : ℕ) → count_busy c p.busy ≡ one c (addr, x) + count_busy c held)
    → IsConserved p
    → IsConserved (finish p addr x held ok)
unfolding finish
finish-IsConserved p addr x held true split v = put_conn-IsConserved p addr x held split v
finish-IsConserved p addr x held false split v = shut_conn-IsConserved p held addr x split v

no_channel :
    (p : Pool) (addr : Bytes) (x : ℕ) (ch : List ℕ)
    → idle_of addr p.conns ≡ x ∷ ch
    → p.conns ≡ []
    → ⊥
unfolding idle_of GoMap.lookup
no_channel p addr x ch e none_left =
    let z : idle_of addr [] ≡ x ∷ ch =
      subst (λ (m : GoMap (List ℕ)). idle_of addr m ≡ x ∷ ch) none_left e in
    cc

take_conn_at :
    (p : Pool) (addr : Bytes) (others : List Bytes) (answers : Bool) (ch : List ℕ)
    → idle_of addr p.conns ≡ ch
    → IsConserved p
    → IsConserved (take_conn p addr others answers)
unfolding take_conn count_busy count
take_conn_at p addr others answers [] e v =
    rw (e, take_conn)
      (choose answers _ _
        (λ _. record {
          each = λ c. ground (arith, v.each c);
          bounded = v.bounded;
          emptied = v.emptied;
        })
        (λ _. record { each = v.each; bounded = v.bounded; emptied = v.emptied }))
take_conn_at p addr others answers (x ∷ ch) e v =
    rw (e, take_conn)
      (record {
        each = λ c. ground (arith, v.each c, count-insert c addr ch p.conns, ap (count c) e);
        bounded =
            Bounded-insert addr ch p.conns
              (omega
                (arith, idle_of-bounded addr p.conns v.bounded, ap (λ (z : List ℕ). length z) e))
              v.bounded;
        emptied = λ h. absurd (no_channel p addr x ch e (v.emptied h));
      })

close-IsConserved : (p : Pool) → IsConserved p → IsConserved (close p)
unfolding close all_idle count
close-IsConserved p v =
    choose p.closed p _ (λ _. v)
      (λ still_open. record {
        each = λ c. omega (arith, v.each c, count-append c (all_idle p.conns) p.shut);
        bounded = tt;
        emptied = λ h. refl;
      })

turn-IsConserved : (p : Pool) (t : Turn) → IsConserved p → IsConserved (turn p t)
unfolding turn
turn-IsConserved p (enters addr) v = enter-IsConserved p addr v
turn-IsConserved p (takes i answers) v = elim (Option-cases (pick i p.entering)) [
  | inl e ↦ rw (e, turn) v
  | inr ((addr, others), e) ↦
      rw (e, turn) (take_conn_at p addr others answers (idle_of addr p.conns) refl v)
]
turn-IsConserved p (finishes i ok) v = elim (Option-cases (pick i p.busy)) [
  | inl e ↦ rw (e, turn) v
  | inr (((addr, x), held), e) ↦
      rw (e, turn)
        (finish-IsConserved p addr x held ok (λ c. count_busy-pick c i p.busy (addr, x) held e) v)
]
turn-IsConserved p closes v = close-IsConserved p v

run-IsConserved_from : (p : Pool) (ts : List Turn) → IsConserved p → IsConserved (run p ts)
unfolding run
run-IsConserved_from p [] v = v
run-IsConserved_from p (t ∷ ts) v = run-IsConserved_from (turn p t) ts (turn-IsConserved p t v)

-- After any turns of calls of `Send` and of the close, every connection that was dialled is in exactly
-- one place, once: idle in a channel, held by a call, or closed; a channel holds at most 8, and a closed
-- transport keeps none.
pub run-IsConserved : (ts : List Turn) → IsConserved (run new_tcp ts)
run-IsConserved ts = run-IsConserved_from new_tcp ts new_tcp-IsConserved
