-- ===== src/Transport/Pool.antt =====
-- transport/tcp.go: the idle connections that the TCP transport keeps for each address, and the
-- connections that its calls of `Send` hold. A turn is what one goroutine does between two accesses to
-- what they share. A connection is known by the number of connections dialled before it.
use medusa.Base.{
  ℕ, zero, suc, List, [], ◌∷◌, ◌++◌, Bytes, Bool, true, false, Option, none, some, if◌then◌else◌,
  ltb, length,
}
use medusa.GoMap
use medusa.GoMap.{GoMap}

-- `maxPoolPerAddr`
abbrev pub max_pool_per_addr : ℕ
max_pool_per_addr = 8

-- `tcpTransport`: a call of `getConn` between its lock and its select has its address in `entering`, and
-- a call of `Send` that holds a connection has both in `busy`. The closed connections are in `shut`.
pub record Pool : Type 0 where
  pub closed : Bool
  pub conns : GoMap (List ℕ)
  pub entering : List Bytes
  pub busy : List (Bytes × ℕ)
  pub dialled : ℕ
  pub shut : List ℕ

-- `NewTCP`
abbrev pub new_tcp : Pool
new_tcp = record { closed = false; conns = []; entering = []; busy = []; dialled = 0; shut = [] }

-- The channel of an address; none holds nothing.
unfoldable pub idle_of : Bytes → GoMap (List ℕ) → List ℕ
idle_of addr conns = elim (GoMap.lookup addr conns) [ none ↦ [] | some ch ↦ ch ]

-- The `i`-th of a list and the others
unfoldable pub pick {ℓ} : {A : Type ℓ} → ℕ → List A → Option (A × List A)
pick i [] = none
pick zero (x ∷ xs) = some (x, xs)
pick (suc i) (x ∷ xs) = elim (pick i xs) [ none ↦ none | some (y, ys) ↦ some (y, x ∷ ys) ]

pub data Turn : Type 0 where
  enters : Bytes → Turn
  takes : ℕ → Bool → Turn
  finishes : ℕ → Bool → Turn
  closes : Turn

-- `getConn` under the lock; on a closed transport it is an error.
unfoldable pub enter : Pool → Bytes → Pool
unfolding idle_of
enter p addr = if p.closed then p else record p {
  conns = GoMap.insert addr (idle_of addr p.conns) p.conns;
  entering = addr ∷ p.entering;
}

-- The rest of `getConn`: an idle connection, or one that is dialled; `answers` says whether the dial
-- succeeds.
unfoldable pub take_conn : Pool → Bytes → List Bytes → Bool → Pool
unfolding idle_of
take_conn p addr others answers = elim (idle_of addr p.conns) [
  | c ∷ ch ↦ record p {
    conns = GoMap.insert addr ch p.conns;
    entering = others;
    busy = (addr, c) ∷ p.busy;
  }
  | [] ↦
      if answers
      then record p {
        entering = others;
        busy = (addr, p.dialled) ∷ p.busy;
        dialled = suc p.dialled;
      }
      else record p { entering = others }
]

-- `cc.c.Close()` of a connection that a `Send` held, the others being `held`
abbrev pub shut_conn : Pool → List (Bytes × ℕ) → ℕ → Pool
shut_conn p held c = record p { busy = held; shut = c ∷ p.shut }

-- `putConn`
unfoldable pub put_conn : Pool → Bytes → ℕ → List (Bytes × ℕ) → Pool
put_conn p addr c held = elim (GoMap.lookup addr p.conns) [
  | none ↦ shut_conn p held c
  | some ch ↦
      if p.closed
      then shut_conn p held c
      else if ltb (length ch) max_pool_per_addr
      then record p { conns = GoMap.insert addr (ch ++ c ∷ []) p.conns; busy = held }
      else shut_conn p held c
]

-- The end of `Send`: a connection whose exchange failed is closed.
unfoldable pub finish : Pool → Bytes → ℕ → List (Bytes × ℕ) → Bool → Pool
unfolding put_conn
finish p addr c held ok = if ok then put_conn p addr c held else shut_conn p held c

-- The connections of all channels
unfoldable pub all_idle : GoMap (List ℕ) → List ℕ
all_idle [] = []
all_idle ((addr, ch) ∷ conns) = ch ++ all_idle conns

-- `Close`: a connection that a `getConn` takes from its channel before the drain comes first.
unfoldable pub close : Pool → Pool
unfolding all_idle
close p =
    if p.closed
    then p
    else record p { closed = true; conns = []; shut = all_idle p.conns ++ p.shut }

unfoldable pub turn : Pool → Turn → Pool
unfolding enter take_conn finish close pick
turn p (enters addr) = enter p addr
turn p (takes i answers) = elim (pick i p.entering) [
  | none ↦ p
  | some (addr, others) ↦ take_conn p addr others answers
]
turn p (finishes i ok) = elim (pick i p.busy) [
  | none ↦ p
  | some ((addr, c), held) ↦ finish p addr c held ok
]
turn p closes = close p

unfoldable pub run : Pool → List Turn → Pool
unfolding turn
run p [] = p
run p (t ∷ ts) = run (turn p t) ts
