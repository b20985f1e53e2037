-- ===== src/Store.antt =====
-- imap/store.go: the store, an array of `partition.Count` shards, and its operations on one key.
-- `now` is what `nowNano()` returns in the call; one critical section reads one instant. A shard's
-- index is below `partition.Count` wherever the program makes it.
use medusa.Base.{ℕ, Option, none, some, List, [], Bytes, Bool, true, false}
use medusa.Base.{if◌then◌else◌, ◌==◌, not}
use medusa.Shard.{Value, Shard, find, assign, discard, open_bucket, live, expired}
use medusa.Txn.{Mutation, Txn}
use medusa.Processor.{Action, keep, set, del}
use mathlib.Core.Option

pub record Store : Type 0 where
  pub shards : ℕ → Shard

abbrev pub new_store : Store
new_store = record { shards = λ p. [] }

-- `s.shards[p]` after a change of that shard
unfoldable pub set_shard : Store → ℕ → Shard → Store
set_shard s p sh = record { shards = λ q. if q == p then sh else s.shards q }

unfoldable pub get : Store → ℕ → Bytes → Bytes → ℕ → Option Bytes
get s p name key now = Option.map (λ v. v.stored) (live now (find (s.shards p) name key))

-- `lookup` of store.go: the value with its expiry
unfoldable pub lookup : Store → ℕ → Bytes → Bytes → ℕ → Option (Bytes × ℕ)
lookup s p name key now =
    Option.map (λ v. (v.stored, v.expire_at)) (live now (find (s.shards p) name key))

abbrev is_live : Option Value → Bool
is_live none = false
is_live (some v) = true

-- The flag says that the key was created.
unfoldable pub put : Store → ℕ → Bytes → Bytes → Bytes → ℕ → ℕ → Bool × Store
put s p name key contents expire_at now =
    let sh = s.shards p in
    let created = not (is_live (live now (find sh name key))) in
    (
      created,
      set_shard s p (assign sh name key (record { stored = contents; expire_at = expire_at })),
    )

-- A write that raced the load is kept and returned.
unfoldable pub cache_loaded : Store → ℕ → Bytes → Bytes → Bytes → ℕ → Bytes × Store
cache_loaded s p name key contents now =
    let sh = s.shards p in
    elim (live now (find sh name key)) [
      | some v ↦ (v.stored, set_shard s p (open_bucket sh name))
      | none ↦ (
        contents,
        set_shard s p (assign sh name key (record { stored = contents; expire_at = 0 })),
      )
    ]

-- The flag says that a live entry was present.
unfoldable pub remove : Store → ℕ → Bytes → Bytes → ℕ → Bool × Store
remove s p name key now =
    let sh = s.shards p in
    elim (find sh name key) [
      | none ↦ (false, s)
      | some v ↦ (not (expired v now), set_shard s p (discard sh name key))
    ]

-- `update`: `fn` gets the live value (empty if there is none) and whether there is one. What it
-- hands back beside the new value and the action, `R`, stands for what the closure captures.
unfoldable pub apply_action : Store → ℕ → Bytes → Bytes → ℕ → Bytes → Action → Action × ℕ × Store
apply_action s p name key expire_at new_val keep =
    (keep, 0, set_shard s p (open_bucket (s.shards p) name))
apply_action s p name key expire_at new_val set = (
  set,
  expire_at,
  set_shard s p (assign (s.shards p) name key (record { stored = new_val; expire_at = expire_at })),
)
apply_action s p name key expire_at new_val del =
    (del, 0, set_shard s p (discard (open_bucket (s.shards p) name) name key))

module _ {R : Type 0} where
  unfoldable pub update :
      Store → ℕ → Bytes → Bytes → (Bytes → Bool → Bytes × Action × R) → ℕ → R × Action × ℕ × Store
  unfolding apply_action
  update s p name key fn now =
      let old = live now (find (s.shards p) name key) in
      let cur : Bytes = elim old [ none ↦ [] | some v ↦ v.stored ] in
      let expire_at : ℕ = elim old [ none ↦ 0 | some v ↦ v.expire_at ] in
      let (new_val, action, out) = fn cur (is_live old) in
      let (a, e, s') = apply_action s p name key expire_at new_val action in (out, a, e, s')

module _ {R : Type 0} where
  unfoldable pub update_multi : Store → ℕ → (Txn → R × Txn) → R × List Mutation × Store
  update_multi s p fn =
      let (r, t) = fn (record { shard = s.shards p; muts = [] }) in
      (r, t.muts, set_shard s p t.shard)
