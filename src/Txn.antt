-- ===== src/Txn.antt =====
-- imap/store.go: the critical section that `updateMulti` runs, as the state its closures share.
use medusa.Base.{ℕ, ◌≡◌, Option, none, some, List, [], ◌∷◌, ◌++◌, Bytes, Bool, true, false, same}
use medusa.Base.{if◌then◌else◌, ◌&&◌}
use medusa.Shard.{
  Value, Shard, find, assign, discard_reclaim, live, find-assign, find-discard_reclaim,
}
use mathlib.Core.Option

-- One entry change made inside `update_multi`.
pub record Mutation : Type 0 where
  pub map_name : Bytes
  pub key : Bytes
  pub contents : Bytes
  pub deleted : Bool

pub record Txn : Type 0 where
  pub shard : Shard
  pub muts : List Mutation

-- The accessor `getFn`
unfoldable pub get : Txn → Bytes → Bytes → ℕ → Option Bytes
get t name key now = Option.map (λ v. v.stored) (live now (find t.shard name key))

-- The accessor `setFn`: what it writes never expires.
unfoldable pub set : Txn → Bytes → Bytes → Bytes → Txn
set t name key val = record {
  shard = assign t.shard name key (record { stored = val; expire_at = 0 });
  muts = t.muts ++ (record { map_name = name; key = key; contents = val; deleted = false } ∷ []);
}

-- The accessor `delFn`
unfoldable pub del : Txn → Bytes → Bytes → Txn
del t name key = record {
  shard = discard_reclaim t.shard name key;
  muts = t.muts ++ (record { map_name = name; key = key; contents = []; deleted = true } ∷ []);
}

-- What `set` stores: a value that never expires.
abbrev pub lasting : Bytes → Value
lasting b = record { stored = b; expire_at = 0 }

module _ (t : Txn) (name key : Bytes) where
  pub get_of_lasting :
      (now : ℕ) (b : Bytes) → find t.shard name key ≡ some (lasting b) → get t name key now ≡ some b
  unfolding get live
  get_of_lasting now b h = rw h

  pub get_of_none : (now : ℕ) → find t.shard name key ≡ none → get t name key now ≡ none
  unfolding get live
  get_of_none now h = rw h

  module _ (name' key' : Bytes) where
    pub find-set :
        (b : Bytes)
        → find (set t name key b).shard name' key'
          ≡ (if same name name' && same key key' then some (lasting b) else find t.shard name' key')
    unfolding set
    find-set b = find-assign t.shard name name' key key' (lasting b)

    pub find-del :
        find (del t name key).shard name' key'
        ≡ (if same name name' && same key key' then none else find t.shard name' key')
    unfolding del
    find-del = find-discard_reclaim t.shard name name' key key'
