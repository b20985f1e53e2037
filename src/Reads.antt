-- ===== src/Reads.antt =====
-- imap/store.go: what a read returns after each operation on one key.
use medusa.Base.{
  ℕ, ◌≡◌, refl, ap, sym, ◌∙◌, List, [], Bytes, Bool, true, false, ◌&&◌, Option, none, some, arith,
  Option-cases, Bool-cases, inl, inr, if◌then◌else◌, ◌==◌, ==_iff, same, same_iff, same_self,
}
use medusa.Bytes.{slt}
use medusa.Shard.{
  Value, find, live, expired, open_bucket, find-assign, find-discard, find-open_bucket,
}
use medusa.Processor.{Action, Processor, keep, set, del, apply_proc}
use medusa.Store
use medusa.Store.{Store, set_shard, cache_loaded, update, apply_action, new_store}
use medusa.Owned.{sweep_expired}
use medusa.Scan.Cleanup.{sweep_shard-live}
use medusa.Invariant.{StoreOp, run, run-IsStore}
use mathlib.Core.Option

-- `name` and `key` in partition `p` against another place.
abbrev pub same_place : ℕ → Bytes → Bytes → ℕ → Bytes → Bytes → Bool
same_place p name key q other_name other_key =
    q == p && (same name other_name && same key other_key)

abbrev found : Option Bytes → Bool
found none = false
found (some b) = true

-- What a read at `now` returns of a value.
abbrev pub read_value : ℕ → Option Value → Option Bytes
read_value now o = Option.map (λ v. v.stored) (live now o)

-- A value with these contents and this expiry, read at `later`.
abbrev pub read_fresh : Bytes → ℕ → ℕ → Option Bytes
read_fresh contents expire_at later =
    if expired (record { stored = contents; expire_at = expire_at }) later
    then none
    else some contents

-- A read at any time after a `put` returns the new value while it is not expired, at the place that
-- was written, and what it returned before, at every other place.
pub get-put :
    (s : Store) (p : ℕ) (name key contents : Bytes) (expire_at now : ℕ) (q : ℕ)
    (other_name other_key : Bytes) (later : ℕ)
    → Store.get (Store.put s p name key contents expire_at now).1 q other_name other_key later ≡ (
        if same_place p name key q other_name other_key
        then read_fresh contents expire_at later
        else Store.get s q other_name other_key later)
unfolding Store.get Store.put set_shard live
get-put s p name key contents expire_at now q other_name other_key later = ground (
  arith,
  ==_iff q p,
  find-assign (s.shards p) name other_name key other_key
      (record { stored = contents; expire_at = expire_at }),
)

-- A read after a `remove` finds nothing at the place that was removed, and what it found before at
-- every other place; and `remove` says whether a read would have found the entry.
pub get-remove :
    (s : Store) (p : ℕ) (name key : Bytes) (now q : ℕ) (other_name other_key : Bytes) (later : ℕ)
    → (Store.get (Store.remove s p name key now).1 q other_name other_key later ≡ (
        if same_place p name key q other_name other_key
        then none
        else Store.get s q other_name other_key later))
      × ((Store.remove s p name key now).0 ≡ found (Store.get s p name key now))
unfolding Store.get Store.remove set_shard live
get-remove s p name key now q other_name other_key later =
    elim (Option-cases (find (s.shards p) name key)) [
      | inl e ↦ (
        ground (arith, e, ==_iff q p, same_iff name other_name, same_iff key other_key),
        ground (arith, e),
      )
      | inr (v, e) ↦ (
        ground (arith, e, ==_iff q p, find-discard (s.shards p) name other_name key other_key),
        ground (arith, e),
      )
    ]

-- A processor as the closure that `applyExecute` hands to `update`: the new value, the action, the
-- result that is captured.
abbrev pub closure : Processor → Bytes → Bytes → Bool → Bytes × Action × Bytes
closure proc arg cur exists = proc cur exists arg

module _ (s : Store) (p : ℕ) (name key : Bytes) (expire_at : ℕ) (new_val : Bytes) where
  -- A read of the place that `apply_action` was given.
  get-apply_action :
      (a : Action) (now : ℕ)
      → Store.get (apply_action s p name key expire_at new_val a).2 p name key now ≡ elim a [
        | keep ↦ Store.get s p name key now
        | set ↦ read_fresh new_val expire_at now
        | del ↦ none
      ]
  unfolding Store.get apply_action set_shard live
  get-apply_action keep now =
      ground (arith, ==_iff p p, find-open_bucket (s.shards p) name name key key)
  get-apply_action set now = ground (
    arith,
    ==_iff p p,
    same_self name,
    same_self key,
    find-assign (s.shards p) name name key key (record { stored = new_val; expire_at = expire_at }),
  )
  get-apply_action del now = ground (
    arith,
    ==_iff p p,
    same_self name,
    same_self key,
    find-discard (open_bucket (s.shards p) name) name name key key,
  )

module _ (s : Store) (p : ℕ) (name key : Bytes) (proc : Processor) (arg : Bytes) (now : ℕ) where
  -- What `update` does with a live value, or with none.
  abbrev contents_of : Option Value → Bytes
  contents_of none = []
  contents_of (some v) = v.stored

  abbrev expiry_of : Option Value → ℕ
  expiry_of none = 0
  expiry_of (some v) = v.expire_at

  abbrev is_there : Option Value → Bool
  is_there none = false
  is_there (some v) = true

  abbrev left_by : Option Value → Bytes × Action × Bytes
  left_by o = proc (contents_of o) (is_there o) arg

  update-out :
      (o : Option Value)
      → live now (find (s.shards p) name key) ≡ o
      → (update s p name key (closure proc arg) now).0 ≡ (left_by o).2
  unfolding update
  update-out none e = rw e
  update-out (some v) e = rw e

  update-store :
      (o : Option Value)
      → live now (find (s.shards p) name key) ≡ o
      → (update s p name key (closure proc arg) now).3
        ≡ (apply_action s p name key (expiry_of o) (left_by o).0 (left_by o).1).2
  unfolding update
  update-store none e = rw e
  update-store (some v) e = rw e

  get-live :
      (o : Option Value)
      → live now (find (s.shards p) name key) ≡ o
      → Store.get s p name key now ≡ Option.map (λ (v : Value). v.stored) o
  unfolding Store.get
  get-live o e = ap (Option.map (λ (v : Value). v.stored)) e

  abbrev is_expired : Option Value → Bool
  is_expired none = false
  is_expired (some v) = expired v now

  is_expired-live : (o : Option Value) → is_expired (live now o) ≡ false
  unfolding live
  is_expired-live none = refl
  is_expired-live (some v) = elim (Bool-cases (expired v now)) [ inl x ↦ rw x | inr x ↦ rw x x ]

  -- What a processor writes is not expired, since the expiry is that of a live entry or none.
  written :
      (o : Option Value)
      → live now (find (s.shards p) name key) ≡ o
      → (b : Bytes) → read_fresh b (expiry_of o) now ≡ some b
  unfolding expired
  written none e b = refl
  written (some v) e b =
      let alive : expired v now ≡ false =
        ap is_expired (sym e) ∙ is_expired-live (find (s.shards p) name key) in
      rw alive

  by_action :
      (a : Action) (x y f g : Option Bytes)
      → x ≡ y
      → f ≡ g
      → Path
          (Option Bytes)
          (elim a [ keep ↦ x | set ↦ f | del ↦ none ])
          (elim a [ keep ↦ y | set ↦ g | del ↦ none ])
  by_action keep x y f g e h = e
  by_action set x y f g e h = h
  by_action del x y f g e h = refl

  get-update :
      (o : Option Value)
      → live now (find (s.shards p) name key) ≡ o
      → Store.get (update s p name key (closure proc arg) now).3 p name key now
        ≡ elim (left_by o).1 [
          | keep ↦ Option.map (λ (v : Value). v.stored) o
          | set ↦ some (left_by o).0
          | del ↦ none
        ]
  get-update o e =
      ap (λ (st : Store). Store.get st p name key now) (update-store o e)
      ∙ get-apply_action s p name key (expiry_of o) (left_by o).0 (left_by o).1 now
      ∙ by_action (left_by o).1 _ _ _ _ (get-live o e) (written o e (left_by o).0)

  update-runs :
      (o : Option Value)
      → live now (find (s.shards p) name key) ≡ o
      → ((update s p name key (closure proc arg) now).0
          ≡ (apply_proc proc arg (Option.map (λ (v : Value). v.stored) o)).1)
        × (Store.get (update s p name key (closure proc arg) now).3 p name key now
            ≡ (apply_proc proc arg (Option.map (λ (v : Value). v.stored) o)).0)
  unfolding apply_proc
  update-runs none e = (update-out none e, get-update none e)
  update-runs (some v) e = (update-out (some v) e, get-update (some v) e)

-- Running a processor under the shard's lock is running it on what a read returns: the result is
-- the processor's on the live value, and a read at the same time returns what it left, whatever the
-- entry's expiry.
pub update-apply_proc :
    (s : Store) (p : ℕ) (name key : Bytes) (proc : Processor) (arg : Bytes) (now : ℕ)
    → ((update s p name key (closure proc arg) now).0
        ≡ (apply_proc proc arg (Store.get s p name key now)).1)
      × (Store.get (update s p name key (closure proc arg) now).3 p name key now
          ≡ (apply_proc proc arg (Store.get s p name key now)).0)
unfolding Store.get
update-apply_proc s p name key proc arg now =
    update-runs s p name key proc arg now (live now (find (s.shards p) name key)) refl

-- In every store that operations can reach from the empty one, a sweep at `now` changes no read at
-- `now` or later.
pub get-sweep_expired :
    (ops : List StoreOp) (now p : ℕ) (name key : Bytes) (later : ℕ)
    → slt later now ≡ false
    → Store.get (sweep_expired now (run ops new_store)).1 p name key later
      ≡ Store.get (run ops new_store) p name key later
unfolding Store.get sweep_expired
get-sweep_expired ops now p name key later h =
    ap (Option.map (λ (v : Value). v.stored))
      (sweep_shard-live now later ((run ops new_store).shards p) name key
        (record { stored = []; expire_at = 0 }) (run-IsStore ops new_store (λ q. (tt, tt)) p) h).0
