-- ===== src/Scan/Cleanup.antt =====
-- imap/store.go: dropping the keys that the owner does not have, and the entries that expired.
use medusa.Base.{
  ℕ, ◌≡◌, refl, ap, ◌∙◌, Bytes, Bool, false, not, Option, none, some, arith, if◌then◌else◌,
}
use medusa.Bytes.{slt}
use medusa.GoMap
use medusa.GoMap.{only_if}
use medusa.Shard.{Shard, Value, find, expired, live}
use medusa.Scan.{Keyset, keeps, prune_to_keyset, sweep_shard, unexpired, listed, fails}
use medusa.Scan.Distinct.{IsShard}
use medusa.Scan.Found.{find-retain, holds, listed-entries_if}

-- The owner has the key.
abbrev pub owned_key : Keyset → Bytes → Bytes → Bool
owned_key keep name key = elim (GoMap.lookup name keep) [
  | none ↦ false
  | some keys ↦ GoMap.has key keys
]

only_if_const : (b : Bool) (o : Option Value) → only_if (λ v. b) o ≡ (if b then o else none)
only_if_const b none = ground arith
only_if_const b (some v) = refl

-- `pruneToKeyset` leaves the entries of the keys that the owner has as they are and no other, and
-- what it returns is exactly the entries that it deleted.
pub prune_to_keyset-find :
    (keep : Keyset) (sh : Shard) (name key : Bytes) (v : Value)
    → IsShard sh
    → (find (prune_to_keyset keep sh).1 name key
        ≡ (if owned_key keep name key then find sh name key else none))
      × (listed (prune_to_keyset keep sh).0 name key v
          ≡ holds (λ w. not (owned_key keep name key)) v (find sh name key))
unfolding prune_to_keyset keeps
prune_to_keyset-find keep sh name key v w = (
  find-retain (keeps keep) sh name key w
      ∙ only_if_const (owned_key keep name key) (find sh name key),
  listed-entries_if (fails (keeps keep)) sh name key v w,
)

live-only_if :
    (now later : ℕ) (o : Option Value)
    → slt later now ≡ false
    → live later (only_if (λ v. not (expired v now)) o) ≡ live later o
unfolding live expired
live-only_if now later none h = refl
live-only_if now later (some v) h = ground arith

-- A sweep at `now` changes no read at `now` or later: it deletes only entries that are expired by
-- then, and returns only those.
pub sweep_shard-live :
    (now later : ℕ) (sh : Shard) (name key : Bytes) (v : Value)
    → IsShard sh
    → slt later now ≡ false
    → (live later (find (sweep_shard now sh).1 name key) ≡ live later (find sh name key))
      × (listed (sweep_shard now sh).0 name key v
          ≡ holds (λ w. not (not (expired w now))) v (find sh name key))
unfolding sweep_shard
sweep_shard-live now later sh name key v w h = (
  ap (live later) (find-retain (unexpired now) sh name key w)
      ∙ live-only_if now later (find sh name key) h,
  listed-entries_if (fails (unexpired now)) sh name key v w,
)
