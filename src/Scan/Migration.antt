-- ===== src/Scan/Migration.antt =====
-- imap/store.go: handing a partition's entries to another member and dropping them here.
use medusa.Base.{
  ℕ, ◌≡◌, refl, ◌∙◌, List, [], ◌∷◌, Bytes, Bool, true, false, not, Option, none, some, arith,
  if◌then◌else◌, Option-cases, inl, inr,
}
use medusa.GoMap.{only_if}
use medusa.Shard.{Shard, Value, find, expired, discard}
use medusa.Scan.{
  Entry, listed, drop_entry, drop_entries, drop_migrated, snapshot_partition, unexpired, captured,
}
use medusa.Scan.Distinct.{IsShard, IsShard-discard, IsShard-retain}
use medusa.Scan.Found.{find-retain, find-drop_entries, holds, listed-entries_if}

IsShard-if :
    (b : Bool) (es : List Entry) (sh sh' : Shard)
    → IsShard sh
    → IsShard sh'
    → IsShard (if◌then◌else◌ {A = List Entry × Shard} b (es, sh) ([], sh')).1
IsShard-if true es sh sh' w w' = w
IsShard-if false es sh sh' w w' = w'

IsShard-drop_entry : (e : Entry) (sh : Shard) → IsShard sh → IsShard (drop_entry e sh).1
unfolding drop_entry
IsShard-drop_entry e sh w = elim (Option-cases (find sh e.map_name e.key)) [
  | inl o ↦ rw (o, drop_entry) w
  | inr (v, o) ↦
      rw (o, drop_entry)
        (IsShard-if (captured e v) (e ∷ []) (discard sh e.map_name e.key) sh
          (IsShard-discard sh e.map_name e.key w) w)
]

pub IsShard-drop_entries :
    (es : List Entry) (sh : Shard) → IsShard sh → IsShard (drop_entries es sh).1
unfolding drop_entries
IsShard-drop_entries [] sh w = w
IsShard-drop_entries (e ∷ es) sh w =
    IsShard-drop_entries es (drop_entry e sh).1 (IsShard-drop_entry e sh w)

pub IsShard-drop_migrated :
    (es : List Entry) (sh : Shard) → IsShard sh → IsShard (drop_migrated es sh).1
unfolding drop_migrated
IsShard-drop_migrated es sh w =
    IsShard-retain (λ name k v. true) (drop_entries es sh).1 (IsShard-drop_entries es sh w)

only_if_all : (o : Option Value) → only_if (λ v. true) o ≡ o
only_if_all none = refl
only_if_all (some v) = refl

-- `dropMigrated` deletes an entry exactly when its value and its expiry are those of one of the
-- captured entries; every other entry, one that was overwritten or is new, stays as it is.
pub drop_migrated-find :
    (es : List Entry) (sh : Shard) (name key : Bytes)
    → IsShard sh
    → find (drop_migrated es sh).1 name key
      ≡ only_if (λ v. not (listed es name key v)) (find sh name key)
unfolding drop_migrated
drop_migrated-find es sh name key w =
    find-retain (λ n k v. true) (drop_entries es sh).1 name key (IsShard-drop_entries es sh w)
    ∙ only_if_all (find (drop_entries es sh).1 name key)
    ∙ find-drop_entries es sh name key

-- A partition that is snapshotted as `before`, written to while it migrates, and then dropped as
-- `now_held`: an entry goes if it is live in the snapshot with the same bytes and expiry, and stays
-- as it is otherwise, so that a write that raced the migration is never lost.
pub handoff :
    (now : ℕ) (before now_held : Shard) (name key : Bytes) (v : Value)
    → IsShard before
    → IsShard now_held
    → find now_held name key ≡ some v
    → find (drop_migrated (snapshot_partition now before) now_held).1 name key
      ≡ (if holds (λ u. not (expired u now)) v (find before name key) then none else some v)
unfolding snapshot_partition
handoff now before now_held name key v wb wh e =
    drop_migrated-find (snapshot_partition now before) now_held name key wh
    ∙ rw (e, listed-entries_if (unexpired now) before name key v wb) (ground arith)
