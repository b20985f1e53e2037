-- ===== src/Grid/SnapshotFile.antt =====
-- medusa.go: `writeSnapshotFile`, over a file system that may fail at any call. The calls of package os are
-- a parameter, with what is documented of them as named laws.
pub mod Atomic
use medusa.Base.{ℕ, ◌≡◌, ◌⊎◌, List, [], ◌∷◌, ◌++◌, Bytes, Option, none, some, bytes_of}
use medusa.Service.{Fault}

-- A call of package os, with the path of the file that is open where Go has the file
pub data Call : Type 0 where
  mkdir_all create sync close remove : Bytes → Call
  write rename : Bytes → Bytes → Call

-- `contents` is what the file at a path reads, `survives` what may be read at the path after a crash, and
-- `holds` what the file that is at the path now may have then, by whatever name it is found.
pub record Files : Type 1 where
  pub State : Type 0
  pub call : State → Call → Option Fault × State
  pub contents : State → Bytes → Option Bytes
  pub survives : State → Bytes → Option Bytes → Type 0
  pub holds : State → Bytes → Option Bytes → Type 0

-- A call may change what is at a path.
abbrev pub Touches : Call → Bytes → Type 0
Touches (create q) p = q ≡ p
Touches (remove q) p = q ≡ p
Touches (write q bytes) p = q ≡ p
Touches (sync q) p = q ≡ p
Touches (rename from to) p = (from ≡ p) ⊎ (to ≡ p)
Touches _ p = ⊥

-- A rename replaces its target at once or not at all, and a failed one does nothing; after a crash the
-- target may also be what it was. A file that was synced has what was written to it, although its name
-- may be lost.
pub record IsLawful (fs : Files) : Type 0 where
  pub survives-untouched :
      (s : fs.State) (k : Call) (p : Bytes) (x : Option Bytes)
      → ¬ Touches k p
      → fs.survives (fs.call s k).1 p x
      → fs.survives s p x
  pub contents-create :
      (s : fs.State) (q : Bytes)
      → (fs.call s (create q)).0 ≡ none
      → fs.contents (fs.call s (create q)).1 q ≡ some []
  pub contents-write :
      (s : fs.State) (q old bytes : Bytes)
      → (fs.call s (write q bytes)).0 ≡ none
      → fs.contents s q ≡ some old
      → fs.contents (fs.call s (write q bytes)).1 q ≡ some (old ++ bytes)
  pub contents-sync :
      (s : fs.State) (q p : Bytes) → fs.contents (fs.call s (sync q)).1 p ≡ fs.contents s p
  pub contents-close :
      (s : fs.State) (q p : Bytes) → fs.contents (fs.call s (close q)).1 p ≡ fs.contents s p
  pub contents-rename :
      (s : fs.State) (from to : Bytes)
      → (fs.call s (rename from to)).0 ≡ none
      → fs.contents (fs.call s (rename from to)).1 to ≡ fs.contents s from
  pub holds-sync :
      (s : fs.State) (q : Bytes) (x : Option Bytes)
      → (fs.call s (sync q)).0 ≡ none
      → fs.holds (fs.call s (sync q)).1 q x
      → x ≡ fs.contents s q
  pub holds-close :
      (s : fs.State) (q p : Bytes) (x : Option Bytes)
      → fs.holds (fs.call s (close q)).1 p x
      → fs.holds s p x
  pub survives-rename :
      (s : fs.State) (from to : Bytes) (x : Option Bytes)
      → fs.survives (fs.call s (rename from to)).1 to x
      → fs.survives s to x ⊎ ((fs.call s (rename from to)).0 ≡ none) × fs.holds s from x

-- The error, the last state, and the states after each call
abbrev pub Run : Files → Type 0
Run fs = Option Fault × fs.State × List fs.State

module _ (fs : Files) where
  -- Calls whose errors are ignored
  unfoldable pub clean : fs.State → List Call → fs.State × List fs.State
  clean s [] = (s, [])
  clean s (k ∷ ks) = let s' = (fs.call s k).1 in let (last, seen) = clean s' ks in (last, s' ∷ seen)

  -- A call whose error is returned after the clean-up
  unfoldable pub attempt : fs.State → Call → List Call → (fs.State → Run fs) → Run fs
  unfolding clean
  attempt s k cleanup rest =
      let (failed, s') = fs.call s k in
      elim failed [
        | some e ↦ let (last, seen) = clean s' cleanup in (some e, last, s' ∷ seen)
        | none ↦ let (failed', last, seen) = rest s' in (failed', last, s' ∷ seen)
      ]

-- The temporary file
abbrev pub tmp_path : Bytes → Bytes
tmp_path path = path ++ bytes_of ".tmp"

module _ (fs : Files) (dir path : Bytes) where
  -- From the renaming on, and back to the opening of the file
  abbrev pub rename_tmp : fs.State → Run fs
  rename_tmp s =
      attempt fs s (rename (tmp_path path) path) (remove (tmp_path path) ∷ [])
        (λ s'. (none, s', []))

  abbrev pub close_tmp : fs.State → Run fs
  close_tmp s = attempt fs s (close (tmp_path path)) (remove (tmp_path path) ∷ []) rename_tmp

  abbrev pub discard : List Call
  discard = close (tmp_path path) ∷ remove (tmp_path path) ∷ []

  abbrev pub write_tmp : Bytes → fs.State → Run fs
  write_tmp bytes s =
      attempt fs s (write (tmp_path path) bytes) discard
        (λ s'. attempt fs s' (sync (tmp_path path)) discard close_tmp)

  -- `writeSnapshotFile`, with what `MarshalVT` returned
  unfoldable pub write_snapshot_file : Option Fault → Bytes → fs.State → Run fs
  unfolding attempt
  write_snapshot_file failed bytes s = attempt fs s (mkdir_all dir) [] (λ s'. elim failed [
    | some e ↦ (some e, s', [])
    | none ↦ attempt fs s' (create (tmp_path path)) [] (write_tmp bytes)
  ])
