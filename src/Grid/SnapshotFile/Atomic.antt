-- ===== src/Grid/SnapshotFile/Atomic.antt =====
-- medusa.go: a crash in `writeSnapshotFile` leaves the snapshot that was, or the new one.
use medusa.Base.{
  ◌≡◌, ◌≢◌, ◌⊎◌, inl, inr, ap, sym, ◌∙◌, List, [], ◌∷◌, Bytes, Option, none, some, Option-cases,
  bytes_of, length, length-append, arith,
}
use mathlib.Core.Option.{none-ne-some}
use medusa.Service.{Fault}
use medusa.Grid.SnapshotFile.{
  Call, mkdir_all, create, sync, close, remove, write, rename, Files, Touches, IsLawful, Run, clean,
  attempt, tmp_path, rename_tmp, close_tmp, discard, write_tmp, write_snapshot_file,
}

tmp_path-ne : (path : Bytes) → tmp_path path ≢ path
tmp_path-ne path e = absurd (omega (arith, ap length e, length-append path (bytes_of ".tmp")))

module _ (fs : Files) (laws : IsLawful fs) (start : fs.State) (path bytes : Bytes) where
  -- A crash leaves at the path what it would have left at the start.
  abbrev pub Before : fs.State → Type 0
  Before s = (x : Option Bytes) → fs.survives s path x → fs.survives start path x

  -- Or all the bytes that were to be written.
  abbrev pub Either : fs.State → Type 0
  Either s = (x : Option Bytes) → fs.survives s path x → fs.survives start path x ⊎ (x ≡ some bytes)

  abbrev pub All : (fs.State → Type 0) → List fs.State → Type 0
  All P [] = Unit {0}
  All P (s ∷ seen) = P s × All P seen

  -- What is shown of a run: every state on the way, and the last one by the error.
  abbrev pub Ends : Option Fault → fs.State → Type 0
  Ends (some e) last = Before last
  Ends none last = fs.contents last path ≡ some bytes

  abbrev pub Good : Run fs → Type 0
  Good (failed, last, seen) = All Either seen × Ends failed last

  weaken : (s : fs.State) → Before s → Either s
  weaken s b x h = inl (b x h)

  step-Before : (s : fs.State) (k : Call) → ¬ Touches k path → Before s → Before (fs.call s k).1
  step-Before s k away b x h = b x (laws.survives-untouched s k path x away h)

  abbrev AllAway : List Call → Type 0
  AllAway [] = Unit {0}
  AllAway (k ∷ ks) = (¬ Touches k path) × AllAway ks

  clean-Before :
      (s : fs.State) (ks : List Call)
      → AllAway ks
      → Before s
      → All Either (clean fs s ks).1 × Before (clean fs s ks).0
  unfolding clean
  clean-Before s [] away b = (tt, b)
  clean-Before s (k ∷ ks) (off, away) b =
      let b' = step-Before s k off b in
      let (seen, last) = clean-Before (fs.call s k).1 ks away b' in ((weaken _ b', seen), last)

  -- A call that fails leaves the path alone, and one that succeeds lets the rest run.
  attempt-Good :
      (s : fs.State) (k : Call) (ks : List Call) (rest : fs.State → Run fs)
      → AllAway ks
      → Either (fs.call s k).1
      → ((e : Fault) → (fs.call s k).0 ≡ some e → Before (fs.call s k).1)
      → ((fs.call s k).0 ≡ none → Good (rest (fs.call s k).1))
      → Good (attempt fs s k ks rest)
  unfolding attempt
  attempt-Good s k ks rest away either fails ok = elim (Option-cases (fs.call s k).0) [
    | inl done ↦ rw (done, attempt) ((either, (ok done).0), (ok done).1)
    | inr (e, failed) ↦
        let (seen, last) = clean-Before (fs.call s k).1 ks away (fails e failed) in
        rw (failed, attempt) ((either, seen), last)
  ]

  -- At the renaming the temporary file has the bytes, also after a crash.
  abbrev Written : fs.State → Type 0
  Written s =
      (fs.contents s (tmp_path path) ≡ some bytes)
      × ((x : Option Bytes) → fs.holds s (tmp_path path) x → x ≡ some bytes)

  module _ (dir : Bytes) where
    rename_tmp-Good : (s : fs.State) → Before s → Written s → Good (rename_tmp fs dir path s)
    rename_tmp-Good s b (there, kept) =
        attempt-Good s (rename (tmp_path path) path) (remove (tmp_path path) ∷ []) _
          (tmp_path-ne path, tt)
          (λ x h. elim (laws.survives-rename s (tmp_path path) path x h) [
            | inl old ↦ inl (b x old)
            | inr (done, new) ↦ inr (kept x new)
          ])
          (λ e failed x h. elim (laws.survives-rename s (tmp_path path) path x h) [
            | inl old ↦ b x old
            | inr (done, new) ↦ absurd (none-ne-some _ (sym done ∙ failed))
          ])
          (λ done. (tt, laws.contents-rename s (tmp_path path) path done ∙ there))

    close_tmp-Good : (s : fs.State) → Before s → Written s → Good (close_tmp fs dir path s)
    close_tmp-Good s b (there, kept) =
        let b' = step-Before s (close (tmp_path path)) (λ h. h) b in
        attempt-Good s (close (tmp_path path)) (remove (tmp_path path) ∷ []) _
          (tmp_path-ne path, tt) (weaken _ b') (λ e failed. b')
          (λ done. rename_tmp-Good _ b' (
            laws.contents-close s (tmp_path path) (tmp_path path) ∙ there,
            λ x h. kept x (laws.holds-close s (tmp_path path) (tmp_path path) x h),
          ))

    away : AllAway (discard fs dir path)
    away = ((λ h. h), (tmp_path-ne path, tt))

    sync_tmp-Good :
        (s : fs.State)
        → Before s
        → fs.contents s (tmp_path path) ≡ some bytes
        → Good (attempt fs s (sync (tmp_path path)) (discard fs dir path) (close_tmp fs dir path))
    sync_tmp-Good s b there =
        let b' = step-Before s (sync (tmp_path path)) (tmp_path-ne path) b in
        attempt-Good s (sync (tmp_path path)) (discard fs dir path) _ away (weaken _ b')
          (λ e failed. b')
          (λ done. close_tmp-Good _ b' (
            laws.contents-sync s (tmp_path path) (tmp_path path) ∙ there,
            λ x h. laws.holds-sync s (tmp_path path) x done h ∙ there,
          ))

    write_tmp-Good :
        (s : fs.State)
        → Before s
        → fs.contents s (tmp_path path) ≡ some []
        → Good (write_tmp fs dir path bytes s)
    write_tmp-Good s b empty =
        let b' = step-Before s (write (tmp_path path) bytes) (tmp_path-ne path) b in
        attempt-Good s (write (tmp_path path) bytes) (discard fs dir path) _ away (weaken _ b')
          (λ e failed. b')
          (λ done. sync_tmp-Good _ b' (laws.contents-write s (tmp_path path) [] bytes done empty))

  mkdir-Before : (dir : Bytes) → Before (fs.call start (mkdir_all dir)).1
  mkdir-Before dir = step-Before start (mkdir_all dir) (λ h. h) (λ x h. h)

  -- Whatever calls fail, after each call of `writeSnapshotFile` a crash leaves at the snapshot's path what
  -- it would have left before, or all the new bytes. If an error is returned, it leaves what it would have
  -- left before; if none is, the file reads as the new bytes. The laws of the file system are assumed.
  pub write_snapshot_file-atomic :
      (dir : Bytes) (failed : Option Fault)
      → Good (write_snapshot_file fs dir path failed bytes start)
  unfolding write_snapshot_file
  write_snapshot_file-atomic dir (some e) =
      let b = mkdir-Before dir in
      attempt-Good start (mkdir_all dir) [] (λ s. (some e, s, [])) tt (weaken _ b) (λ e failed. b)
        (λ done. (tt, b))
  write_snapshot_file-atomic dir none =
      let b = mkdir-Before dir in
      attempt-Good start (mkdir_all dir) []
        (λ s. attempt fs s (create (tmp_path path)) [] (write_tmp fs dir path bytes)) tt
        (weaken _ b) (λ e failed. b)
        (λ done.
          let b' = step-Before _ (create (tmp_path path)) (tmp_path-ne path) b in
          attempt-Good _ (create (tmp_path path)) [] (write_tmp fs dir path bytes) tt (weaken _ b')
            (λ e failed. b')
            (λ made. write_tmp-Good dir _ b' (laws.contents-create _ (tmp_path path) made)))
