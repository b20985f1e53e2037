-- ===== src/FileTests.antt =====
-- medusa.go: the snapshot file on a concrete file system, whose directory is not synced by a rename.
use medusa.Base.{
  ◌≡◌, ◌⊎◌, inl, inr, refl, ap, subst, ◌∙◌, [], ◌∷◌, ◌++◌, Bytes, bytes_of, Bool, true, false,
  Bool-cases, Option, none, some, if◌then◌else◌, same, same_self, same_ne, arith, ◌≢◌,
}
use medusa.Grid.SnapshotFile.{
  Call, mkdir_all, create, sync, close, remove, write, rename, Files, Touches, IsLawful,
  write_snapshot_file,
}
use medusa.Grid.SnapshotFile.Atomic.{Good, write_snapshot_file-atomic}

-- What the files read, what was synced under each name, and what the directory may still name
record Sim : Type 0 where
  live : Bytes → Option Bytes
  disk : Bytes → Option Bytes
  old : Bytes → Option Bytes

put_at : (Bytes → Option Bytes) → Bytes → Option Bytes → Bytes → Option Bytes
put_at f q v p = if same q p then v else f p

abbrev appended : Option Bytes → Bytes → Option Bytes
appended none bytes = none
appended (some b) bytes = some (b ++ bytes)

exec : Sim → Call → Sim
exec s (create q) = record s { live = put_at s.live q (some []) }
exec s (write q bytes) = record s { live = put_at s.live q (appended (s.live q) bytes) }
exec s (sync q) = record s { disk = put_at s.disk q (s.live q) }
exec s (remove q) = record s { live = put_at s.live q none; disk = put_at s.disk q none }
exec s (rename from to) = record s {
  live = put_at (put_at s.live from none) to (s.live from);
  disk = put_at (put_at s.disk from none) to (s.disk from);
}
exec s (mkdir_all q) = s
exec s (close q) = s

-- The calls that `fails` names fail and change nothing.
abbrev sim : (Call → Bool) → Files
sim fails = record {
  State = Sim;
  call = λ s k. if fails k then (some (bytes_of "fault"), s) else (none, exec s k);
  contents = λ s p. s.live p;
  survives = λ s p x. (x ≡ s.old p) ⊎ (x ≡ s.disk p);
  holds = λ s p x. x ≡ s.disk p;
}

put_at_ne :
    (f : Bytes → Option Bytes) (q : Bytes) (v : Option Bytes) (p : Bytes)
    → q ≢ p
    → put_at f q v p ≡ f p
unfolding put_at
put_at_ne f q v p ne = rw (same_ne q p ne) refl

put_at_self : (f : Bytes → Option Bytes) (q : Bytes) (v : Option Bytes) → put_at f q v q ≡ v
unfolding put_at
put_at_self f q v = rw (same_self q) refl

exec-untouched :
    (s : Sim) (k : Call) (p : Bytes)
    → ¬ Touches k p
    → ((exec s k).old p ≡ s.old p) × ((exec s k).disk p ≡ s.disk p)
unfolding exec
exec-untouched s (sync q) p off = (refl, put_at_ne _ q _ p off)
exec-untouched s (remove q) p off = (refl, put_at_ne _ q _ p off)
exec-untouched s (rename from to) p off =
    (refl, put_at_ne _ to _ p (λ e. off (inr e)) ∙ put_at_ne _ from _ p (λ e. off (inl e)))
exec-untouched s k p off = (refl, refl)

module _ (fails : Call → Bool) where
  sim-untouched :
      (s : Sim) (k : Call) (p : Bytes) (x : Option Bytes)
      → ¬ Touches k p
      → (sim fails).survives ((sim fails).call s k).1 p x
      → (sim fails).survives s p x
  sim-untouched s k p x off h = elim (Bool-cases (fails k)) [
    | inl bad ↦ rw bad at h
    | inr good ↦ elim (rw good at h) [
      | inl e ↦ inl (e ∙ (exec-untouched s k p off).0)
      | inr e ↦ inr (e ∙ (exec-untouched s k p off).1)
    ]
  ]

  done-exec :
      (s : Sim) (k : Call) → ((sim fails).call s k).0 ≡ none → ((sim fails).call s k).1 ≡ exec s k
  done-exec s k h = ground arith

  sim-IsLawful : IsLawful (sim fails)
  unfolding exec
  sim-IsLawful = record {
    survives-untouched = sim-untouched;
    contents-create =
        λ s q h. ap (λ (t : Sim). t.live q) (done-exec s (create q) h) ∙ put_at_self s.live q _;
    contents-write = λ s q old bytes h e.
        ap (λ (t : Sim). t.live q) (done-exec s (write q bytes) h)
        ∙ put_at_self s.live q _
        ∙ rw e refl;
    contents-sync = λ s q p. elim (Bool-cases (fails (sync q))) [
      | inl bad ↦ rw bad refl
      | inr good ↦ rw good refl
    ];
    contents-close = λ s q p. elim (Bool-cases (fails (close q))) [
      | inl bad ↦ rw bad refl
      | inr good ↦ rw good refl
    ];
    contents-rename = λ s from to h.
        ap (λ (t : Sim). t.live to) (done-exec s (rename from to) h) ∙ put_at_self _ to _;
    holds-sync = λ s q x h e.
        subst (λ (t : Sim). x ≡ t.disk q) (done-exec s (sync q) h) e ∙ put_at_self s.disk q _;
    holds-close = λ s q p x h. elim (Bool-cases (fails (close q))) [
      | inl bad ↦ rw bad at h
      | inr good ↦ rw good at h
    ];
    survives-rename = λ s from to x h. elim (Bool-cases (fails (rename from to))) [
      | inl bad ↦ inl (rw bad at h)
      | inr good ↦ elim (rw good at h) [
        | inl e ↦ inl (inl e)
        | inr e ↦ inr (rw good refl, e ∙ put_at_self _ to _)
      ]
    ];
  }

abbrev snapshot_path : Bytes
snapshot_path = bytes_of "d/snapshot.pb"

-- A file system whose sync fails, and one on which nothing does
abbrev sync_fails : Call → Bool
sync_fails (sync q) = true
sync_fails k = false

abbrev files : Sim
files =
    let f : Bytes → Option Bytes = λ p. if same p snapshot_path then some (1 ∷ []) else none in
    record { live = f; disk = f; old = f }

write_snapshot_file-atomic_example :
    Good
      (sim (λ k. false))
      (sim-IsLawful (λ k. false))
      files
      snapshot_path
      (5 ∷ 6 ∷ [])
      (write_snapshot_file (sim (λ k. false)) (bytes_of "d") snapshot_path none (5 ∷ 6 ∷ []) files)
write_snapshot_file-atomic_example =
    write_snapshot_file-atomic (sim (λ k. false)) (sim-IsLawful (λ k. false)) files snapshot_path
      (5 ∷ 6 ∷ []) (bytes_of "d") none

-- The error path: the sync fails, and the run ends with its error.
write_snapshot_file-sync :
    (write_snapshot_file (sim sync_fails) (bytes_of "d") snapshot_path none (5 ∷ 6 ∷ []) files).0
    ≡ some (bytes_of "fault")
unfolding write_snapshot_file
write_snapshot_file-sync = refl
