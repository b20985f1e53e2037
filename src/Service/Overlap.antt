-- ===== src/Service/Overlap.antt =====
-- imap/service.go and medusa.go: a crash between the writing of a snapshot and the truncation of the log,
-- after which the log is replayed on a store that has its changes already.
use medusa.Base.{
  ℕ, ◌≡◌, ◌<◌, ◌⊎◌, inl, inr, refl, ap, sym, subst, ◌∙◌, List, [], ◌∷◌, ◌++◌, Bytes, true, false,
  Option, none, some, Bool-cases, length, take, same,
}
use medusa.Bytes.{slt}
use medusa.Shard.{Value, live}
use medusa.Store.{Store}
use medusa.Reads.{same_place}
use medusa.Queue.{routed_partition}
use medusa.Invariant.{IsStore}
use medusa.Scan.{Entry}
use medusa.Wal.{Codec, op_put, op_remove, op_clear}
use medusa.Wal.Replay.{LogRecord, Fits, AllFit, bytes_of_record, log_bytes}
use medusa.Wal.Torn.{replay_wal-torn}
use medusa.Service.{Node}
use medusa.Service.Restart.{open_wal, restore, snapshot, unlapsed, replay_calls}
use medusa.Service.Agree.{Agree, find_at}
use medusa.Service.Replayed.{
  Lasts, AllLast, replayed, replayed-put, replayed-remove, replayed-clear,
}
use medusa.Service.Recovery.{History, serve_all, records_of, AllBefore, serve_all-Agree}
use medusa.Service.Home.{IsHome}
use medusa.Service.Loading.{AllModern}
use medusa.Service.Snapshot.{restore-snapshot}
use medusa.Service.Crash.{serve_all-store_after, serve_all-IsStore, serve_all-IsHome}

module _ (later q : ℕ) (name key : Bytes) where
  -- Replaying the records leaves the place as it is on every store, or makes it the same on every store.
  abbrev Settles : List LogRecord → Type 0
  Settles rs =
      ((u : Store) → find_at (replayed later rs u) q name key ≡ find_at u q name key)
      ⊎ ((v : Option Value) × ((u : Store) → find_at (replayed later rs u) q name key ≡ v))

  record-Settles : (r : LogRecord) → Lasts later r → Settles (r ∷ [])
  record-Settles (op_put, e) last =
      elim (Bool-cases
        (same_place (routed_partition e.map_name e.key) e.map_name e.key q name key)) [
          | inl here ↦ inr (
            some (record { stored = e.contents; expire_at = e.expire_at }),
            λ u. replayed-put later u e q name key last ∙ rw here refl,
          )
          | inr apart ↦ inl (λ u. replayed-put later u e q name key last ∙ rw apart refl)
        ]
  record-Settles (op_remove, e) last =
      elim (Bool-cases
        (same_place (routed_partition e.map_name e.key) e.map_name e.key q name key)) [
          | inl here ↦ inr (none, λ u. replayed-remove later u e q name key ∙ rw here refl)
          | inr apart ↦ inl (λ u. replayed-remove later u e q name key ∙ rw apart refl)
        ]
  record-Settles (op_clear, e) last = elim (Bool-cases (same e.map_name name)) [
    | inl here ↦ inr (none, λ u. replayed-clear later u e q name key ∙ rw here refl)
    | inr apart ↦ inl (λ u. replayed-clear later u e q name key ∙ rw apart refl)
  ]

  replayed-Settles : (rs : List LogRecord) → AllLast later rs → Settles rs
  unfolding replay_calls
  replayed-Settles [] last = inl (λ u. refl)
  replayed-Settles (r ∷ rs) (one, last) = elim (replayed-Settles rs last) [
    | inr (v, fixed) ↦ inr (v, λ u. fixed (replayed later (r ∷ []) u))
    | inl kept ↦ elim (record-Settles r one) [
      | inr (v, fixed) ↦ inr (v, λ u. kept (replayed later (r ∷ []) u) ∙ fixed u)
      | inl same_here ↦ inl (λ u. kept (replayed later (r ∷ []) u) ∙ same_here u)
    ]
  ]

-- A store that agrees with what the replay of the records on some store gives still does after they are
-- replayed on it.
replayed-Agree :
    (later : ℕ) (rs : List LogRecord) (s base r : Store)
    → AllLast later rs
    → Agree later s (replayed later rs base)
    → Agree later s r
    → Agree later s (replayed later rs r)
replayed-Agree later rs s base r last followed agree q name key lt =
    elim (replayed-Settles later q name key rs last) [
      | inl kept ↦ agree q name key lt ∙ ap (live later) (sym (kept r))
      | inr (v, fixed) ↦ followed q name key lt ∙ ap (live later) (fixed base ∙ sym (fixed r))
    ]

-- Requests are served, with every append synced, on a node whose log is empty, and a snapshot of it is
-- written; then the node crashes before the log is truncated, with or without some bytes of one more
-- record. A node with an empty store restores the snapshot at `at` and opens the whole log at `later`. If
-- in the first store no key stood twice and each entry stood in the partition of its key, each record can
-- be marshalled and fits, no put that was logged has lapsed by `later`, nothing in the snapshot or the log
-- is a queue in the format of old, and `later` is after `at` and before neither the snapshot nor a request,
-- then the recovered store reads the same at `later` as the lost one.
pub restart-untruncated :
    (c : Codec) (n fresh : Node) (before : History) (taken at later : ℕ) (r : LogRecord) (k : ℕ)
    → n.wal ≡ some (some [])
    → IsStore n.store
    → IsHome n.store
    → ((p : ℕ) (name key : Bytes) → find_at fresh.store p name key ≡ none)
    → AllBefore later before
    → AllFit c (records_of before n.store)
    → AllLast later (records_of before n.store)
    → AllModern (unlapsed (snapshot (serve_all c before n) taken) at)
    → slt later taken ≡ false
    → slt at later ≡ true
    → Fits c r
    → k < length (bytes_of_record c r)
    → (file : Bytes) × ((serve_all c before n).wal ≡ some (some file))
      × Agree later
          (serve_all c before n).store
          (open_wal c
            (restore fresh (snapshot (serve_all c before n) taken) at)
            (file ++ take k (bytes_of_record c r))
            later).store
unfolding open_wal
restart-untruncated c n fresh before taken at later r k empty well home nothing in_order fits last
      modern since past hr hk =
    let rs = records_of before n.store in
    let m = serve_all c before n in
    let restored =
      restore-snapshot m fresh taken at later (serve_all-IsStore c before n empty fits well)
        (serve_all-IsHome c before n empty fits well home) modern nothing since past in
    (
      log_bytes c rs,
      ap (λ (x : Node). x.wal) (serve_all-store_after c before n [] empty fits),
      subst
          (λ (calls : List (ℕ × Entry)).
            Agree later m.store
              (replay_calls calls later (restore fresh (snapshot m taken) at).store))
          (sym (ap (λ (x : List (ℕ × Entry) × ℕ). x.0) (replay_wal-torn c rs r k fits hr hk)))
          (replayed-Agree later rs m.store n.store (restore fresh (snapshot m taken) at).store last
            (serve_all-Agree c later n.store before n empty well in_order fits last
              (λ q name key lt. refl))
            restored),
    )
