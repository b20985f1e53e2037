-- ===== src/Service/Crash.antt =====
-- imap/service.go: a checkpoint, a crash later, and the restart from the snapshot and the log.
use medusa.Base.{
  ℕ, ◌≡◌, ◌<◌, refl, ap, sym, subst, ◌∙◌, List, [], ◌∷◌, ◌++◌, Bytes, true, false, Option, none,
  some, length, take, append-nil, append_assoc,
}
use medusa.Bytes.{slt}
use medusa.Store.{Store}
use medusa.Invariant.{IsStore}
use medusa.Scan.{Entry}
use medusa.Wal.{Codec, Wal, emptied, truncate_locked}
use medusa.Wal.Replay.{LogRecord, log_bytes, Fits, AllFit, AllFit-split, bytes_of_record}
use medusa.Service.{Node, Fault, ServiceError, wal_failed, backing_failed, with_state}
use medusa.Service.Restart.{open_wal, restore, snapshot, checkpoint, unlapsed}
use medusa.Service.Agree.{Agree, find_at}
use medusa.Service.Change.{change}
use medusa.Service.Logged.{HasLog, changed_to, serve-change}
use medusa.Service.Replayed.{AllLast}
use medusa.Service.Recovery.{
  History, serve_all, records_of, AllBefore, change-IsStore, open_wal-serve_all,
}
use medusa.Service.Home.{IsHome, change-IsHome}
use medusa.Service.Loading.{AllModern}
use medusa.Service.Snapshot.{restore-snapshot}

-- The store after the requests
abbrev pub store_after : History → Store → Store
store_after [] s = s
store_after ((q, now) ∷ qs) s = store_after qs (change q now s).1

store_after-IsStore : (qs : History) (s : Store) → IsStore s → IsStore (store_after qs s)
store_after-IsStore [] s w = w
store_after-IsStore ((q, now) ∷ qs) s w =
    store_after-IsStore qs (change q now s).1 (change-IsStore q now s w)

store_after-IsHome : (qs : History) (s : Store) → IsStore s → IsHome s → IsHome (store_after qs s)
store_after-IsHome [] s w h = h
store_after-IsHome ((q, now) ∷ qs) s w h =
    store_after-IsHome qs (change q now s).1 (change-IsStore q now s w) (change-IsHome q now s w h)

module _ (c : Codec) where
  -- Serving requests changes the store and appends their records to the log.
  pub serve_all-store_after :
      (qs : History) (n : Node) (rs : List LogRecord)
      → HasLog c n rs
      → AllFit c (records_of qs n.store)
      → serve_all c qs n ≡ changed_to c n rs (records_of qs n.store, store_after qs n.store)
  serve_all-store_after [] n rs w h =
      ap (with_state n n.store) w
      ∙ ap (λ (l : List LogRecord). with_state n n.store (some (some (log_bytes c l))))
          (sym (append-nil rs))
  serve_all-store_after ((q, now) ∷ qs) n rs w h =
      let d = change q now n.store in
      let (fit, fits) = AllFit-split c d.0 (records_of qs d.1) h in
      ap (serve_all c qs) (serve-change c n rs w now q fit)
      ∙ serve_all-store_after qs (changed_to c n rs d) (rs ++ d.0) refl fits
      ∙ ap (λ (l : List LogRecord). with_state n (store_after qs d.1) (some (some (log_bytes c l))))
          (append_assoc rs d.0 (records_of qs d.1))

  pub serve_all-IsStore :
      (qs : History) (n : Node)
      → n.wal ≡ some (some [])
      → AllFit c (records_of qs n.store)
      → IsStore n.store
      → IsStore (serve_all c qs n).store
  serve_all-IsStore qs n empty fits well =
      subst (λ (x : Node). IsStore x.store) (sym (serve_all-store_after qs n [] empty fits))
        (store_after-IsStore qs n.store well)

  pub serve_all-IsHome :
      (qs : History) (n : Node)
      → n.wal ≡ some (some [])
      → AllFit c (records_of qs n.store)
      → IsStore n.store
      → IsHome n.store
      → IsHome (serve_all c qs n).store
  serve_all-IsHome qs n empty fits well home =
      subst (λ (x : Node). IsHome x.store) (sym (serve_all-store_after qs n [] empty fits))
        (store_after-IsHome qs n.store well home)

  abbrev checkpoint_by : Node → Option Fault → Option Wal → Option ServiceError × Node
  checkpoint_by n written wal = elim written [
    | some fault ↦ (some (backing_failed fault), n)
    | none ↦ elim wal [
      | none ↦ (none, n)
      | some w ↦
          let (failed, w') = truncate_locked w emptied in
          (
            elim failed [ none ↦ none | some e ↦ some (wal_failed e) ],
            with_state n n.store (some w'),
          )
    ]
  ]

  checkpoint-empties :
      (n : Node) (write : List Entry → Option Fault) (now : ℕ) (file : Bytes)
      → write (snapshot n now) ≡ none
      → n.wal ≡ some (some file)
      → (checkpoint n write emptied now).1 ≡ with_state n n.store (some (some []))
  checkpoint-empties n write now file written w =
      unfold checkpoint truncate_locked in
      ap (λ (o : Option Fault). (checkpoint_by n o n.wal).1) written
      ∙ ap (λ (o : Option Wal). (checkpoint_by n none o).1) w

  -- Requests are served, with every append synced, on a node whose log is empty; a checkpoint is
  -- written and the log emptied; more requests are served; then the node crashes in the middle of writing one more record.
  -- A node with an empty store restores the snapshot at `at` and opens the log at `later`. If in the
  -- first store no key stood twice and each entry stood in the partition of its key, each record can be
  -- marshalled and fits, no put after the checkpoint has lapsed by `later`, nothing in the snapshot or
  -- after it is a queue in the format of old, and `later` is after `at` and before neither the snapshot
  -- nor a request after it, then the recovered store reads the same at `later` as the lost one.
  pub restart-checkpoint :
      (n fresh : Node) (before after : History) (write : List Entry → Option Fault)
      (taken at later : ℕ) (r : LogRecord) (k : ℕ)
      → n.wal ≡ some (some [])
      → IsStore n.store
      → IsHome n.store
      → ((p : ℕ) (name key : Bytes) → find_at fresh.store p name key ≡ none)
      → AllFit c (records_of before n.store)
      → write (snapshot (serve_all c before n) taken) ≡ none
      → AllModern (unlapsed (snapshot (serve_all c before n) taken) at)
      → slt later taken ≡ false
      → slt at later ≡ true
      → AllBefore later after
      → AllFit c (records_of after (serve_all c before n).store)
      → AllLast later (records_of after (serve_all c before n).store)
      → Fits c r
      → k < length (bytes_of_record c r)
      → (file : Bytes) × ((serve_all c after
            (checkpoint (serve_all c before n) write emptied taken).1).wal
          ≡ some (some file))
        × Agree later
            (serve_all c after (checkpoint (serve_all c before n) write emptied taken).1).store
            (open_wal c
              (restore fresh (snapshot (serve_all c before n) taken) at)
              (file ++ take k (bytes_of_record c r))
              later).store
  restart-checkpoint n fresh before after write taken at later r k empty well home nothing fits
        written modern since past in_order fits' last hr hk =
      subst
        (λ (x : Node).
          (file : Bytes) × ((serve_all c after x).wal ≡ some (some file))
          × Agree later (serve_all c after x).store
              (open_wal c (restore fresh (snapshot m taken) at)
                (file ++ take k (bytes_of_record c r)) later).store)
        (sym (
          checkpoint-empties m write taken (log_bytes c (records_of before n.store)) written
            (ap (λ (x : Node). x.wal) (serve_all-store_after before n [] empty fits))))
        (open_wal-serve_all c later (with_state m m.store (some (some [])))
          (restore fresh (snapshot m taken) at) after r k refl well_m
          (restore-snapshot m fresh taken at later well_m home_m modern nothing since past) in_order
          fits' last hr hk)
    where
      m : Node
      m = serve_all c before n

      well_m : IsStore m.store
      well_m = serve_all-IsStore before n empty fits well

      home_m : IsHome m.store
      home_m = serve_all-IsHome before n empty fits well home
