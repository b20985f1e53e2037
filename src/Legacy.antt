-- ===== src/Legacy.antt =====
-- imap/queue.go and imap/store.go: restoring entries, with the upgrade of a queue that was one
-- packed value, and the order in which a partition's entries are sent.
use medusa.Base.{
  ℕ, zero, suc, ◌+◌, ◌%◌, ◌^◌, ◌≡◌, refl, ◌∙◌, List, [], ◌∷◌, ◌++◌, Bytes, Bool, true, false, not,
  ◌&&◌, if◌then◌else◌, same, ltb, ◌==◌, none, some, length, arith, length-append, Bool-cases, inl,
  inr,
}
use medusa.Store
use medusa.Store.{Store}
use medusa.Scan.{Entry}
use medusa.Queue.{
  queue_map, queue_seg_map, max_seg_bytes, queue_seg_key, queue_head, append_packed,
  encode_queue_meta, routed_partition,
}

abbrev lasting_entry : Bytes → Bytes → Bytes → Entry
lasting_entry name key contents = record {
  map_name = name;
  key = key;
  contents = contents;
  expire_at = 0;
}

-- `flush`
unfoldable pub flush : Bytes → ℕ → Bytes → List Entry → List Entry
flush name tail seg out =
    if length seg == 0
    then out
    else out ++ (lasting_entry queue_seg_map (queue_seg_key tail name) seg ∷ [])

-- The loop of `convertLegacyQueue`, and what follows it. A round takes at least four bytes, so the
-- length of `packed` is enough fuel.
unfoldable pub convert_loop : ℕ → Bytes → Bytes → ℕ → ℕ → Bytes → List Entry → List Entry
unfolding flush
convert_loop zero name packed tail count seg out = []
convert_loop (suc fuel) name packed tail count seg out = elim (queue_head packed) [
  | none ↦
      (if count == 0
        then []
        else flush name tail seg out
          ++ (lasting_entry queue_map name (encode_queue_meta 0 tail count) ∷ []))
  | some (item, rest) ↦
      let full = not (length seg == 0) && ltb max_seg_bytes (length seg + 4 + length item) in
      let tail' = if full then (tail + 1) % 2 ^ 64 else tail in
      let seg' = if full then [] else seg in
      let out' = if full then flush name tail seg out else out in
      convert_loop fuel name rest tail' ((count + 1) % 2 ^ 64) (append_packed seg' item) out'
]

unfoldable pub convert_legacy_queue : Bytes → Bytes → List Entry
unfolding convert_loop
convert_legacy_queue name packed = convert_loop (length packed + 1) name packed 0 0 [] []

-- The entry is stored in its partition.
unfoldable pub load_entries : List Entry → ℕ → Store → Store
unfolding Store.put routed_partition
load_entries [] now s = s
load_entries (e ∷ es) now s =
    load_entries es now
      (Store.put s (routed_partition e.map_name e.key) e.map_name e.key e.contents e.expire_at
        now).1

-- `loadAll`; its call of itself is on converted entries, whose metadata has 24 bytes and is not
-- converted again.
unfoldable pub load_all : List Entry → ℕ → Store → Store
unfolding convert_legacy_queue load_entries
load_all [] now s = s
load_all (e ∷ es) now s =
    if same e.map_name queue_map && (not (length e.contents == 24) && ltb 0 (length e.contents))
    then load_all es now (load_entries (convert_legacy_queue e.key e.contents) now s)
    else load_all es now (load_entries (e ∷ []) now s)

-- `e.mapName == queueMap`
abbrev is_meta : Entry → Bool
is_meta e = same e.map_name queue_map

-- The loop of `orderQueueMetaLast`
unfoldable pub split_metas : List Entry → List Entry → List Entry → List Entry
split_metas [] ordered metas = ordered ++ metas
split_metas (e ∷ es) ordered metas =
    if is_meta e
    then split_metas es ordered (metas ++ (e ∷ []))
    else split_metas es (ordered ++ (e ∷ [])) metas

unfoldable pub order_queue_meta_last : List Entry → List Entry
unfolding split_metas
order_queue_meta_last entries = split_metas entries [] []

-- Only metadata follows metadata.
abbrev pub all_metas : List Entry → Bool
all_metas [] = true
all_metas (e ∷ es) = is_meta e && all_metas es

abbrev pub metas_last : List Entry → Bool
metas_last [] = true
metas_last (e ∷ es) = if is_meta e then all_metas es else metas_last es

abbrev no_metas : List Entry → Bool
no_metas [] = true
no_metas (e ∷ es) = not (is_meta e) && no_metas es

all_metas-snoc :
    (es : List Entry) (e : Entry)
    → all_metas es ≡ true
    → is_meta e ≡ true
    → all_metas (es ++ (e ∷ [])) ≡ true
all_metas-snoc [] e h m = ground arith
all_metas-snoc (x ∷ es) e h m = ground (arith, all_metas-snoc es e)

no_metas-snoc :
    (es : List Entry) (e : Entry)
    → no_metas es ≡ true
    → is_meta e ≡ false
    → no_metas (es ++ (e ∷ [])) ≡ true
no_metas-snoc [] e h m = ground arith
no_metas-snoc (x ∷ es) e h m = ground (arith, no_metas-snoc es e)

all-last : (ms : List Entry) → all_metas ms ≡ true → metas_last ms ≡ true
all-last [] h = refl
all-last (x ∷ ms) h = ground arith

last-append :
    (es ms : List Entry) → no_metas es ≡ true → all_metas ms ≡ true → metas_last (es ++ ms) ≡ true
last-append [] ms h k = all-last ms k
last-append (x ∷ es) ms h k = ground (arith, last-append es ms)

last-split :
    (es ordered metas : List Entry)
    → no_metas ordered ≡ true
    → all_metas metas ≡ true
    → (metas_last (split_metas es ordered metas) ≡ true)
      × (length (split_metas es ordered metas) ≡ length es + length ordered + length metas)
unfolding split_metas
last-split [] ordered metas h k =
    (last-append ordered metas h k, length-append ordered metas ∙ omega arith)
last-split (e ∷ es) ordered metas h k = elim (Bool-cases (is_meta e)) [
  | inl m ↦
      let (a, b) = last-split es ordered (metas ++ (e ∷ [])) h (all_metas-snoc metas e k m) in
      rw m (a, b ∙ omega (arith, length-append metas (e ∷ [])))
  | inr m ↦
      let (a, b) = last-split es (ordered ++ (e ∷ [])) metas (no_metas-snoc ordered e h m) k in
      rw m (a, b ∙ omega (arith, length-append ordered (e ∷ [])))
]

-- The reordered entries are as many as before, and once a queue's metadata has been sent only
-- metadata follows, so that a receiver never holds metadata of segments that are still to come.
pub order_queue_meta_last_lem :
    (entries : List Entry)
    → (metas_last (order_queue_meta_last entries) ≡ true)
      × (length (order_queue_meta_last entries) ≡ length entries)
unfolding order_queue_meta_last
order_queue_meta_last_lem entries =
    let (a, b) = last-split entries [] [] refl refl in (a, b ∙ omega arith)
