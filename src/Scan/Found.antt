-- ===== src/Scan/Found.antt =====
-- imap/store.go: what a shard holds after a walk over it, and what the walk returns.
use medusa.Base.{
  ◌≡◌, refl, ap, sym, ◌∙◌, List, [], ◌∷◌, ◌++◌, Bytes, Bool, true, false, not, ◌&&◌, ◌||◌, Option,
  none, some, same, same_iff, same→eq, arith, Option-cases, Bool-cases, inl, inr, if◌then◌else◌,
  ◌==◌,
}
use medusa.GoMap
use medusa.GoMap.{GoMap, only_if, lookup-keep_if, lookup-absent}
use medusa.Shard.{Shard, Bucket, Value, find, bucket, find-discard}
use medusa.Scan.{
  Test, Entry, retain, put_back, bucket_entries, entries_if, captured, listed, drop_entry,
  drop_entries,
}
use medusa.Scan.Distinct.{IsShard, Distinct-bucket, has-retain}

bucket-absent : (sh : Shard) (name : Bytes) → GoMap.has name sh ≡ false → bucket sh name ≡ []
unfolding bucket
bucket-absent sh name h = ground (arith, lookup-absent name sh h)

bucket-put_back :
    (sh : Shard) (j name : Bytes) (c : Bucket)
    → GoMap.has j sh ≡ false
    → bucket (put_back j c sh) name ≡ (if same j name then c else bucket sh name)
unfolding put_back
bucket-put_back sh j name [] h = elim (Bool-cases (same j name)) [
  | inl e ↦
      rw e (bucket-absent sh name (ap (λ (k : Bytes). GoMap.has k sh) (sym (same→eq j name e)) ∙ h))
  | inr e ↦ rw e
]
bucket-put_back sh j name (x ∷ c) h = unfold bucket GoMap.lookup in ground arith

bucket-cons :
    (j name : Bytes) (b : Bucket) (sh : Shard)
    → bucket ((j, b) ∷ sh) name ≡ (if same j name then b else bucket sh name)
unfolding bucket GoMap.lookup
bucket-cons j name b sh = ground arith

bucket-retain :
    (f : Test) (sh : Shard) (name : Bytes)
    → GoMap.Distinct sh
    → bucket (retain f sh) name ≡ GoMap.keep_if (f name) (bucket sh name)
unfolding retain
bucket-retain f [] name d = unfold bucket GoMap.keep_if GoMap.lookup in refl
bucket-retain f ((j, b) ∷ sh) name (new, d) =
    bucket-put_back (retain f sh) j name (GoMap.keep_if (f j) b) (has-retain f sh j new)
    ∙ elim (Bool-cases (same j name)) [
      | inl e ↦ rw (bucket-cons, e) (ap (λ (k : Bytes). GoMap.keep_if (f k) b) (same→eq j name e))
      | inr e ↦ rw (bucket-cons, e) (bucket-retain f sh name d)
    ]

-- A walk that deletes leaves the entries that pass the test, and no other.
pub find-retain :
    (f : Test) (sh : Shard) (name key : Bytes)
    → IsShard sh
    → find (retain f sh) name key ≡ only_if (f name key) (find sh name key)
unfolding find
find-retain f sh name key (d, each) =
    rw (bucket-retain f sh name d)
      (lookup-keep_if (f name) key (bucket sh name) (Distinct-bucket sh name each))

-- The value is there, passes the test, and is `v`.
abbrev pub holds : (Value → Bool) → Value → Option Value → Bool
holds g v none = false
holds g v (some w) = g w && (v.expire_at == w.expire_at && same v.stored w.stored)

pub listed-append :
    (es fs : List Entry) (name key : Bytes) (v : Value)
    → listed (es ++ fs) name key v ≡ (listed es name key v || listed fs name key v)
listed-append [] fs name key v = refl
listed-append (e ∷ es) fs name key v = ground (arith, listed-append es fs name key v)

listed-bucket :
    (f : Test) (j : Bytes) (b : Bucket) (name key : Bytes) (v : Value)
    → GoMap.Distinct b
    → listed (bucket_entries f j b) name key v
      ≡ (same j name && holds (f j key) v (GoMap.lookup key b))
unfolding bucket_entries GoMap.lookup
listed-bucket f j [] name key v d = ground arith
listed-bucket f j ((k, w) ∷ b) name key v (new, d) = ground (
  arith,
  same_iff k key,
  same_iff j name,
  listed-bucket f j b name key v d,
  lookup-absent k b new,
)

find-absent :
    (sh : Shard) (j name key : Bytes)
    → GoMap.has j sh ≡ false
    → same j name ≡ true
    → find sh name key ≡ none
unfolding find
find-absent sh j name key new e =
    ap (GoMap.lookup key)
      (bucket-absent sh name (ap (λ (k : Bytes). GoMap.has k sh) (sym (same→eq j name e)) ∙ new))
    ∙ unfold GoMap.lookup in refl

pub listed-entries_if :
    (f : Test) (sh : Shard) (name key : Bytes) (v : Value)
    → IsShard sh
    → listed (entries_if f sh) name key v ≡ holds (f name key) v (find sh name key)
unfolding entries_if find
listed-entries_if f [] name key v w = unfold bucket GoMap.lookup in refl
listed-entries_if f ((j, b) ∷ sh) name key v ((new, d), (hb, each)) =
    listed-append (bucket_entries f j b) (entries_if f sh) name key v
    ∙ rw
        (
          bucket-cons,
          listed-bucket f j b name key v hb,
          listed-entries_if f sh name key v (d, each),
        )
        (elim (Bool-cases (same j name)) [
          | inl e ↦ ground (arith, same_iff j name, find-absent sh j name key new e)
          | inr e ↦ rw e
        ])

-- A drop spares the entry unless it is what was captured.
find-drop_entry :
    (e : Entry) (sh : Shard) (name key : Bytes)
    → find (drop_entry e sh).1 name key
      ≡ only_if
          (λ v. not (same e.map_name name && same e.key key && captured e v))
          (find sh name key)
unfolding drop_entry
find-drop_entry e sh name key = elim (Option-cases (find sh e.map_name e.key)) [
  | inl o ↦ ground (arith, same_iff e.map_name name, same_iff e.key key)
  | inr (w, o) ↦ ground (
    arith,
    same_iff e.map_name name,
    same_iff e.key key,
    find-discard sh e.map_name name e.key key,
  )
]

only_if_twice :
    (a b : Value → Bool) (o : Option Value)
    → only_if (λ v. not (b v)) (only_if (λ v. not (a v)) o) ≡ only_if (λ v. not (a v || b v)) o
only_if_twice a b none = refl
only_if_twice a b (some v) = ground arith

only_if_always : (o : Option Value) → o ≡ only_if (λ v. not false) o
only_if_always none = refl
only_if_always (some v) = refl

pub find-drop_entries :
    (es : List Entry) (sh : Shard) (name key : Bytes)
    → find (drop_entries es sh).1 name key
      ≡ only_if (λ v. not (listed es name key v)) (find sh name key)
unfolding drop_entries
find-drop_entries [] sh name key = only_if_always (find sh name key)
find-drop_entries (e ∷ es) sh name key =
    find-drop_entries es (drop_entry e sh).1 name key
    ∙ ap (only_if (λ v. not (listed es name key v))) (find-drop_entry e sh name key)
    ∙ only_if_twice (λ v. same e.map_name name && same e.key key && captured e v)
        (λ v. listed es name key v) (find sh name key)
