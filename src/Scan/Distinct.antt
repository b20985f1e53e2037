-- ===== src/Scan/Distinct.antt =====
-- imap/store.go: no key stands twice in a shard, and every change of an entry keeps it so.
use medusa.Base.{
  ◌≡◌, refl, subst, [], ◌∷◌, Bytes, false, some, same, arith, Option-cases, Bool-cases, inl, inr,
}
use medusa.GoMap
use medusa.GoMap.{GoMap, Distinct-insert, Distinct-delete, Distinct-keep_if}
use medusa.Shard.{
  Shard, Bucket, Value, bucket, assign, discard, open_bucket, put_bucket, discard_reclaim,
}
use medusa.Scan.{Test, retain, put_back}

-- No key stands twice in a bucket of the shard.
abbrev pub EachDistinct : Shard → Type 0
EachDistinct [] = Unit
EachDistinct ((name, inner) ∷ sh) = GoMap.Distinct inner × EachDistinct sh

-- A shard is a map of maps: no key stands twice in it, nor in a bucket of it.
abbrev pub IsShard : Shard → Type 0
IsShard sh = GoMap.Distinct sh × EachDistinct sh

pub Distinct-bucket :
    (sh : Shard) (name : Bytes) → EachDistinct sh → GoMap.Distinct (bucket sh name)
unfolding bucket GoMap.lookup
Distinct-bucket [] name d = tt
Distinct-bucket ((j, b) ∷ sh) name (here, d) = elim (Bool-cases (same j name)) [
  | inl e ↦ rw (e, bucket) here
  | inr e ↦ rw (e, bucket) (Distinct-bucket sh name d)
]

EachDistinct-insert :
    (name : Bytes) (b : Bucket) (sh : Shard)
    → GoMap.Distinct b
    → EachDistinct sh
    → EachDistinct (GoMap.insert name b sh)
unfolding GoMap.insert
EachDistinct-insert name b [] h d = (h, tt)
EachDistinct-insert name b ((j, c) ∷ sh) h (hc, d) = elim (Bool-cases (same j name)) [
  | inl e ↦ rw e (h, d)
  | inr e ↦ rw e (hc, EachDistinct-insert name b sh h d)
]

EachDistinct-delete :
    (name : Bytes) (sh : Shard) → EachDistinct sh → EachDistinct (GoMap.delete name sh)
unfolding GoMap.delete
EachDistinct-delete name [] d = tt
EachDistinct-delete name ((j, c) ∷ sh) (hc, d) = elim (Bool-cases (same j name)) [
  | inl e ↦ rw e (EachDistinct-delete name sh d)
  | inr e ↦ rw e (hc, EachDistinct-delete name sh d)
]

IsShard-insert :
    (name : Bytes) (b : Bucket) (sh : Shard)
    → GoMap.Distinct b
    → IsShard sh
    → IsShard (GoMap.insert name b sh)
IsShard-insert name b sh h (d, each) =
    (Distinct-insert name b sh d, EachDistinct-insert name b sh h each)

pub IsShard-assign :
    (sh : Shard) (name key : Bytes) (v : Value) → IsShard sh → IsShard (assign sh name key v)
unfolding assign
IsShard-assign sh name key v w =
    IsShard-insert name _ sh (Distinct-insert key v _ (Distinct-bucket sh name w.1)) w

pub IsShard-open_bucket : (sh : Shard) (name : Bytes) → IsShard sh → IsShard (open_bucket sh name)
unfolding open_bucket
IsShard-open_bucket sh name w = elim (Option-cases (GoMap.lookup name sh)) [
  | inl e ↦ rw (e, open_bucket) (IsShard-insert name [] sh tt w)
  | inr (b, e) ↦ rw (e, open_bucket) w
]

Distinct-looked_up :
    (sh : Shard) (name : Bytes) (b : Bucket)
    → GoMap.lookup name sh ≡ some b
    → EachDistinct sh
    → GoMap.Distinct b
Distinct-looked_up sh name b e d =
    let here : bucket sh name ≡ b = unfold bucket in rw (e, bucket) in
    subst GoMap.Distinct here (Distinct-bucket sh name d)

pub IsShard-discard : (sh : Shard) (name key : Bytes) → IsShard sh → IsShard (discard sh name key)
unfolding discard
IsShard-discard sh name key w = elim (Option-cases (GoMap.lookup name sh)) [
  | inl e ↦ rw (e, discard) w
  | inr (b, e) ↦
      rw (e, discard)
        (IsShard-insert name _ sh (Distinct-delete key b (Distinct-looked_up sh name b e w.1)) w)
]

pub IsShard-delete : (name : Bytes) (sh : Shard) → IsShard sh → IsShard (GoMap.delete name sh)
IsShard-delete name sh (d, each) = (Distinct-delete name sh d, EachDistinct-delete name sh each)

IsShard-put_bucket :
    (sh : Shard) (name : Bytes) (b : Bucket)
    → GoMap.Distinct b
    → IsShard sh
    → IsShard (put_bucket sh name b)
unfolding put_bucket
IsShard-put_bucket sh name [] h w = IsShard-delete name sh w
IsShard-put_bucket sh name (x ∷ b) h w = IsShard-insert name (x ∷ b) sh h w

pub IsShard-discard_reclaim :
    (sh : Shard) (name key : Bytes) → IsShard sh → IsShard (discard_reclaim sh name key)
unfolding discard_reclaim
IsShard-discard_reclaim sh name key w = elim (Option-cases (GoMap.lookup name sh)) [
  | inl e ↦ rw (e, discard_reclaim) w
  | inr (b, e) ↦
      rw (e, discard_reclaim)
        (IsShard-put_bucket sh name _ (Distinct-delete key b (Distinct-looked_up sh name b e w.1))
          w)
]

has-put_back :
    (sh : Shard) (name other : Bytes) (b : Bucket)
    → GoMap.has name ((other, b) ∷ sh) ≡ false
    → GoMap.has name (put_back other b sh) ≡ false
unfolding put_back GoMap.has
has-put_back sh name other [] h = ground arith
has-put_back sh name other (x ∷ b) h = h

pub has-retain :
    (f : Test) (sh : Shard) (name : Bytes)
    → GoMap.has name sh ≡ false
    → GoMap.has name (retain f sh) ≡ false
unfolding retain GoMap.has put_back
has-retain f [] name h = refl
has-retain f ((j, b) ∷ sh) name h =
    has-put_back (retain f sh) name j (GoMap.keep_if (f j) b) (ground (arith, has-retain f sh name))

IsShard-put_back :
    (sh : Shard) (name : Bytes) (b : Bucket)
    → GoMap.has name sh ≡ false
    → GoMap.Distinct b
    → IsShard sh
    → IsShard (put_back name b sh)
unfolding put_back
IsShard-put_back sh name [] new h w = w
IsShard-put_back sh name (x ∷ b) new h (d, each) = ((new, d), (h, each))

pub IsShard-retain : (f : Test) (sh : Shard) → IsShard sh → IsShard (retain f sh)
unfolding retain
IsShard-retain f [] w = w
IsShard-retain f ((j, b) ∷ sh) ((new, d), (hb, each)) =
    IsShard-put_back (retain f sh) j (GoMap.keep_if (f j) b) (has-retain f sh j new)
      (Distinct-keep_if (f j) b hb) (IsShard-retain f sh (d, each))
