-- ===== src/Owned/Sample.antt =====
-- imap/store.go: what `sampleOwned` picks for eviction.
use medusa.Base.{
  ℕ, ◌⊎◌, inl, inr, subst, Bool-cases, zero, suc, ◌+◌, ◌<◌, ◌≤◌, ◌≡◌, refl, ap, List, [], ◌∷◌, ◌++◌,
  Bytes, Bool, true, false, arith, length, length-append, if◌then◌else◌, leb, ◌==◌,
}
use native.Mathlib.Nat.{add-zero}
use medusa.Partition.{partition_count}
use medusa.Shard.{Shard, Bucket, expired}
use medusa.Store.{Store}
use medusa.Scan.{Entry}
use medusa.Queue.{is_reserved_map}
use medusa.Owned.{
  sum_each, count_bucket, count_shard, count_owned, sample_bucket, sample_shard, sample_from,
  sample_owned,
}

leb→le : (a b : ℕ) → leb a b ≡ true → a ≤ b
leb→le a b h = ground arith

leb_false→lt : (a b : ℕ) → leb a b ≡ false → b < a
leb_false→lt a b h = ground arith

suc_zero : (n : ℕ) → (suc n == 0) ≡ false
suc_zero n = ground arith

leb_zero : (n : ℕ) → leb 0 n ≡ true
leb_zero n = ground arith

-- A walk that found `total` entries: it took them all, or stopped at the limit.
abbrev Took : ℕ → ℕ → List Entry × Bool → Type 0
Took limit total r =
    ((total < limit) × (length r.0 ≡ total) × (r.1 ≡ false))
    ⊎ ((limit ≤ total) × (length r.0 ≡ limit) × (r.1 ≡ true))

Took-next :
    (limit total n : ℕ) (r next : List Entry × Bool)
    → Took limit total r
    → (length r.0 < limit → Took limit (length r.0 + n) next)
    → Took limit (total + n) (if r.1 then (r.0, true) else next)
Took-next limit total n r next (inl (lt, len, done)) h =
    rw done (subst (λ (t : ℕ). Took limit (t + n) next) len (h (omega arith)))
Took-next limit total n r next (inr (le, len, done)) h = rw done (inr (omega arith, len, refl))

Took-if :
    (limit n m : ℕ) (b : Bool) (r q : List Entry × Bool)
    → Took limit n r
    → Took limit m q
    → Took limit (if b then n else m) (if b then r else q)
Took-if limit n m true r q h k = h
Took-if limit n m false r q h k = k

Took-total : (limit n m : ℕ) (r : List Entry × Bool) → n ≡ m → Took limit n r → Took limit m r
Took-total limit n m r e h = subst (λ (t : ℕ). Took limit t r) e h

Took-bucket :
    (limit now : ℕ) (name : Bytes) (b : Bucket) (out : List Entry)
    → length out < limit
    → Took limit (length out + count_bucket now b) (sample_bucket limit now name b out)
unfolding sample_bucket count_bucket
Took-bucket limit now name [] out h = inl (omega arith, omega arith, refl)
Took-bucket limit now name ((k, v) ∷ b) out h =
    let e : Entry = record { map_name = name; key = k; contents = []; expire_at = 0 } in
    let out' = out ++ (e ∷ []) in
    let longer : length out' ≡ length out + 1 = length-append out (e ∷ []) in
    elim (Bool-cases (expired v now)) [
      | inl x ↦ rw x (Took-bucket limit now name b out h)
      | inr x ↦ elim (Bool-cases (leb limit (length out'))) [
        | inl full ↦
            rw (x, full)
              (inr (
                omega (arith, leb→le limit (length out') full),
                omega (arith, leb→le limit (length out') full),
                refl,
              ))
        | inr room ↦
            rw (x, room)
              (Took-total limit (length out' + count_bucket now b) _ _ (omega arith) (
                Took-bucket limit now name b out'
                  (omega (arith, leb_false→lt limit (length out') room))))
      ]
    ]

Took-shard :
    (limit now : ℕ) (sh : Shard) (out : List Entry)
    → length out < limit
    → Took limit (length out + count_shard is_reserved_map now sh) (sample_shard limit now sh out)
unfolding sample_shard count_shard
Took-shard limit now [] out h = inl (omega arith, omega arith, refl)
Took-shard limit now ((name, b) ∷ sh) out h = elim (Bool-cases (is_reserved_map name)) [
  | inl x ↦ rw x (Took-shard limit now sh out h)
  | inr x ↦ rw x (
      Took-total limit (length out + count_bucket now b + count_shard is_reserved_map now sh) _ _
        (omega arith)
        (Took-next limit (length out + count_bucket now b) (count_shard is_reserved_map now sh)
          (sample_bucket limit now name b out) _ (Took-bucket limit now name b out h)
          (Took-shard limit now sh (sample_bucket limit now name b out).0)))
]

-- The sum over the partitions from `p` on, `n` of them.
abbrev span : (ℕ → ℕ) → ℕ → ℕ → ℕ
span f p zero = 0
span f p (suc n) = f p + span f (p + 1) n

span-sum_each : (f : ℕ → ℕ) (p n : ℕ) → sum_each f p + span f p n ≡ sum_each f (p + n)
unfolding sum_each
span-sum_each f p zero = omega (arith, ap (sum_each f) (add-zero p))
span-sum_each f p (suc n) =
    let next : p + 1 ≡ suc p = omega arith in
    let over : p + suc n ≡ p + 1 + n = omega arith in
    omega (arith, span-sum_each f (p + 1) n, ap (sum_each f) next, ap (sum_each f) over)

span-all : (f : ℕ → ℕ) (n : ℕ) → span f 0 n ≡ sum_each f n
unfolding sum_each
span-all f n =
    let over : 0 + n ≡ n = omega arith in omega (arith, span-sum_each f 0 n, ap (sum_each f) over)

abbrev evictable : (ℕ → Bool) → ℕ → Store → ℕ → ℕ
evictable owned now s p = if owned p then count_shard is_reserved_map now (s.shards p) else 0

Took-from :
    (limit now : ℕ) (owned : ℕ → Bool) (s : Store) (p n : ℕ) (out : List Entry)
    → length out < limit
    → Took limit
        (length out + span (evictable owned now s) p n)
        (sample_from limit now owned s p n out)
unfolding sample_from
Took-from limit now owned s p zero out h = inl (omega arith, omega arith, refl)
Took-from limit now owned s p (suc n) out h = elim (Bool-cases (owned p)) [
  | inr x ↦ rw x (
      Took-total limit (length out + span (evictable owned now s) (p + 1) n) _ _ (omega arith)
        (Took-from limit now owned s (p + 1) n out h))
  | inl x ↦
      let here = count_shard is_reserved_map now (s.shards p) in
      let more = span (evictable owned now s) (p + 1) n in
      rw x (
        Took-total limit (length out + here + more) _ _ (omega arith) (
          Took-next limit (length out + here) more (sample_shard limit now (s.shards p) out) _
            (Took-shard limit now (s.shards p) out h)
            (Took-from limit now owned s (p + 1) n (sample_shard limit now (s.shards p) out).0)))
]

Took-length :
    (limit total : ℕ) (r : List Entry × Bool)
    → Took limit total r
    → length r.0 ≡ (if leb limit total then limit else total)
Took-length limit total r (inl (lt, len, done)) = ground arith
Took-length limit total r (inr (le, len, done)) = ground arith

-- The same for any number of partitions.
length-sample_of :
    (owned : ℕ → Bool) (limit now n : ℕ) (s : Store)
    → length (if limit == 0 then [] else (sample_from limit now owned s 0 n []).0) ≡ (
        if leb limit
          (sum_each (λ p. if owned p then count_shard is_reserved_map now (s.shards p) else 0) n)
        then limit
        else sum_each (λ p. if owned p then count_shard is_reserved_map now (s.shards p) else 0) n)
length-sample_of owned zero now n s = rw (leb_zero (sum_each (evictable owned now s) n)) refl
length-sample_of owned (suc limit) now n s =
    let total = sum_each (evictable owned now s) n in
    let start : length {A = Entry} [] + span (evictable owned now s) 0 n ≡ total =
      omega (arith, span-all (evictable owned now s) n) in
    rw (suc_zero limit) (
      Took-length (suc limit) total (sample_from (suc limit) now owned s 0 n []) (
        Took-total (suc limit) _ total _ start
          (Took-from (suc limit) now owned s 0 n [] (omega arith))))

-- Eviction picks as many entries as it is asked for, or all that `countOwned` counts if there are
-- fewer: the live entries of the owned partitions, those of the queues left out.
pub length-sample_owned :
    (owned : ℕ → Bool) (limit now : ℕ) (s : Store)
    → length (sample_owned owned limit now s)
      ≡ (if leb limit (count_owned owned now s) then limit else count_owned owned now s)
unfolding sample_owned count_owned
length-sample_owned owned limit now s = length-sample_of owned limit now partition_count s
