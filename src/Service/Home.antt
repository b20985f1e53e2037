-- ===== src/Service/Home.antt =====
-- imap/service.go: every request leaves each entry in the partition that its key is routed to.
use medusa.Base.{
  ◌⊎◌, ℕ, ◌<◌, ◌≡◌, refl, ap, sym, ◌∙◌, Bytes, Bool, true, false, Option, none, some, arith, inl,
  inr, Bool-cases, if◌then◌else◌, ◌==◌, ==_iff, same, same_iff,
}
use medusa.GoMap
use medusa.GoMap.{only_if}
use medusa.Partition.{partition_count, for_key}
use medusa.Shard.{Value, find}
use medusa.Processor.{Action, Processor, keep, set, del, lookup_processor}
use medusa.Txn.{Txn}
use medusa.Store
use medusa.Store.{Store, new_store, set_shard, update, update_multi, apply_action}
use medusa.Reads.{same_place}
use medusa.Queue.{queue_map, queue_seg_map, routed_partition}
use medusa.Queue.Keys.{home_ordinary}
use medusa.Queue.Closed.{Keeps, queue_op-Keeps}
use medusa.Scan.{unexpired, sweep_shard}
use medusa.Scan.Found.{find-retain}
use medusa.Owned.{sweep_expired}
use medusa.Invariant.{IsStore}
use medusa.Service.{expire_from_ttl}
use medusa.Service.Agree.{
  find_at, find-put, find-remove, find-clear_map, find-keep, find-del, find-txn_set, find-txn_del,
  find-set_shard,
}
use medusa.Service.Change.{
  Request, change, put, remove, evict_key, execute, clear, sweep_now, execute_change,
}

-- Every entry of the store stands in the partition that its key is routed to.
abbrev pub IsHome : Store → Type 0
IsHome s =
    (p : ℕ) (name key : Bytes) (v : Value)
    → p < partition_count
    → find_at s p name key ≡ some v
    → routed_partition name key ≡ p

IsHome-written :
    (s s' : Store) (p : ℕ) (name key : Bytes) (o : Option Value)
    → routed_partition name key ≡ p
    → ((q : ℕ) (n k : Bytes)
        → find_at s' q n k ≡ (if same_place p name key q n k then o else find_at s q n k))
    → IsHome s
    → IsHome s'
IsHome-written s s' p name key o home found h q n k v lt e =
    elim (Bool-cases (same_place p name key q n k)) [
      | inl here ↦
          let at_p : q ≡ p = ground (arith, here, ==_iff q p) in
          let n_eq : name ≡ n = ground (arith, here, same_iff name n) in
          let k_eq : key ≡ k = ground (arith, here, same_iff key k) in
          (λ i. routed_partition (sym n_eq i) (sym k_eq i)) ∙ home ∙ sym at_p
      | inr other ↦ h q n k v lt (sym (found q n k ∙ rw other) ∙ e)
    ]

-- What is found is what was, or nothing.
IsHome-fewer :
    (s s' : Store)
    → ((q : ℕ) (n k : Bytes) → (find_at s' q n k ≡ find_at s q n k) ⊎ (find_at s' q n k ≡ none))
    → IsHome s
    → IsHome s'
IsHome-fewer s s' found h q n k v lt e = elim (found q n k) [
  | inl kept ↦ h q n k v lt (sym kept ∙ e)
  | inr gone ↦ let clash : none ≡ some v = sym gone ∙ e in cc
]

IsHome-action :
    (s : Store) (name key new_val : Bytes) (expire_at : ℕ) (a : Action)
    → routed_partition name key ≡ for_key key
    → IsHome s
    → IsHome (apply_action s (for_key key) name key expire_at new_val a).2
unfolding apply_action
IsHome-action s name key new_val expire_at keep home h =
    IsHome-fewer s _ (λ q n k. inl (find-keep s (for_key key) name key q n k)) h
IsHome-action s name key new_val expire_at set home h =
    IsHome-written s _ (for_key key) name key
      (some (record { stored = new_val; expire_at = expire_at })) home
      (λ q n k. unfold Store.put in find-put s (for_key key) name key q n k new_val expire_at 0) h
IsHome-action s name key new_val expire_at del home h =
    IsHome-written s _ (for_key key) name key none home
      (λ q n k. find-del s (for_key key) name key q n k) h

module _ (s : Store) (home : ℕ) where
  abbrev HomeShard : Txn → Type 0
  HomeShard t = IsHome (set_shard s home t.shard)

  Keeps-HomeShard : Keeps home HomeShard
  Keeps-HomeShard = record {
    by_set = λ t name key val at_home w.
        IsHome-written (set_shard s home t.shard) _ home name key
          (some (record { stored = val; expire_at = 0 })) at_home
          (λ q n k. find-txn_set s home name key q n k t val) w;
    by_del = λ t name key at_home w.
        IsHome-written (set_shard s home t.shard) _ home name key none at_home
          (λ q n k. find-txn_del s home name key q n k t) w;
  }

IsHome-set_same : (s : Store) (p : ℕ) → IsHome s → IsHome (set_shard s p (s.shards p))
IsHome-set_same s p h =
    IsHome-fewer s _
      (λ q n k. inl (
        find-set_shard s p (s.shards p) q n k ∙ elim (Bool-cases (q == p)) [
          | inl e ↦ rw e (ap (λ (x : ℕ). find_at s x n k) (sym ((==_iff q p).0 e)))
          | inr e ↦ rw e
        ]))
      h

IsHome-execute :
    (s : Store) (name key op arg : Bytes) (now : ℕ) (queues segments : Bool)
    (found : Option Processor)
    → same name queue_seg_map ≡ segments
    → IsHome s
    → IsHome (execute_change name key op arg now s queues segments found).1
IsHome-execute s name key op arg now true segments found e h =
    unfold update_multi in
    queue_op-Keeps (HomeShard s (for_key key)) key op arg now _ (Keeps-HomeShard s (for_key key))
      (IsHome-set_same s (for_key key) h)
IsHome-execute s name key op arg now false true found e h = h
IsHome-execute s name key op arg now false false none e h = h
IsHome-execute s name key op arg now false false (some proc) e h =
    unfold update in IsHome-action s name key _ _ _ (home_ordinary name key e) h

only_if-cases : (f : Value → Bool) (o : Option Value) → (only_if f o ≡ o) ⊎ (only_if f o ≡ none)
only_if-cases f none = inr refl
only_if-cases f (some v) = elim (Bool-cases (f v)) [ inl e ↦ inl (rw e) | inr e ↦ inr (rw e) ]

found-cases : (a b c : Option Value) → a ≡ b → (b ≡ c) ⊎ (b ≡ none) → (a ≡ c) ⊎ (a ≡ none)
found-cases a b c e (inl h) = inl (e ∙ h)
found-cases a b c e (inr h) = inr (e ∙ h)

if-cases :
    (b : Bool) (o : Option Value) → ((if b then none else o) ≡ o) ⊎ ((if b then none else o) ≡ none)
if-cases true o = inr refl
if-cases false o = inl refl

-- Every request leaves each entry in the partition that its key is routed to, in a store where no
-- key stands twice.
pub change-IsHome :
    (q : Request) (now : ℕ) (s : Store) → IsStore s → IsHome s → IsHome (change q now s).1
change-IsHome (put name key contents ttl is_backup) now s w h =
    IsHome-written s _ (routed_partition name key) name key
      (some (record { stored = contents; expire_at = expire_from_ttl ttl now })) refl
      (λ q n k.
        find-put s (routed_partition name key) name key q n k contents (expire_from_ttl ttl now)
          now)
      h
change-IsHome (remove name key is_backup) now s w h =
    IsHome-written s _ (routed_partition name key) name key none refl
      (λ q n k. find-remove s (routed_partition name key) name key q n k now) h
change-IsHome (evict_key name key) now s w h =
    IsHome-written s _ (routed_partition name key) name key none refl
      (λ q n k. find-remove s (routed_partition name key) name key q n k now) h
change-IsHome (execute name key op arg) now s w h =
    IsHome-execute s name key op arg now (same name queue_map) (same name queue_seg_map)
      (lookup_processor op) refl h
change-IsHome (clear name) now s w h =
    IsHome-fewer s _
      (λ q n k.
        found-cases _ _ _ (find-clear_map s name q n k) (if-cases (same name n) (find_at s q n k)))
      h
change-IsHome sweep_now now s w h =
    unfold sweep_expired sweep_shard in
    IsHome-fewer s _
      (λ q n k.
        found-cases _ _ _ (find-retain (unexpired now) (s.shards q) n k (w q))
          (only_if-cases (unexpired now n k) (find_at s q n k)))
      h

pub find-new_store : (p : ℕ) (name key : Bytes) → find_at new_store p name key ≡ none
unfolding find GoMap.lookup
find-new_store p name key = refl

pub IsHome-new_store : IsHome new_store
IsHome-new_store p name key v lt e =
    let clash : none ≡ some v = sym (find-new_store p name key) ∙ e in cc
