-- ===== src/Queue/Chain.antt =====
-- imap/queue.go: a queue as a chain of segments, and what writes elsewhere leave of it.
use medusa.Base.{
  concat, ℕ, suc, ◌+◌, ◌^◌, ◌<◌, ◌≤◌, ◌≡◌, ◌≢◌, ◌∙◌, ◌⊎◌, none, some, List, [], ◌∷◌, ◌++◌, Bytes,
  arith, length,
}
use native.Mathlib.Nat.{add-zero}
use medusa.Shard.{Shard, find}
use medusa.Txn.{lasting}
use medusa.Queue.{queue_map, queue_seg_map, queue_seg_key, encode_queue_meta}
use medusa.Queue.Packed.{packed, Fits}

-- The segments `id`, `id + 1`, … of the queue hold the groups of items, none of them empty.
abbrev pub Chain : Shard → Bytes → ℕ → List (List Bytes) → Type 0
Chain sh name id [] = Unit
Chain sh name id (c ∷ cs) =
    (find sh queue_seg_map (queue_seg_key id name) ≡ some (lasting (packed c)))
    × (c ≢ [])
    × Chain sh name (id + 1) cs

abbrev pub AllFit : List Bytes → Type 0
AllFit [] = Unit
AllFit (x ∷ xs) = Fits x × AllFit xs

-- A chain is kept by a change that keeps its segments.
pub Chain-keep :
    (sh sh' : Shard) (name : Bytes) (id : ℕ) (cs : List (List Bytes))
    → ((i : ℕ)
        → id ≤ i
        → i < id + length cs
        → find sh' queue_seg_map (queue_seg_key i name)
          ≡ find sh queue_seg_map (queue_seg_key i name))
    → Chain sh name id cs
    → Chain sh' name id cs
Chain-keep sh sh' name id [] keep h = tt
Chain-keep sh sh' name id (c ∷ cs) keep (here, some_items, more) = (
  keep id (omega arith) (omega arith) ∙ here,
  some_items,
  Chain-keep sh sh' name (id + 1) cs (λ i lo hi. keep i (omega arith) (omega arith)) more,
)

step_id : {A : Type 0} (id : ℕ) (cs : List A) → id + suc (length cs) ≡ id + 1 + length cs
step_id id cs = omega arith

-- The last segment of a chain, and the chain with another last segment.
pub Chain-last :
    (sh : Shard) (name : Bytes) (id : ℕ) (cs : List (List Bytes)) (c : List Bytes)
    → Chain sh name id (cs ++ (c ∷ []))
    → (find sh queue_seg_map (queue_seg_key (id + length cs) name) ≡ some (lasting (packed c)))
      × (c ≢ [])
Chain-last sh name id [] c (here, n, _) = (rw add-zero here, n)
Chain-last sh name id (d ∷ cs) c (_, _, more) =
    rw (step_id id cs) (Chain-last sh name (id + 1) cs c more)

pub Chain-snoc :
    (sh : Shard) (name : Bytes) (id : ℕ) (cs : List (List Bytes)) (c : List Bytes)
    → Chain sh name id cs
    → find sh queue_seg_map (queue_seg_key (id + length cs) name) ≡ some (lasting (packed c))
    → c ≢ []
    → Chain sh name id (cs ++ (c ∷ []))
Chain-snoc sh name id [] c h here n = (rw add-zero at here, n, tt)
Chain-snoc sh name id (d ∷ cs) c (first, some_items, more) here n =
    (first, some_items, Chain-snoc sh name (id + 1) cs c more (rw (step_id id cs) at here) n)

pub Chain-init :
    (sh : Shard) (name : Bytes) (id : ℕ) (cs : List (List Bytes)) (c : List Bytes)
    → Chain sh name id (cs ++ (c ∷ []))
    → Chain sh name id cs
Chain-init sh name id [] c h = tt
Chain-init sh name id (d ∷ cs) c (here, n, more) = (here, n, Chain-init sh name (id + 1) cs c more)

-- The shard `sh` holds a queue that has taken at most `used` offers so far, and whose items are
-- `items`, first in, first out. No segment stands beyond the tail.
pub record IsQueue (sh : Shard) (name : Bytes) (used : ℕ) (items : List Bytes) : Type 0 where
  pub head : ℕ
  pub tail : ℕ
  pub meta :
      (find sh queue_map name ≡ some (lasting (encode_queue_meta head tail (length items))))
      ⊎ ((find sh queue_map name ≡ none) × (head ≡ 0) × (tail ≡ 0) × (items ≡ []))
  pub tail_used : tail ≤ used
  pub count_used : length items ≤ used
  pub fit : AllFit items
  pub beyond : (i : ℕ) → tail < i → i < 2 ^ 64 → find sh queue_seg_map (queue_seg_key i name) ≡ none
  pub body :
      ((items ≡ []) × (head ≡ tail))
      ⊎ ((cs : List (List Bytes)) × (c : List Bytes) × Chain sh name head (cs ++ (c ∷ []))
          × (head + length cs ≡ tail)
          × (items ≡ concat (cs ++ (c ∷ []))))
