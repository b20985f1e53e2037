-- ===== src/Processor/Lock.antt =====
-- imap/processor.go: the fenced lock, as runs of `lockacquire` and `lockrelease` on one entry.
use medusa.Base.{
  ℕ, ◌+◌, ◌^◌, ◌<◌, ◌≡◌, ◌≢◌, refl, ◌⊎◌, Option, none, some, List, [], ◌∷◌, Bytes, arith, same_iff,
  same_self, length-append,
}
use medusa.Bytes.{put_uint64, uint64-put_uint64, length-put_be, drop-put_be}
use medusa.Processor.{
  encode_lock, decode_lock, fence_bytes, lock_acquire_proc, lock_release_proc, apply_proc,
}

pub data LockOp : Type 0 where
  acquire release : Bytes → LockOp

-- The entry, and the result for the caller.
unfoldable pub lock_op : LockOp → Option Bytes → Option Bytes × Bytes
lock_op (acquire holder) entry = apply_proc lock_acquire_proc holder entry
lock_op (release holder) entry = apply_proc lock_release_proc holder entry

unfoldable pub lock_ops : List LockOp → Option Bytes → Option Bytes
lock_ops [] entry = entry
lock_ops (o ∷ ops) entry = lock_ops ops (lock_op o entry).0

abbrev pub or_empty : Option Bytes → Bytes
or_empty none = []
or_empty (some b) = b

-- The fence and the holder that an entry stands for; an absent one is free, with fence 0.
abbrev pub fence_of : Option Bytes → ℕ
fence_of entry = (decode_lock (or_empty entry)).0

abbrev pub holder_of : Option Bytes → Bytes
holder_of entry = (decode_lock (or_empty entry)).1

pub decode_lock-encode_lock :
    (fence : ℕ) (holder : Bytes)
    → fence < 2 ^ 64
    → decode_lock (encode_lock fence holder) ≡ (fence, holder)
unfolding decode_lock encode_lock
decode_lock-encode_lock fence holder h = ground (
  arith,
  length-append (put_uint64 fence) holder,
  length-put_be 8 fence,
  uint64-put_uint64 fence holder h,
  drop-put_be 8 fence holder,
)

-- `lockacquire` by a caller with a name, by the state of the lock.
pub acquire_free :
    (caller : Bytes) (entry : Option Bytes)
    → caller ≢ []
    → fence_of entry + 1 < 2 ^ 64
    → holder_of entry ≡ []
    → lock_op (acquire caller) entry
      ≡ (some (encode_lock (fence_of entry + 1) caller), fence_bytes (fence_of entry + 1))
unfolding lock_op apply_proc lock_acquire_proc
acquire_free [] entry ne room free = absurd (ne refl)
acquire_free (c ∷ cs) none ne room free = ground arith
acquire_free (c ∷ cs) (some b) ne room free = ground arith

pub acquire_again :
    (caller : Bytes) (entry : Option Bytes)
    → caller ≢ []
    → holder_of entry ≡ caller
    → lock_op (acquire caller) entry ≡ (entry, fence_bytes (fence_of entry))
unfolding lock_op apply_proc lock_acquire_proc
acquire_again [] entry ne held = absurd (ne refl)
acquire_again (c ∷ cs) none ne held = ground (arith, same_self (c ∷ cs))
acquire_again (c ∷ cs) (some b) ne held = ground (arith, same_self (c ∷ cs))

pub acquire_refused :
    (caller : Bytes) (entry : Option Bytes)
    → holder_of entry ≢ []
    → holder_of entry ≢ caller
    → lock_op (acquire caller) entry ≡ (entry, [])
unfolding lock_op apply_proc lock_acquire_proc
acquire_refused [] entry held other = ground arith
acquire_refused (c ∷ cs) none held other = ground (arith, same_iff (holder_of none) (c ∷ cs))
acquire_refused (c ∷ cs) (some b) held other =
    ground (arith, same_iff (holder_of (some b)) (c ∷ cs))

pub acquire_unnamed : (entry : Option Bytes) → lock_op (acquire []) entry ≡ (entry, [])
unfolding lock_op apply_proc lock_acquire_proc
acquire_unnamed none = refl
acquire_unnamed (some b) = refl

pub release_held :
    (caller : Bytes) (entry : Option Bytes)
    → caller ≢ []
    → holder_of entry ≡ caller
    → lock_op (release caller) entry ≡ (some (encode_lock (fence_of entry) []), 1 ∷ [])
unfolding lock_op apply_proc lock_release_proc
release_held [] entry ne held = absurd (ne refl)
release_held (c ∷ cs) none ne held = ground (arith, same_self (c ∷ cs))
release_held (c ∷ cs) (some b) ne held = ground (arith, same_self (c ∷ cs))

pub release_other :
    (caller : Bytes) (entry : Option Bytes)
    → ((holder_of entry ≡ []) ⊎ (holder_of entry ≢ caller))
    → lock_op (release caller) entry ≡ (entry, 0 ∷ [])
unfolding lock_op apply_proc lock_release_proc
release_other caller none other = ground (arith, same_iff (holder_of none) caller)
release_other caller (some b) other = ground (arith, same_iff (holder_of (some b)) caller)
