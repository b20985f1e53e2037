-- ===== src/Processor.antt =====
-- imap/processor.go: the built-in entry processors, pure functions of the current value, whether a
-- live value is present, and the argument. An int64 is its two's complement pattern. A nil slice
-- and an empty one are both `[]`: no processor's caller tells them apart.
pub mod Counter
pub mod Cas
pub mod Lock
pub mod Fence
pub mod Exclusive
use medusa.Base.{
  ℕ, ◌+◌, ◌-◌, ◌%◌, ◌^◌, Option, none, some, [], ◌∷◌, ◌++◌, Bytes, Bool, true, false, bytes_of,
  same, if◌then◌else◌, ltb, ◌==◌, not, ◌&&◌, ◌||◌, length, take, drop,
}
use medusa.Bytes.{put_uint32, put_uint64, uint32, uint64}

-- What a processor decides to do with an entry.
pub data Action : Type 0 where
  keep set del : Action

-- The new value, the action, and the result for the caller.
abbrev pub Processor : Type 0
Processor = Bytes → Bool → Bytes → Bytes × Action × Bytes

unfoldable pub read_int64 : Bytes → ℕ
unfolding uint64
read_int64 b = if ltb (length b) 8 then 0 else uint64 b

unfoldable pub incr_proc : Processor
unfolding read_int64
incr_proc cur exists arg =
    let n = (read_int64 cur + read_int64 arg) % 2 ^ 64 in (put_uint64 n, set, put_uint64 n)

unfoldable pub append_proc : Processor
append_proc cur exists arg = (cur ++ arg, set, cur ++ arg)

unfoldable pub getset_proc : Processor
getset_proc cur exists arg = (arg, set, if exists then cur else [])

unfoldable pub delete_proc : Processor
delete_proc cur exists arg = if not exists then ([], keep, []) else ([], del, cur)

unfoldable pub put_if_absent_proc : Processor
put_if_absent_proc cur exists arg = if exists then ([], keep, 0 ∷ []) else (arg, set, 1 ∷ [])

unfoldable pub encode_cas : Bytes → Bytes → Bytes
encode_cas expected new_val = put_uint32 (length expected) ++ (expected ++ new_val)

-- (`arg[4 : 4+n]` is computed in uint32; it wraps only in an argument of 4 GiB.)
unfoldable pub split_cas : Bytes → Option (Bytes × Bytes)
unfolding uint32
split_cas arg =
    let n = uint32 arg in
    if ltb (length arg) 4
    then none
    else if ltb (length arg - 4) n
    then none
    else some (take n (drop 4 arg), drop (4 + n) arg)

unfoldable pub cas_proc : Processor
cas_proc cur exists arg = elim (split_cas arg) [
  | none ↦ ([], keep, 0 ∷ [])
  | some (expected, new_val) ↦
      if not exists || not (same cur expected) then ([], keep, 0 ∷ []) else (new_val, set, 1 ∷ [])
]

unfoldable pub encode_lock : ℕ → Bytes → Bytes
encode_lock fence holder = put_uint64 fence ++ holder

-- The fence and the holder.
unfoldable pub decode_lock : Bytes → ℕ × Bytes
unfolding uint64
decode_lock b = if ltb (length b) 8 then (0, []) else (uint64 b, drop 8 b)

abbrev pub fence_bytes : ℕ → Bytes
fence_bytes f = put_uint64 f

unfoldable pub lock_acquire_proc : Processor
lock_acquire_proc cur exists arg =
    let (fence, holder) = decode_lock cur in
    let fence' = (fence + 1) % 2 ^ 64 in
    if length arg == 0
    then ([], keep, [])
    else if ltb 0 (length holder)
    then (if not (same holder arg) then ([], keep, []) else ([], keep, fence_bytes fence))
    else (encode_lock fence' arg, set, fence_bytes fence')

unfoldable pub lock_release_proc : Processor
lock_release_proc cur exists arg =
    let (fence, holder) = decode_lock cur in
    if length holder == 0 || not (same holder arg)
    then ([], keep, 0 ∷ [])
    else (encode_lock fence [], set, 1 ∷ [])

-- The map `processors` as it stands before any `RegisterProcessor`.
unfoldable pub lookup_processor : Bytes → Option Processor
unfolding same
lookup_processor name =
    if same name (bytes_of "incr")
    then some incr_proc
    else if same name (bytes_of "append")
    then some append_proc
    else if same name (bytes_of "getset")
    then some getset_proc
    else if same name (bytes_of "delete")
    then some delete_proc
    else if same name (bytes_of "putifabsent")
    then some put_if_absent_proc
    else if same name (bytes_of "cas")
    then some cas_proc
    else if same name (bytes_of "lockacquire")
    then some lock_acquire_proc
    else if same name (bytes_of "lockrelease")
    then some lock_release_proc
    else none

-- An entry's bytes, if there are any, after a processor ran on them.
unfoldable pub apply_proc : Processor → Bytes → Option Bytes → Option Bytes × Bytes
apply_proc p arg entry =
    let cur : Bytes = elim entry [ none ↦ [] | some b ↦ b ] in
    let exists : Bool = elim entry [ none ↦ false | some b ↦ true ] in
    let (new_val, action, out) = p cur exists arg in
    (elim action [ keep ↦ entry | set ↦ some new_val | del ↦ none ], out)
