-- ===== src/StoreTests.antt =====
-- Runs of the store's model on concrete inputs.
use medusa.Base.{
  take, ◌++◌, ◌<◌, arith, ℕ, ◌≡◌, refl, some, List, [], ◌∷◌, Bytes, bytes_of, length, true, same,
}
use medusa.Bytes.{put_uint64}
use medusa.Shard.{Shard, Value, find, expired, live}
use medusa.Processor.{incr_proc, apply_proc}
use medusa.Store
use medusa.Store.{Store, new_store, update}
use medusa.Scan.{Entry, drop_migrated, snapshot_partition}
use medusa.GoMap
use medusa.GoMap.{only_if}
use medusa.Scan.Distinct.{IsShard}
use medusa.Scan.Migration.{handoff}
use medusa.Owned.{sweep_expired}
use medusa.Invariant.{StoreOp, put, sweep, run}
use mathlib.Core.List.Permᴰ.{swap}
use medusa.Partition.Table.{new_table, table_of, owner_of, backup_at}
use medusa.Partition.Owner.{new_table_reorder}
use medusa.Partition.Rank.{holder_of, outranking, outranking_from, table_of-outranking}
use medusa.Frame.{read_frame, write_frame, got}
use medusa.Frame.RoundTrip.{read_frame-write_frame, read_frame-torn}
use medusa.Frame.Reading.{is_failed}
use medusa.Reads.{update-apply_proc, get-sweep_expired, closure}

abbrev users : Bytes
users = bytes_of "users"

abbrev ann : Bytes
ann = bytes_of "ann"

abbrev ben : Bytes
ben = bytes_of "ben"

abbrev value_of : Bytes → ℕ → Value
value_of b e = record { stored = b; expire_at = e }

-- `ann` lives for ever, `ben` until 50.
abbrev two_users : Shard
two_users = (users, (ann, value_of (1 ∷ []) 0) ∷ (ben, value_of (2 ∷ []) 50) ∷ []) ∷ []

two_users-IsShard : IsShard two_users
unfolding GoMap.has same
two_users-IsShard = ((refl, tt), ((refl, (refl, tt)), tt))

-- `ann` was overwritten.
abbrev later_users : Shard
later_users = (users, (ann, value_of (9 ∷ []) 0) ∷ (ben, value_of (2 ∷ []) 50) ∷ []) ∷ []

later_users-IsShard : IsShard later_users
unfolding GoMap.has same
later_users-IsShard = ((refl, tt), ((refl, (refl, tt)), tt))

abbrev one_shard : Store
one_shard = record { shards = λ p. two_users }

update-apply_proc_example :
    ((update one_shard 3 users ann (closure incr_proc (put_uint64 2)) 10).0
      ≡ (apply_proc incr_proc (put_uint64 2) (Store.get one_shard 3 users ann 10)).1)
    × (Store.get
          (update one_shard 3 users ann (closure incr_proc (put_uint64 2)) 10).3
          3
          users
          ann
          10
        ≡ (apply_proc incr_proc (put_uint64 2) (Store.get one_shard 3 users ann 10)).0)
update-apply_proc_example = update-apply_proc one_shard 3 users ann incr_proc (put_uint64 2) 10

abbrev history : List StoreOp
history = put 3 users ann (1 ∷ []) 0 5 ∷ put 3 users ben (2 ∷ []) 50 6 ∷ sweep 20 ∷ []

get-sweep_expired_example :
    Store.get (sweep_expired 60 (run history new_store)).1 3 users ben 70
    ≡ Store.get (run history new_store) 3 users ben 70
get-sweep_expired_example = get-sweep_expired history 60 3 users ben 70 refl

handoff_example :
    find (drop_migrated (snapshot_partition 10 two_users) later_users).1 users ann
    ≡ some (value_of (9 ∷ []) 0)
unfolding find GoMap.lookup medusa.Shard.bucket same expired
handoff_example =
    handoff 10 two_users later_users users ann (value_of (9 ∷ []) 0) two_users-IsShard
      later_users-IsShard refl

new_table_reorder_example : new_table (ann ∷ ben ∷ []) 1 ≡ new_table (ben ∷ ann ∷ []) 1
new_table_reorder_example = new_table_reorder (ann ∷ ben ∷ []) (ben ∷ ann ∷ []) 1 (swap refl refl)

table_of-outranking_example :
    holder_of (table_of (ann ∷ ben ∷ []) 1) 7 (outranking (ann ∷ ben ∷ []) 7 1 ben) ≡ some ben
unfolding outranking_from medusa.Partition.Table.hrw_weight
table_of-outranking_example =
    table_of-outranking (ann ∷ ben ∷ []) 1 7 1 (outranking (ann ∷ ben ∷ []) 7 1 ben) ben
      (omega arith) refl refl (omega arith)

read_frame-write_frame_example :
    read_frame (write_frame 3 (8 ∷ 9 ∷ []) ++ (1 ∷ [])) ≡ got (3, 8 ∷ 9 ∷ [], 1 ∷ [])
read_frame-write_frame_example =
    read_frame-write_frame 3 (8 ∷ 9 ∷ []) (1 ∷ []) (omega arith) (omega arith)

short_of_frame : 6 < length (write_frame 3 (8 ∷ 9 ∷ []))
unfolding write_frame medusa.Bytes.put_be
short_of_frame = omega arith

read_frame-torn_example : is_failed (read_frame (take 6 (write_frame 3 (8 ∷ 9 ∷ [])))) ≡ true
read_frame-torn_example = read_frame-torn 3 (8 ∷ 9 ∷ []) 6 (omega arith) short_of_frame

abbrev entry_of : Bytes → Bytes → Entry
entry_of name key = record { map_name = name; key = key; contents = 1 ∷ []; expire_at = 0 }
