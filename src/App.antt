-- ===== src/App.antt =====
-- src/app.rs: an application, the sizes of its partitions and the manager of the applications. A
-- partition's meta data is changed through a shared reference, so it is written back to the map. The
-- clock is an argument. The bitmaps of reported block ids are kept with the service, in
-- Service.Reporting; Calls has the calls that need the store, and Reading those that read. An entry is
-- never taken out of the map of partitions and a size is added under one lock, so such an addition is
-- one step; the test for a huge partition is several.
pub mod Marking
pub mod Racing
pub mod Sizes
pub mod Calls
pub mod Purging
pub mod Reading
mod Tests
use r.Base.{
  zero, suc, ℕ, ◌+◌, ◌%◌, ◌^◌, ltb, Bool, true, false, ◌&&◌, Option, none, some, List, [], Bytes,
  ◌==◌, bytes_eq, if◌then◌else◌, Eq, ◌≡◌, ◌↔◌, arith,
}
use r.Base.Int.{ℤ, int_eq, int_beq_iff}
use r.Base.Machine.{to_u64, to_i32}
use r.Base.Map
use r.Base.Map.{Map}
use r.Memory.{PartitionedUId}

pub record PartitionedMeta : Type 0 where
  pub total_size : ℕ
  pub is_huge_partition : Bool

pub record App : Type 0 where
  pub app_id : Bytes
  pub latest_heartbeat_time : ℕ
  pub bitmap_of_blocks : Map (ℤ × ℤ) PartitionedMeta
  pub huge_partition_marked_threshold : Option ℕ
  pub huge_partition_memory_max_available_size : Option ℕ
  pub total_received_data_size : ℕ
  pub total_resident_data_size : ℕ
  pub huge_partition_number : ℕ

pub data PurgeEvent : Type 0 where
  heartbeat_timeout : Bytes → PurgeEvent
  app_partial_shuffles_purge : Bytes → ℤ → PurgeEvent
  app_purge : Bytes → PurgeEvent

-- The manager; its channel of purge events is the queue of those that were sent.
pub record AppManager : Type 0 where
  pub apps : Map Bytes App
  pub channel : List PurgeEvent
  pub app_heartbeat_timeout_min : ℕ

-- `app_heartbeat_timeout_min` is a u32, and the limits of new applications come from the
-- configuration.
pub record AppConfig : Type 0 where
  pub marked_threshold : Option ℕ
  pub memory_max_available_size : Option ℕ

abbrev pub pair_beq : ℤ × ℤ → ℤ × ℤ → Bool
pair_beq (a, b) (c, d) = (a == c) && (b == d)

pub pair_beq_iff : (k j : ℤ × ℤ) → (pair_beq k j ≡ true) ↔ (k ≡ j)
pair_beq_iff (a, b) (c, d) = ground (arith, int_beq_iff a c, int_beq_iff b d)

instance abbrev pub pair_eq : Eq (ℤ × ℤ)
pair_eq = record { beq = pair_beq; beq_iff = pair_beq_iff }

abbrev pub new_meta : PartitionedMeta
new_meta = record { total_size = 0; is_huge_partition = false }

unfoldable pub inc_size : PartitionedMeta → ℤ → PartitionedMeta
inc_size m data_size = record m { total_size = (m.total_size + to_u64 data_size) % 2 ^ 64 }

unfoldable pub mark_as_huge_partition : PartitionedMeta → PartitionedMeta
mark_as_huge_partition m = record m { is_huge_partition = true }

-- An application as `from` builds it at a time.
unfoldable pub new_app : Bytes → AppConfig → ℕ → App
new_app app_id config now = record {
  app_id = app_id;
  latest_heartbeat_time = now;
  bitmap_of_blocks = [];
  huge_partition_marked_threshold = config.marked_threshold;
  huge_partition_memory_max_available_size = config.memory_max_available_size;
  total_received_data_size = 0;
  total_resident_data_size = 0;
  huge_partition_number = 0;
}

unfoldable pub heartbeat : App → ℕ → App
heartbeat app now = record app { latest_heartbeat_time = now }

abbrev pub meta_key : PartitionedUId → ℤ × ℤ
meta_key uid = (uid.shuffle_id, uid.partition_id)

abbrev pub write_meta : App → PartitionedUId → PartitionedMeta → App
write_meta app uid m = record app {
  bitmap_of_blocks = Map.insert (meta_key uid) m app.bitmap_of_blocks;
}

-- The meta data of a partition, a new one if there is none, and the application with it.
unfoldable pub get_partition_meta : App → PartitionedUId → App × PartitionedMeta
get_partition_meta app uid = elim (Map.get (meta_key uid) app.bitmap_of_blocks) [
  | none ↦ (write_meta app uid new_meta, new_meta)
  | some m ↦ (app, m)
]

unfoldable pub inc_partition_size : App → PartitionedUId → ℕ → App
unfolding get_partition_meta inc_size
inc_partition_size app uid size =
    let (app', m) = get_partition_meta app uid in write_meta app' uid (inc_size m (to_i32 size))

-- The meta data that the shared reference of a partition leads to.
abbrev pub meta_of : App → PartitionedUId → PartitionedMeta
meta_of app uid = elim (Map.get (meta_key uid) app.bitmap_of_blocks) [
  | none ↦ new_meta
  | some m ↦ m
]

-- Where a call of `is_huge_partition` stands, once both limits are configured: the lock of the meta
-- data is taken anew for the test, for the size and for the mark, and the counter is raised after.
pub data Stage : Type 0 where
  looks_up tests sizes marks counts : Stage
  answers : Bool → Stage

-- The next locked step of the call, between which other calls may take theirs.
unfoldable pub advance : ℕ → PartitionedUId → App → Stage → App × Stage
unfolding get_partition_meta mark_as_huge_partition
advance threshold uid app looks_up = ((get_partition_meta app uid).0, tests)
advance threshold uid app tests =
    (app, if (meta_of app uid).is_huge_partition then answers true else sizes)
advance threshold uid app sizes =
    (app, if ltb threshold (meta_of app uid).total_size then marks else answers false)
advance threshold uid app marks =
    (write_meta app uid (mark_as_huge_partition (meta_of app uid)), counts)
advance threshold uid app counts =
    (record app { huge_partition_number = (app.huge_partition_number + 1) % 2 ^ 64 }, answers true)
advance threshold uid app (answers huge) = (app, answers huge)

unfoldable pub advances : ℕ → ℕ → PartitionedUId → App → Stage → App × Stage
unfolding advance
advances zero threshold uid app stage = (app, stage)
advances (suc n) threshold uid app stage =
    let (app', next) = advance threshold uid app stage in advances n threshold uid app' next

abbrev pub answer_of : Stage → Bool
answer_of (answers huge) = huge
answer_of stage = false

-- The call without others between its steps.
unfoldable pub is_over_threshold : App → PartitionedUId → ℕ → App × Bool
unfolding advances
is_over_threshold app uid threshold =
    let (app', stage) = advances 5 threshold uid app looks_up in (app', answer_of stage)

unfoldable pub is_huge_partition : App → PartitionedUId → App × Bool
unfolding is_over_threshold
is_huge_partition app uid = elim app.huge_partition_marked_threshold [
  | none ↦ (app, false)
  | some threshold ↦ elim app.huge_partition_memory_max_available_size [
    | none ↦ (app, false)
    | some available ↦ is_over_threshold app uid threshold
  ]
]

unfoldable pub get_app : AppManager → Bytes → Option App
get_app m app_id = Map.get app_id m.apps

unfoldable pub app_is_exist : AppManager → Bytes → Bool
unfolding get_app
app_is_exist m app_id = elim (get_app m app_id) [ none ↦ false | some app ↦ true ]

-- The manager after a change of an application through a shared reference.
abbrev pub write_app : AppManager → Bytes → App → AppManager
write_app m app_id app = record m { apps = Map.insert app_id app m.apps }
