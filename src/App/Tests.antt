-- ===== src/App/Tests.antt =====
-- The theorems on applications at concrete inputs.
use r.Base.{List, ◌+◌, ◌-◌, ◌%◌, ◌^◌, ◌≡◌, refl, some, [], ◌∷◌, arith}
use r.Base.Int.{pos}
use r.Base.Map
use r.Memory.{PartitionedUId}
use r.Base.Machine.{to_u64, to_i32}
use r.Error.{ok, err, other}
use r.Config
use r.Memory
use r.Persistent.{PersistentStore}
use r.Hybrid
use r.Hybrid.{HybridStore}
use r.Spill
use r.Spill.{SpillMessage}
use r.Spill.Handlers.{on_select, on_flush}
use r.App.{false, none, true, AppManager, get_app}
use r.App.Calls.{purge_app_data}
use r.App.Purging.{purge_app_data-drops}
use r.App.{
  advance, get_partition_meta, mark_as_huge_partition, inc_size, meta_of, get_app, AppManager, App,
  AppConfig, new_app, inc_partition_size,
}
use r.App.Marking.{marked}
use r.App.Racing.{Event, Calling, run, adds, asks, moves}
use r.App.Sizes.{inc_partition_size-large}

abbrev uid : PartitionedUId
uid = record { app_id = 97 ∷ []; shuffle_id = pos 1; partition_id = pos 2 }

abbrev config : AppConfig
config = record { marked_threshold = some 10; memory_max_available_size = some 5 }

abbrev app : App
app = new_app (97 ∷ []) config 0

-- Two calls for a partition of twenty bytes that both pass the test before either marks it.
abbrev racing : List Event
racing =
    adds uid 20
    ∷ asks uid
    ∷ asks uid
    ∷ moves 0
    ∷ moves 1
    ∷ moves 0
    ∷ moves 1
    ∷ moves 0
    ∷ moves 1
    ∷ moves 0
    ∷ moves 1
    ∷ moves 0
    ∷ moves 1
    ∷ []

abbrev at_rest : Calling
at_rest = record { app = app; callers = [] }

-- The partition is counted twice.
counted_twice :
    (marked (run 10 racing at_rest).app.bitmap_of_blocks ≡ 1)
    × ((run 10 racing at_rest).app.huge_partition_number ≡ 2)
unfolding new_app advance get_partition_meta mark_as_huge_partition inc_partition_size inc_size
    Map.get Map.insert Map.remove to_u64 to_i32
counted_twice = (refl, refl)

unknown : (meta_of app uid).total_size ≡ 0
unfolding new_app Map.get
unknown = refl

inc_partition_size-large_example :
    (meta_of (inc_partition_size app uid (2 ^ 31)) uid).total_size
    ≡ ((meta_of app uid).total_size + 2 ^ 31 + (2 ^ 64 - 2 ^ 32)) % 2 ^ 64
inc_partition_size-large_example =
    inc_partition_size-large app uid (2 ^ 31) (omega arith) (omega arith) (omega (arith, unknown))

marked_at : app.huge_partition_marked_threshold ≡ some 10
unfolding new_app
marked_at = refl

limited : app.huge_partition_memory_max_available_size ≡ some 5
unfolding new_app
limited = refl

-- A store without persistent stores.
abbrev absent : PersistentStore
absent = record {
  State = Unit {0};
  name = λ s. Config.hdfs;
  is_healthy = λ s. ok true;
  spill_insert = λ s u blocks. (s, ok tt);
  get = λ s u options. err other;
  get_index = λ s u. err other;
  purge = λ s app_id shuffle_id. (s, ok (pos 0));
}

abbrev store : HybridStore absent
store = record {
  hot_store = Memory.new (pos 100);
  warm_store = some tt;
  cold_store = none;
  config = record {
    memory_spill_high_watermark = λ used capacity. false;
    memory_spill_low_watermark = λ capacity. pos 0;
    memory_single_buffer_max_spill_size = none;
    memory_spill_to_cold_threshold_size = none;
    huge_partition_memory_spill_to_hdfs_threshold_size = 0;
  };
  memory_spill_lock = false;
  memory_spill_event_num = 1;
  in_flight_bytes_size = 10;
  event_bus = record { parent = []; localfile = []; hdfs = [] };
  app_manager = none;
}

abbrev message : SpillMessage
message = record {
  ctx = record { uid = uid; data_blocks = []; has_app_manager = true };
  size = pos 10;
  retry_cnt = 0;
  flight_id = 0;
  candidate_store_type = none;
}

abbrev manager : AppManager
manager = record { apps = (97 ∷ [], app) ∷ []; channel = []; app_heartbeat_timeout_min = 5 }

registered : get_app manager (97 ∷ []) ≡ some app
unfolding get_app Map.get
registered = refl

purge_app_data-drops_example :
    let h' = (purge_app_data absent manager store (97 ∷ []) none).0 in
    let ended = Hybrid.finish_spill_event absent h' (to_u64 (pos 10)) in
    (on_select absent h' message ≡ record { store = ended; message = message; answer = ok false })
    × (on_flush absent h' message
        ≡ record { store = ended; message = Spill.inc_retry_counter message; answer = ok true })
purge_app_data-drops_example = purge_app_data-drops absent manager store app message registered refl
