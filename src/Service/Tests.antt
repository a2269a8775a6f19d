-- ===== src/Service/Tests.antt =====
-- The service's theorems at concrete inputs.
use r.Base.{
  beq_refl, ◌<◌, ◌^◌, ℕ, ◌||◌, Bytes, List, [], ◌∷◌, none, some, true, false, ◌≡◌, refl, arith, map,
  nat_eq,
}
use r.Base.Int.{ℤ, pos}
use r.Base.Map
use r.Error.{ok, err, other}
use r.Config
use r.Store.Blocks.{Block, AreSized, payload_len, segments, slice, payloads}
use r.Buffer.{BufferInternal}
use r.Memory.{uid_eq}
use r.Persistent.{PersistentStore}
use r.App
use r.App.{App, AppManager}
use r.Sending.{success}
use r.Service.{Server, uid_of}
use r.Service.Reading.{
  GetMemoryShuffleDataRequest, GetMemoryShuffleDataResponse, get_memory_shuffle_data,
  expected_task_ids,
}
use r.Service.Answers.{requested, get_memory_shuffle_data_lem}
use r.Service.Reporting.{
  Treemap, Reported, blocks_bitmap, report_shuffle_result, get_shuffle_result_for_multi_part,
}
use r.Service.Reported.{
  has, any, reported, IsTreemap, get_shuffle_result_for_multi_part-report_shuffle_result,
}

abbrev absent : PersistentStore
absent = record {
  State = Unit {0};
  name = λ s. Config.hdfs;
  is_healthy = λ s. ok true;
  spill_insert = λ s uid blocks. (s, ok tt);
  get = λ s uid options. err other;
  get_index = λ s uid. err other;
  purge = λ s app_id shuffle_id. (s, ok (pos 0));
}

abbrev app : App
app = record {
  app_id = 97 ∷ [];
  latest_heartbeat_time = 0;
  bitmap_of_blocks = [];
  huge_partition_marked_threshold = none;
  huge_partition_memory_max_available_size = none;
  total_received_data_size = 0;
  total_resident_data_size = 0;
  huge_partition_number = 0;
}

abbrev manager : AppManager
manager = record { apps = (97 ∷ [], app) ∷ []; channel = []; app_heartbeat_timeout_min = 5 }

registered : App.get_app manager (97 ∷ []) ≡ some app
unfolding App.get_app Map.get
registered = refl

abbrev block : Block
block = record {
  block_id = pos 3;
  length = pos 2;
  uncompress_length = pos 200;
  crc = pos 7;
  payload = 104 ∷ 105 ∷ [];
  task_attempt_id = pos 1;
}

abbrev buffer : BufferInternal
buffer = record {
  total_size = pos 2;
  staging_size = pos 2;
  flight_size = pos 0;
  staging = (block ∷ []) ∷ [];
  flight = [];
  flight_counter = 0;
}

abbrev server : Server absent
server = record {
  app_manager_ref = manager;
  store = record {
    hot_store = record {
      memory_capacity = pos 100;
      state = (uid_of (97 ∷ []) (pos 1) (pos 2), buffer) ∷ [];
      budget = record {
        capacity = pos 100;
        allocated = pos 0;
        used = pos 2;
        allocation_inc_counter = pos 0;
      };
      ticket_manager = record { ticket_store = []; ticket_timeout_sec = pos 300 };
      callback_budget = none;
    };
    warm_store = none;
    cold_store = none;
    config = record {
      memory_spill_high_watermark = λ used capacity. false;
      memory_spill_low_watermark = λ capacity. pos 0;
      memory_single_buffer_max_spill_size = none;
      memory_spill_to_cold_threshold_size = none;
      huge_partition_memory_spill_to_hdfs_threshold_size = 0;
    };
    memory_spill_lock = false;
    memory_spill_event_num = 0;
    in_flight_bytes_size = 0;
    event_bus = record { parent = []; localfile = []; hdfs = [] };
    app_manager = some manager;
  };
}

abbrev request : GetMemoryShuffleDataRequest
request = record {
  app_id = 97 ∷ [];
  shuffle_id = pos 1;
  partition_id = pos 2;
  last_block_id = pos 0;
  read_buffer_size = pos 10;
  serialized_expected_task_ids_bitmap = [];
}

there : Map.get (uid_of (97 ∷ []) (pos 1) (pos 2)) server.store.hot_store.state ≡ some buffer
unfolding Map.get
there = ground (arith, beq_refl (uid_of (97 ∷ []) (pos 1) (pos 2)))

sized : AreSized (requested absent (λ bytes. none) request buffer)
unfolding expected_task_ids
sized = (refl, tt)

fits : payload_len (requested absent (λ bytes. none) request buffer) < 2 ^ 63
unfolding expected_task_ids
fits = omega arith

get_memory_shuffle_data_lem_example :
    (r : GetMemoryShuffleDataResponse) × ((get_memory_shuffle_data absent 7
        (λ bytes. none)
        server
        request).1
      ≡ some r)
    × (r.status ≡ success)
    × (r.shuffle_data_block_segments ≡ segments 0 (requested absent (λ bytes. none) request buffer))
    × (map (slice 0 r.content) r.shuffle_data_block_segments
        ≡ payloads (requested absent (λ bytes. none) request buffer))
get_memory_shuffle_data_lem_example =
    get_memory_shuffle_data_lem absent 7 (λ bytes. none) server request app buffer registered there
      sized fits

-- Bitmaps as lists of numbers.
abbrev list_map : Treemap
list_map = record {
  State = List ℕ;
  default = [];
  add = λ b x. x ∷ b;
  iter = λ b. b;
  serialize = λ b. ok [];
}

list_map-IsTreemap : IsTreemap list_map
list_map-IsTreemap = record { iter-default = refl; iter-add = λ b x y. refl }

abbrev empty : Reported list_map
empty = record { app_manager_ref = manager; bitmaps = [] }

abbrev reports : List (ℤ × List ℤ)
reports = (pos 1, pos 7 ∷ []) ∷ (pos 2, pos 8 ∷ []) ∷ []

get_shuffle_result_for_multi_part-report_shuffle_result_example :
    (b : List ℕ) × (bytes : Bytes) × (list_map.serialize b ≡ ok bytes)
    × ((get_shuffle_result_for_multi_part list_map
          (report_shuffle_result list_map 5 empty (97 ∷ []) (pos 1) reports).0
          (97 ∷ [])
          (pos 1)
          (pos 2 ∷ [])).1
        ≡ some (success, bytes))
    × ((y : ℕ)
        → has y b
          ≡ any list_map list_map-IsTreemap
              (λ q.
                reported q y reports
                || has y (blocks_bitmap list_map empty (uid_of (97 ∷ []) (pos 1) q)))
              (pos 2 ∷ []))
get_shuffle_result_for_multi_part-report_shuffle_result_example =
    get_shuffle_result_for_multi_part-report_shuffle_result list_map list_map-IsTreemap 5 empty app
      (97 ∷ []) (pos 1) reports (pos 2 ∷ []) (λ b. ([], refl)) registered
