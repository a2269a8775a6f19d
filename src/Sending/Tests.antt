-- ===== src/Sending/Tests.antt =====
-- The settlement of a request at a concrete store: a ticket held 10 and 12 were inserted.
use r.Base.{◌+◌, ◌-◌, ◌≡◌, refl, [], none, true, false, arith, ltb, if◌then◌else◌}
use r.Base.Int.{pos}
use r.Error.{ok, err, other}
use r.Config
use r.Persistent.{PersistentStore}
use r.Hybrid.{HybridStore}
use r.Sending.{settle_grpc, settle_urpc}
use r.Sending.Settling.{budget_of, settle_lem}

abbrev absent : PersistentStore
absent = record {
  State = Unit {0};
  name = λ s. Config.hdfs;
  is_healthy = λ s. ok true;
  spill_insert = λ s uid blocks. (s, ok tt);
  get = λ s uid options. err other;
  get_index = λ s uid. err other;
  purge = λ s app_id shuffle_id. (s, ok (pos 0));
}

abbrev store : HybridStore absent
store = record {
  hot_store = record {
    memory_capacity = pos 100;
    state = [];
    budget = budget_of (pos 100) (pos 3) 50 5;
    ticket_manager = record { ticket_store = []; ticket_timeout_sec = pos 300 };
    callback_budget = none;
  };
  warm_store = none;
  cold_store = none;
  config = record {
    memory_spill_high_watermark = λ used capacity. false;
    memory_spill_low_watermark = λ capacity. pos 0;
    memory_single_buffer_max_spill_size = none;
    memory_spill_to_cold_threshold_size = none;
    huge_partition_memory_spill_to_hdfs_threshold_size = 0;
  };
  memory_spill_lock = false;
  memory_spill_event_num = 0;
  in_flight_bytes_size = 0;
  event_bus = record { parent = []; localfile = []; hdfs = [] };
  app_manager = none;
}

settle_lem_example :
    ((settle_grpc absent store (pos 10) (pos 12)).hot_store.budget
      ≡ budget_of (pos 100) (pos 3) (50 - 10) (5 + 12))
    × ((settle_urpc absent store (pos 10) (pos 12)).hot_store.budget
        ≡ budget_of (pos 100) (pos 3) (50 - (if ltb 10 12 then 12 else 10)) (5 + 12))
settle_lem_example =
    settle_lem absent store (pos 100) (pos 3) 50 5 10 12 refl (omega arith) (omega arith)
      (omega arith) (omega arith)
