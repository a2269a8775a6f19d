-- ===== src/Spill/Tests.antt =====
-- Runs of the spill events, and their theorems at concrete inputs, over a store that fails its first
-- writes.
use r.Base.{◌≢◌, ℕ, zero, suc, ◌*◌, ◌≤◌, ◌≡◌, refl, [], ◌∷◌, none, some, true, false, arith, inl}
use r.Base.Int.{pos}
use r.Error.{panic, ok, err, other, internal_error}
use r.Config
use r.Memory
use r.Memory.{PartitionedUId}
use r.Buffer.{BatchMemoryBlock}
use r.Persistent.{PersistentStore, IsLawful}
use r.Spill.{SpillMessage}
use r.Hybrid
use r.Hybrid.{HybridStore}
use r.Spill.Bus.{dispatch, step, pick, publish_to_child, dispatch_hook, retry_hook}
use r.Spill.Handlers.{on_select, on_flush}
use r.Spill.Effects.{is_waiting, total}
use r.Spill.Counting.{IsCounted, Reach-IsCounted, one, start, publish, handle}
use r.Spill.Draining.{empty, Runs, Runs-ends, drain, drain-empties, next}

-- The number of writes that are still to fail.
abbrev flaky : PersistentStore
flaky = record {
  State = ℕ;
  name = λ s. Config.localfile;
  is_healthy = λ s. ok true;
  spill_insert = λ s uid blocks. elim s [ zero ↦ (0, ok tt) | suc n ↦ (n, err internal_error) ];
  get = λ s uid options. err other;
  get_index = λ s uid. err other;
  purge = λ s app_id shuffle_id. (s, ok (pos 0));
}

flaky_returns :
    (s : ℕ) (uid : PartitionedUId) (blocks : BatchMemoryBlock)
    → (flaky.spill_insert s uid blocks).1 ≢ panic
flaky_returns zero uid blocks e = cc
flaky_returns (suc n) uid blocks e = cc

flaky-IsLawful : IsLawful flaky
flaky-IsLawful = record {
  name-cases = λ s. inl refl;
  is_healthy-returns = λ s e. cc;
  spill_insert-returns = flaky_returns;
}

abbrev idle : ℕ → HybridStore flaky
idle failures = record {
  hot_store = Memory.new (pos 100);
  warm_store = some failures;
  cold_store = none;
  config = record {
    memory_spill_high_watermark = λ used capacity. false;
    memory_spill_low_watermark = λ capacity. pos 0;
    memory_single_buffer_max_spill_size = none;
    memory_spill_to_cold_threshold_size = none;
    huge_partition_memory_spill_to_hdfs_threshold_size = 0;
  };
  memory_spill_lock = false;
  memory_spill_event_num = 0;
  in_flight_bytes_size = 0;
  event_bus = record { parent = []; localfile = []; hdfs = [] };
  app_manager = none;
}

abbrev message : SpillMessage
message = record {
  ctx = record {
    uid = record { app_id = 97 ∷ []; shuffle_id = pos 0; partition_id = pos 0 };
    data_blocks = [];
    has_app_manager = false;
  };
  size = pos 10;
  retry_cnt = 0;
  flight_id = 0;
  candidate_store_type = none;
}

abbrev busy : HybridStore flaky
busy = Hybrid.publish_spill_event flaky (idle 2) message

idle-IsCounted : IsCounted flaky (idle 2)
idle-IsCounted = record { number = refl; in_flight = refl }

busy-IsCounted : IsCounted flaky busy
busy-IsCounted =
    Reach-IsCounted flaky (idle 2) busy flaky-IsLawful idle-IsCounted (publish _ start message)

Reach-IsCounted_example : IsCounted flaky (step flaky (dispatch 0) busy)
Reach-IsCounted_example =
    Reach-IsCounted flaky (idle 2) (step flaky (dispatch 0) busy) flaky-IsLawful idle-IsCounted
      (handle busy (publish (idle 2) start message) (dispatch 0))

dispatch_waiting : is_waiting flaky (dispatch 0) busy ≡ true
unfolding Hybrid.publish_spill_event Hybrid.publish Hybrid.start_spill_event pick
dispatch_waiting = refl

busy_total : total one one busy.event_bus ≡ 1
unfolding Hybrid.publish_spill_event Hybrid.publish Hybrid.start_spill_event
busy_total = refl

Runs-ends_example : 1 ≤ 10 * total one one busy.event_bus
Runs-ends_example =
    Runs-ends flaky busy (step flaky (dispatch 0) busy) 1 flaky-IsLawful
      (Runs.handle 0 busy Runs.start (dispatch 0) dispatch_waiting)

drain-empties_example :
    ((drain flaky 10 busy).event_bus ≡ empty flaky)
    × ((drain flaky 10 busy).memory_spill_event_num ≡ 0)
    × ((drain flaky 10 busy).in_flight_bytes_size ≡ 0)
drain-empties_example =
    drain-empties flaky 10 busy flaky-IsLawful busy-IsCounted (omega (arith, busy_total))

-- Two writes fail, the third one is done.
retried : (drain flaky 10 busy).warm_store ≡ some 0
unfolding drain next step pick on_select on_flush dispatch_hook retry_hook publish_to_child
    Hybrid.publish_spill_event Hybrid.publish Hybrid.start_spill_event Hybrid.finish_spill_event
    Hybrid.release_memory_buffer Memory.new
retried = refl
