-- ===== src/Hybrid/Tests.antt =====
-- The hybrid store's theorems at concrete inputs, over a store that accepts every write.
use r.Base.{nat_eq, arith, ◌≡◌, refl, [], ◌∷◌, none, some, true, false}
use r.Base.Int.{pos}
use r.Error.{ok, err, other}
use r.Config
use r.Base.Map
use r.Store.Blocks.{Block}
use r.Buffer.{BufferInternal}
use r.Budget
use r.Memory
use r.Memory.{PartitionedUId, get_buffer}
use r.Persistent.{PersistentStore}
use r.Hybrid
use r.Hybrid.{HybridStore}
use r.Hybrid.Inserting.{spill_message, buffer_spill_impl}
use r.Hybrid.Releasing.{without_staged, release_memory_buffer-buffer_spill_impl}

abbrev accepting : PersistentStore
accepting = record {
  State = Unit {0};
  name = λ s. Config.hdfs;
  is_healthy = λ s. ok true;
  spill_insert = λ s uid blocks. (s, ok tt);
  get = λ s uid options. err other;
  get_index = λ s uid. err other;
  purge = λ s app_id shuffle_id. (s, ok (pos 0));
}

abbrev store : HybridStore accepting
store = record {
  hot_store = Memory.new (pos 100);
  warm_store = some tt;
  cold_store = none;
  config = record {
    memory_spill_high_watermark = λ used capacity. false;
    memory_spill_low_watermark = λ capacity. pos 0;
    memory_single_buffer_max_spill_size = none;
    memory_spill_to_cold_threshold_size = none;
    huge_partition_memory_spill_to_hdfs_threshold_size = 0;
  };
  memory_spill_lock = false;
  memory_spill_event_num = 0;
  in_flight_bytes_size = 0;
  event_bus = record { parent = []; localfile = []; hdfs = [] };
  app_manager = none;
}

abbrev uid : PartitionedUId
uid = record { app_id = 97 ∷ []; shuffle_id = pos 1; partition_id = pos 2 }

abbrev block : Block
block = record {
  block_id = pos 3;
  length = pos 2;
  uncompress_length = pos 200;
  crc = pos 7;
  payload = 104 ∷ 105 ∷ [];
  task_attempt_id = pos 1;
}

abbrev staged : BufferInternal
staged = record {
  total_size = pos 2;
  staging_size = pos 2;
  flight_size = pos 0;
  staging = (block ∷ []) ∷ [];
  flight = [];
  flight_counter = 0;
}

no_flight : Map.get 0 staged.flight ≡ none
unfolding Map.get
no_flight = refl

release_memory_buffer-buffer_spill_impl_example :
    let m = spill_message accepting store uid staged in
    let h' =
      (Hybrid.release_memory_buffer accepting
        (buffer_spill_impl accepting store uid staged).0
        m.size
        m).0 in
    (m.ctx.data_blocks ≡ staged.staging)
    × (get_buffer h'.hot_store uid ≡ ok (without_staged staged 2))
    × (h'.hot_store.budget ≡ (Budget.dec_used store.hot_store.budget (pos 2)).0)
release_memory_buffer-buffer_spill_impl_example =
    release_memory_buffer-buffer_spill_impl accepting store uid staged 2 refl (omega arith)
      no_flight
