-- ===== src/Hybrid.antt =====
-- src/store/hybrid.rs: the hybrid store over the memory store and the persistent stores of an
-- interface. The single precision arithmetic of the watermarks is a parameter: whether a used size
-- over a capacity exceeds the high one, and the size that the low one leaves of a capacity.
pub mod Choosing
pub mod Inserting
pub mod Answering
pub mod Releasing
mod Tests
use r.Base.{
  if◌then◌else◌, ℕ, ◌+◌, ◌-◌, ◌%◌, ◌^◌, Bool, true, false, not, ◌&&◌, Option, none, some, List, [],
  ◌∷◌, ◌++◌,
}
use r.Base.Int.{ℤ}
use r.Base.Machine.{to_u64}
use r.Error.{Outcome, ok, err, panic}
use r.Config.{StorageType, contains_memory, contains_localfile, contains_hdfs}
use r.App
use r.App.{AppManager}
use r.Memory
use r.Memory.{MemoryStore}
use r.Persistent.{PersistentStore}
use r.Spill
use r.Spill.{SpillMessage, SpillWritingViewContext, HierarchyEventBus}

-- The configuration with its sizes parsed and its watermarks as functions.
pub record HybridStoreConfig : Type 0 where
  pub memory_spill_high_watermark : ℤ → ℤ → Bool
  pub memory_spill_low_watermark : ℤ → ℤ
  pub memory_single_buffer_max_spill_size : Option ℕ
  pub memory_spill_to_cold_threshold_size : Option ℕ
  pub huge_partition_memory_spill_to_hdfs_threshold_size : ℕ

module _ (P : PersistentStore) where
  pub record HybridStore : Type 0 where
    pub hot_store : MemoryStore
    pub warm_store : Option P.State
    pub cold_store : Option P.State
    pub config : HybridStoreConfig
    -- Whether another task holds the lock.
    pub memory_spill_lock : Bool
    pub memory_spill_event_num : ℕ
    pub in_flight_bytes_size : ℕ
    pub event_bus : HierarchyEventBus
    pub app_manager : Option AppManager

  -- The stores in the order in which `from` makes them; a build without HDFS panics on it.
  unfoldable pub persistent_stores : Bool → StorageType → P.State → P.State → Outcome (List P.State)
  unfolding contains_localfile contains_hdfs
  persistent_stores hdfs_feature store_type localfile_store hdfs_store =
      let locals = if contains_localfile store_type then localfile_store ∷ [] else [] in
      if contains_hdfs store_type
      then if hdfs_feature then ok (locals ++ (hdfs_store ∷ [])) else panic
      else ok locals

  -- `pop_front` twice.
  unfoldable pub warm_and_cold : List P.State → Option P.State × Option P.State
  warm_and_cold [] = (none, none)
  warm_and_cold (warm ∷ []) = (some warm, none)
  warm_and_cold (warm ∷ cold ∷ rest) = (some warm, some cold)

  unfoldable pub from :
      Bool → StorageType → HybridStoreConfig → MemoryStore → P.State → P.State → Outcome HybridStore
  unfolding contains_memory persistent_stores warm_and_cold
  from hdfs_feature store_type config hot_store localfile_store hdfs_store =
      if not (contains_memory store_type)
      then panic
      else elim (persistent_stores hdfs_feature store_type localfile_store hdfs_store) [
        | ok stores ↦
            let (warm, cold) = warm_and_cold stores in
            ok (record {
              hot_store = hot_store;
              warm_store = warm;
              cold_store = cold;
              config = config;
              memory_spill_lock = false;
              memory_spill_event_num = 0;
              in_flight_bytes_size = 0;
              event_bus = record { parent = []; localfile = []; hdfs = [] };
              app_manager = none;
            })
        | err e ↦ err e
        | panic ↦ panic
      ]

  unfoldable pub start_spill_event : HybridStore → ℕ → HybridStore
  start_spill_event h bytes_size = record h {
    memory_spill_event_num = (h.memory_spill_event_num + 1) % 2 ^ 64;
    in_flight_bytes_size = (h.in_flight_bytes_size + bytes_size) % 2 ^ 64;
  }

  unfoldable pub finish_spill_event : HybridStore → ℕ → HybridStore
  finish_spill_event h bytes_size = record h {
    memory_spill_event_num = (h.memory_spill_event_num + (2 ^ 64 - 1)) % 2 ^ 64;
    in_flight_bytes_size = (h.in_flight_bytes_size + (2 ^ 64 - bytes_size % 2 ^ 64)) % 2 ^ 64;
  }

  unfoldable pub is_memory_only : HybridStore → Bool
  is_memory_only h = elim h.cold_store [
    | none ↦ elim h.warm_store [ none ↦ true | some warm ↦ false ]
    | some cold ↦ false
  ]

  -- The cell is set once.
  unfoldable pub with_app_manager : HybridStore → AppManager → HybridStore
  with_app_manager h m = elim h.app_manager [
    | none ↦ record h { app_manager = some m }
    | some there ↦ h
  ]

  -- The message is put last in the dispatcher's queue, which is unbounded.
  unfoldable pub publish : HybridStore → SpillMessage → HybridStore
  publish h m = record h {
    event_bus = record h.event_bus { parent = h.event_bus.parent ++ (m ∷ []) };
  }

  unfoldable pub publish_spill_event : HybridStore → SpillMessage → HybridStore
  unfolding publish start_spill_event
  publish_spill_event h m = start_spill_event (publish h m) (to_u64 m.size)

  unfoldable pub release_memory_buffer :
      HybridStore → ℤ → SpillMessage → HybridStore × Outcome (Unit {0})
  unfolding Memory.clear_spilled_buffer
  release_memory_buffer h data_size m =
      let (hot, answer) =
        Memory.clear_spilled_buffer h.hot_store m.ctx.uid m.flight_id (to_u64 data_size) in
      (record h { hot_store = hot }, answer)
