-- ===== src/Persistent.antt =====
-- The trait `PersistentStore` of src/store/hybrid.rs, which is `Store` and `Persistent` of
-- src/store/mod.rs, as an interface over the state of a store: the warm and the cold store of the
-- hybrid store are values of it.
use r.Base.{Bool, Option, Bytes, ◌≡◌, ◌≢◌, ◌⊎◌}
use r.Base.Int.{ℤ}
use r.Error.{Outcome, panic}
use r.Config.{StorageType, localfile, hdfs}
use r.Memory.{PartitionedUId}
use r.Buffer.{BatchMemoryBlock}
use r.Store.Wrapper.{ResponseData, LocalDataIndex}

pub data ReadingOptions : Type 0 where
  memory_last_block_id_and_max_size : ℤ → ℤ → ReadingOptions
  file_offset_and_len : ℤ → ℤ → ReadingOptions

pub record PersistentStore : Type 1 where
  pub State : Type 0
  pub name : State → StorageType
  pub is_healthy : State → Outcome Bool
  pub spill_insert : State → PartitionedUId → BatchMemoryBlock → State × Outcome (Unit {0})
  pub get : State → PartitionedUId → ReadingOptions → Outcome ResponseData
  pub get_index : State → PartitionedUId → Outcome LocalDataIndex
  pub purge : State → Bytes → Option ℤ → State × Outcome ℤ

-- The stores of the repository are local files or HDFS, and a task that uses one does not die.
pub record IsLawful (P : PersistentStore) : Type 0 where
  pub name-cases : (s : P.State) → (P.name s ≡ localfile) ⊎ (P.name s ≡ hdfs)
  pub is_healthy-returns : (s : P.State) → P.is_healthy s ≢ panic
  pub spill_insert-returns :
      (s : P.State) (uid : PartitionedUId) (blocks : BatchMemoryBlock)
      → (P.spill_insert s uid blocks).1 ≢ panic
