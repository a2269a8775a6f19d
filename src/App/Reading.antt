-- ===== src/App/Reading.antt =====
-- src/app.rs: the reads of an application, which count as heartbeats. The counters of bytes are not
-- modelled.
use r.Base.{ℕ, Option, Bool}
use r.Error.{Outcome}
use r.Store.Wrapper.{ResponseData, LocalDataIndex}
use r.Memory.{PartitionedUId}
use r.Persistent.{PersistentStore, ReadingOptions}
use r.Hybrid.{HybridStore}
use r.Hybrid.Answering
use r.App.{App, heartbeat}

module _ (P : PersistentStore) where
  unfoldable pub select :
      App
      → HybridStore P
      → PartitionedUId
      → ReadingOptions
      → Option (ℕ → Bool)
      → ℕ
      → App × Outcome (Option ResponseData)
  unfolding heartbeat Answering.get
  select app h uid options task_ids now =
      (heartbeat app now, Answering.get P h uid options task_ids)

  unfoldable pub list_index :
      App → HybridStore P → PartitionedUId → ℕ → App × Outcome LocalDataIndex
  unfolding heartbeat Answering.get_index
  list_index app h uid now = (heartbeat app now, Answering.get_index P h uid)
