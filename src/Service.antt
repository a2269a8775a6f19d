-- ===== src/Service.antt =====
-- The handlers of src/grpc/service.rs over the manager of the applications and the hybrid store, but
-- for that of sent data. A handler answers with a status; its message is not modelled. The store asks
-- the same manager, so that a handler writes it back there.
pub mod Reading
pub mod Requiring
pub mod Commands
pub mod Reporting
pub mod Reported
pub mod Answers
mod Tests
use r.Base.{Bytes, List}
use r.Base.Int.{ℤ}
use r.App.{AppManager, App, write_app}
use r.App.Calls
use r.Persistent.{PersistentStore}
use r.Hybrid.{HybridStore}
use r.Memory.{PartitionedUId}

module _ (P : PersistentStore) where
  pub record Server : Type 0 where
    pub app_manager_ref : AppManager
    pub store : HybridStore P

  -- The server after a call changed an application and the store.
  abbrev pub write_back : Server → Bytes → App → HybridStore P → Server
  write_back s app_id app h =
      let manager = write_app s.app_manager_ref app_id app in
      record { app_manager_ref = manager; store = Calls.with_manager P h manager }

abbrev pub uid_of : Bytes → ℤ → ℤ → PartitionedUId
uid_of app_id shuffle_id partition_id = record {
  app_id = app_id;
  shuffle_id = shuffle_id;
  partition_id = partition_id;
}
