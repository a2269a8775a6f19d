-- ===== src/Spill.antt =====
-- src/store/spill/mod.rs: the message of a spill event. Its retry counter and candidate are shared by
-- the clones of a message, of which one is in a queue at a time. The closure of its context asks the
-- application manager that was set when the message was made.
pub mod Handlers
pub mod Outcomes
pub mod Effects
pub mod Counting
pub mod Draining
mod Tests
pub mod Bus
use r.Base.{List, if◌then◌else◌, ℕ, ◌+◌, ◌%◌, ◌^◌, Bool, true, false, Option, none, some}
use r.Base.Int.{ℤ}
use r.Config.{StorageType}
use r.App
use r.App.{AppManager}
use r.Memory.{PartitionedUId}
use r.Buffer.{BatchMemoryBlock}

pub record SpillWritingViewContext : Type 0 where
  pub uid : PartitionedUId
  pub data_blocks : BatchMemoryBlock
  -- Whether the manager was set when the closure captured it.
  pub has_app_manager : Bool

pub record SpillMessage : Type 0 where
  pub ctx : SpillWritingViewContext
  pub size : ℤ
  pub retry_cnt : ℕ
  pub flight_id : ℕ
  pub candidate_store_type : Option StorageType

unfoldable pub set_candidate_storage_type : SpillMessage → StorageType → SpillMessage
set_candidate_storage_type m t = record m { candidate_store_type = some t }

unfoldable pub inc_retry_counter : SpillMessage → SpillMessage
inc_retry_counter m = record m { retry_cnt = (m.retry_cnt + 1) % 2 ^ 32 }

-- The applications are those of the manager at the time of the call.
unfoldable pub is_valid : Option AppManager → SpillWritingViewContext → Bool
unfolding App.app_is_exist
is_valid none ctx = true
is_valid (some m) ctx = if ctx.has_app_manager then App.app_is_exist m ctx.uid.app_id else true

-- The queues of the event bus of `HierarchyEventBus`: those of the dispatcher and of its children.
pub record HierarchyEventBus : Type 0 where
  pub parent : List SpillMessage
  pub localfile : List SpillMessage
  pub hdfs : List SpillMessage
