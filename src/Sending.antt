-- ===== src/Sending.antt =====
-- `send_shuffle_data` of src/grpc/service.rs and the same command of src/urpc/command.rs: the ticket
-- of the request is given back, the blocks are inserted, and the memory that the ticket held is
-- settled. The time and the order of the partitions are arguments; messages are not modelled.
pub mod Settling
mod Tests
use r.Base.{
  ℕ, Bool, true, false, Option, none, some, List, [], ◌∷◌, ◌++◌, Bytes, if◌then◌else◌, ◌==◌,
}
use r.Base.Int.{ℤ, pos, int_eq, ltb_ℤ}
use r.Base.Machine.{add64, sub64, add32, to_u64}
use r.Base.Map
use r.Base.Map.{Map}
use r.Error.{Outcome, ok, err, panic}
use r.Store.Blocks.{Block}
use r.Memory.{PartitionedUId}
use r.Persistent.{PersistentStore}
use r.Hybrid.{HybridStore}
use r.Hybrid.Answering
use r.App
use r.App.{App}
use r.App.Calls

pub data StatusCode : Type 0 where
  success : StatusCode
  no_register : StatusCode
  no_buffer : StatusCode
  no_buffer_for_huge_partition : StatusCode
  internal_error : StatusCode

-- The size of `WritingViewContext::new`: the lengths are summed as i32.
unfoldable pub sum_of_lengths : ℤ → List Block → ℤ
sum_of_lengths sum [] = sum
sum_of_lengths sum (b ∷ blocks) = sum_of_lengths (add32 sum b.length) blocks

unfoldable pub data_size : List Block → ℕ
unfolding sum_of_lengths
data_size blocks = to_u64 (sum_of_lengths (pos 0) blocks)

-- The blocks of a request by partition, of `blocks_map`.
unfoldable pub blocks_map : List (ℤ × List Block) → Map ℤ (List Block) → Map ℤ (List Block)
blocks_map [] m = m
blocks_map ((partition_id, data_blocks) ∷ shuffle_data) m =
    blocks_map shuffle_data (elim (Map.get partition_id m) [
      | none ↦ Map.insert partition_id data_blocks m
      | some blocks ↦ Map.insert partition_id (blocks ++ data_blocks) m
    ])

module _ (P : PersistentStore) where
  -- What the loops over the partitions carry along.
  pub record Inserting : Type 0 where
    pub app : App
    pub store : HybridStore P
    pub inserted_total_size : ℤ
    pub inserted_failure_occurs : Bool

  -- The insert of the blocks of a partition; one that fails adds nothing to the size.
  unfoldable pub insert_partition : ℕ → PartitionedUId → List Block → Inserting → Inserting
  unfolding Calls.insert data_size
  insert_partition now uid blocks s =
      let ((app, store), inserted) =
        Calls.insert P s.app s.store uid blocks (data_size blocks) now in
      elim inserted [
        | ok size ↦ record s {
          app = app;
          store = store;
          inserted_total_size = add64 s.inserted_total_size size;
        }
        | err e ↦ record s { app = app; store = store; inserted_failure_occurs = true }
        | panic ↦ record s { app = app; store = store; inserted_failure_occurs = true }
      ]

  module _ (now : ℕ) (app_id : Bytes) (shuffle_id : ℤ) where
    abbrev uid_of : ℤ → PartitionedUId
    uid_of partition_id = record {
      app_id = app_id;
      shuffle_id = shuffle_id;
      partition_id = partition_id;
    }

    -- The loop of the gRPC handler: after a failure the rest is skipped.
    unfoldable pub insert_until_failure : Map ℤ (List Block) → Inserting → Inserting
    unfolding insert_partition
    insert_until_failure [] s = s
    insert_until_failure ((partition_id, blocks) ∷ rest) s = insert_until_failure rest (
        if s.inserted_failure_occurs
        then s
        else insert_partition now (uid_of partition_id) blocks s)

    -- The loop of the urpc handler: every partition is tried.
    unfoldable pub insert_all : Map ℤ (List Block) → Inserting → Inserting
    unfolding insert_partition
    insert_all [] s = s
    insert_all ((partition_id, blocks) ∷ rest) s =
        insert_all rest (insert_partition now (uid_of partition_id) blocks s)

  -- The settlement of the gRPC handler: what is not used is freed, whatever its sign.
  unfoldable pub settle_grpc : HybridStore P → ℤ → ℤ → HybridStore P
  unfolding Answering.move_allocated_to_used_from_hot_store
      Answering.release_allocated_from_hot_store
  settle_grpc h required_len_with_ticket inserted_total_size =
      let h1 = Answering.move_allocated_to_used_from_hot_store P h inserted_total_size in
      let unused_allocated_size = sub64 required_len_with_ticket inserted_total_size in
      if unused_allocated_size == pos 0
      then h1
      else Answering.release_allocated_from_hot_store P h1 unused_allocated_size

  -- The settlement of the urpc handler: only what is left over is freed.
  unfoldable pub settle_urpc : HybridStore P → ℤ → ℤ → HybridStore P
  unfolding Answering.move_allocated_to_used_from_hot_store
      Answering.release_allocated_from_hot_store
  settle_urpc h ticket_len insert_len =
      let h1 = Answering.move_allocated_to_used_from_hot_store P h insert_len in
      let unused = sub64 ticket_len insert_len in
      if ltb_ℤ (pos 0) unused then Answering.release_allocated_from_hot_store P h1 unused else h1

  abbrev nothing_inserted : App → HybridStore P → Inserting
  nothing_inserted app h = record {
    app = app;
    store = h;
    inserted_total_size = pos 0;
    inserted_failure_occurs = false;
  }

  abbrev status_of : Bool → StatusCode
  status_of failed = if failed then internal_error else success

  unfoldable pub send_shuffle_data :
      ℕ
      → Bytes
      → ℤ
      → ℤ
      → List (ℤ × List Block)
      → Option App
      → HybridStore P
      → (Option App × HybridStore P) × StatusCode
  unfolding Answering.release_ticket insert_until_failure settle_grpc blocks_map
  send_shuffle_data now app_id shuffle_id ticket_id shuffle_data none h = ((none, h), no_register)
  send_shuffle_data now app_id shuffle_id ticket_id shuffle_data (some app) h =
      let (h1, release_result) = Answering.release_ticket P h ticket_id in
      elim release_result [
        | ok required ↦
            let s =
              insert_until_failure now app_id shuffle_id (blocks_map shuffle_data [])
                (nothing_inserted app h1) in
            (
              (some s.app, settle_grpc s.store required s.inserted_total_size),
              status_of s.inserted_failure_occurs,
            )
        | err e ↦ ((some app, h1), no_buffer)
        | panic ↦ ((some app, h1), no_buffer)
      ]

  unfoldable pub apply :
      ℕ
      → Bytes
      → ℤ
      → ℤ
      → Map ℤ (List Block)
      → Option App
      → HybridStore P
      → (Option App × HybridStore P) × StatusCode
  unfolding Answering.release_ticket insert_all settle_urpc
  apply now app_id shuffle_id ticket_id blocks none h = ((none, h), no_register)
  apply now app_id shuffle_id ticket_id blocks (some app) h =
      let (h1, release_result) = Answering.release_ticket P h ticket_id in
      elim release_result [
        | ok ticket_len ↦
            let s = insert_all now app_id shuffle_id blocks (nothing_inserted app h1) in
            (
              (some s.app, settle_urpc s.store ticket_len s.inserted_total_size),
              status_of s.inserted_failure_occurs,
            )
        | err e ↦ ((some app, h1), internal_error)
        | panic ↦ ((some app, h1), internal_error)
      ]
