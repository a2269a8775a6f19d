-- ===== src/Buffer.antt =====
-- src/store/mem/buffer.rs: the buffer of a partition. A method holds the lock throughout, so it is
-- one step. The flights are a map in an unspecified order; a task bitmap enters by its membership
-- test. `get_v2` answers with segments, `get` with blocks.
pub mod Read
pub mod Answers
pub mod Paging
pub mod Sizes
mod Tests
use r.Base.{
  ℕ, ◌+◌, ◌%◌, ◌^◌, Bool, true, false, not, ◌&&◌, Option, none, some, List, [], ◌∷◌, ◌++◌, ◌==◌,
  nat_eq, if◌then◌else◌, concat, map, zero, suc, Bytes,
}
use r.Base.Int.{ℤ, pos, negsuc, int_eq, leb_ℤ}
use r.Base.Machine.{add64, sub64, to_i64, to_u64}
use r.Base.Map
use r.Base.Map.{Map}
use r.Store.Blocks.{Block, DataSegment}
use r.Store.Composed
use mathlib.Core.Option
use r.Store.Wrapper.{PartitionedMemoryData, composed}

abbrev pub BatchMemoryBlock : Type 0
BatchMemoryBlock = List (List Block)

pub record BufferInternal : Type 0 where
  pub total_size : ℤ
  pub staging_size : ℤ
  pub flight_size : ℤ
  pub staging : BatchMemoryBlock
  pub flight : Map ℕ BatchMemoryBlock
  pub flight_counter : ℕ

pub record BufferSpillResult : Type 0 where
  pub flight_id : ℕ
  pub flight_len : ℕ
  pub blocks : BatchMemoryBlock

pub record BufferReadResult : Type 0 where
  pub read_len : ℕ
  pub blocks : List Block

unfoldable pub new : BufferInternal
new = record {
  total_size = pos 0;
  staging_size = pos 0;
  flight_size = pos 0;
  staging = [];
  flight = [];
  flight_counter = 0;
}

unfoldable pub append : BufferInternal → List Block → ℕ → BufferInternal
append b blocks size = record b {
  staging = b.staging ++ (blocks ∷ []);
  staging_size = add64 b.staging_size (to_i64 size);
  total_size = add64 b.total_size (to_i64 size);
}

unfoldable pub spill : BufferInternal → BufferInternal × BufferSpillResult
spill b = (
  record b {
    staging = [];
    flight = Map.insert b.flight_counter b.staging b.flight;
    flight_counter = (b.flight_counter + 1) % 2 ^ 64;
    flight_size = add64 b.flight_size b.staging_size;
    staging_size = pos 0;
  },
  record { flight_id = b.flight_counter; flight_len = to_u64 b.staging_size; blocks = b.staging },
)

unfoldable pub clear : BufferInternal → ℕ → ℕ → BufferInternal
clear b flight_id flight_size = elim (Map.get flight_id b.flight) [
  | none ↦ b
  | some block_ref ↦ record b {
    flight = Map.remove flight_id b.flight;
    total_size = sub64 b.total_size (to_i64 flight_size);
    flight_size = sub64 b.flight_size (to_i64 flight_size);
  }
]

-- What the reading loops carry along.
pub record Reading : Type 0 where
  pub read_result : List Block
  pub read_len : ℤ
  pub flight_found : Bool

-- The body of the innermost loop: it goes on with a state, or breaks.
pub data Control : Type 0 where
  continue : Reading → Control
  stop : Control

abbrev pub expected : Option (ℕ → Bool) → Block → Bool
expected none b = true
expected (some contains) b = contains (to_u64 b.task_attempt_id)

abbrev pub invalid_block_id : ℤ
invalid_block_id = negsuc 0

module _ (last_block_id batch_len : ℤ) (task_ids : Option (ℕ → Bool)) where
  unfoldable pub visit : Block → Reading → Control
  visit block s =
      if not s.flight_found && (block.block_id == last_block_id)
      then continue (record s { flight_found = true })
      else if not s.flight_found
      then continue s
      else if leb_ℤ batch_len s.read_len
      then stop
      else if not (expected task_ids block)
      then continue s
      else continue (record s {
        read_len = add64 s.read_len block.length;
        read_result = s.read_result ++ (block ∷ []);
      })

  -- `for block in blocks`
  unfoldable pub read_blocks : List Block → Reading → Reading
  read_blocks [] s = s
  read_blocks (b ∷ bs) s = elim (visit b s) [ continue s' ↦ read_blocks bs s' | stop ↦ s ]

  -- `for blocks in batch_block.iter()`: a break leaves the innermost loop only.
  unfoldable pub read_batch : BatchMemoryBlock → Reading → Reading
  read_batch [] s = s
  read_batch (bs ∷ batch) s = read_batch batch (read_blocks bs s)

  -- `for (_, batch_block) in buffer.flight.iter()`
  unfoldable pub read_flights : Map ℕ BatchMemoryBlock → Reading → Reading
  read_flights [] s = s
  read_flights ((id, batch) ∷ flight) s = read_flights flight (read_batch batch s)

  -- One round of `while !exit`, and the loop on fuel: it ends when the start was found.
  unfoldable pub read_round : BufferInternal → Reading → Reading
  read_round b s =
      let s' = if last_block_id == invalid_block_id then record s { flight_found = true } else s in
      read_batch b.staging (read_flights b.flight s')

  unfoldable pub read_loop : ℕ → BufferInternal → Reading → Option Reading
  read_loop zero b s = none
  read_loop (suc fuel) b s =
      let s' = read_round b s in
      let again = read_loop fuel b (record s' { flight_found = true }) in
      if not s'.flight_found then again else some s'

abbrev pub start : Reading
start = record { read_result = []; read_len = pos 0; flight_found = false }

unfoldable pub get : BufferInternal → ℤ → ℤ → Option (ℕ → Bool) → Option BufferReadResult
get b last_block_id batch_len task_ids =
    Option.map (λ (s : Reading). record { read_len = to_u64 s.read_len; blocks = s.read_result })
      (read_loop last_block_id batch_len task_ids 2 b start)

-- The loop over the blocks read that lays their segments out one after the other.
unfoldable pub lay_out : ℤ → List Block → List DataSegment × ℤ
lay_out offset [] = ([], offset)
lay_out offset (b ∷ bs) =
    let rest = lay_out (add64 offset b.length) bs in
    (
      record {
        block_id = b.block_id;
        offset = offset;
        length = b.length;
        uncompress_length = b.uncompress_length;
        crc = b.crc;
        task_attempt_id = b.task_attempt_id;
      }
          ∷ rest.0,
      rest.1,
    )

unfoldable pub memory_data : Reading → PartitionedMemoryData
unfolding Composed.from lay_out
memory_data s =
    let laid = lay_out (pos 0) s.read_result in
    record {
      shuffle_data_block_segments = laid.0;
      content = composed (Composed.from (map (λ b. b.payload) s.read_result) (to_u64 laid.1));
    }

unfoldable pub get_v2 : BufferInternal → ℤ → ℤ → Option (ℕ → Bool) → Option PartitionedMemoryData
unfolding memory_data
get_v2 b last_block_id batch_len task_ids =
    Option.map memory_data (read_loop last_block_id batch_len task_ids 2 b start)
