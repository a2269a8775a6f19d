-- ===== src/Buffer/Tests.antt =====
-- Runs of the buffer, and its theorems at concrete inputs.
use r.Base.{nat_eq, ℕ, ◌≡◌, refl, List, [], ◌∷◌, Bytes, none, some, length, map, arith}
use r.Base.Int.{pos, int_eq}
use r.Base.Machine.{to_u64, add64, to_i64}
use r.Base.Map
use r.Store.Blocks.{Block, payload_len, segments, slice, payloads}
use r.Store.Wrapper
use r.Store.Wrapper.{PartitionedMemoryData}
use r.Buffer.{BufferInternal, new, append, spill, get, get_v2, invalid_block_id}
use r.Buffer.Read.{taken_len}
use r.Buffer.Answers.{answer, get_lem, get_v2_lem}
use r.Buffer.Paging.{client, client_lem}
use r.Buffer.Sizes.{
  Protocol, begin, Reach, here, next, appends, spills, IsAccounted, Reach-IsAccounted,
}

abbrev block_of : ℕ → Bytes → Block
block_of id bytes = record {
  block_id = pos id;
  length = pos (length bytes);
  uncompress_length = pos 200;
  crc = pos 7;
  payload = bytes;
  task_attempt_id = pos 1;
}

abbrev two_blocks : List Block
two_blocks = block_of 3 (104 ∷ 105 ∷ 33 ∷ []) ∷ block_of 4 (106 ∷ 107 ∷ []) ∷ []

-- A flight with two blocks, and a block in the staging.
abbrev filled : BufferInternal
filled = record {
  total_size = pos 6;
  staging_size = pos 1;
  flight_size = pos 5;
  staging = (block_of 5 (108 ∷ []) ∷ []) ∷ [];
  flight = (0, two_blocks ∷ []) ∷ [];
  flight_counter = 1;
}

built : append (spill (append new two_blocks 5)).0 (block_of 5 (108 ∷ []) ∷ []) 1 ≡ filled
unfolding append spill new add64 to_i64 to_u64 Map.insert Map.remove
built = refl

get_lem_example :
    get filled (pos 3) (pos 100) none
    ≡ some (record {
      read_len = to_u64 (taken_len (pos 0) (answer filled (pos 3) (pos 100) none));
      blocks = answer filled (pos 3) (pos 100) none;
    })
get_lem_example = get_lem filled (pos 3) (pos 100) none

get_v2_lem_example :
    (m : PartitionedMemoryData) × (get_v2 filled (pos 3) (pos 100) none ≡ some m)
    × (m.shuffle_data_block_segments ≡ segments 0 (answer filled (pos 3) (pos 100) none))
    × (Wrapper.len m.content ≡ payload_len (answer filled (pos 3) (pos 100) none))
    × (map (slice 0 (Wrapper.freeze m.content)) m.shuffle_data_block_segments
        ≡ payloads (answer filled (pos 3) (pos 100) none))
unfolding add64
get_v2_lem_example = get_v2_lem filled (pos 3) (pos 100) none (refl, (refl, tt)) (omega arith)

client_lem_example :
    client (pos 1) none 4 filled invalid_block_id
    ≡ some (
        block_of 3 (104 ∷ 105 ∷ 33 ∷ []) ∷ block_of 4 (106 ∷ 107 ∷ []) ∷ block_of 5 (108 ∷ []) ∷ [])
client_lem_example =
    client_lem (pos 1) none filled (omega arith) (refl, (refl, (refl, tt))) refl 4 invalid_block_id
      (omega arith)

-- An append and a spill of it.
abbrev appended : Protocol
appended = record { buffer = append new two_blocks 5; staged = 5; outstanding = [] }

abbrev spilled : Protocol
spilled = record {
  buffer = (spill appended.buffer).0;
  staged = 0;
  outstanding =
      Map.insert (spill appended.buffer).1.flight_id (spill appended.buffer).1.flight_len [];
}

to_spilled : Reach begin spilled
unfolding append new
to_spilled =
    next (next here (appends begin two_blocks 5 (omega arith))) (spills appended (omega arith))

Reach-IsAccounted_example : IsAccounted spilled
Reach-IsAccounted_example = Reach-IsAccounted spilled to_spilled
