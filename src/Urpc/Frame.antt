-- ===== src/Urpc/Frame.antt =====
-- `Frame::check` and `Frame::parse` of src/urpc/frame.rs, and `Connection::parse_frame` of
-- src/urpc/connection.rs. An error of a reader inside a `parse_to` function passes through `anyhow`,
-- so that `parse` returns it as `other`; those that `parse` reads itself keep theirs.
use r.Base.{
  ℕ, ◌-◌, ◌++◌, Option, none, some, List, [], ◌∷◌, Bytes, length, drop, ltb, if◌then◌else◌, zero,
  suc,
}
use r.Base.Int.{ℤ, pos, pos_part, ltb_ℤ, int_eq}
use r.Base.Machine.{to_u64, add32}
use r.Base.Map
use r.Base.Map.{Map}
use r.Error.{
  WorkerError, Outcome, ok, err, panic, stream_incomplete, stream_abnormal,
  stream_message_type_not_found, other,
}
use r.Store.Blocks.{Block}
use r.Store.Format.{Codec}
use r.Urpc.Commands
use r.Urpc.Commands.{
  MessageType, SendDataRequestCommand, GetMemoryDataRequestCommand, GetLocalDataRequestCommand,
  GetLocalDataIndexRequestCommand, RpcResponseCommand,
}
use r.Urpc.Cursor.{
  Reader, ◌>>=◌, ◌>>◌, done, fail, remaining, skip, get_u8, get_i64, get_i32, get_bytes, get_string,
}

-- `?` from `anyhow::Error` to `WorkerError`.
abbrev pub from_anyhow {ℓ} : {A : Type ℓ} → Reader A → Reader A
from_anyhow m src = elim (m src) [ ok x ↦ ok x | err e ↦ err other | panic ↦ panic ]

abbrev pub unwrap_or_empty : Option Bytes → Bytes
unwrap_or_empty none = []
unwrap_or_empty (some b) = b

-- `Vec::with_capacity(n as usize)` of an i32: the capacity overflows where it is negative.
abbrev pub with_capacity : ℤ → Reader (Unit {0})
with_capacity n src = if ltb_ℤ n (pos 0) then panic else ok (tt, src)

module _ (c : Codec) where
  unfoldable pub check : Reader (Unit {0})
  check = do
    start ← remaining
    if ltb start 9 then fail stream_incomplete else do
      msg_len ← get_i32 c
      msg_type ← get_u8
      body_len ← get_i32 c
      left ← remaining
      let n = to_u64 (add32 msg_len body_len)
      if ltb left n then fail stream_incomplete else skip n

  unfoldable pub parse_to_get_localfile_data_command : Reader GetLocalDataRequestCommand
  parse_to_get_localfile_data_command = do
    request_id ← get_i64 c
    app_id ← get_string c
    shuffle_id ← get_i32 c
    partition_id ← get_i32 c
    partition_num_per_range ← get_i32 c
    partition_num ← get_i32 c
    offset ← get_i64 c
    len ← get_i32 c
    timestamp ← get_i64 c
    done (record {
      request_id = request_id;
      app_id = app_id;
      shuffle_id = shuffle_id;
      partition_id = partition_id;
      partition_num_per_range = partition_num_per_range;
      partition_num = partition_num;
      offset = offset;
      length = len;
      timestamp = timestamp;
    })

  -- The shuffle servers of a block are read and dropped.
  unfoldable pub skip_servers : ℕ → Reader (Unit {0})
  skip_servers zero = done tt
  skip_servers (suc n) = do
    host ← get_string c
    address ← get_string c
    port ← get_i32 c
    http_port ← get_i32 c
    skip_servers n

  unfoldable pub parse_block : Reader Block
  parse_block = do
    pid ← get_i32 c
    block_id ← get_i64 c
    len ← get_i32 c
    shuffle_id ← get_i32 c
    crc ← get_i64 c
    task_attempt_id ← get_i64 c
    buffer ← get_bytes c
    length_of_shuffle_servers ← get_i32 c
    skip_servers (pos_part length_of_shuffle_servers)
    uncompress_len ← get_i32 c
    free_mem ← get_i64 c
    done (record {
      block_id = block_id;
      length = len;
      uncompress_length = uncompress_len;
      crc = crc;
      payload = unwrap_or_empty buffer;
      task_attempt_id = task_attempt_id;
    })

  -- `for block_idx in 0..block_batch_size`
  unfoldable pub parse_blocks : ℕ → List Block → Reader (List Block)
  parse_blocks zero blocks = done blocks
  parse_blocks (suc n) blocks = do block ← parse_block; parse_blocks n (blocks ++ (block ∷ []))

  -- `for idx in 0..partition_batch_size`
  unfoldable pub parse_partitions : ℕ → Map ℤ (List Block) → Reader (Map ℤ (List Block))
  parse_partitions zero blocks_map = done blocks_map
  parse_partitions (suc n) blocks_map = do
    partition_id ← get_i32 c
    block_batch_size ← get_i32 c
    with_capacity block_batch_size
    blocks ← parse_blocks (pos_part block_batch_size) []
    parse_partitions n (Map.insert partition_id blocks blocks_map)

  unfoldable pub parse_to_send_shuffle_data_command : Reader SendDataRequestCommand
  parse_to_send_shuffle_data_command = do
    request_id ← get_i64 c
    app_id ← get_string c
    shuffle_id ← get_i32 c
    require_id ← get_i64 c
    partition_batch_size ← get_i32 c
    blocks_map ← parse_partitions (pos_part partition_batch_size) []
    timestamp ← get_i64 c
    done (record {
      request_id = request_id;
      app_id = app_id;
      shuffle_id = shuffle_id;
      blocks = blocks_map;
      ticket_id = require_id;
      timestamp = timestamp;
    })

  unfoldable pub parse_to_get_localfile_index_command : Reader GetLocalDataIndexRequestCommand
  parse_to_get_localfile_index_command = do
    request_id ← get_i64 c
    app_id ← get_string c
    shuffle_id ← get_i32 c
    partition_id ← get_i32 c
    partition_num_per_range ← get_i32 c
    partition_num ← get_i32 c
    done (record {
      request_id = request_id;
      app_id = app_id;
      shuffle_id = shuffle_id;
      partition_id = partition_id;
      partition_num_per_range = partition_num_per_range;
      partition_num = partition_num;
    })

  unfoldable pub parse_to_get_memory_data_command : Reader GetMemoryDataRequestCommand
  parse_to_get_memory_data_command = do
    request_id ← get_i64 c
    app_id ← get_string c
    shuffle_id ← get_i32 c
    partition_id ← get_i32 c
    last_block_id ← get_i64 c
    read_buffer_size ← get_i32 c
    timestamp ← get_i64 c
    expected_task_bitmap_raw_option ← get_bytes c
    done (record {
      request_id = request_id;
      app_id = app_id;
      shuffle_id = shuffle_id;
      partition_id = partition_id;
      last_block_id = last_block_id;
      read_buffer_size = read_buffer_size;
      expected_tasks_bitmap_raw = expected_task_bitmap_raw_option;
      timestamp = timestamp;
    })

  -- The `RpcResponse` arm of `parse`.
  unfoldable pub parse_rpc_response : Reader RpcResponseCommand
  parse_rpc_response = do
    request_id ← get_i64 c
    status_code ← get_i32 c
    ret_msg ← get_string c
    done (record { request_id = request_id; status_code = status_code; ret_msg = ret_msg })

  -- The content of a frame by its type; the server parses no data response.
  unfoldable pub parse_content : Option MessageType → Reader Commands.Frame
  parse_content none = fail stream_message_type_not_found
  parse_content (some Commands.get_local_data_type) = do
    command ← from_anyhow parse_to_get_localfile_data_command
    done (Commands.get_local_data command)
  parse_content (some Commands.get_local_data_index_type) = do
    command ← from_anyhow parse_to_get_localfile_index_command
    done (Commands.get_local_data_index command)
  parse_content (some Commands.get_memory_data_type) = do
    command ← from_anyhow parse_to_get_memory_data_command
    done (Commands.get_memory_data command)
  parse_content (some Commands.send_shuffle_data_type) = do
    command ← from_anyhow parse_to_send_shuffle_data_command
    done (Commands.send_shuffle_data command)
  parse_content (some Commands.rpc_response_type) = do
    command ← parse_rpc_response
    done (Commands.rpc_response command)
  parse_content (some _) = λ src. panic

  unfoldable pub parse : Reader Commands.Frame
  parse = do
    encode_msg_len ← get_i32 c
    msg_type ← get_u8
    body_len ← get_i32 c
    left ← remaining
    if ltb left (to_u64 (add32 encode_msg_len body_len))
        then fail stream_abnormal
        else parse_content (Commands.try_from msg_type)

  -- A frame, with what is left of the buffer after it, or no frame yet. An error passes through
  -- `anyhow` to the caller.
  unfoldable pub parse_frame : Bytes → Outcome (Option Commands.Frame × Bytes)
  parse_frame buffer = elim (check buffer) [
    | ok x ↦ elim (parse buffer) [
      | ok y ↦ ok (some y.0, drop (length buffer - length x.1) buffer)
      | err e ↦ err other
      | panic ↦ panic
    ]
    | err e ↦ incomplete e buffer
    | panic ↦ panic
  ]
    where
      incomplete : WorkerError → Bytes → Outcome (Option Commands.Frame × Bytes)
      incomplete stream_incomplete b = ok (none, b)
      incomplete _ b = err other
