-- ===== src/Urpc/Commands.antt =====
-- The requests and responses of src/urpc/command.rs, and the frames of src/urpc/frame.rs.
use r.Base.{◌==◌, nat_eq, if◌then◌else◌, ℕ, List, Bytes, Option, none, some}
use r.Base.Int.{ℤ}
use r.Base.Map.{Map}
use r.Store.Blocks.{Block}
use r.Store.Wrapper.{ResponseData}

pub record SendDataRequestCommand : Type 0 where
  pub request_id : ℤ
  pub app_id : Bytes
  pub shuffle_id : ℤ
  pub blocks : Map ℤ (List Block)
  pub ticket_id : ℤ
  pub timestamp : ℤ

pub record GetMemoryDataRequestCommand : Type 0 where
  pub request_id : ℤ
  pub app_id : Bytes
  pub shuffle_id : ℤ
  pub partition_id : ℤ
  pub last_block_id : ℤ
  pub read_buffer_size : ℤ
  pub expected_tasks_bitmap_raw : Option Bytes
  pub timestamp : ℤ

pub record GetLocalDataRequestCommand : Type 0 where
  pub request_id : ℤ
  pub app_id : Bytes
  pub shuffle_id : ℤ
  pub partition_id : ℤ
  pub partition_num_per_range : ℤ
  pub partition_num : ℤ
  pub offset : ℤ
  pub length : ℤ
  pub timestamp : ℤ

pub record GetLocalDataIndexRequestCommand : Type 0 where
  pub request_id : ℤ
  pub app_id : Bytes
  pub shuffle_id : ℤ
  pub partition_id : ℤ
  pub partition_num_per_range : ℤ
  pub partition_num : ℤ

pub record GetMemoryDataResponseCommand : Type 0 where
  pub request_id : ℤ
  pub status_code : ℤ
  pub ret_msg : Bytes
  pub content : ResponseData

pub record GetLocalDataResponseCommand : Type 0 where
  pub request_id : ℤ
  pub status_code : ℤ
  pub ret_msg : Bytes
  pub content : Bytes

-- With the two fields of the `LocalDataIndex` that it holds.
pub record GetLocalDataIndexResponseCommand : Type 0 where
  pub request_id : ℤ
  pub status_code : ℤ
  pub ret_msg : Bytes
  pub index_data : Bytes
  pub data_file_len : ℤ

pub record RpcResponseCommand : Type 0 where
  pub request_id : ℤ
  pub status_code : ℤ
  pub ret_msg : Bytes

pub data MessageType : Type 0 where
  send_shuffle_data_type get_memory_data_type get_memory_data_response_type : MessageType
  get_local_data_index_type get_local_data_index_response_type : MessageType
  get_local_data_type get_local_data_response_type rpc_response_type : MessageType

-- The `u8` of a message type.
abbrev pub code : MessageType → ℕ
code send_shuffle_data_type = 3
code get_memory_data_type = 6
code get_memory_data_response_type = 16
code get_local_data_index_type = 4
code get_local_data_index_response_type = 14
code get_local_data_type = 5
code get_local_data_response_type = 15
code rpc_response_type = 0

-- `MessageType::try_from`
abbrev pub try_from : ℕ → Option MessageType
try_from n =
    if n == 3
    then some send_shuffle_data_type
    else if n == 6
    then some get_memory_data_type
    else if n == 16
    then some get_memory_data_response_type
    else if n == 4
    then some get_local_data_index_type
    else if n == 14
    then some get_local_data_index_response_type
    else if n == 5
    then some get_local_data_type
    else if n == 15
    then some get_local_data_response_type
    else if n == 0
    then some rpc_response_type
    else none

pub data Frame : Type 0 where
  send_shuffle_data : SendDataRequestCommand → Frame
  get_memory_data : GetMemoryDataRequestCommand → Frame
  get_memory_data_response : GetMemoryDataResponseCommand → Frame
  get_local_data_index : GetLocalDataIndexRequestCommand → Frame
  get_local_data_index_response : GetLocalDataIndexResponseCommand → Frame
  get_local_data : GetLocalDataRequestCommand → Frame
  get_local_data_response : GetLocalDataResponseCommand → Frame
  rpc_response : RpcResponseCommand → Frame
