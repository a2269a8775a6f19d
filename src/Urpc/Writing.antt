-- ===== src/Urpc/Writing.antt =====
-- `Frame::write` of src/urpc/frame.rs: the bytes that it puts on the stream. What the socket does
-- with them is not modelled. The server writes no requests.
use r.Base.{◌+◌, ◌*◌, ◌%◌, ◌^◌, ◌++◌, List, [], ◌∷◌, Bytes, length, concat}
use r.Base.Int.{ℤ, pos}
use r.Base.Machine.{add32, to_i32, signed32, pattern64}
use r.Error.{Outcome, ok, panic}
use r.Store.Blocks.{DataSegment}
use r.Store.Format.{Codec}
use r.Store.Wrapper
use r.Store.Wrapper.{BytesWrapper, PartitionedMemoryData}
use r.Urpc.Commands
use r.Urpc.Commands.{code, MessageType}

-- `x as i32` of an i64.
unfoldable pub low_i32 : ℤ → ℤ
low_i32 a = signed32 (pattern64 a % 2 ^ 32)

module _ (c : Codec) where
  open c use {put_i32, put_i64}

  -- Length of the content, type, length of the body.
  unfoldable pub header : ℤ → MessageType → ℤ → Bytes
  header content_length t body_length = put_i32 content_length ++ (code t ∷ put_i32 body_length)

  -- The response info that each content begins with.
  unfoldable pub info : ℤ → ℤ → Bytes → Bytes
  info request_id status_code msg =
      put_i64 request_id ++ (put_i32 status_code ++ (put_i32 (to_i32 (length msg)) ++ msg))

  -- `msg_bytes.len() as i32 + 8 + 4 + 4`
  unfoldable pub info_len : Bytes → ℤ
  info_len msg = add32 (add32 (add32 (to_i32 (length msg)) (pos 8)) (pos 4)) (pos 4)

  unfoldable pub write_segments : List DataSegment → Bytes
  write_segments [] = []
  write_segments (s ∷ segments) =
      put_i64 s.block_id
      ++ (put_i32 (low_i32 s.offset)
          ++ (put_i32 s.length
              ++ (put_i32 s.uncompress_length
                  ++ (put_i64 s.crc ++ (put_i64 s.task_attempt_id ++ write_segments segments)))))

  -- The memory data of a response.
  unfoldable pub write_memory : ℤ → ℤ → Bytes → PartitionedMemoryData → Bytes
  write_memory request_id status_code msg mem_data =
      header (add32 (info_len msg) (to_i32 (4 + length mem_data.shuffle_data_block_segments * 36)))
        Commands.get_memory_data_response_type (to_i32 (Wrapper.len mem_data.content))
      ++ (info request_id status_code msg
          ++ (put_i32 (to_i32 (length mem_data.shuffle_data_block_segments))
              ++ (write_segments mem_data.shuffle_data_block_segments
                  ++ concat (Wrapper.always_composed mem_data.content).composed)))

  unfoldable pub write : Commands.Frame → Outcome Bytes
  write (Commands.get_local_data_response resp) = ok (
      header (info_len resp.ret_msg) Commands.get_local_data_response_type
        (to_i32 (length resp.content))
      ++ (info resp.request_id resp.status_code resp.ret_msg ++ resp.content))
  write (Commands.get_local_data_index_response resp) = ok (
      header (add32 (info_len resp.ret_msg) (pos 8)) Commands.get_local_data_index_response_type
        (to_i32 (length resp.index_data))
      ++ (info resp.request_id resp.status_code resp.ret_msg
          ++ (put_i64 resp.data_file_len ++ resp.index_data)))
  write (Commands.get_memory_data_response resp) = elim resp.content [
    | Wrapper.mem mem_data ↦
        ok (write_memory resp.request_id resp.status_code resp.ret_msg mem_data)
    | Wrapper.local _ ↦ panic
  ]
  write (Commands.rpc_response resp) = ok (
      header (info_len resp.ret_msg) Commands.rpc_response_type (pos 0)
      ++ info resp.request_id resp.status_code resp.ret_msg)
  write _ = panic
