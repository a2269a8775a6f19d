-- ===== src/Urpc/RoundTrip.antt =====
-- `Connection::parse_frame` of src/urpc/connection.rs on what `Frame::write` wrote.
use r.Base.{
  ℕ, ◌+◌, ◌-◌, ◌^◌, ◌<◌, ◌++◌, ◌≡◌, refl, true, false, some, ◌∷◌, Bytes, length, drop, ltb, arith,
  length-append, append_assoc, drop-append,
}
use r.Base.Int.{ℤ, pos}
use r.Base.Machine.{InI32, InI64, to_u64, to_u64_pos, to_i32, add32, add32_pos}
use r.Error.{ok}
use r.Store.Format.{Codec}
use r.Urpc.Commands
use r.Urpc.Commands.{code, try_from, MessageType, RpcResponseCommand}
use r.Urpc.Cursor.{get_u8, is_utf8, ◌>>=◌}
use r.Urpc.Frame.{check, parse, parse_content, parse_rpc_response, parse_frame}
use r.Urpc.Writing.{header, info, info_len, write}
use r.Urpc.Readers.{get_i32-put, get_i64-put, get_string-put}
use r.Urpc.Lengths.{length-info, info_len_eq}
use r.Urpc.Framing.{sized-IsFramed}
use r.Urpc.Checking.{check-framed}

try_from-code : (t : MessageType) → try_from (code t) ≡ some t
try_from-code Commands.send_shuffle_data_type = refl
try_from-code Commands.get_memory_data_type = refl
try_from-code Commands.get_memory_data_response_type = refl
try_from-code Commands.get_local_data_index_type = refl
try_from-code Commands.get_local_data_index_response_type = refl
try_from-code Commands.get_local_data_type = refl
try_from-code Commands.get_local_data_response_type = refl
try_from-code Commands.rpc_response_type = refl

module _ (c : Codec) where
  -- Behind a header with the right lengths, the content is parsed by the type.
  parse-header :
      (n m : ℕ) (t : MessageType) (content rest : Bytes)
      → n + m < 2 ^ 31
      → length content ≡ n + m
      → parse c (header c (pos n) t (pos m) ++ (content ++ rest))
        ≡ parse_content c (some t) (content ++ rest)
  unfolding parse header get_u8
  parse-header n m t content rest small size =
      let tail = content ++ rest in
      let shape : header c (pos n) t (pos m) ++ tail
          ≡ c.put_i32 (pos n) ++ (code t ∷ (c.put_i32 (pos m) ++ tail)) =
        append_assoc (c.put_i32 (pos n)) (code t ∷ c.put_i32 (pos m)) tail in
      let total : to_u64 (add32 (pos n) (pos m)) ≡ n + m =
        rw (add32_pos n m small) (to_u64_pos (n + m) (omega arith)) in
      let room : ltb (length tail) (n + m) ≡ false =
        rw (length-append content rest, size) (ground arith) in
      rw shape (
        rw (◌>>=◌, get_i32-put c (pos n) (code t ∷ (c.put_i32 (pos m) ++ tail)) (omega arith))
          (rw (get_u8, ◌>>=◌, get_i32-put c (pos m) tail (omega arith))
            (rw (total, room, try_from-code t))))

  parse_rpc_response-info :
      (id status : ℤ) (msg rest : Bytes)
      → InI64 id
      → InI32 status
      → length msg < 2 ^ 31
      → is_utf8 msg ≡ true
      → parse_rpc_response c (info c id status msg ++ rest)
        ≡ ok (record { request_id = id; status_code = status; ret_msg = msg }, rest)
  unfolding parse_rpc_response info
  parse_rpc_response-info id status msg rest id_fits status_fits small valid =
      let strings = c.put_i32 (to_i32 (length msg)) ++ msg in
      rw
        (
          append_assoc (c.put_i64 id) (c.put_i32 status ++ strings) rest,
          append_assoc (c.put_i32 status) strings rest,
          append_assoc (c.put_i32 (to_i32 (length msg))) msg rest,
        )
        (rw
          (
            ◌>>=◌,
            get_i64-put c id
                (c.put_i32 status ++ (c.put_i32 (to_i32 (length msg)) ++ (msg ++ rest))) id_fits,
          )
          (rw
            (
              ◌>>=◌,
              get_i32-put c status (c.put_i32 (to_i32 (length msg)) ++ (msg ++ rest)) status_fits,
            )
            (rw (◌>>=◌, get_string-put c msg rest small valid))))

  rest_of :
      (bytes rest : Bytes) → drop (length (bytes ++ rest) - length rest) (bytes ++ rest) ≡ rest
  rest_of bytes rest =
      let e : length (bytes ++ rest) - length rest ≡ length bytes =
        rw (length-append bytes rest) (omega arith) in
      rw (e, drop-append bytes rest)

  parse_frame_of :
      (bytes rest : Bytes) (f : Commands.Frame)
      → check c (bytes ++ rest) ≡ ok (tt, rest)
      → parse c (bytes ++ rest) ≡ ok (f, rest)
      → parse_frame c (bytes ++ rest) ≡ ok (some f, rest)
  unfolding parse_frame
  parse_frame_of bytes rest f e g = rw (parse_frame, e) (rw g (rw (rest_of bytes rest)))

  -- A response without data, whose message is UTF-8 of less than 2 ^ 31 - 16 bytes and whose
  -- numbers fit their types, is read back by the connection as it was written, and what comes after
  -- it in the buffer is left.
  pub parse_frame-write :
      (r : RpcResponseCommand) (rest : Bytes)
      → InI64 r.request_id
      → InI32 r.status_code
      → length r.ret_msg + 16 < 2 ^ 31
      → is_utf8 r.ret_msg ≡ true
      → (bytes : Bytes) × (write c (Commands.rpc_response r) ≡ ok bytes)
        × (parse_frame c (bytes ++ rest) ≡ ok (some (Commands.rpc_response r), rest))
  unfolding write parse_content
  parse_frame-write r rest id_fits status_fits small valid =
      let content = info c r.request_id r.status_code r.ret_msg in
      let n = length r.ret_msg + 16 in
      let size : length content ≡ n + 0 =
        rw (length-info c r.request_id r.status_code r.ret_msg) (omega arith) in
      let stated = info_len_eq c r.ret_msg small in
      let bytes = header c (info_len c r.ret_msg) Commands.rpc_response_type (pos 0) ++ content in
      let parsed =
        parse_rpc_response-info r.request_id r.status_code r.ret_msg rest id_fits status_fits
          (omega arith) valid in
      (
        bytes,
        refl,
        parse_frame_of bytes rest (Commands.rpc_response r)
            (check-framed c bytes rest (
              sized-IsFramed c n 0 Commands.rpc_response_type content (omega arith) size stated
                refl))
            (rw
              (
                stated,
                append_assoc (header c (pos n) Commands.rpc_response_type (pos 0)) content rest,
                parse-header n 0 Commands.rpc_response_type content rest (omega arith) size,
              )
              (rw (parse_content, ◌>>=◌, parsed))),
      )
