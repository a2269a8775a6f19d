-- ===== src/Urpc/Framing.antt =====
-- What `Frame::write` of src/urpc/frame.rs writes is a header with the lengths of what follows it.
use r.Base.{ℕ, ◌+◌, ◌*◌, ◌^◌, ◌<◌, ◌++◌, ◌≡◌, refl, Bytes, length, concat, arith, length-append}
use r.Base.Int.{ℤ, pos}
use r.Base.Machine.{to_i32, to_i32_small, add32}
use r.Error.{ok}
use r.Store.Format.{Codec}
use r.Store.Wrapper
use r.Store.Wrapper.{ResponseData, PartitionedMemoryData}
use r.Urpc.Commands
use r.Urpc.Commands.{code, MessageType}
use r.Urpc.Writing.{header, info, info_len, write, write_memory}
use r.Urpc.Lengths.{length-info, info_len_eq, longer, memory_len, memory_sized}

module _ (c : Codec) where
  -- What a frame has behind its header fits an i32, and the stated length of memory data is exact.
  abbrev pub Fits : Commands.Frame → Type 0
  Fits (Commands.get_local_data_response r) = length r.ret_msg + 16 + length r.content < 2 ^ 31
  Fits (Commands.get_local_data_index_response r) =
      length r.ret_msg + 24 + length r.index_data < 2 ^ 31
  Fits (Commands.get_memory_data_response r) = elim r.content [
    | Wrapper.mem m ↦
        (memory_len c r.ret_msg m + Wrapper.len m.content < 2 ^ 31)
        × (Wrapper.len m.content ≡ length (concat (Wrapper.always_composed m.content).composed))
    | Wrapper.local _ ↦ ⊥
  ]
  Fits (Commands.rpc_response r) = length r.ret_msg + 16 < 2 ^ 31
  Fits _ = ⊥

  -- A header with the two lengths of what follows it.
  pub record IsFramed (bytes : Bytes) : Type 0 where
    pub content_len : ℕ
    pub body_len : ℕ
    pub type : MessageType
    pub behind : Bytes
    pub small : content_len + body_len < 2 ^ 31
    pub size : length behind ≡ content_len + body_len
    pub bytes_eq : bytes ≡ header c (pos content_len) type (pos body_len) ++ behind

  -- Lengths that were computed on i32.
  pub sized-IsFramed :
      (n m : ℕ) (t : MessageType) (content : Bytes) {a b : ℤ}
      → n + m < 2 ^ 31
      → length content ≡ n + m
      → a ≡ pos n
      → b ≡ pos m
      → IsFramed (header c a t b ++ content)
  sized-IsFramed n m t content {a} {b} small size e f = record {
    content_len = n;
    body_len = m;
    type = t;
    behind = content;
    small = small;
    size = size;
    bytes_eq = rw (e, f);
  }

  memory-IsFramed :
      (id status : ℤ) (msg : Bytes) (m : PartitionedMemoryData)
      → memory_len c msg m + Wrapper.len m.content < 2 ^ 31
      → Wrapper.len m.content ≡ length (concat (Wrapper.always_composed m.content).composed)
      → IsFramed (write_memory c id status msg m)
  unfolding write_memory
  memory-IsFramed id status msg m small exact =
      let k = 4 + length m.shuffle_data_block_segments * 36 in
      let body_of : add32 (info_len c msg) (to_i32 k) ≡ pos (memory_len c msg m) =
        rw (to_i32_small k (omega arith))
          (longer c msg k (memory_len c msg m) refl (omega arith)) in
      sized-IsFramed (memory_len c msg m) (Wrapper.len m.content)
        Commands.get_memory_data_response_type _ small (memory_sized c id status msg m exact)
        body_of (to_i32_small (Wrapper.len m.content) (omega arith))

  response_data-IsFramed :
      (r : Commands.GetMemoryDataResponseCommand) (d : ResponseData)
      → r.content ≡ d
      → Fits (Commands.get_memory_data_response r)
      → (bytes : Bytes) × (write c (Commands.get_memory_data_response r) ≡ ok bytes)
        × IsFramed bytes
  unfolding write
  response_data-IsFramed r (Wrapper.mem m) e fits =
      let (small, exact) = rw e at fits in
      (
        write_memory c r.request_id r.status_code r.ret_msg m,
        rw e,
        memory-IsFramed r.request_id r.status_code r.ret_msg m small exact,
      )
  response_data-IsFramed r (Wrapper.local b) e fits = absurd (rw e at fits)

  pub write-IsFramed :
      (f : Commands.Frame) → Fits f → (bytes : Bytes) × (write c f ≡ ok bytes) × IsFramed bytes
  unfolding write
  write-IsFramed (Commands.rpc_response r) fits = (
    header c (info_len c r.ret_msg) Commands.rpc_response_type (pos 0)
        ++ info c r.request_id r.status_code r.ret_msg,
    refl,
    sized-IsFramed (length r.ret_msg + 16) 0 Commands.rpc_response_type
        (info c r.request_id r.status_code r.ret_msg) (omega arith)
        (rw (length-info c r.request_id r.status_code r.ret_msg) (omega arith))
        (info_len_eq c r.ret_msg fits) refl,
  )
  write-IsFramed (Commands.get_local_data_response r) fits = (
    _,
    refl,
    sized-IsFramed (length r.ret_msg + 16) (length r.content) Commands.get_local_data_response_type
        (info c r.request_id r.status_code r.ret_msg ++ r.content) fits
        (rw
          (
            length-append (info c r.request_id r.status_code r.ret_msg) r.content,
            length-info c r.request_id r.status_code r.ret_msg,
          )
          (omega arith))
        (info_len_eq c r.ret_msg (omega arith)) (to_i32_small (length r.content) (omega arith)),
  )
  write-IsFramed (Commands.get_local_data_index_response r) fits = (
    _,
    refl,
    sized-IsFramed (length r.ret_msg + 24) (length r.index_data)
        Commands.get_local_data_index_response_type
        (info c r.request_id r.status_code r.ret_msg ++ (c.put_i64 r.data_file_len ++ r.index_data))
        fits
        (rw
          (
            length-append (info c r.request_id r.status_code r.ret_msg)
                (c.put_i64 r.data_file_len ++ r.index_data),
            length-append (c.put_i64 r.data_file_len) r.index_data,
            c.length-put_i64 r.data_file_len,
            length-info c r.request_id r.status_code r.ret_msg,
          )
          (omega arith))
        (longer c r.ret_msg 8 (length r.ret_msg + 24) (omega arith) (omega arith))
        (to_i32_small (length r.index_data) (omega arith)),
  )
  write-IsFramed (Commands.get_memory_data_response r) fits =
      response_data-IsFramed r r.content refl fits
  write-IsFramed (Commands.send_shuffle_data _) fits = absurd fits
  write-IsFramed (Commands.get_memory_data _) fits = absurd fits
  write-IsFramed (Commands.get_local_data_index _) fits = absurd fits
  write-IsFramed (Commands.get_local_data _) fits = absurd fits
