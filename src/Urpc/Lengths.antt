-- ===== src/Urpc/Lengths.antt =====
-- How long the parts are that `Frame::write` of src/urpc/frame.rs writes.
use r.Base.{
  ℕ, ◌+◌, ◌*◌, ◌^◌, ◌<◌, ◌++◌, ◌≡◌, refl, List, [], ◌∷◌, Bytes, length, concat, arith,
  length-append,
}
use r.Base.Int.{ℤ, pos}
use r.Base.Machine.{to_i32, to_i32_small, add32, add32_pos}
use r.Store.Blocks.{DataSegment}
use r.Store.Format.{Codec}
use r.Store.Wrapper
use r.Store.Wrapper.{ResponseData, PartitionedMemoryData}
use r.Urpc.Commands.{code, MessageType}
use r.Urpc.Writing.{header, info, info_len, write_segments, low_i32}

module _ (c : Codec) where
  pub length-header : (a b : ℤ) (t : MessageType) → length (header c a t b) ≡ 9
  unfolding header
  length-header a b t =
      rw
        (length-append (c.put_i32 a) (code t ∷ c.put_i32 b), c.length-put_i32 a, c.length-put_i32 b)

  pub length-info : (id status : ℤ) (msg : Bytes) → length (info c id status msg) ≡ 16 + length msg
  unfolding info
  length-info id status msg =
      rw
        (
          length-append (c.put_i64 id)
              (c.put_i32 status ++ (c.put_i32 (to_i32 (length msg)) ++ msg)),
          length-append (c.put_i32 status) (c.put_i32 (to_i32 (length msg)) ++ msg),
          length-append (c.put_i32 (to_i32 (length msg))) msg,
          c.length-put_i64 id,
          c.length-put_i32 status,
          c.length-put_i32 (to_i32 (length msg)),
        )
        (omega arith)

  pub info_len_eq :
      (msg : Bytes) → length msg + 16 < 2 ^ 31 → info_len c msg ≡ pos (length msg + 16)
  unfolding info_len
  info_len_eq msg small =
      let n = length msg in
      let e : n + 8 + 4 + 4 ≡ n + 16 = omega arith in
      rw (
        to_i32_small n (omega arith),
        add32_pos n 8 (omega arith),
        add32_pos (n + 8) 4 (omega arith),
        add32_pos (n + 8 + 4) 4 (omega arith),
        e,
      )

  pub length-write_segments :
      (segments : List DataSegment) → length (write_segments c segments) ≡ length segments * 36
  unfolding write_segments
  length-write_segments [] = refl
  length-write_segments (s ∷ segments) =
      let tail = c.put_i64 s.task_attempt_id ++ write_segments c segments in
      rw
        (
          length-append (c.put_i64 s.block_id) (
              c.put_i32 (low_i32 s.offset)
              ++ (c.put_i32 s.length
                  ++ (c.put_i32 s.uncompress_length ++ (c.put_i64 s.crc ++ tail)))),
          length-append (c.put_i32 (low_i32 s.offset))
              (c.put_i32 s.length ++ (c.put_i32 s.uncompress_length ++ (c.put_i64 s.crc ++ tail))),
          length-append (c.put_i32 s.length)
              (c.put_i32 s.uncompress_length ++ (c.put_i64 s.crc ++ tail)),
          length-append (c.put_i32 s.uncompress_length) (c.put_i64 s.crc ++ tail),
          length-append (c.put_i64 s.crc) tail,
          length-append (c.put_i64 s.task_attempt_id) (write_segments c segments),
          c.length-put_i64 s.block_id,
          c.length-put_i32 (low_i32 s.offset),
          c.length-put_i32 s.length,
          c.length-put_i32 s.uncompress_length,
          c.length-put_i64 s.crc,
          c.length-put_i64 s.task_attempt_id,
          length-write_segments segments,
        )
        (omega arith)

  abbrev pub memory_len : Bytes → PartitionedMemoryData → ℕ
  memory_len msg m = length msg + 16 + (4 + length m.shuffle_data_block_segments * 36)

  pub longer :
      (msg : Bytes) (k n : ℕ)
      → length msg + 16 + k ≡ n
      → n < 2 ^ 31
      → add32 (info_len c msg) (pos k) ≡ pos n
  longer msg k n e small =
      rw (info_len_eq msg (omega arith), add32_pos (length msg + 16) k (omega arith), e)

  pub memory_sized :
      (id status : ℤ) (msg : Bytes) (m : PartitionedMemoryData)
      → Wrapper.len m.content ≡ length (concat (Wrapper.always_composed m.content).composed)
      → length (
          info c id status msg
          ++ (c.put_i32 (to_i32 (length m.shuffle_data_block_segments))
              ++ (write_segments c m.shuffle_data_block_segments
                  ++ concat (Wrapper.always_composed m.content).composed)))
        ≡ memory_len msg m + Wrapper.len m.content
  memory_sized id status msg m exact =
      let segments = m.shuffle_data_block_segments in
      let bytes = concat (Wrapper.always_composed m.content).composed in
      let count = c.put_i32 (to_i32 (length segments)) in
      rw
        (
          length-append (info c id status msg) (count ++ (write_segments c segments ++ bytes)),
          length-append count (write_segments c segments ++ bytes),
          length-append (write_segments c segments) bytes,
          length-info id status msg,
          c.length-put_i32 (to_i32 (length segments)),
          length-write_segments segments,
          exact,
        )
        (omega arith)
