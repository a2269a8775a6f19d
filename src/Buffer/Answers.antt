-- ===== src/Buffer/Answers.antt =====
-- The answers of `get` and `get_v2` of src/store/mem/buffer.rs.
use r.Base.{
  add_assoc, zero-add, length, ◌∙◌, add-zero, ℕ, ◌+◌, ◌^◌, ◌<◌, ◌≡◌, refl, Bool, Option, some, List,
  [], ◌∷◌, arith, ap, map,
}
use r.Base.Int.{ℤ, pos, int_eq}
use r.Base.Machine.{add64, to_u64, add64_pos, to_u64_pos}
use r.Store.Blocks.{Block, AreSized, payload_len, segments, payloads, slice, slices}
use r.Store.Composed
use r.Store.Wrapper
use r.Store.Wrapper.{PartitionedMemoryData}
use r.Buffer.{Reading, BufferInternal, start, get, get_v2, lay_out, memory_data}
use r.Buffer.Read.{served, all_blocks, remaining, wanted, page, taken_len, read_loop_lem}
use mathlib.Core.Option

-- The blocks that a read is to answer with.
abbrev pub answer : BufferInternal → ℤ → ℤ → Option (ℕ → Bool) → List Block
answer b last limit task_ids = page limit (pos 0) (wanted task_ids (remaining last (all_blocks b)))

-- A read ends, and returns the page of the wanted blocks that follow the last block that the client
-- has, or of all of them if it has none or names one that the buffer lacks.
pub get_lem :
    (b : BufferInternal) (last limit : ℤ) (task_ids : Option (ℕ → Bool))
    → get b last limit task_ids
      ≡ some (record {
        read_len = to_u64 (taken_len (pos 0) (answer b last limit task_ids));
        blocks = answer b last limit task_ids;
      })
unfolding get
get_lem b last limit task_ids =
    ap (Option.map (λ s. record { read_len = to_u64 s.read_len; blocks = s.read_result }))
      (read_loop_lem last limit task_ids b)

lay_out_lem :
    (bs : List Block) (o : ℕ)
    → AreSized bs
    → o + payload_len bs < 2 ^ 63
    → lay_out (pos o) bs ≡ (segments o bs, pos (o + payload_len bs))
unfolding lay_out
lay_out_lem [] o h p = rw add-zero
lay_out_lem (b ∷ bs) o h p =
    let e : add64 (pos o) b.length ≡ pos (o + length b.payload) =
      rw h.0 (add64_pos o (length b.payload) (omega arith)) in
    let ih = lay_out_lem bs (o + length b.payload) h.1 (omega arith) in
    rw (e, ih, add_assoc o (length b.payload) (payload_len bs))

-- The answer laid out as one chain.
abbrev as_memory_data : List Block → PartitionedMemoryData
as_memory_data bs = record {
  shuffle_data_block_segments = segments 0 bs;
  content = Wrapper.composed (Composed.from (payloads bs) (payload_len bs));
}

memory_data_lem :
    (s : Reading)
    → AreSized s.read_result
    → payload_len s.read_result < 2 ^ 63
    → memory_data s ≡ as_memory_data s.read_result
unfolding memory_data
memory_data_lem s h p =
    let fits : payload_len s.read_result < 2 ^ 64 = omega arith in
    rw (
      lay_out_lem s.read_result 0 h (rw zero-add p),
      zero-add,
      to_u64_pos (payload_len s.read_result) fits,
    )

cut_back :
    (bs : List Block)
    → AreSized bs
    → map (slice 0 (Wrapper.freeze (as_memory_data bs).content)) (segments 0 bs) ≡ payloads bs
unfolding Wrapper.freeze
cut_back bs h = rw (Composed.freeze-from (payloads bs) (payload_len bs)) (slices 0 bs h)

-- If the stated lengths of the blocks that `get` answers with are right and add up to less than 2
-- ^ 63, `get_v2` answers with their segments and with as many bytes as they have, and the segments
-- cut the bytes back into the payloads of those blocks.
pub get_v2_lem :
    (b : BufferInternal) (last limit : ℤ) (task_ids : Option (ℕ → Bool))
    → AreSized (answer b last limit task_ids)
    → payload_len (answer b last limit task_ids) < 2 ^ 63
    → (m : PartitionedMemoryData) × (get_v2 b last limit task_ids ≡ some m)
      × (m.shuffle_data_block_segments ≡ segments 0 (answer b last limit task_ids))
      × (Wrapper.len m.content ≡ payload_len (answer b last limit task_ids))
      × (map (slice 0 (Wrapper.freeze m.content)) m.shuffle_data_block_segments
          ≡ payloads (answer b last limit task_ids))
unfolding get_v2
get_v2_lem b last limit task_ids h p = (
  as_memory_data (answer b last limit task_ids),
  ap (Option.map memory_data) (read_loop_lem last limit task_ids b)
      ∙ ap some
          (memory_data_lem (served last limit task_ids (remaining last (all_blocks b)) start) h p),
  refl,
  unfold Wrapper.len Composed.len Composed.from in refl,
  cut_back (answer b last limit task_ids) h,
)
