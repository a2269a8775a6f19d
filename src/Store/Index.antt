-- ===== src/Store/Index.antt =====
-- Reading back what `generate_shuffle_file_format` of src/store/mod.rs writes.
use r.Base.{
  ap₂, zero-add, ◌+◌, refl, All, take-append, drop-append, ℕ, zero, suc, ◌%◌, ◌^◌, ◌≡◌, ◌<◌, List,
  [], ◌∷◌, ◌++◌, Bytes, length, concat, arith, map, ap, ◌∙◌, take, drop, append-nil, append_assoc,
  add-zero, add_assoc,
}
use r.Base.Int.{ℤ, pos}
use r.Base.Machine.{InI64, InI32, add64, to_u64, add64_pos, to_u64_pos}
use r.Store.Blocks.{
  slice, slices, Block, DataSegment, AreSized, payload_len, segment, segments, payloads,
}
use r.Store.Composed
use r.Store.Wrapper
use r.Store.Format.{generate_shuffle_file_format, Codec, Chain, add_block, add_blocks}

-- The integers of a block fit their types on the wire.
pub record IsWire (b : Block) : Type 0 where
  pub length_fits : InI32 b.length
  pub uncompress_length_fits : InI32 b.uncompress_length
  pub crc_fits : InI64 b.crc
  pub block_id_fits : InI64 b.block_id
  pub task_attempt_id_fits : InI64 b.task_attempt_id

abbrev chain : ℕ → Bytes → List Bytes → ℕ → Chain
chain o index parts n = record {
  offset = pos o;
  index_bytes_holder = index;
  data_chain = parts;
  total_size = n;
}

module _ (c : Codec) where
  open c use {put_i32, put_i64, get_i32, get_i64}

  -- An entry of the index, and its reading.
  abbrev pub entry_bytes : DataSegment → Bytes
  entry_bytes s =
      put_i64 s.offset
      ++ (put_i32 s.length
          ++ (put_i32 s.uncompress_length
              ++ (put_i64 s.crc ++ (put_i64 s.block_id ++ put_i64 s.task_attempt_id))))

  abbrev pub read_entry : Bytes → DataSegment
  read_entry r0 =
      let r1 = drop 8 r0 in
      let r2 = drop 4 r1 in
      let r3 = drop 4 r2 in
      let r4 = drop 8 r3 in
      let r5 = drop 8 r4 in
      record {
        block_id = get_i64 (take 8 r4);
        offset = get_i64 (take 8 r0);
        length = get_i32 (take 4 r1);
        uncompress_length = get_i32 (take 4 r2);
        crc = get_i64 (take 8 r3);
        task_attempt_id = get_i64 (take 8 r5);
      }

  abbrev pub after_entry : Bytes → Bytes
  after_entry r0 = drop 8 (drop 8 (drop 8 (drop 4 (drop 4 (drop 8 r0)))))

  abbrev pub read_index : ℕ → Bytes → List DataSegment
  read_index zero bs = []
  read_index (suc n) bs = read_entry bs ∷ read_index n (after_entry bs)

  abbrev pub index_bytes : ℕ → List Block → Bytes
  index_bytes o bs = concat (map entry_bytes (segments o bs))

  added :
      (b : Block) (o : ℕ) (index : Bytes) (parts : List Bytes) (n : ℕ)
      → b.length ≡ pos (length b.payload)
      → o + length b.payload < 2 ^ 63
      → n + length b.payload < 2 ^ 63
      → add_block c (chain o index parts n) b
        ≡ chain
            (o + length b.payload)
            (index ++ entry_bytes (segment o b))
            (parts ++ (b.payload ∷ []))
            (n + length b.payload)
  unfolding add_block
  added b o index parts n h p q =
      let e1 : add64 (pos o) b.length ≡ pos (o + length b.payload) =
        rw h (add64_pos o (length b.payload) p) in
      let e2 : to_u64 b.length ≡ length b.payload =
        rw h (to_u64_pos (length b.payload) (omega arith)) in
      let e3 : (n + length b.payload) % 2 ^ 64 ≡ n + length b.payload = omega arith in
      rw (e1, e2, e3)

  add_blocks_lem :
      (bs : List Block) (o : ℕ) (index : Bytes) (parts : List Bytes) (n : ℕ)
      → AreSized bs
      → o + payload_len bs < 2 ^ 63
      → n + payload_len bs < 2 ^ 63
      → add_blocks c (chain o index parts n) bs
        ≡ chain
            (o + payload_len bs)
            (index ++ index_bytes o bs)
            (parts ++ payloads bs)
            (n + payload_len bs)
  unfolding add_blocks
  add_blocks_lem [] o index parts n h p q = simp (append-nil, add-zero)
  add_blocks_lem (b ∷ bs) o index parts n h p q =
      ap (λ (s : Chain). add_blocks c s bs)
        (added b o index parts n h.0 (omega arith) (omega arith))
      ∙ add_blocks_lem bs (o + length b.payload) (index ++ entry_bytes (segment o b))
          (parts ++ (b.payload ∷ [])) (n + length b.payload) h.1 (omega arith) (omega arith)
      ∙ regroup
    where
      regroup :
          chain
            (o + length b.payload + payload_len bs)
            ((index ++ entry_bytes (segment o b)) ++ index_bytes (o + length b.payload) bs)
            ((parts ++ (b.payload ∷ [])) ++ payloads bs)
            (n + length b.payload + payload_len bs)
          ≡ chain
              (o + payload_len (b ∷ bs))
              (index ++ index_bytes o (b ∷ bs))
              (parts ++ payloads (b ∷ bs))
              (n + payload_len (b ∷ bs))
      regroup = simp (append_assoc, add_assoc)

  drop-put_i64 : (a : ℤ) (rest : Bytes) → drop 8 (put_i64 a ++ rest) ≡ rest
  drop-put_i64 a rest = rw (c.length-put_i64 a) at (drop-append (put_i64 a) rest)

  drop-put_i32 : (a : ℤ) (rest : Bytes) → drop 4 (put_i32 a ++ rest) ≡ rest
  drop-put_i32 a rest = rw (c.length-put_i32 a) at (drop-append (put_i32 a) rest)

  take-put_i64 : (a : ℤ) (rest : Bytes) → InI64 a → get_i64 (take 8 (put_i64 a ++ rest)) ≡ a
  take-put_i64 a rest h =
      ap get_i64 (rw (c.length-put_i64 a) at (take-append (put_i64 a) rest)) ∙ c.get-put_i64 a h

  take-put_i32 : (a : ℤ) (rest : Bytes) → InI32 a → get_i32 (take 4 (put_i32 a ++ rest)) ≡ a
  take-put_i32 a rest h =
      ap get_i32 (rw (c.length-put_i32 a) at (take-append (put_i32 a) rest)) ∙ c.get-put_i32 a h

  read_entry_lem :
      (o : ℕ) (b : Block) (rest : Bytes)
      → IsWire b
      → o < 2 ^ 63
      → (read_entry (entry_bytes (segment o b) ++ rest) ≡ segment o b)
        × (after_entry (entry_bytes (segment o b) ++ rest) ≡ rest)
  read_entry_lem o b rest w h =
      let fits : InI64 (pos o) = omega arith in
      (
        simp (append_assoc, drop-put_i64, drop-put_i32)
            (simp (
              take-put_i64 (pos o) _ fits,
              take-put_i32 b.length _ w.length_fits,
              take-put_i32 b.uncompress_length _ w.uncompress_length_fits,
              take-put_i64 b.crc _ w.crc_fits,
              take-put_i64 b.block_id _ w.block_id_fits,
              take-put_i64 b.task_attempt_id _ w.task_attempt_id_fits,
            )),
        simp (append_assoc, drop-put_i64, drop-put_i32),
      )

  read_index_lem :
      (bs : List Block) (o : ℕ)
      → All IsWire bs
      → o + payload_len bs < 2 ^ 63
      → read_index (length bs) (index_bytes o bs) ≡ segments o bs
  read_index_lem [] o w p = refl
  read_index_lem (b ∷ bs) o w p =
      let rest = index_bytes (o + length b.payload) bs in
      let this = read_entry_lem o b rest w.0 (omega arith) in
      ap₂ (λ s (l : List DataSegment). s ∷ l) this.0
        (ap (read_index (length bs)) this.1
          ∙ read_index_lem bs (o + length b.payload) w.1 (omega arith))

  pub generated :
      (bs : List Block) (o : ℕ)
      → AreSized bs
      → o + payload_len bs < 2 ^ 63
      → generate_shuffle_file_format c bs (pos o) ≡ record {
        content = Wrapper.composed (Composed.from (payloads bs) (payload_len bs));
        index = Wrapper.direct (index_bytes o bs);
        len = payload_len bs;
        offset = pos (o + payload_len bs);
      }
  unfolding generate_shuffle_file_format
  generated bs o h p = rw (add_blocks_lem bs o [] [] 0 h p (omega arith)) (rw zero-add)

  -- For blocks whose lengths are those of their bytes and whose integers fit the wire, written from
  -- an offset on with a sum below 2 ^ 63: the data is the payloads in order, the new offset and the
  -- length follow it, and the entries read from the index cut the data back into the payloads.
  pub generate_shuffle_file_format_lem :
      (bs : List Block) (o : ℕ)
      → AreSized bs
      → All IsWire bs
      → o + payload_len bs < 2 ^ 63
      → let f = generate_shuffle_file_format c bs (pos o) in
        (Wrapper.freeze f.content ≡ concat (payloads bs))
        × (f.len ≡ payload_len bs)
        × (f.offset ≡ pos (o + payload_len bs))
        × (read_index (length bs) (Wrapper.freeze f.index) ≡ segments o bs)
        × (map
              (slice o (Wrapper.freeze f.content))
              (read_index (length bs) (Wrapper.freeze f.index))
            ≡ payloads bs)
  unfolding Wrapper.freeze
  generate_shuffle_file_format_lem bs o h w p = rw (generated bs o h p) (
    frozen,
    refl,
    refl,
    read_index_lem bs o w p,
    rw (frozen, read_index_lem bs o w p) (slices o bs h),
  )
    where
      frozen : Composed.freeze (Composed.from (payloads bs) (payload_len bs)) ≡ concat (payloads bs)
      frozen = Composed.freeze-from (payloads bs) (payload_len bs)
