-- ===== src/Store/Format.antt =====
-- src/store/mod.rs, `generate_shuffle_file_format`: the data and the index of a batch of blocks. The
-- byte order of an integer is that of the `bytes` crate, an interface here: what `put_i32` and
-- `put_i64` write, `get_i32` and `get_i64` read back.
use r.Base.{ℕ, ◌+◌, ◌%◌, ◌^◌, ◌≡◌, List, [], ◌∷◌, ◌++◌, Bytes, length}
use r.Base.Int.{ℤ}
use r.Base.Machine.{InI64, InI32, add64, to_u64}
use r.Store.Blocks.{Block}
use r.Store.Composed
use r.Store.Composed.{ComposedBytes}
use r.Store.Wrapper.{BytesWrapper, direct, composed}

pub record Codec : Type 0 where
  pub put_i32 : ℤ → Bytes
  pub put_i64 : ℤ → Bytes
  pub get_i32 : Bytes → ℤ
  pub get_i64 : Bytes → ℤ
  pub length-put_i32 : (a : ℤ) → length (put_i32 a) ≡ 4
  pub length-put_i64 : (a : ℤ) → length (put_i64 a) ≡ 8
  pub get-put_i32 : (a : ℤ) → InI32 a → get_i32 (put_i32 a) ≡ a
  pub get-put_i64 : (a : ℤ) → InI64 a → get_i64 (put_i64 a) ≡ a

pub record ShuffleFileFormat : Type 0 where
  pub content : BytesWrapper
  pub index : BytesWrapper
  pub len : ℕ
  pub offset : ℤ

-- The state of the loop over the blocks.
pub record Chain : Type 0 where
  pub offset : ℤ
  pub index_bytes_holder : Bytes
  pub data_chain : List Bytes
  pub total_size : ℕ

module _ (c : Codec) where
  open c use {put_i32, put_i64}

  unfoldable pub add_block : Chain → Block → Chain
  add_block s b = record {
    offset = add64 s.offset b.length;
    index_bytes_holder =
        s.index_bytes_holder
        ++ (put_i64 s.offset
            ++ (put_i32 b.length
                ++ (put_i32 b.uncompress_length
                    ++ (put_i64 b.crc ++ (put_i64 b.block_id ++ put_i64 b.task_attempt_id)))));
    data_chain = s.data_chain ++ (b.payload ∷ []);
    total_size = (s.total_size + to_u64 b.length) % 2 ^ 64;
  }

  unfoldable pub add_blocks : Chain → List Block → Chain
  add_blocks s [] = s
  add_blocks s (b ∷ bs) = add_blocks (add_block s b) bs

  unfoldable pub generate_shuffle_file_format : List Block → ℤ → ShuffleFileFormat
  unfolding Composed.from
  generate_shuffle_file_format blocks offset =
      let s =
        add_blocks
          (record { offset = offset; index_bytes_holder = []; data_chain = []; total_size = 0 })
          blocks in
      record {
        content = composed (Composed.from s.data_chain s.total_size);
        index = direct s.index_bytes_holder;
        len = s.total_size;
        offset = s.offset;
      }
