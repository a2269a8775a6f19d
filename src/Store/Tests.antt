-- ===== src/Store/Tests.antt =====
-- Runs of the byte chains and the file format, and the theorems at concrete inputs.
use r.Base.{ℕ, ◌≡◌, refl, List, [], ◌∷◌, Bytes, length, concat, map, arith}
use r.Base.Int.{pos}
use r.Store.Blocks.{Block, segments, slice, payloads}
use r.Store.Composed.{ComposedBytes}
use r.Store.Wrapper
use r.Store.Format.{generate_shuffle_file_format}
use r.Store.Index.{read_index, generate_shuffle_file_format_lem}
use r.Store.BigEndian.{big_endian}

abbrev hello : ComposedBytes
hello = record { composed = (104 ∷ 105 ∷ []) ∷ []; total_len = 2 }

abbrev block_of : ℕ → Bytes → Block
block_of id bytes = record {
  block_id = pos id;
  length = pos (length bytes);
  uncompress_length = pos 200;
  crc = pos 7;
  payload = bytes;
  task_attempt_id = pos 1;
}

abbrev two_blocks : List Block
two_blocks = block_of 3 (104 ∷ 105 ∷ 33 ∷ []) ∷ block_of 4 (106 ∷ 107 ∷ []) ∷ []

generate_shuffle_file_format_example :
    (Wrapper.freeze (generate_shuffle_file_format big_endian two_blocks (pos 10)).content
      ≡ concat (payloads two_blocks))
    × ((generate_shuffle_file_format big_endian two_blocks (pos 10)).len ≡ 5)
    × ((generate_shuffle_file_format big_endian two_blocks (pos 10)).offset ≡ pos 15)
    × (read_index big_endian 2
          (Wrapper.freeze (generate_shuffle_file_format big_endian two_blocks (pos 10)).index)
        ≡ segments 10 two_blocks)
    × (map
          (slice 10
            (Wrapper.freeze (generate_shuffle_file_format big_endian two_blocks (pos 10)).content))
          (read_index big_endian 2
            (Wrapper.freeze (generate_shuffle_file_format big_endian two_blocks (pos 10)).index))
        ≡ payloads two_blocks)
generate_shuffle_file_format_example =
    generate_shuffle_file_format_lem big_endian two_blocks 10 (refl, (refl, tt)) (omega arith)
      (omega arith)
