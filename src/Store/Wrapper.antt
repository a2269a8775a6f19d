-- ===== src/Store/Wrapper.antt =====
-- src/store/mod.rs: bytes held directly or as a chain, and the answers of a read.
use r.Base.{ℕ, ◌≡◌, refl, List, [], ◌∷◌, Bytes, length}
use r.Base.Int.{ℤ}
use r.Error.{Outcome, ok, panic}
use r.Store.Blocks.{DataSegment}
use r.Store.Composed
use r.Store.Composed.{ComposedBytes}

pub data BytesWrapper : Type 0 where
  direct : Bytes → BytesWrapper
  composed : ComposedBytes → BytesWrapper

unfoldable pub len : BytesWrapper → ℕ
len (direct bytes) = length bytes
len (composed c) = Composed.len c

unfoldable pub freeze : BytesWrapper → Bytes
freeze (direct bytes) = bytes
freeze (composed c) = Composed.freeze c

unfoldable pub get_direct : BytesWrapper → Outcome Bytes
get_direct (direct bytes) = ok bytes
get_direct (composed c) = panic

unfoldable pub always_composed : BytesWrapper → ComposedBytes
unfolding Composed.from
always_composed (composed c) = c
always_composed (direct bytes) = Composed.from (bytes ∷ []) (length bytes)

pub record LocalDataIndex : Type 0 where
  pub index_data : Bytes
  pub data_file_len : ℤ

pub record PartitionedMemoryData : Type 0 where
  pub shuffle_data_block_segments : List DataSegment
  pub content : BytesWrapper

pub data ResponseData : Type 0 where
  local : Bytes → ResponseData
  mem : PartitionedMemoryData → ResponseData

unfoldable pub from_local : ResponseData → Bytes
from_local (local bytes) = bytes
from_local (mem m) = []

unfoldable pub from_memory : ResponseData → PartitionedMemoryData
from_memory (mem m) = m
from_memory (local bytes) = record { shuffle_data_block_segments = []; content = direct [] }

-- Whatever the form, the chain has the same bytes and the same stated length.
pub always_composed_lem :
    (w : BytesWrapper)
    → (Composed.freeze (always_composed w) ≡ freeze w) × (Composed.len (always_composed w) ≡ len w)
unfolding always_composed freeze len Composed.len Composed.freeze Composed.freeze_from
always_composed_lem (composed c) = (refl, refl)
always_composed_lem (direct bytes) = (refl, refl)
