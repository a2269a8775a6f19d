-- ===== src/Config.antt =====
-- src/config.rs: the storage types, whose values are bit flags.
use r.Base.{ℕ, ◌/◌, ◌%◌, Bool, not, ◌==◌, nat_eq}

pub data StorageType : Type 0 where
  memory : StorageType
  localfile : StorageType
  memory_localfile : StorageType
  hdfs : StorageType
  memory_hdfs : StorageType
  memory_localfile_hdfs : StorageType

-- `x as u8`
unfoldable pub as_u8 : StorageType → ℕ
as_u8 memory = 1
as_u8 localfile = 2
as_u8 memory_localfile = 3
as_u8 hdfs = 4
as_u8 memory_hdfs = 5
as_u8 memory_localfile_hdfs = 7

-- `val & flag != 0` for a flag of one bit.
abbrev has_bit : ℕ → ℕ → Bool
has_bit val flag = not ((val / flag) % 2 == 0)

unfoldable pub contains_localfile : StorageType → Bool
unfolding as_u8
contains_localfile t = has_bit (as_u8 t) (as_u8 localfile)

unfoldable pub contains_memory : StorageType → Bool
unfolding as_u8
contains_memory t = has_bit (as_u8 t) (as_u8 memory)

unfoldable pub contains_hdfs : StorageType → Bool
unfolding as_u8
contains_hdfs t = has_bit (as_u8 t) (as_u8 hdfs)
