-- ===== src/LocalFile/Paths.antt =====
-- src/store/localfile.rs: the paths of the files of a partition, below the root of a disk.
use r.Base.{Bool, true, false, ◌&&◌, [], ◌∷◌, ◌++◌, Bytes, ◌==◌, nat_eq}
use r.Base.Int.{ℤ}
use r.Base.Decimal.{display}
use r.Memory.{PartitionedUId}

-- "/", "partition-", ".data" and ".index".
abbrev pub slash : Bytes
slash = 47 ∷ []

abbrev partition_prefix : Bytes
partition_prefix = 112 ∷ 97 ∷ 114 ∷ 116 ∷ 105 ∷ 116 ∷ 105 ∷ 111 ∷ 110 ∷ 45 ∷ []

abbrev pub data_suffix : Bytes
data_suffix = 46 ∷ 100 ∷ 97 ∷ 116 ∷ 97 ∷ []

abbrev pub index_suffix : Bytes
index_suffix = 46 ∷ 105 ∷ 110 ∷ 100 ∷ 101 ∷ 120 ∷ []

unfoldable pub gen_relative_path_for_app : Bytes → Bytes
gen_relative_path_for_app app_id = app_id

unfoldable pub gen_relative_path_for_shuffle : Bytes → ℤ → Bytes
gen_relative_path_for_shuffle app_id shuffle_id = app_id ++ (slash ++ display shuffle_id)

-- The path of a partition's files below the application's directory, up to the suffix, and from the
-- root on.
abbrev pub below : PartitionedUId → Bytes
below uid =
    slash ++ (display uid.shuffle_id ++ (slash ++ (partition_prefix ++ display uid.partition_id)))

abbrev pub partition_path : PartitionedUId → Bytes
partition_path uid = uid.app_id ++ below uid

unfoldable pub data_file_path : PartitionedUId → Bytes
data_file_path uid = partition_path uid ++ data_suffix

unfoldable pub index_file_path : PartitionedUId → Bytes
index_file_path uid = partition_path uid ++ index_suffix

unfoldable pub starts_with : Bytes → Bytes → Bool
starts_with s [] = true
starts_with [] (p ∷ prefix) = false
starts_with (x ∷ s) (p ∷ prefix) = (x == p) && starts_with s prefix
