-- ===== src/Hdfs/Paths.antt =====
-- src/store/hdfs.rs: the directories and files of a partition on the remote file system.
use r.Base.{ℕ, Bool, false, ◌||◌, [], ◌∷◌, ◌++◌, Bytes, ◌==◌, nat_eq, if◌then◌else◌}
use r.Base.Int.{ℤ}
use r.Base.Decimal.{display, display_usize}
use r.Memory.{PartitionedUId}
use r.LocalFile.Paths.{slash, data_suffix, index_suffix}

unfoldable pub get_app_dir : Bytes → Bytes
get_app_dir app_id = app_id ++ slash

-- The directory of a shuffle of an application.
unfoldable pub get_shuffle_dir : Bytes → ℤ → Bytes
get_shuffle_dir app_id shuffle_id = app_id ++ (slash ++ (display shuffle_id ++ slash))

-- The part of the path after the application's directory.
abbrev pub below : Bytes → PartitionedUId → Bytes
below worker_id uid =
    display uid.shuffle_id
    ++ (slash
        ++ (display uid.partition_id ++ ((45 ∷ display uid.partition_id) ++ (slash ++ worker_id))))

-- The prefix of the data files, which is also that of the index files.
unfoldable pub get_file_path_prefix_by_uid : Bytes → PartitionedUId → Bytes
get_file_path_prefix_by_uid worker_id uid = uid.app_id ++ (slash ++ below worker_id uid)

-- `{}_{}`
unfoldable pub with_number : Bytes → ℕ → Bytes
with_number path n = path ++ (95 ∷ display_usize n)

unfoldable pub data_file : Bytes → ℕ → Bytes
unfolding with_number
data_file prefix retry_time = with_number prefix retry_time ++ data_suffix

unfoldable pub index_file : Bytes → ℕ → Bytes
unfolding with_number
index_file prefix retry_time = with_number prefix retry_time ++ index_suffix

abbrev pub contains : ℕ → Bytes → Bool
contains x [] = false
contains x (y ∷ s) = (y == x) || contains x s

-- `Path::parent` of a relative path: what stands before its last slash.
unfoldable pub parent : Bytes → Bytes
parent [] = []
parent (x ∷ s) = let rest = parent s in if contains 47 s then x ∷ rest else []
