-- ===== src/Hdfs/Tests.antt =====
-- The HDFS store's theorems at concrete inputs, over a file system that is a map of files and refuses
-- the first append.
use r.Base.{
  ◌==◌, beq_refl, bytes_eq, nat_eq, ◌≡◌, refl, none, some, [], ◌∷◌, ◌++◌, Bytes, Bool, true, false,
  if◌then◌else◌, arith, inl,
}
use r.Base.Int.{pos}
use r.Base.Map
use r.Base.Map.{Map}
use r.Error.{Outcome, err, ok, hdfs_io_error}
use r.Store.Blocks.{Block}
use r.Store.BigEndian.{big_endian}
use r.Store.Wrapper
use r.Store.Wrapper.{BytesWrapper}
use r.Memory.{PartitionedUId}
use r.SemaphoreWithIndex
use r.SemaphoreWithIndex.{SemaphoreWithIndex}
use r.Hdfs.{with_number, HdfsDelegator, HdfsStore, purge}
use r.Hdfs.Paths.{get_file_path_prefix_by_uid}
use r.Hdfs.Inserting.{
  insert_with_index, create_files, touch_files, write_blocks, write_data_and_index, start_retry,
  finish_write, data_insert,
}
use r.Hdfs.Files.{Files}
use r.Hdfs.Written.{Holds, insert_with_index-Holds}
use r.Hdfs.Purging.{purge_app_lem}
use r.Hdfs.Apart.{insert_with_index-Holds_other}
use r.Hdfs.Permits.{IsResting, data_insert-IsResting}

abbrev content : Map Bytes Bytes → Bytes → Bytes
content files path = elim (Map.get path files) [ none ↦ [] | some bytes ↦ bytes ]

-- A file system that refuses an append if it is flagged, and then no more.
abbrev appended :
    Bool → Map Bytes Bytes → Bytes → Bytes → (Bool × Map Bytes Bytes) × Outcome (Unit {0})
appended true files path bytes = ((false, files), err (hdfs_io_error []))
appended false files path bytes =
    ((false, Map.insert path (content files path ++ bytes) files), ok tt)

abbrev map_client : HdfsDelegator
map_client = record {
  State = Bool × Map Bytes Bytes;
  Client = Unit {0};
  get_hdfs_delegator = λ root configs. ok tt;
  touch = λ a r path. ((r.0, Map.insert path [] r.1), ok tt);
  append = λ a r path w. appended r.0 r.1 path (Wrapper.freeze w);
  create_dir = λ a r path. (r, ok tt);
  delete_dir = λ a r path. (r, ok tt);
}

content-insert :
    (files : Map Bytes Bytes) (p q bytes : Bytes)
    → content (Map.insert p bytes files) q ≡ (if p == q then bytes else content files q)
content-insert files p q bytes = ground (arith, Map.get-insert p q bytes files)

content-appended :
    (b : Bool) (files : Map Bytes Bytes) (p bytes : Bytes)
    → (appended b files p bytes).1 ≡ ok tt
    → content (appended b files p bytes).0.1 p ≡ content files p ++ bytes
content-appended true files p bytes e = absurd (ground arith)
content-appended false files p bytes e = rw (content-insert files p p) (rw (beq_refl p) refl)

content-appended_other :
    (b : Bool) (files : Map Bytes Bytes) (p q bytes : Bytes)
    → (p == q) ≡ false
    → content (appended b files p bytes).0.1 q ≡ content files q
content-appended_other true files p q bytes h = refl
content-appended_other false files p q bytes h = rw (content-insert files p q) (rw h refl)

abbrev map_client_files : Files map_client
map_client_files = record {
  file = λ r. content r.1;
  file-append = λ a r p w e. content-appended r.0 r.1 p (Wrapper.freeze w) e;
  file-append_other = λ a r p w q h. content-appended_other r.0 r.1 p q (Wrapper.freeze w) h;
  file-touch = λ a r p e. rw (content-insert r.1 p p []) (rw (beq_refl p) refl);
  file-create_dir = λ a r p q. refl;
  file-touch_other = λ a r p q h. rw (content-insert r.1 p q []) (rw h refl);
}

abbrev uid_of : Bytes → PartitionedUId
uid_of app_id = record { app_id = app_id; shuffle_id = pos 0; partition_id = pos 1 }

abbrev block : Block
block = record {
  block_id = pos 3;
  length = pos 2;
  uncompress_length = pos 200;
  crc = pos 7;
  payload = 104 ∷ 105 ∷ [];
  task_attempt_id = pos 1;
}

-- The application "1" is registered, and two tasks may write to a partition.
abbrev store : Bool → HdfsStore map_client
store flag = record {
  app_remote_clients = (49 ∷ [], tt) ∷ [];
  partition_file_locks = [];
  partition_cached_meta = [];
  partition_write_concurrency = 2;
  health = true;
  remote = (flag, []);
}

registered : (flag : Bool) → Map.get (49 ∷ []) (store flag).app_remote_clients ≡ some tt
unfolding Map.get
registered flag = refl

nothing_made :
    (flag : Bool) → Holds map_client big_endian map_client_files (store flag) (119 ∷ []) []
unfolding Map.get
nothing_made flag = inl (refl, refl)

written :
    (insert_with_index map_client big_endian (store false) (49 ∷ []) (block ∷ []) (119 ∷ [])).1
    ≡ ok tt
unfolding insert_with_index create_files touch_files write_blocks write_data_and_index start_retry
    finish_write Map.get Map.insert
written = refl

insert_with_index-Holds_example :
    Holds map_client big_endian map_client_files
      (insert_with_index map_client big_endian (store false) (49 ∷ []) (block ∷ []) (119 ∷ [])).0
      (119 ∷ [])
      (block ∷ [])
insert_with_index-Holds_example =
    insert_with_index-Holds map_client big_endian map_client_files (store false) (49 ∷ []) tt
      (119 ∷ []) [] (block ∷ []) (registered false) (nothing_made false) (refl, tt) (omega arith)
      written

abbrev once : HdfsStore map_client × Outcome (Unit {0})
once = insert_with_index map_client big_endian (store true) (49 ∷ []) (block ∷ []) (119 ∷ [])

store-IsResting : IsResting map_client big_endian (store false)
unfolding Map.get
store-IsResting = record {
  concurrency = 1;
  positive = refl;
  free = λ key l e. absurd (ground (arith, e));
}

data_insert-IsResting_example :
    (r : HdfsStore map_client × Outcome (Unit {0})) × (data_insert map_client big_endian
        (119 ∷ [])
        (store false)
        (uid_of (49 ∷ []))
        (block ∷ [])
      ≡ some r)
    × IsResting map_client big_endian r.0
data_insert-IsResting_example =
    data_insert-IsResting map_client big_endian (store false) (119 ∷ []) (uid_of (49 ∷ []))
      (block ∷ []) store-IsResting

-- The applications "1" and "10", each with a lock.
abbrev path_of : Bytes → Bytes
path_of app_id = get_file_path_prefix_by_uid (119 ∷ []) (uid_of app_id)

abbrev locked : HdfsStore map_client
locked = record (store false) {
  partition_file_locks =
      (path_of (49 ∷ []), SemaphoreWithIndex.new 2)
      ∷ (path_of (49 ∷ 48 ∷ []), SemaphoreWithIndex.new 2)
      ∷ [];
}

-- The purge of "1" keeps the lock of "10".
purge_app_lem_example :
    (Map.get
        (path_of (49 ∷ 48 ∷ []))
        (purge map_client locked (49 ∷ []) none).0.partition_file_locks
      ≡ Map.get (path_of (49 ∷ 48 ∷ [])) locked.partition_file_locks)
    × (Map.get (49 ∷ []) (purge map_client locked (49 ∷ []) none).0.app_remote_clients ≡ none)
purge_app_lem_example =
    purge_app_lem map_client locked (49 ∷ []) tt (119 ∷ []) (uid_of (49 ∷ 48 ∷ []))
      (registered false) refl refl

abbrev second : HdfsStore map_client × Outcome (Unit {0})
second =
    insert_with_index map_client big_endian (store false) (49 ∷ []) (block ∷ [])
      (with_number (119 ∷ []) 1)

second_written : second.1 ≡ ok tt
unfolding insert_with_index create_files touch_files write_blocks write_data_and_index start_retry
    finish_write Map.get Map.insert Map.remove
second_written = ground (arith, beq_refl (with_number (119 ∷ []) 1))

unmade : Map.get (with_number (119 ∷ []) 1) (store false).partition_cached_meta ≡ none
unfolding Map.get
unmade = refl

second_Holds :
    Holds map_client big_endian map_client_files second.0 (with_number (119 ∷ []) 1) (block ∷ [])
second_Holds =
    insert_with_index-Holds map_client big_endian map_client_files (store false) (49 ∷ []) tt
      (with_number (119 ∷ []) 1) [] (block ∷ []) (registered false) (inl (unmade, refl)) (refl, tt)
      (omega arith) second_written

insert_with_index-Holds_other_example :
    Holds map_client big_endian map_client_files
      (insert_with_index map_client big_endian second.0
        (49 ∷ [])
        (block ∷ [])
        (with_number (119 ∷ []) 0)).0
      (with_number (119 ∷ []) 1)
      (block ∷ [])
insert_with_index-Holds_other_example =
    insert_with_index-Holds_other map_client big_endian map_client_files second.0 (49 ∷ [])
      (119 ∷ []) 0 1 (block ∷ []) (block ∷ []) (omega arith) (omega arith) (λ e. omega (arith, e))
      second_Holds
