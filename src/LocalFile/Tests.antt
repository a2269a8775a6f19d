-- ===== src/LocalFile/Tests.antt =====
-- The local file store's theorems at concrete inputs, on a disk that is a map of files.
use r.Base.{
  ◌≢◌, ltb, inr, concat, inl, Bool-cases, ◌==◌, beq_refl, bytes_eq, nat_eq, ◌≡◌, refl, none, some,
  [], ◌∷◌, ◌++◌, Bytes, true, false, if◌then◌else◌, arith,
}
use r.Base.Int.{pos}
use r.Base.Map
use r.Base.Map.{Map}
use r.Error.{panic, local_disk_owned_by_partition_corrupted, other, Outcome, err, ok}
use r.Store.Blocks.{payloads, Block}
use r.Store.BigEndian.{big_endian}
use r.Store.Wrapper
use r.Store.Wrapper.{BytesWrapper}
use r.Memory.{PartitionedUId}
use r.Persistent.{file_offset_and_len}
use r.LocalFile.{
  get, set_nth, nth, Disk, LocalFileStore, purge, purged_path, removed_data_size, delete_all,
}
use r.LocalFile.Paths.{index_file_path, data_file_path, starts_with, gen_relative_path_for_app}
use r.Base.Machine.{add64}
use r.LocalFile.Inserting.{insert_locked, write_files, create_parent, append_files, data_insert}
use r.LocalFile.Files.{Files}
use r.LocalFile.Written.{IsWritten, data_insert-IsWritten}
use r.LocalFile.Failing.{Fails, with_index, data_insert-Fails}
use r.LocalFile.Purging.{get-purge_prefix}
use r.LocalFile.Delegator.{
  LocalIo, LocalDiskDelegator, delegated_disk, check_round, capacity_check, check_used,
}
use r.LocalFile.Checking.{IsDamaged, get-check_round}

abbrev content : Map Bytes Bytes → Bytes → Bytes
content files path = elim (Map.get path files) [ none ↦ [] | some bytes ↦ bytes ]

abbrev map_disk : Disk
map_disk = record {
  State = Map Bytes Bytes;
  root = λ s. 47 ∷ [];
  is_healthy = λ s. true;
  is_corrupted = λ s. false;
  create_dir = λ s path. (s, ok tt);
  append = λ s path w. (Map.insert path (content s path ++ Wrapper.freeze w) s, ok tt);
  read = λ s path offset len. ok (content s path);
  delete = λ s path. (Map.remove path s, ok tt);
}

abbrev map_disk_files : Files map_disk
map_disk_files = record {
  file = content;
  file-append = λ d p w e.
      rw (content, Map.get-insert p p (content d p ++ Wrapper.freeze w) d) (rw (beq_refl p) refl);
  file-append_other =
      λ d p w q h. rw (content, Map.get-insert p q (content d p ++ Wrapper.freeze w) d) (rw h refl);
  file-create_dir = λ d p q. refl;
}

abbrev uid_of : Bytes → PartitionedUId
uid_of app_id = record { app_id = app_id; shuffle_id = pos 0; partition_id = pos 1 }

abbrev block : Block
block = record {
  block_id = pos 3;
  length = pos 2;
  uncompress_length = pos 200;
  crc = pos 7;
  payload = 104 ∷ 105 ∷ [];
  task_attempt_id = pos 1;
}

-- The locks of the applications "1" and "10".
abbrev store : LocalFileStore map_disk
store = record {
  local_disks = [] ∷ [];
  min_number_of_available_disks = pos 1;
  partition_locks =
      (data_file_path (uid_of (49 ∷ [])), record { disk = 0; pointer = pos 0 })
      ∷ (data_file_path (uid_of (49 ∷ 48 ∷ [])), record { disk = 0; pointer = pos 9 })
      ∷ [];
}

store-IsWritten : IsWritten map_disk big_endian map_disk_files store (uid_of (49 ∷ [])) 0 [] []
unfolding data_file_path Map.get
store-IsWritten = record { locked = refl; there = refl; data_file = refl; index_file = refl }

inserted :
    (data_insert map_disk big_endian (λ uid. 0) store (uid_of (49 ∷ [])) (block ∷ [])).1 ≡ ok tt
unfolding data_insert insert_locked write_files create_parent append_files data_file_path Map.get
inserted = refl

purged : (purge map_disk store (49 ∷ []) none).1 ≡ ok (pos 9)
unfolding purge purged_path gen_relative_path_for_app removed_data_size delete_all starts_with
    data_file_path add64
purged = refl

data_insert-IsWritten_example :
    (d' : map_disk.State) × IsWritten map_disk big_endian map_disk_files
      (data_insert map_disk big_endian (λ uid. 0) store (uid_of (49 ∷ [])) (block ∷ [])).0
      (uid_of (49 ∷ []))
      0
      d'
      (block ∷ [])
data_insert-IsWritten_example =
    data_insert-IsWritten map_disk big_endian map_disk_files (λ uid. 0) store (uid_of (49 ∷ [])) 0
      [] [] (block ∷ []) store-IsWritten (refl, tt) (omega arith) inserted

-- The purge of "1" drops the lock of "10".
get-purge_prefix_example :
    Map.get
      (data_file_path (uid_of (49 ∷ 48 ∷ [])))
      (purge map_disk store (49 ∷ []) none).0.partition_locks
    ≡ none
get-purge_prefix_example =
    get-purge_prefix map_disk store (49 ∷ []) (48 ∷ []) (uid_of (49 ∷ 48 ∷ [])) (pos 9) refl purged

abbrev uid : PartitionedUId
uid = uid_of (49 ∷ [])

-- A disk that has no room for the index of the partition.
abbrev full_disk : Disk
full_disk = record map_disk {
  append = λ s path w.
      if path == index_file_path uid
      then (s, err other)
      else (Map.insert path (content s path ++ Wrapper.freeze w) s, ok tt);
}

abbrev full_append : Map Bytes Bytes → Bytes → BytesWrapper → Map Bytes Bytes × Outcome (Unit {0})
full_append = full_disk.append

file-full_append :
    (d : Map Bytes Bytes) (p : Bytes) (w : BytesWrapper)
    → (full_append d p w).1 ≡ ok tt
    → content (full_append d p w).0 p ≡ content d p ++ Wrapper.freeze w
file-full_append d p w e = elim (Bool-cases (p == index_file_path uid)) [
  | inl hit ↦ absurd (let x = rw (full_append, hit) at e in ground (arith, x))
  | inr miss ↦ rw (full_append, miss) (map_disk_files.file-append d p w refl)
]

file_other-full_append :
    (d : Map Bytes Bytes) (p : Bytes) (w : BytesWrapper) (q : Bytes)
    → (p == q) ≡ false
    → content (full_append d p w).0 q ≡ content d q
file_other-full_append d p w q h = elim (Bool-cases (p == index_file_path uid)) [
  | inl hit ↦ rw (full_append, hit) refl
  | inr miss ↦ rw (full_append, miss) (map_disk_files.file-append_other d p w q h)
]

abbrev full_disk_files : Files full_disk
full_disk_files = record {
  file = content;
  file-append = file-full_append;
  file-append_other = file_other-full_append;
  file-create_dir = λ d p q. refl;
}

abbrev full_store : LocalFileStore full_disk
full_store = record {
  local_disks = [] ∷ [];
  min_number_of_available_disks = pos 1;
  partition_locks = (data_file_path uid, record { disk = 0; pointer = pos 0 }) ∷ [];
}

full_store-IsWritten : IsWritten full_disk big_endian full_disk_files full_store uid 0 [] []
unfolding data_file_path Map.get
full_store-IsWritten = record { locked = refl; there = refl; data_file = refl; index_file = refl }

fails : Fails full_disk big_endian full_disk_files [] uid (block ∷ []) 0
unfolding data_file_path index_file_path
fails = record { error = other; data_appended = refl; index_failed = refl }

data_insert-Fails_example :
    ((data_insert full_disk big_endian (λ u. 0) full_store uid (block ∷ [])).1 ≡ err other)
    × ((data_insert full_disk big_endian (λ u. 0) full_store uid (block ∷ [])).0.partition_locks
        ≡ full_store.partition_locks)
    × (nth 0 (data_insert full_disk big_endian (λ u. 0) full_store uid (block ∷ [])).0.local_disks
        ≡ some (with_index full_disk big_endian full_disk_files [] uid (block ∷ []) 0))
    × (content
          (with_index full_disk big_endian full_disk_files [] uid (block ∷ []) 0)
          (data_file_path uid)
        ≡ concat (payloads (block ∷ [])))
data_insert-Fails_example =
    data_insert-Fails full_disk big_endian full_disk_files (λ u. 0) full_store uid 0 [] []
      (block ∷ []) full_store-IsWritten (refl, tt) (omega arith) refl refl fails

-- A handler that takes every write and reads back nothing.
abbrev forgetful : LocalIo
forgetful = record {
  State = Unit {0};
  create_dir = λ s path. (s, ok tt);
  append = λ s path w. (s, ok tt);
  read = λ s path offset len. ok [];
  delete = λ s path. (s, ok tt);
  write = λ s path bytes. (s, ok tt);
}

abbrev checked : LocalDiskDelegator forgetful
checked = record {
  root = 47 ∷ [];
  io_handler = tt;
  is_healthy = true;
  is_corrupted = false;
  high_watermark = λ used capacity. ltb 80 used;
  low_watermark = λ used capacity. ltb used 60;
}

abbrev on_checked : LocalFileStore (delegated_disk forgetful)
on_checked = record {
  local_disks = checked ∷ [];
  min_number_of_available_disks = pos 1;
  partition_locks = store.partition_locks;
}

forgetful-IsDamaged : IsDamaged forgetful tt
forgetful-IsDamaged = record {
  deleted = refl;
  written = refl;
  read_data = [];
  read_back = refl;
  differs = refl;
}

locked_on_checked :
    Map.get (data_file_path (uid_of (49 ∷ []))) on_checked.partition_locks
    ≡ some (record { disk = 0; pointer = pos 0 })
unfolding Map.get data_file_path
locked_on_checked = refl

capacity_returns : (capacity_check forgetful checked (ok 100) (ok 90)).1 ≢ panic
unfolding capacity_check check_used
capacity_returns e = absurd (ground (arith, e))

get-check_round_example :
    get
      (delegated_disk forgetful)
      (record on_checked {
        local_disks =
            set_nth 0 (check_round forgetful checked (ok 100) (ok 90)).0 on_checked.local_disks;
      })
      (uid_of (49 ∷ []))
      (file_offset_and_len (pos 0) (pos 5))
    ≡ err (local_disk_owned_by_partition_corrupted (47 ∷ []))
get-check_round_example =
    get-check_round forgetful on_checked (uid_of (49 ∷ [])) (record { disk = 0; pointer = pos 0 })
      checked (ok 100) (ok 90) (pos 0) (pos 5) locked_on_checked refl refl capacity_returns
      forgetful-IsDamaged refl
