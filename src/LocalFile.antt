-- ===== src/LocalFile.antt =====
-- src/store/localfile.rs: the store of partitions in local files. A disk, with its root, its health
-- and its I/O, is an interface; a disk that several parts share is its place in the list. The hash of
-- a partition, which is that of the standard library, is a parameter.
pub mod Paths
pub mod Inserting
pub mod Files
pub mod Written
pub mod Interface
pub mod Failing
pub mod Purging
pub mod Delegator
pub mod Checking
mod Tests
use r.Base.{
  ℕ, zero, suc, ◌+◌, ◌%◌, Bool, true, false, not, ◌&&◌, Option, none, some, List, [], ◌∷◌, Bytes,
  length, if◌then◌else◌, ◌==◌, bytes_eq, nat_eq,
}
use r.Base.Int.{ℤ, pos, leb_ℤ, int_eq}
use r.Base.Machine.{add64}
use r.Base.Map
use r.Base.Map.{Map}
use r.Error.{
  Outcome, ok, err, panic, ◌>>=◌, no_available_local_disk, internal_error,
  local_disk_owned_by_partition_corrupted,
}
use r.Store.Wrapper.{BytesWrapper, ResponseData, local, LocalDataIndex}
use r.Memory.{PartitionedUId}
use r.Persistent.{ReadingOptions, memory_last_block_id_and_max_size, file_offset_and_len}
use r.Hybrid.Choosing.{from_anyhow}
use r.LocalFile.Paths.{
  data_file_path, index_file_path, gen_relative_path_for_app, gen_relative_path_for_shuffle,
  starts_with,
}

-- The traits `LocalIO` and `LocalDiskStorage` and the root of a disk.
pub record Disk : Type 1 where
  pub State : Type 0
  pub root : State → Bytes
  pub is_healthy : State → Bool
  pub is_corrupted : State → Bool
  pub create_dir : State → Bytes → State × Outcome (Unit {0})
  pub append : State → Bytes → BytesWrapper → State × Outcome (Unit {0})
  pub read : State → Bytes → ℤ → Option ℤ → Outcome Bytes
  pub delete : State → Bytes → State × Outcome (Unit {0})

abbrev pub nth {ℓ} : {A : Type ℓ} → ℕ → List A → Option A
nth n [] = none
nth zero (x ∷ xs) = some x
nth (suc n) (x ∷ xs) = nth n xs

abbrev pub set_nth {ℓ} : {A : Type ℓ} → ℕ → A → List A → List A
set_nth n y [] = []
set_nth zero y (x ∷ xs) = y ∷ xs
set_nth (suc n) y (x ∷ xs) = x ∷ set_nth n y xs

pub record LockedObj : Type 0 where
  pub disk : ℕ
  pub pointer : ℤ

module _ (D : Disk) where
  pub record LocalFileStore : Type 0 where
    pub local_disks : List D.State
    pub min_number_of_available_disks : ℤ
    pub partition_locks : Map Bytes LockedObj

  abbrev is_available : D.State → Bool
  is_available d = D.is_healthy d && not (D.is_corrupted d)

  unfoldable pub available : List D.State → ℕ
  available [] = 0
  available (d ∷ ds) = let rest = available ds in if is_available d then rest + 1 else rest

  unfoldable pub healthy_check : LocalFileStore → Bool
  unfolding available
  healthy_check s = leb_ℤ s.min_number_of_available_disks (pos (available s.local_disks))

  -- The loop of `select_disk`, from the place of the first disk.
  unfoldable pub disk_candidates : ℕ → List D.State → List ℕ
  disk_candidates n [] = []
  disk_candidates n (d ∷ ds) =
      let rest = disk_candidates (n + 1) ds in if is_available d then n ∷ rest else rest

  unfoldable pub select_disk : (PartitionedUId → ℕ) → LocalFileStore → PartitionedUId → Outcome ℕ
  unfolding disk_candidates
  select_disk get_hash s uid =
      let candidates = disk_candidates 0 s.local_disks in
      let len = length candidates in
      if len == 0 then err no_available_local_disk else elim (nth (get_hash uid % len) candidates) [
        | some disk ↦ ok disk
        | none ↦ err internal_error
      ]

  -- The locked object of a partition with its disk; there is a disk at the place.
  abbrev pub owned : LocalFileStore → Bytes → Option (LockedObj × D.State)
  owned s path = elim (Map.get path s.partition_locks) [
    | none ↦ none
    | some obj ↦ elim (nth obj.disk s.local_disks) [ none ↦ none | some d ↦ some (obj, d) ]
  ]

  abbrev pub offset_and_len : ReadingOptions → ℤ × ℤ
  offset_and_len (file_offset_and_len offset len) = (offset, len)
  offset_and_len (memory_last_block_id_and_max_size id size) = (pos 0, pos 0)

  unfoldable pub get : LocalFileStore → PartitionedUId → ReadingOptions → Outcome ResponseData
  get s uid options =
      let (offset, len) = offset_and_len options in
      if len == pos 0 then ok (local []) else elim (owned s (data_file_path uid)) [
        | none ↦ ok (local [])
        | some (obj, d) ↦
            if D.is_corrupted d
            then err (local_disk_owned_by_partition_corrupted (D.root d))
            else from_anyhow (D.read d (data_file_path uid) offset (some len)) >>= λ content.
                ok (local content)
      ]

  unfoldable pub get_index : LocalFileStore → PartitionedUId → Outcome LocalDataIndex
  get_index s uid = elim (owned s (data_file_path uid)) [
    | none ↦ ok (record { index_data = []; data_file_len = pos 0 })
    | some (obj, d) ↦
        if D.is_corrupted d
        then err (local_disk_owned_by_partition_corrupted (D.root d))
        else from_anyhow (D.read d (index_file_path uid) (pos 0) none) >>= λ content.
            ok (record { index_data = content; data_file_len = obj.pointer })
  ]

  -- `for local_disk_ref in &self.local_disks`: a delete that fails ends the loop.
  unfoldable pub delete_all : Bytes → List D.State → List D.State × Outcome (Unit {0})
  delete_all path [] = ([], ok tt)
  delete_all path (d ∷ ds) =
      let rest = delete_all path ds in
      let (d', answer) = D.delete d path in
      elim answer [
        | ok done ↦ (d' ∷ rest.0, rest.1)
        | err e ↦ (d' ∷ ds, err e)
        | panic ↦ (d' ∷ ds, panic)
      ]

  -- The locks that a purge keeps, and the sum of the sizes of those it removes.
  unfoldable pub remove_locks : Bytes → Map Bytes LockedObj → Map Bytes LockedObj
  unfolding starts_with
  remove_locks prefix [] = []
  remove_locks prefix ((key, obj) ∷ locks) =
      let rest = remove_locks prefix locks in
      if starts_with key prefix then rest else (key, obj) ∷ rest

  unfoldable pub removed_data_size : Bytes → Map Bytes LockedObj → ℤ → ℤ
  unfolding starts_with
  removed_data_size prefix [] size = size
  removed_data_size prefix ((key, obj) ∷ locks) size =
      removed_data_size prefix locks
        (if starts_with key prefix then add64 size obj.pointer else size)

  unfoldable pub purged_path : Bytes → Option ℤ → Bytes
  unfolding gen_relative_path_for_app gen_relative_path_for_shuffle
  purged_path app_id none = gen_relative_path_for_app app_id
  purged_path app_id (some shuffle_id) = gen_relative_path_for_shuffle app_id shuffle_id

  unfoldable pub purge : LocalFileStore → Bytes → Option ℤ → LocalFileStore × Outcome ℤ
  unfolding delete_all remove_locks removed_data_size purged_path
  purge s app_id shuffle_id =
      let path = purged_path app_id shuffle_id in
      let (disks, answer) = delete_all path s.local_disks in
      let s' = record s { local_disks = disks } in
      elim answer [
        | ok done ↦ (
          record s' { partition_locks = remove_locks path s.partition_locks },
          ok (removed_data_size path s.partition_locks (pos 0)),
        )
        | err e ↦ (s', err e)
        | panic ↦ (s', panic)
      ]
