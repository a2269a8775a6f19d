-- ===== src/LocalFile/Inserting.antt =====
-- src/store/localfile.rs: the writes of blocks to the files of a partition.
use r.Base.{
  bytes_eq, ℕ, Bool, true, false, not, none, some, List, [], ◌∷◌, ◌++◌, concat, if◌then◌else◌,
}
use r.Base.Int.{ℤ, pos, leb_ℤ}
use r.Base.Map
use r.Error.{Outcome, ok, err, panic, internal_error, partial_data_lost, local_disk_unhealthy}
use r.Store.Blocks.{Block}
use r.Store.Format.{Codec, generate_shuffle_file_format}
use r.Buffer.{BatchMemoryBlock}
use r.Memory.{PartitionedUId}
use r.Hybrid.Choosing.{from_anyhow}
use r.LocalFile.{Disk, LocalFileStore, LockedObj, select_disk, nth, set_nth}
use r.LocalFile.Paths.{data_file_path, index_file_path, gen_relative_path_for_shuffle, slash}

-- `sort_by_key` on the task attempt id, which is stable.
unfoldable pub insert_by_task : Block → List Block → List Block
insert_by_task b [] = b ∷ []
insert_by_task b (x ∷ xs) =
    let rest = insert_by_task b xs in
    if leb_ℤ b.task_attempt_id x.task_attempt_id then b ∷ x ∷ xs else x ∷ rest

unfoldable pub sort_by_task : List Block → List Block
unfolding insert_by_task
sort_by_task [] = []
sort_by_task (b ∷ bs) = insert_by_task b (sort_by_task bs)

module _ (D : Disk) (c : Codec) where
  -- The store after a change of a disk.
  abbrev pub with_disk : LocalFileStore D → ℕ → D.State → LocalFileStore D
  with_disk s n d = record s { local_disks = set_nth n d s.local_disks }

  -- The directory of the partition's files, if its lock is new.
  unfoldable pub create_parent : D.State → PartitionedUId → Bool → D.State × Outcome (Unit {0})
  unfolding gen_relative_path_for_shuffle
  create_parent d uid true = (d, ok tt)
  create_parent d uid false =
      D.create_dir d (gen_relative_path_for_shuffle uid.app_id uid.shuffle_id ++ slash)

  -- The data and then the index of the blocks, and the offset after them.
  unfoldable pub append_files : D.State → PartitionedUId → List Block → ℤ → D.State × Outcome ℤ
  append_files d uid blocks next_offset =
      let shuffle_file_format = generate_shuffle_file_format c blocks next_offset in
      let (d1, data_answer) = D.append d (data_file_path uid) shuffle_file_format.content in
      let (d2, index_answer) = D.append d1 (index_file_path uid) shuffle_file_format.index in
      elim data_answer [
        | ok done ↦ elim index_answer [
          | ok done' ↦ (d2, ok shuffle_file_format.offset)
          | err e ↦ (d2, err e)
          | panic ↦ (d2, panic)
        ]
        | err e ↦ (d1, err e)
        | panic ↦ (d1, panic)
      ]

  -- The writes to a disk that is in order.
  unfoldable pub write_files :
      D.State → PartitionedUId → List Block → ℤ → Bool → D.State × Outcome ℤ
  unfolding create_parent append_files
  write_files d uid blocks next_offset parent_dir_is_created =
      let (d1, answer) = create_parent d uid parent_dir_is_created in
      elim answer [
        | ok done ↦ append_files d1 uid blocks next_offset
        | err e ↦ (d1, err e)
        | panic ↦ (d1, panic)
      ]

  -- The rest of `data_insert` with the partition's lock. The object holds its disk, so the case that
  -- there is none does not occur.
  unfoldable pub insert_locked :
      LocalFileStore D
      → PartitionedUId
      → List Block
      → LockedObj
      → Bool
      → LocalFileStore D × Outcome (Unit {0})
  unfolding write_files
  insert_locked s uid blocks obj parent_dir_is_created = elim (nth obj.disk s.local_disks) [
    | none ↦ (s, err internal_error)
    | some d ↦
        if D.is_corrupted d
        then (s, err (partial_data_lost (D.root d)))
        else if not (D.is_healthy d)
        then (s, err (local_disk_unhealthy (D.root d)))
        else let (d', answer) = write_files d uid blocks obj.pointer parent_dir_is_created in
          let s' = with_disk s obj.disk d' in
          elim (from_anyhow answer) [
            | ok offset ↦ (
              record s' {
                partition_locks =
                    Map.insert (data_file_path uid) (record obj { pointer = offset })
                      s.partition_locks;
              },
              ok tt,
            )
            | err e ↦ (s', err e)
            | panic ↦ (s', panic)
          ]
  ]

  module _ (get_hash : PartitionedUId → ℕ) where
    unfoldable pub data_insert :
        LocalFileStore D → PartitionedUId → List Block → LocalFileStore D × Outcome (Unit {0})
    unfolding insert_locked select_disk
    data_insert s uid blocks = elim (Map.get (data_file_path uid) s.partition_locks) [
      | some obj ↦ insert_locked s uid blocks obj true
      | none ↦ elim (select_disk D get_hash s uid) [
        | ok disk ↦
            let obj : LockedObj = record { disk = disk; pointer = pos 0 } in
            insert_locked
              (record s { partition_locks = Map.insert (data_file_path uid) obj s.partition_locks })
              uid blocks obj false
        | err e ↦ (s, err e)
        | panic ↦ (s, panic)
      ]
    ]

    unfoldable pub insert :
        LocalFileStore D → PartitionedUId → List Block → LocalFileStore D × Outcome (Unit {0})
    unfolding data_insert
    insert s uid [] = (s, ok tt)
    insert s uid (b ∷ blocks) = data_insert s uid (b ∷ blocks)

    unfoldable pub spill_insert :
        LocalFileStore D → PartitionedUId → BatchMemoryBlock → LocalFileStore D × Outcome (Unit {0})
    unfolding data_insert sort_by_task
    spill_insert s uid data_blocks = data_insert s uid (sort_by_task (concat data_blocks))
