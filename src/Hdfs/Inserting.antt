-- ===== src/Hdfs/Inserting.antt =====
-- src/store/hdfs.rs: the writes of blocks to the files of a partition.
use r.Base.{
  refl, arith, ◌≡◌, ℕ, Bool, true, false, not, Option, none, some, List, concat, Bytes, ◌++◌,
  bytes_eq, if◌then◌else◌,
}
use r.Base.Int.{ℤ, pos}
use r.Base.Map
use r.Error.{
  WorkerError, Outcome, ok, err, panic, other, hdfs_unhealthy, app_has_been_purged, out_of_memory,
}
use r.Store.Blocks.{Block}
use r.Store.Format.{Codec, generate_shuffle_file_format}
use r.Store.Wrapper.{BytesWrapper}
use r.Buffer.{BatchMemoryBlock}
use r.SemaphoreWithIndex
use r.SemaphoreWithIndex.{SemaphoreWithIndex}
use r.Memory.{PartitionedUId}
use r.Hybrid.Choosing.{from_anyhow}
use r.LocalFile.Paths.{slash}
use r.LocalFile.Inserting.{sort_by_task}
use r.Hdfs.{HdfsDelegator, HdfsStore, default, reset_offset, inc_retry_time}
use r.Hdfs.Paths.{get_file_path_prefix_by_uid, with_number, data_file, index_file, parent}

-- One after the other, the second only after a success.
abbrev pub then_do {ℓ} :
    {S : Type ℓ} → S × Outcome (Unit {0}) → (S → S × Outcome (Unit {0})) → S × Outcome (Unit {0})
then_do (s, ok done) f = f s
then_do (s, err e) f = (s, err e)
then_do (s, panic) f = (s, panic)

pub then_do-ok {ℓ} :
    {S : Type ℓ} (x : S × Outcome (Unit {0})) (f : S → S × Outcome (Unit {0}))
    → (then_do x f).1 ≡ ok tt
    → (x.1 ≡ ok tt) × ((f x.0).1 ≡ ok tt) × (then_do x f ≡ f x.0)
then_do-ok (s, ok done) f e = (refl, e, refl)
then_do-ok (s, err x) f e = absurd (ground arith)
then_do-ok (s, panic) f e = absurd (ground arith)

unfoldable pub marks_unhealthy : WorkerError → Bool
marks_unhealthy out_of_memory = true
marks_unhealthy _ = false

module _ (D : HdfsDelegator) (c : Codec) where
  unfoldable pub write_data_and_index :
      D.Client
      → D.State
      → Bytes
      → BytesWrapper
      → Bytes
      → BytesWrapper
      → D.State × Outcome (Unit {0})
  write_data_and_index filesystem remote data_path content index_path index =
      then_do (D.append filesystem remote data_path content)
        λ remote1. D.append filesystem remote1 index_path index

  -- `touch` of the data and the index file of a retry.
  unfoldable pub touch_files : D.Client → D.State → Bytes → ℕ → D.State × Outcome (Unit {0})
  touch_files filesystem remote prefix retry_time =
      then_do (D.touch filesystem remote (data_file prefix retry_time))
        λ remote1. D.touch filesystem remote1 (index_file prefix retry_time)

  -- The set-up of a partition's files at their first write.
  unfoldable pub create_files : D.Client → D.State → Bytes → D.State × Outcome (Unit {0})
  create_files filesystem remote prefix =
      then_do (D.create_dir filesystem remote (parent prefix ++ slash))
        λ remote1. touch_files filesystem remote1 prefix 0

  -- The arm of a write that fails: the next write starts a new file.
  unfoldable pub start_retry :
      HdfsStore D → D.Client → Bytes → WorkerError → HdfsStore D × Outcome (Unit {0})
  unfolding marks_unhealthy touch_files reset_offset inc_retry_time
  start_retry s filesystem prefix e =
      let s1 = record s { health = if marks_unhealthy e then false else s.health } in
      elim (Map.get prefix s1.partition_cached_meta) [
        | none ↦ (s1, err app_has_been_purged)
        | some m ↦
            let m' = inc_retry_time (reset_offset m (pos 0)) in
            let (remote', touched) = touch_files filesystem s1.remote prefix m'.retry_time in
            let s2 = record s1 {
              partition_cached_meta = Map.insert prefix m' s1.partition_cached_meta;
              remote = remote';
            } in
            elim touched [
              | ok done ↦ (s2, err other)
              | err e' ↦ (s2, err other)
              | panic ↦ (s2, panic)
            ]
      ]

  -- The arm of a write that succeeds.
  unfoldable pub finish_write : HdfsStore D → Bytes → ℤ → HdfsStore D × Outcome (Unit {0})
  unfolding reset_offset
  finish_write s prefix offset = elim (Map.get prefix s.partition_cached_meta) [
    | none ↦ (s, err app_has_been_purged)
    | some m ↦ (
      record s {
        partition_cached_meta = Map.insert prefix (reset_offset m offset) s.partition_cached_meta;
      },
      ok tt,
    )
  ]

  -- The write from an offset on to the files of a retry.
  unfoldable pub write_blocks :
      HdfsStore D → D.Client → Bytes → List Block → ℤ → ℕ → HdfsStore D × Outcome (Unit {0})
  write_blocks s filesystem prefix blocks next_offset retry_time =
      let format = generate_shuffle_file_format c blocks next_offset in
      let (remote', written) =
        write_data_and_index filesystem s.remote (data_file prefix retry_time) format.content
          (index_file prefix retry_time) format.index in
      let s' = record s { remote = remote' } in
      elim written [
        | ok done ↦ finish_write s' prefix format.offset
        | err e ↦ start_retry s' filesystem prefix e
        | panic ↦ (s', panic)
      ]

  -- The rest of `data_insert` with a permit for an index.
  unfoldable pub insert_with_index :
      HdfsStore D → Bytes → List Block → Bytes → HdfsStore D × Outcome (Unit {0})
  insert_with_index s app_id blocks prefix = elim (Map.get app_id s.app_remote_clients) [
    | none ↦ (s, err app_has_been_purged)
    | some filesystem ↦ elim (Map.get prefix s.partition_cached_meta) [
      | some m ↦ write_blocks s filesystem prefix blocks m.data_len m.retry_time
      | none ↦
          let (remote', created) = create_files filesystem s.remote prefix in
          let s1 = record s { remote = remote' } in
          elim (from_anyhow created) [
            | ok done ↦
                write_blocks
                  (record s1 {
                    partition_cached_meta = Map.insert prefix default s1.partition_cached_meta;
                  })
                  filesystem prefix blocks (pos 0) 0
            | err e ↦ (s1, err e)
            | panic ↦ (s1, panic)
          ]
    ]
  ]

  abbrev pub with_lock : HdfsStore D → Bytes → SemaphoreWithIndex → HdfsStore D
  with_lock s path lock = record s {
    partition_file_locks = Map.insert path lock s.partition_file_locks;
  }

  -- The lock of a path, a new one if there is none.
  abbrev pub lock_of : HdfsStore D → Bytes → SemaphoreWithIndex
  lock_of s path = elim (Map.get path s.partition_file_locks) [
    | none ↦ SemaphoreWithIndex.new s.partition_write_concurrency
    | some lock ↦ lock
  ]

  module _ (worker_id : Bytes) where
    -- No value while it has to wait for a permit, which is dropped at the end.
    unfoldable pub insert_with_permit :
        HdfsStore D → PartitionedUId → List Block → Option (HdfsStore D × Outcome (Unit {0}))
    insert_with_permit s uid blocks =
        let path = get_file_path_prefix_by_uid worker_id uid in
        elim (SemaphoreWithIndex.acquire_internal (lock_of s path)) [
          | none ↦ none
          | some acquired ↦ elim (SemaphoreWithIndex.pop_index acquired) [
            | ok (lock, index) ↦
                let (s', answer) =
                  insert_with_index (with_lock s path lock) uid.app_id blocks
                    (with_number path index) in
                let dropped =
                  SemaphoreWithIndex.release_internal (SemaphoreWithIndex.push_index lock index) in
                some (with_lock s' path dropped, answer)
            | err e ↦ some (with_lock s path acquired, err e)
            | panic ↦ some (with_lock s path acquired, panic)
          ]
        ]

    unfoldable pub data_insert :
        HdfsStore D → PartitionedUId → List Block → Option (HdfsStore D × Outcome (Unit {0}))
    unfolding insert_with_permit
    data_insert s uid blocks =
        if not s.health then some (s, err hdfs_unhealthy) else insert_with_permit s uid blocks

    unfoldable pub insert :
        HdfsStore D → PartitionedUId → List Block → Option (HdfsStore D × Outcome (Unit {0}))
    unfolding data_insert
    insert s uid data_blocks = data_insert s uid data_blocks

    unfoldable pub spill_insert :
        HdfsStore D → PartitionedUId → BatchMemoryBlock → Option (HdfsStore D × Outcome (Unit {0}))
    unfolding data_insert sort_by_task
    spill_insert s uid data_blocks = data_insert s uid (sort_by_task (concat data_blocks))
