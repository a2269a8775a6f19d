-- ===== src/LocalFile/Failing.antt =====
-- A write of src/store/localfile.rs that stops between the data and the index of a partition.
use r.Base.{◌+◌, ◌<◌, ◌^◌, ℕ, ◌≡◌, refl, ap, sym, ◌∙◌, true, false, some, List, ◌++◌, concat, arith}
use r.Base.Int.{pos}
use r.Error.{WorkerError, ok, err, other}
use r.Store.Composed
use r.Store.Wrapper
use r.Store.Blocks.{Block, AreSized, payload_len, payloads}
use r.Store.Format.{Codec, ShuffleFileFormat, generate_shuffle_file_format}
use r.Store.Index.{generated}
use r.Memory.{PartitionedUId}
use r.LocalFile.{Disk, LocalFileStore, nth}
use r.LocalFile.Paths.{data_file_path, index_file_path}
use r.LocalFile.Inserting.{
  append_files, write_files, create_parent, insert_locked, data_insert, with_disk,
}
use r.LocalFile.Files.{Files, paths_differ_back, concat-payloads_append}
use r.LocalFile.Written.{IsWritten, nth-set_nth}

module _ (D : Disk) (c : Codec) (files : Files D) where
  -- The disk after the data, and after the index, of some blocks from an offset on.
  abbrev pub with_data : D.State → PartitionedUId → List Block → ℕ → D.State
  with_data d uid blocks o =
      (D.append d (data_file_path uid) (generate_shuffle_file_format c blocks (pos o)).content).0

  abbrev pub with_index : D.State → PartitionedUId → List Block → ℕ → D.State
  with_index d uid blocks o =
      (D.append (with_data d uid blocks o) (index_file_path uid)
        (generate_shuffle_file_format c blocks (pos o)).index).0

  -- The appends of some blocks, of which the second fails.
  pub record Fails (d : D.State) (uid : PartitionedUId) (blocks : List Block) (o : ℕ) : Type 0 where
    pub error : WorkerError
    pub data_appended :
        (D.append d (data_file_path uid) (generate_shuffle_file_format c blocks (pos o)).content).1
        ≡ ok tt
    pub index_failed :
        (D.append
          (with_data d uid blocks o)
          (index_file_path uid)
          (generate_shuffle_file_format c blocks (pos o)).index).1
        ≡ err error

  append_files-Fails :
      (d : D.State) (uid : PartitionedUId) (blocks : List Block) (o : ℕ) (f : Fails d uid blocks o)
      → append_files D c d uid blocks (pos o) ≡ (with_index d uid blocks o, err f.error)
  unfolding append_files
  append_files-Fails d uid blocks o f =
      rw (append_files, f.data_appended) (rw (append_files, f.index_failed) refl)

  insert_locked-Fails :
      (s : LocalFileStore D) (uid : PartitionedUId) (blocks : List Block) (disk o : ℕ) (d : D.State)
      → nth disk s.local_disks ≡ some d
      → D.is_corrupted d ≡ false
      → D.is_healthy d ≡ true
      → Fails d uid blocks o
      → insert_locked D c s uid blocks (record { disk = disk; pointer = pos o }) true
        ≡ (with_disk D c s disk (with_index d uid blocks o), err other)
  unfolding insert_locked write_files create_parent
  insert_locked-Fails s uid blocks disk o d there intact healthy f =
      ground (arith, append_files-Fails d uid blocks o f)

  -- If an append that succeeds adds to the file that is named, and no append changes other files, if the
  -- files of a partition on a disk that is healthy and not marked as corrupted hold some blocks, with
  -- their length as the offset, if the stated lengths of further blocks are right and add up with the
  -- others below 2^63, and if of an insert of the further blocks the append of the data is done but that
  -- of the index fails: then the insert answers with an error and leaves the locks, and so the offset,
  -- as they were, while the data file holds the further blocks after the others.
  pub data_insert-Fails :
      (get_hash : PartitionedUId → ℕ) (s : LocalFileStore D) (uid : PartitionedUId) (disk : ℕ)
      (d : D.State) (old blocks : List Block)
      → IsWritten D c files s uid disk d old
      → AreSized blocks
      → payload_len old + payload_len blocks < 2 ^ 63
      → D.is_corrupted d ≡ false
      → D.is_healthy d ≡ true
      → Fails d uid blocks (payload_len old)
      → ((data_insert D c get_hash s uid blocks).1 ≡ err other)
        × ((data_insert D c get_hash s uid blocks).0.partition_locks ≡ s.partition_locks)
        × (nth disk (data_insert D c get_hash s uid blocks).0.local_disks
            ≡ some (with_index d uid blocks (payload_len old)))
        × (files.file (with_index d uid blocks (payload_len old)) (data_file_path uid)
            ≡ concat (payloads (old ++ blocks)))
  unfolding data_insert Wrapper.freeze
  data_insert-Fails get_hash s uid disk d old blocks w sized fits intact healthy f =
      let o = payload_len old in
      let p = data_file_path uid in
      let format = generate_shuffle_file_format c blocks (pos o) in
      let same : data_insert D c get_hash s uid blocks
          ≡ (with_disk D c s disk (with_index d uid blocks o), err other) =
        rw (data_insert, w.locked)
          (insert_locked-Fails s uid blocks disk o d w.there intact healthy f) in
      let made =
        ap (λ (g : ShuffleFileFormat). Wrapper.freeze g.content) (generated c blocks o sized fits)
        ∙ Composed.freeze-from (payloads blocks) (payload_len blocks) in
      (
        ap (λ (r : _ × _). r.1) same,
        ap (λ (r : LocalFileStore D × _). r.0.partition_locks) same,
        ap (λ (r : LocalFileStore D × _). nth disk r.0.local_disks) same
            ∙ nth-set_nth disk d (with_index d uid blocks o) s.local_disks w.there,
        files.file-append_other (with_data d uid blocks o) (index_file_path uid) format.index p
              (paths_differ_back uid)
            ∙ (files.file-append d p format.content f.data_appended
                ∙ (ap (λ l. files.file d p ++ l) made
                    ∙ (ap (λ l. l ++ concat (payloads blocks)) w.data_file
                        ∙ sym (concat-payloads_append old blocks)))),
      )
