-- ===== src/LocalFile/Written.antt =====
-- The writes of src/store/localfile.rs to a partition that has its lock: its offset, its data and its
-- index.
use r.Base.{
  subst, bytes_eq, ℕ, zero, suc, ◌+◌, ◌<◌, ◌^◌, ◌≡◌, refl, ap, sym, ◌∙◌, true, some, List, [], ◌∷◌,
  ◌++◌, concat, arith, beq_refl, inl, inr,
}
use r.Base.Int.{ℤ, pos}
use r.Base.Map
use r.Error.{ok, Outcome-cases}
use r.Store.Blocks.{Block, AreSized, payload_len, payloads}
use r.Store.Format.{Codec}
use r.Store.Index.{index_bytes}
use r.Memory.{PartitionedUId}
use r.LocalFile.{Disk, LocalFileStore, LockedObj, nth, set_nth}
use r.LocalFile.Paths.{data_file_path, index_file_path}
use r.LocalFile.Inserting.{
  append_files, write_files, create_parent, insert_locked, data_insert, with_disk,
}
use r.LocalFile.Files.{
  Files, append_files-IsAppended, payload_len-append, concat-payloads_append, index_bytes-append,
}

pub nth-set_nth {ℓ} :
    {A : Type ℓ} (i : ℕ) (x y : A) (xs : List A)
    → nth i xs ≡ some x
    → nth i (set_nth i y xs) ≡ some y
nth-set_nth i x y [] e = ground arith
nth-set_nth zero x y (z ∷ xs) e = refl
nth-set_nth (suc i) x y (z ∷ xs) e = nth-set_nth i x y xs e

module _ (D : Disk) (c : Codec) (files : Files D) where
  -- The files of a partition hold some blocks from their beginning on, on its disk, and its offset is
  -- their length.
  pub record IsWritten (s : LocalFileStore D) (uid : PartitionedUId) (disk : ℕ) (d : D.State)
      (blocks : List Block) : Type 0 where
    pub locked :
        Map.get (data_file_path uid) s.partition_locks
        ≡ some (record { disk = disk; pointer = pos (payload_len blocks) })
    pub there : nth disk s.local_disks ≡ some d
    pub data_file : files.file d (data_file_path uid) ≡ concat (payloads blocks)
    pub index_file : files.file d (index_file_path uid) ≡ index_bytes c 0 blocks

  -- A write to the locked partition that succeeds went through to both files.
  insert_locked-ok :
      (s : LocalFileStore D) (uid : PartitionedUId) (blocks : List Block) (obj : LockedObj)
      (d : D.State)
      → nth obj.disk s.local_disks ≡ some d
      → (insert_locked D c s uid blocks obj true).1 ≡ ok tt
      → (offset : ℤ) × ((append_files D c d uid blocks obj.pointer).1 ≡ ok offset)
        × ((insert_locked D c s uid blocks obj true).0
            ≡ record (with_disk D c s obj.disk (append_files D c d uid blocks obj.pointer).0) {
              partition_locks =
                  Map.insert
                    (data_file_path uid)
                    (record obj { pointer = offset })
                    s.partition_locks;
            })
  unfolding insert_locked write_files create_parent
  insert_locked-ok s uid blocks obj d there e =
      elim (Outcome-cases (append_files D c d uid blocks obj.pointer).1) [
        | inl (offset, a) ↦ (offset, a, ground arith)
        | inr (inl (x, a)) ↦ absurd (ground arith)
        | inr (inr a) ↦ absurd (ground arith)
      ]

  -- Over a disk that appends to the file that is named and leaves the others alone: if a partition's
  -- files hold some blocks and its offset is their length, then after an insert that succeeds of
  -- blocks whose lengths are those of their bytes, below 2^63 together, they hold those blocks as
  -- well, data and index, and the offset is the length of both.
  pub data_insert-IsWritten :
      (get_hash : PartitionedUId → ℕ) (s : LocalFileStore D) (uid : PartitionedUId) (disk : ℕ)
      (d : D.State) (old blocks : List Block)
      → IsWritten s uid disk d old
      → AreSized blocks
      → payload_len old + payload_len blocks < 2 ^ 63
      → (data_insert D c get_hash s uid blocks).1 ≡ ok tt
      → (d' : D.State) × IsWritten
          (data_insert D c get_hash s uid blocks).0
          uid
          disk
          d'
          (old ++ blocks)
  unfolding data_insert
  data_insert-IsWritten get_hash s uid disk d old blocks w sized fits e =
      let obj : LockedObj = record { disk = disk; pointer = pos (payload_len old) } in
      let same : data_insert D c get_hash s uid blocks ≡ insert_locked D c s uid blocks obj true =
        rw (data_insert, w.locked) refl in
      let (offset, a, to) =
        insert_locked-ok s uid blocks obj d w.there (ap (λ (r : _ × _). r.1) (sym same) ∙ e) in
      let (at, appended) =
        append_files-IsAppended D c files d uid blocks (payload_len old) offset sized fits a in
      let p = data_file_path uid in
      let d' = (append_files D c d uid blocks obj.pointer).0 in
      let written : IsWritten
          (record (with_disk D c s disk d') {
            partition_locks = Map.insert p (record obj { pointer = offset }) s.partition_locks;
          })
          uid disk d' (old ++ blocks) =
        record {
          locked = rw (Map.get-insert p p (record obj { pointer = offset }) s.partition_locks) (
              rw (beq_refl p) (
                ap (λ n. some (record { disk = disk; pointer = n }))
                  (at ∙ ap pos (sym (payload_len-append old blocks)))));
          there = nth-set_nth disk d d' s.local_disks w.there;
          data_file =
              appended.data_file
              ∙ (ap (λ l. l ++ concat (payloads blocks)) w.data_file
                  ∙ sym (concat-payloads_append old blocks));
          index_file =
              appended.index_file
              ∙ (ap (λ l. l ++ index_bytes c (payload_len old) blocks) w.index_file
                  ∙ (ap (λ n. index_bytes c 0 old ++ index_bytes c n blocks) (omega arith)
                      ∙ sym (index_bytes-append c 0 old blocks)));
        } in
      (
        d',
        subst (λ k. IsWritten k uid disk d' (old ++ blocks))
            (sym (ap (λ (r : _ × _). r.0) same ∙ to)) written,
      )
