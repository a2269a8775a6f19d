-- ===== src/LocalFile/Checking.antt =====
-- What the periodic check of src/store/local/delegator.rs means for the local file store over it.
use r.Base.{
  nat_eq, bytes_eq, subst, ℕ, true, false, ◌≡◌, ◌≢◌, refl, ap, sym, ◌∙◌, some, none, Bytes, ◌==◌,
  if◌then◌else◌, arith, inl, inr,
}
use r.Base.Int.{ℤ, pos, int_eq}
use r.Base.Map
use r.Error.{Outcome, ok, err, panic, local_disk_owned_by_partition_corrupted, Outcome-cases}
use r.Memory.{PartitionedUId}
use r.Persistent.{file_offset_and_len}
use r.LocalFile.{Disk, LocalFileStore, LockedObj, get, nth, set_nth}
use r.LocalFile.Paths.{data_file_path}
use r.LocalFile.Written.{nth-set_nth}
use r.LocalFile.Delegator.{
  LocalIo, LocalDiskDelegator, delegated_disk, check_round, check_files, capacity_check, temp_path,
  written_data,
}

-- A read of a partition on a corrupted disk.
get-corrupted :
    (D : Disk) (s : LocalFileStore D) (uid : PartitionedUId) (obj : LockedObj) (d : D.State)
    (offset len : ℤ)
    → Map.get (data_file_path uid) s.partition_locks ≡ some obj
    → nth obj.disk s.local_disks ≡ some d
    → D.is_corrupted d ≡ true
    → (len == pos 0) ≡ false
    → get D s uid (file_offset_and_len offset len)
      ≡ err (local_disk_owned_by_partition_corrupted (D.root d))
unfolding get
get-corrupted D s uid obj d offset len locked there corrupted some_len =
    ground (arith, locked, there, corrupted, some_len)

module _ (Io : LocalIo) where
  -- The file of the check, written anew, is not read back as it was written.
  pub record IsDamaged (io : Io.State) : Type 0 where
    pub deleted : (Io.delete io temp_path).1 ≡ ok tt
    pub written : (Io.write (Io.delete io temp_path).0 temp_path written_data).1 ≡ ok tt
    pub read_data : Bytes
    pub read_back :
        Io.read
          (Io.write (Io.delete io temp_path).0 temp_path written_data).0
          temp_path
          (pos 0)
          none
        ≡ ok read_data
    pub differs : (written_data == read_data) ≡ false

  check_files-IsDamaged :
      (d : LocalDiskDelegator Io)
      → IsDamaged d.io_handler
      → ((check_files Io d).1 ≡ ok tt)
        × ((check_files Io d).0.is_corrupted ≡ true)
        × ((check_files Io d).0.root ≡ d.root)
  unfolding check_files
  check_files-IsDamaged d b = ground (arith, b.deleted, b.written, b.read_back, b.differs)

  -- The check of the capacity leaves the rest of the disk alone.
  capacity_check-keeps :
      (d : LocalDiskDelegator Io) (capacity available : Outcome ℕ)
      → ((capacity_check Io d capacity available).0.io_handler ≡ d.io_handler)
        × ((capacity_check Io d capacity available).0.is_corrupted ≡ d.is_corrupted)
        × ((capacity_check Io d capacity available).0.root ≡ d.root)
  unfolding capacity_check
  capacity_check-keeps d (ok capacity) (ok available) = ground arith
  capacity_check-keeps d (ok capacity) (err e) = (refl, refl, refl)
  capacity_check-keeps d (ok capacity) panic = (refl, refl, refl)
  capacity_check-keeps d (err e) available = (refl, refl, refl)
  capacity_check-keeps d panic available = (refl, refl, refl)

  check_round-checked :
      (d : LocalDiskDelegator Io) (capacity available : Outcome ℕ)
      → d.is_corrupted ≡ false
      → (capacity_check Io d capacity available).1 ≢ panic
      → check_round Io d capacity available
        ≡ check_files Io (capacity_check Io d capacity available).0
  unfolding check_round
  check_round-checked d capacity available intact returns =
      let (d1, answer) = capacity_check Io d capacity available in
      ap
        (λ b.
          if b
          then (d, ok tt)
          else elim answer as (λ x. LocalDiskDelegator Io × Outcome (Unit {0})) [
            | ok done ↦ check_files Io d1
            | err e ↦ check_files Io d1
            | panic ↦ (d1, panic)
          ])
        intact
      ∙ elim (Outcome-cases answer) [
        | inl (u, e) ↦ rw e refl
        | inr (inl (x, e)) ↦ rw e refl
        | inr (inr e) ↦ absurd (returns e)
      ]

  check_round-IsDamaged :
      (d : LocalDiskDelegator Io) (capacity available : Outcome ℕ)
      → d.is_corrupted ≡ false
      → (capacity_check Io d capacity available).1 ≢ panic
      → IsDamaged d.io_handler
      → ((check_round Io d capacity available).0.is_corrupted ≡ true)
        × ((check_round Io d capacity available).0.root ≡ d.root)
  check_round-IsDamaged d capacity available intact returns b =
      let d1 = (capacity_check Io d capacity available).0 in
      let (io, kept, root) = capacity_check-keeps d capacity available in
      let same = check_round-checked d capacity available intact returns in
      let (done, marked, root') = check_files-IsDamaged d1 (subst IsDamaged (sym io) b) in
      (
        ap (λ (x : LocalDiskDelegator Io × _). x.0.is_corrupted) same ∙ marked,
        ap (λ (x : LocalDiskDelegator Io × _). x.0.root) same ∙ (root' ∙ root),
      )

  -- If the file that the periodic check of a disk writes is not read back as it was written, and the
  -- check of the capacity does not panic, then after the round each read of data of a partition whose
  -- files are on the disk fails with the error of a corrupted disk.
  pub get-check_round :
      (s : LocalFileStore (delegated_disk Io)) (uid : PartitionedUId) (obj : LockedObj)
      (d : LocalDiskDelegator Io) (capacity available : Outcome ℕ) (offset len : ℤ)
      → Map.get (data_file_path uid) s.partition_locks ≡ some obj
      → nth obj.disk s.local_disks ≡ some d
      → d.is_corrupted ≡ false
      → (capacity_check Io d capacity available).1 ≢ panic
      → IsDamaged d.io_handler
      → (len == pos 0) ≡ false
      → get
          (delegated_disk Io)
          (record s {
            local_disks = set_nth obj.disk (check_round Io d capacity available).0 s.local_disks;
          })
          uid
          (file_offset_and_len offset len)
        ≡ err (local_disk_owned_by_partition_corrupted d.root)
  unfolding get
  get-check_round s uid obj d capacity available offset len locked there intact returns b some_len =
      let d' = (check_round Io d capacity available).0 in
      let (marked, root) = check_round-IsDamaged d capacity available intact returns b in
      let at : nth obj.disk (set_nth obj.disk d' s.local_disks) ≡ some d' =
        nth-set_nth obj.disk d d' s.local_disks there in
      let s' : LocalFileStore (delegated_disk Io) = record s {
        local_disks = set_nth obj.disk d' s.local_disks;
      } in
      get-corrupted (delegated_disk Io) s' uid obj d' offset len locked at marked some_len
      ∙ ap (λ r. err (local_disk_owned_by_partition_corrupted r)) root
