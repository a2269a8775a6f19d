-- ===== src/LocalFile/Interface.antt =====
-- The local file store of src/store/localfile.rs as the persistent store of the hybrid store.
use r.Base.{ℕ, ◌≢◌, refl, inl, true, false, Bool, Bytes, List, arith}
use r.Base.Int.{ℤ}
use r.Error.{ok, panic}
use r.Config
use r.Store.Blocks.{Block}
use r.Store.Format.{Codec}
use r.Store.Wrapper.{BytesWrapper}
use r.Memory.{PartitionedUId}
use r.Persistent.{PersistentStore, IsLawful}
use r.LocalFile
use r.LocalFile.{Disk, LocalFileStore, LockedObj, select_disk, healthy_check}
use r.LocalFile.Inserting.{
  append_files, write_files, create_parent, insert_locked, data_insert, spill_insert,
}

-- A disk whose writes do not panic.
pub record Returns (D : Disk) : Type 0 where
  pub append-returns : (d : D.State) (p : Bytes) (w : BytesWrapper) → (D.append d p w).1 ≢ panic
  pub create_dir-returns : (d : D.State) (p : Bytes) → (D.create_dir d p).1 ≢ panic

module _ (D : Disk) (c : Codec) where
  module _ (get_hash : PartitionedUId → ℕ) where
    unfoldable pub local_file_store : PersistentStore
    local_file_store = record {
      State = LocalFileStore D;
      name = λ s. Config.localfile;
      is_healthy = λ s. ok (healthy_check D s);
      spill_insert = spill_insert D c get_hash;
      get = LocalFile.get D;
      get_index = LocalFile.get_index D;
      purge = LocalFile.purge D;
    }

  module _ (disk : Returns D) where
    append_files-returns :
        (d : D.State) (uid : PartitionedUId) (blocks : List Block) (o : ℤ)
        → (append_files D c d uid blocks o).1 ≢ panic
    unfolding append_files
    append_files-returns d uid blocks o = grind (arith, disk.append-returns)

    write_files-returns :
        (d : D.State) (uid : PartitionedUId) (blocks : List Block) (o : ℤ) (created : Bool)
        → (write_files D c d uid blocks o created).1 ≢ panic
    unfolding write_files create_parent
    write_files-returns d uid blocks o true = append_files-returns d uid blocks o
    write_files-returns d uid blocks o false =
        grind (arith, disk.create_dir-returns, append_files-returns)

    insert_locked-returns :
        (s : LocalFileStore D) (uid : PartitionedUId) (blocks : List Block) (obj : LockedObj)
        (created : Bool)
        → (insert_locked D c s uid blocks obj created).1 ≢ panic
    unfolding insert_locked
    insert_locked-returns s uid blocks obj created = grind (arith, write_files-returns)

    select_disk-returns :
        (get_hash : PartitionedUId → ℕ) (s : LocalFileStore D) (uid : PartitionedUId)
        → select_disk D get_hash s uid ≢ panic
    unfolding select_disk
    select_disk-returns get_hash s uid = ground arith

    data_insert-returns :
        (get_hash : PartitionedUId → ℕ) (s : LocalFileStore D) (uid : PartitionedUId)
        (blocks : List Block)
        → (data_insert D c get_hash s uid blocks).1 ≢ panic
    unfolding data_insert
    data_insert-returns get_hash s uid blocks =
        grind (arith, insert_locked-returns, select_disk-returns)

    -- If the writes of a disk do not panic, then the local file store is a persistent store as the
    -- spill events need it: it is named after local files, and neither its health check nor the
    -- insert of a spill panics, whatever its locks and disks are.
    pub local_file_store-IsLawful :
        (get_hash : PartitionedUId → ℕ) → IsLawful (local_file_store get_hash)
    unfolding local_file_store spill_insert
    local_file_store-IsLawful get_hash = record {
      name-cases = λ s. inl refl;
      is_healthy-returns = λ s e. cc;
      spill_insert-returns = λ s uid blocks. data_insert-returns get_hash s uid _;
    }
