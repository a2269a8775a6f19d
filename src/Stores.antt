-- ===== src/Stores.antt =====
-- `Box<dyn PersistentStore>` of src/store/hybrid.rs: a store of local files or an HDFS store, as one
-- persistent store. A call goes to the store that is in the box.

mod Tests
use r.Base.{◌⊎◌, inl, inr, ◌≡◌, ◌≢◌, ap, Bool, Option, Bytes, ℕ}
use r.Base.Int.{ℤ}
use r.Error.{Outcome}
use r.Config.{StorageType}
use r.Store.Format.{Codec}
use r.Store.Wrapper.{ResponseData, LocalDataIndex}
use r.Buffer.{BatchMemoryBlock}
use r.Memory.{PartitionedUId}
use r.Persistent.{PersistentStore, IsLawful, ReadingOptions}
use r.LocalFile.Interface.{Returns, local_file_store, local_file_store-IsLawful}
use r.LocalFile.{Disk}
use r.Hdfs.{HdfsDelegator}
use r.Hdfs.Interface.{Responds, hdfs_store, hdfs_store-IsLawful}

-- The store after a change, back in its box.
abbrev left {ℓ} : {A B : Type 0} {C : Type ℓ} → A × C → (A ⊎ B) × C
left (a, c) = (inl a, c)

abbrev right {ℓ} : {A B : Type 0} {C : Type ℓ} → B × C → (A ⊎ B) × C
right (b, c) = (inr b, c)

module _ (P Q : PersistentStore) where
  abbrev boxed_spill_insert :
      P.State ⊎ Q.State
      → PartitionedUId
      → BatchMemoryBlock
      → (P.State ⊎ Q.State) × Outcome (Unit {0})
  boxed_spill_insert (inl s) uid blocks = left (P.spill_insert s uid blocks)
  boxed_spill_insert (inr s) uid blocks = right (Q.spill_insert s uid blocks)

  abbrev boxed_purge : P.State ⊎ Q.State → Bytes → Option ℤ → (P.State ⊎ Q.State) × Outcome ℤ
  boxed_purge (inl s) app_id shuffle_id = left (P.purge s app_id shuffle_id)
  boxed_purge (inr s) app_id shuffle_id = right (Q.purge s app_id shuffle_id)

  unfoldable pub boxed : PersistentStore
  boxed = record {
    State = P.State ⊎ Q.State;
    name = λ s. elim s [ inl p ↦ P.name p | inr q ↦ Q.name q ];
    is_healthy = λ s. elim s [ inl p ↦ P.is_healthy p | inr q ↦ Q.is_healthy q ];
    spill_insert = boxed_spill_insert;
    get = λ s. elim s [ inl p ↦ P.get p | inr q ↦ Q.get q ];
    get_index = λ s. elim s [ inl p ↦ P.get_index p | inr q ↦ Q.get_index q ];
    purge = boxed_purge;
  }

  boxed-IsLawful : IsLawful P → IsLawful Q → IsLawful boxed
  unfolding boxed
  boxed-IsLawful p q = record {
    name-cases = elim [ inl x ↦ p.name-cases x | inr y ↦ q.name-cases y ];
    is_healthy-returns = elim [ inl x ↦ p.is_healthy-returns x | inr y ↦ q.is_healthy-returns y ];
    spill_insert-returns = elim [
      | inl x ↦ p.spill_insert-returns x
      | inr y ↦ q.spill_insert-returns y
    ];
  }

-- If the writes of a disk and the calls of an HDFS client do not panic, then the stores of local files
-- and of HDFS are persistent stores as the spill events need them, in one box: named after local files
-- or HDFS, with a health check and an insert of a spill that answer without a panic. The states of the
-- HDFS store are those in which each lock has a permit left, which its inserts and purges keep.
pub persistent_stores-IsLawful :
    (D : Disk) (H : HdfsDelegator) (c : Codec) (get_hash : PartitionedUId → ℕ) (worker_id : Bytes)
    → Returns D
    → Responds H
    → IsLawful (boxed (local_file_store D c get_hash) (hdfs_store H c worker_id))
persistent_stores-IsLawful D H c get_hash worker_id disks clients =
    boxed-IsLawful (local_file_store D c get_hash) (hdfs_store H c worker_id)
      (local_file_store-IsLawful D c disks get_hash) (hdfs_store-IsLawful H c clients worker_id)
