-- ===== src/LocalFile/Purging.antt =====
-- Which locks a purge of src/store/localfile.rs removes: it tests the key of a lock for the relative
-- directory as a prefix, without the slash that ends a directory's name.
use r.Base.{
  ℕ, ◌+◌, some, subst, bytes_eq, bytes_beq_iff, ◌≡◌, refl, Option, none, [], ◌∷◌, ◌++◌, Bytes, true,
  if◌then◌else◌, arith, beq_refl, sym, nat_eq,
}
use r.Base.Int.{ℤ}
use r.Base.Machine.{pattern64}
use r.Base.Map
use r.Base.Map.{Map}
use r.Error.{ok}
use r.Memory.{PartitionedUId}
use r.LocalFile.{Disk, LocalFileStore, LockedObj, purge, remove_locks, purged_path}
use r.LocalFile.Paths.{below, data_suffix, data_file_path, starts_with, gen_relative_path_for_app}

starts_with-append : (p x y z : Bytes) → starts_with (((p ++ x) ++ y) ++ z) p ≡ true
unfolding starts_with
starts_with-append [] x y z = refl
starts_with-append (b ∷ p) x y z = rw (beq_refl b) (starts_with-append p x y z)

module _ (D : Disk) where
  get-remove_locks :
      (prefix key : Bytes) (locks : Map Bytes LockedObj)
      → Map.get key (remove_locks D prefix locks)
        ≡ (if starts_with key prefix then none else Map.get key locks)
  unfolding remove_locks Map.get
  get-remove_locks prefix key [] = ground arith
  get-remove_locks prefix key ((k, obj) ∷ locks) =
      ground (arith, get-remove_locks prefix key locks, bytes_beq_iff k key)

  -- The offsets of some locks, added up as 64-bit patterns.
  abbrev pub offsets : Map Bytes LockedObj → ℕ
  offsets [] = 0
  offsets ((key, obj) ∷ locks) = pattern64 obj.pointer + offsets locks

  -- A disk after a directory is deleted from it.
  abbrev pub Deleted : Bytes → D.State → Option D.State → Type 0
  Deleted path d after = (after ≡ some (D.delete d path).0) × ((D.delete d path).1 ≡ ok tt)

  -- The locks alone.
  get-purge_lock :
      (s : LocalFileStore D) (app_id : Bytes) (shuffle_id : Option ℤ) (key : Bytes) (size : ℤ)
      → (purge D s app_id shuffle_id).1 ≡ ok size
      → Map.get key (purge D s app_id shuffle_id).0.partition_locks ≡ (
          if starts_with key (purged_path D app_id shuffle_id)
          then none
          else Map.get key s.partition_locks)
  unfolding purge
  get-purge_lock s app_id shuffle_id key size e =
      ground (arith, get-remove_locks (purged_path D app_id shuffle_id) key s.partition_locks)

  -- A purge of an application that succeeds drops the locks, and with them the offsets, of each
  -- partition whose application's id begins with that of the purged one, also of another application.
  pub get-purge_prefix :
      (s : LocalFileStore D) (app_id more : Bytes) (uid : PartitionedUId) (size : ℤ)
      → uid.app_id ≡ app_id ++ more
      → (purge D s app_id none).1 ≡ ok size
      → Map.get (data_file_path uid) (purge D s app_id none).0.partition_locks ≡ none
  unfolding data_file_path purged_path gen_relative_path_for_app
  get-purge_prefix s app_id more uid size e done =
      let hit : starts_with (data_file_path uid) app_id ≡ true =
        subst (λ (a : Bytes). starts_with ((a ++ below uid) ++ data_suffix) app_id ≡ true) (sym e)
          (starts_with-append app_id more (below uid) data_suffix) in
      rw hit at (get-purge_lock s app_id none (data_file_path uid) size done)
