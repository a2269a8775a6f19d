-- ===== src/Hdfs/Permits.antt =====
-- src/store/hdfs.rs: the permits that an insert takes and gives back.
use r.Base.{
  true, not, Option-cases, ap, sym, ◌∙◌, subst, bytes_eq, ℕ, suc, ◌≡◌, ◌⊎◌, refl, some, List, ◌∷◌,
  Bytes, ◌==◌, if◌then◌else◌, arith, Bool-cases, inl, inr,
}
use mathlib.Core.Option.{some-injective}
use r.Base.Int.{ℤ}
use r.Base.Map
use r.Error.{Outcome, ok, err, hdfs_unhealthy}
use r.Store.Blocks.{Block}
use r.Store.Format.{Codec}
use r.SemaphoreWithIndex
use r.SemaphoreWithIndex.{SemaphoreWithIndex}
use r.Memory.{PartitionedUId}
use r.Hdfs.{HdfsDelegator, HdfsStore}
use r.Hdfs.Paths.{get_file_path_prefix_by_uid, with_number}
use r.Hdfs.Inserting.{
  write_blocks, finish_write, start_retry, insert_with_index, insert_with_permit, data_insert,
  lock_of, with_lock,
}

-- A semaphore with a permit and an index to give.
pub record IsFree (l : SemaphoreWithIndex) : Type 0 where
  pub left : ℕ
  pub internal : l.internal ≡ suc left
  pub first : ℕ
  pub others : List ℕ
  pub indices : l.index_container ≡ first ∷ others

-- The semaphore while the permit is held.
abbrev taken : (l : SemaphoreWithIndex) → IsFree l → SemaphoreWithIndex
taken l f = record l { internal = f.left; index_container = f.others }

acquire_internal-IsFree :
    (l : SemaphoreWithIndex) (f : IsFree l)
    → SemaphoreWithIndex.acquire_internal l ≡ some (record l { internal = f.left })
unfolding SemaphoreWithIndex.acquire_internal
acquire_internal-IsFree l f = ground (arith, f.internal)

pop_index-IsFree :
    (l : SemaphoreWithIndex) (f : IsFree l)
    → SemaphoreWithIndex.pop_index (record l { internal = f.left }) ≡ ok (taken l f, f.first)
unfolding SemaphoreWithIndex.pop_index
pop_index-IsFree l f = ground (arith, f.indices)

dropped-IsFree :
    (l : SemaphoreWithIndex) (f : IsFree l)
    → IsFree
        (SemaphoreWithIndex.release_internal (SemaphoreWithIndex.push_index (taken l f) f.first))
unfolding SemaphoreWithIndex.release_internal SemaphoreWithIndex.push_index
dropped-IsFree l f = record {
  left = f.left;
  internal = omega arith;
  first = f.first;
  others = f.others;
  indices = refl;
}

module _ (D : HdfsDelegator) (c : Codec) where
  -- A store whose locks are all free, and that makes free ones.
  pub record IsResting (s : HdfsStore D) : Type 0 where
    pub concurrency : ℕ
    pub positive : s.partition_write_concurrency ≡ suc concurrency
    pub free :
        (key : Bytes) (l : SemaphoreWithIndex)
        → Map.get key s.partition_file_locks ≡ some l
        → IsFree l

  write_blocks-locks :
      (s : HdfsStore D) (a : D.Client) (prefix : Bytes) (blocks : List Block) (o : ℤ) (n : ℕ)
      → ((write_blocks D c s a prefix blocks o n).0.partition_file_locks ≡ s.partition_file_locks)
        × ((write_blocks D c s a prefix blocks o n).0.partition_write_concurrency
            ≡ s.partition_write_concurrency)
  unfolding write_blocks finish_write start_retry
  write_blocks-locks s a prefix blocks o n = ground arith

  insert_with_index-locks :
      (s : HdfsStore D) (app_id prefix : Bytes) (blocks : List Block)
      → ((insert_with_index D c s app_id blocks prefix).0.partition_file_locks
          ≡ s.partition_file_locks)
        × ((insert_with_index D c s app_id blocks prefix).0.partition_write_concurrency
            ≡ s.partition_write_concurrency)
  unfolding insert_with_index
  insert_with_index-locks s app_id prefix blocks = grind (arith, write_blocks-locks)

  lock_of-IsFree : (s : HdfsStore D) (path : Bytes) → IsResting s → IsFree (lock_of D c s path)
  unfolding SemaphoreWithIndex.new SemaphoreWithIndex.indices_from
  lock_of-IsFree s path r = elim (Option-cases (Map.get path s.partition_file_locks)) [
    | inl e ↦
        rw (lock_of, e)
          (subst (λ n. IsFree (SemaphoreWithIndex.new n)) (sym r.positive)
            (record {
              left = r.concurrency;
              internal = refl;
              first = 0;
              others = SemaphoreWithIndex.indices_from 1 r.concurrency;
              indices = refl;
            }))
    | inr (l, e) ↦ rw (lock_of, e) (r.free path l e)
  ]

  -- The rest of an insert with the permit, and the store after the permit is dropped.
  abbrev inserted :
      HdfsStore D
      → Bytes
      → PartitionedUId
      → List Block
      → (l : SemaphoreWithIndex) → IsFree l
      → HdfsStore D × Outcome (Unit {0})
  inserted s path uid blocks l f =
      insert_with_index D c (with_lock D c s path (taken l f)) uid.app_id blocks
        (with_number path f.first)

  abbrev settled :
      HdfsStore D
      → Bytes
      → PartitionedUId
      → List Block
      → (l : SemaphoreWithIndex) → IsFree l
      → HdfsStore D
  settled s path uid blocks l f =
      with_lock D c (inserted s path uid blocks l f).0 path
        (SemaphoreWithIndex.release_internal (SemaphoreWithIndex.push_index (taken l f) f.first))

  insert_with_permit_lem :
      (s : HdfsStore D) (worker_id : Bytes) (uid : PartitionedUId) (blocks : List Block)
      (f : IsFree (lock_of D c s (get_file_path_prefix_by_uid worker_id uid)))
      → (let path = get_file_path_prefix_by_uid worker_id uid in
          let l = lock_of D c s path in
          insert_with_permit D c worker_id s uid blocks
          ≡ some (settled s path uid blocks l f, (inserted s path uid blocks l f).1))
  unfolding insert_with_permit
  insert_with_permit_lem s worker_id uid blocks f =
      let l = lock_of D c s (get_file_path_prefix_by_uid worker_id uid) in
      rw (insert_with_permit, acquire_internal-IsFree l f)
        (rw (insert_with_permit, pop_index-IsFree l f) refl)

  settled-IsResting :
      (s : HdfsStore D) (path : Bytes) (uid : PartitionedUId) (blocks : List Block)
      (l : SemaphoreWithIndex) (f : IsFree l)
      → IsResting s
      → IsResting (settled s path uid blocks l f)
  settled-IsResting s path uid blocks l f r =
      let dropped =
        SemaphoreWithIndex.release_internal (SemaphoreWithIndex.push_index (taken l f) f.first) in
      let s1 = with_lock D c s path (taken l f) in
      let (locks, writers) =
        insert_with_index-locks s1 uid.app_id (with_number path f.first) blocks in
      let now = settled s path uid blocks l f in
      let get_lock : (key : Bytes)
          → Map.get key now.partition_file_locks
            ≡ (if path == key then some dropped else Map.get key s.partition_file_locks) =
        λ key.
          Map.get-insert path key dropped (inserted s path uid blocks l f).0.partition_file_locks
          ∙ (ap (λ m. if path == key then some dropped else Map.get key m) locks
              ∙ ground (arith, Map.get-insert path key (taken l f) s.partition_file_locks)) in
      record {
        concurrency = r.concurrency;
        positive = writers ∙ r.positive;
        free = λ key l' e. elim (Bool-cases (path == key)) [
          | inl hit ↦
              let at : some l' ≡ some dropped = sym e ∙ rw hit at (get_lock key) in
              subst IsFree (sym (some-injective l' dropped at)) (dropped-IsFree l f)
          | inr miss ↦ r.free key l' (sym (rw miss at (get_lock key)) ∙ e)
        ];
      }

  data_insert-healthy :
      (s : HdfsStore D) (worker_id : Bytes) (uid : PartitionedUId) (blocks : List Block)
      → s.health ≡ true
      → (f : IsFree (lock_of D c s (get_file_path_prefix_by_uid worker_id uid)))
      → (let path = get_file_path_prefix_by_uid worker_id uid in
          let l = lock_of D c s path in
          data_insert D c worker_id s uid blocks
          ≡ some (settled s path uid blocks l f, (inserted s path uid blocks l f).1))
  unfolding data_insert
  data_insert-healthy s worker_id uid blocks healthy f =
      ap
        (λ b.
          if not b
          then some (s, err hdfs_unhealthy)
          else insert_with_permit D c worker_id s uid blocks)
        healthy
      ∙ insert_with_permit_lem s worker_id uid blocks f

  -- An insert answers that the store is unhealthy, or what an insert with an index answers.
  pub data_insert-cases :
      (s : HdfsStore D) (worker_id : Bytes) (uid : PartitionedUId) (blocks : List Block)
      → IsResting s
      → (data_insert D c worker_id s uid blocks ≡ some (s, err hdfs_unhealthy))
        ⊎ ((s1 : HdfsStore D) × (prefix : Bytes) × (s2 : HdfsStore D) × (data_insert D c worker_id s
                uid blocks
              ≡ some (s2, (insert_with_index D c s1 uid.app_id blocks prefix).1)))
  unfolding data_insert
  data_insert-cases s worker_id uid blocks r = elim (Bool-cases s.health) [
    | inl healthy ↦ inr (
      _,
      _,
      _,
      data_insert-healthy s worker_id uid blocks healthy
          (lock_of-IsFree s (get_file_path_prefix_by_uid worker_id uid) r),
    )
    | inr sick ↦ inl (rw (data_insert, sick) refl)
  ]

  -- If each lock has a permit left and an index for it, and the configured number of writers is above
  -- zero, then an insert does not wait: it answers, and each lock has a permit left again.
  pub data_insert-IsResting :
      (s : HdfsStore D) (worker_id : Bytes) (uid : PartitionedUId) (blocks : List Block)
      → IsResting s
      → (r : HdfsStore D × Outcome (Unit {0})) × (data_insert D c worker_id s uid blocks ≡ some r)
        × IsResting r.0
  unfolding data_insert
  data_insert-IsResting s worker_id uid blocks r = elim (Bool-cases s.health) [
    | inl healthy ↦
        let path = get_file_path_prefix_by_uid worker_id uid in
        let l = lock_of D c s path in
        let f = lock_of-IsFree s path r in
        (
          (settled s path uid blocks l f, (inserted s path uid blocks l f).1),
          data_insert-healthy s worker_id uid blocks healthy f,
          settled-IsResting s path uid blocks l f r,
        )
    | inr sick ↦ ((s, err hdfs_unhealthy), rw (data_insert, sick) refl, r)
  ]
