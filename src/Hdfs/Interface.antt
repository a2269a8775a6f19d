-- ===== src/Hdfs/Interface.antt =====
-- The HDFS store of src/store/hdfs.rs as a persistent store of the hybrid store. Its states are those
-- between calls, in which each lock has a permit left, so that an insert does not wait.
use r.Base.{
  ◌≡◌, ◌≢◌, refl, ap, sym, ◌∙◌, inr, inl, [], ◌∷◌, Option, none, some, Bytes, List, concat, arith,
  bytes_eq, Option-cases,
}
use mathlib.Core.Option.{some-injective}
use r.Base.Int.{ℤ, pos}
use r.Base.Map
use r.Error.{Outcome, WorkerError, ok, err, panic}
use r.Config
use r.Store.Blocks.{Block}
use r.Store.Format.{Codec}
use r.Store.Wrapper.{BytesWrapper}
use r.SemaphoreWithIndex.{SemaphoreWithIndex}
use r.Buffer.{BatchMemoryBlock}
use r.Memory.{PartitionedUId}
use r.Persistent.{PersistentStore, IsLawful}
use r.LocalFile.Inserting.{sort_by_task}
use r.Hdfs
use r.Hdfs.{
  HdfsDelegator, HdfsStore, purge, remove_keys, remove_metas, removed_client, keys_to_delete,
  delete_remote, purged_dir,
}
use r.Hdfs.Inserting.{
  then_do, touch_files, create_files, write_data_and_index, start_retry, finish_write, write_blocks,
  insert_with_index, data_insert,
}
use r.Hdfs.Permits.{data_insert-cases, IsResting, data_insert-IsResting}

-- Clients whose calls do not panic.
pub record Responds (D : HdfsDelegator) : Type 0 where
  pub touch-returns : (a : D.Client) (r : D.State) (p : Bytes) → (D.touch a r p).1 ≢ panic
  pub append-returns :
      (a : D.Client) (r : D.State) (p : Bytes) (w : BytesWrapper) → (D.append a r p w).1 ≢ panic
  pub create_dir-returns : (a : D.Client) (r : D.State) (p : Bytes) → (D.create_dir a r p).1 ≢ panic

then_do-returns {ℓ} :
    {S : Type ℓ} (x : S × Outcome (Unit {0})) (f : S → S × Outcome (Unit {0}))
    → x.1 ≢ panic
    → ((s : S) → (f s).1 ≢ panic)
    → (then_do x f).1 ≢ panic
then_do-returns (s, ok done) f first second = second s
then_do-returns (s, err e) f first second = λ h. absurd (ground (arith, h))
then_do-returns (s, panic) f first second = λ h. first refl

module _ (D : HdfsDelegator) (c : Codec) where
  module _ (clients : Responds D) where
    touch_files-returns :
        (a : D.Client) (r : D.State) (prefix : Bytes) (n : _)
        → (touch_files D c a r prefix n).1 ≢ panic
    unfolding touch_files
    touch_files-returns a r prefix n =
        then_do-returns _ _ (clients.touch-returns a r _) λ k. clients.touch-returns a k _

    create_files-returns :
        (a : D.Client) (r : D.State) (prefix : Bytes) → (create_files D c a r prefix).1 ≢ panic
    unfolding create_files
    create_files-returns a r prefix =
        then_do-returns _ _ (clients.create_dir-returns a r _) λ k. touch_files-returns a k prefix 0

    write_data_and_index-returns :
        (a : D.Client) (r : D.State) (p q : Bytes) (v w : BytesWrapper)
        → (write_data_and_index D c a r p v q w).1 ≢ panic
    unfolding write_data_and_index
    write_data_and_index-returns a r p q v w =
        then_do-returns _ _ (clients.append-returns a r p v) λ k. clients.append-returns a k q w

    start_retry-returns :
        (s : HdfsStore D) (a : D.Client) (prefix : Bytes) (e : WorkerError)
        → (start_retry D c s a prefix e).1 ≢ panic
    unfolding start_retry
    start_retry-returns s a prefix e = grind (arith, touch_files-returns)

    write_blocks-returns :
        (s : HdfsStore D) (a : D.Client) (prefix : Bytes) (blocks : List Block) (o : ℤ) (n : _)
        → (write_blocks D c s a prefix blocks o n).1 ≢ panic
    unfolding write_blocks finish_write
    write_blocks-returns s a prefix blocks o n =
        grind (arith, write_data_and_index-returns, start_retry-returns)

    insert_with_index-returns :
        (s : HdfsStore D) (app_id prefix : Bytes) (blocks : List Block)
        → (insert_with_index D c s app_id blocks prefix).1 ≢ panic
    unfolding insert_with_index
    insert_with_index-returns s app_id prefix blocks =
        grind (arith, create_files-returns, write_blocks-returns)

    data_insert-returns :
        (s : HdfsStore D) (worker_id : Bytes) (uid : PartitionedUId) (blocks : List Block)
        (r : HdfsStore D × Outcome (Unit {0}))
        → IsResting D c s
        → data_insert D c worker_id s uid blocks ≡ some r
        → r.1 ≢ panic
    data_insert-returns s worker_id uid blocks r rests done =
        elim (data_insert-cases D c s worker_id uid blocks rests) [
          | inl sick ↦
              let same = some-injective _ _ (sym done ∙ sick) in
              λ h. absurd (ground (arith, sym (ap (λ (x : HdfsStore D × _). x.1) same) ∙ h))
          | inr (s1, prefix, s2, answered) ↦
              let same = some-injective _ _ (sym done ∙ answered) in
              λ h.
                insert_with_index-returns s1 uid.app_id prefix blocks
                  (sym (ap (λ (x : HdfsStore D × _). x.1) same) ∙ h)
        ]

  -- A purge only removes locks.
  get-remove_keys :
      (key : Bytes) (l : SemaphoreWithIndex) (keys : List Bytes) (s : HdfsStore D) (size : ℤ)
      → Map.get key (remove_keys D keys s size).0.partition_file_locks ≡ some l
      → Map.get key s.partition_file_locks ≡ some l
  unfolding remove_keys
  get-remove_keys key l [] s size e = e
  get-remove_keys key l (k ∷ keys) s size e =
      let kept = get-remove_keys key l keys _ _ e in
      ground (arith, Map.get-remove k key s.partition_file_locks, kept)

  remove_keys-concurrency :
      (keys : List Bytes) (s : HdfsStore D) (size : ℤ)
      → (remove_keys D keys s size).0.partition_write_concurrency ≡ s.partition_write_concurrency
  unfolding remove_keys
  remove_keys-concurrency [] s size = refl
  remove_keys-concurrency (k ∷ keys) s size = remove_keys-concurrency keys _ _

  delete_remote-IsResting :
      (s : HdfsStore D) (a : D.Client) (dir : Bytes) (keys : List Bytes)
      → IsResting D c s
      → IsResting D c (delete_remote D s a dir keys).0
  unfolding delete_remote
  delete_remote-IsResting s a dir [] r = r
  delete_remote-IsResting s a dir (k ∷ keys) r = record {
    concurrency = r.concurrency;
    positive = r.positive;
    free = r.free;
  }

  remove_keys-IsResting :
      (keys : List Bytes) (s : HdfsStore D) (app_id : Bytes) (shuffle_id : Option ℤ) (size : ℤ)
      → IsResting D c s
      → IsResting D c (remove_keys D keys (removed_client D s app_id shuffle_id) size).0
  unfolding removed_client
  remove_keys-IsResting keys s app_id none size r = record {
    concurrency = r.concurrency;
    positive = remove_keys-concurrency keys (removed_client D s app_id none) size ∙ r.positive;
    free = λ key l e.
        r.free key l (get-remove_keys key l keys (removed_client D s app_id none) size e);
  }
  remove_keys-IsResting keys s app_id (some shuffle_id) size r = record {
    concurrency = r.concurrency;
    positive = remove_keys-concurrency keys s size ∙ r.positive;
    free = λ key l e. r.free key l (get-remove_keys key l keys s size e);
  }

  pub purge-IsResting :
      (s : HdfsStore D) (app_id : Bytes) (shuffle_id : Option ℤ)
      → IsResting D c s
      → IsResting D c (purge D s app_id shuffle_id).0
  unfolding purge
  purge-IsResting s app_id shuffle_id r =
      elim (Option-cases (Map.get app_id s.app_remote_clients)) [
        | inl gone ↦ rw (purge, gone) r
        | inr (a, client) ↦
            rw (purge, client)
              (delete_remote-IsResting _ a _ _ (
                remove_keys-IsResting
                  (keys_to_delete D (purged_dir D app_id shuffle_id) s.partition_file_locks) s
                  app_id shuffle_id (pos 0) r))
      ]

  -- A store between calls.
  pub record AtRest : Type 0 where
    pub store : HdfsStore D
    pub rests : IsResting D c store

  -- The insert of a spill, which has an answer.
  unfoldable pub spill_insert :
      Bytes → AtRest → PartitionedUId → BatchMemoryBlock → AtRest × Outcome (Unit {0})
  unfolding sort_by_task
  spill_insert worker_id s uid data_blocks =
      let (r, done, rests) =
        data_insert-IsResting D c s.store worker_id uid (sort_by_task (concat data_blocks))
          s.rests in
      (record { store = r.0; rests = rests }, r.1)

  unfoldable pub hdfs_store : Bytes → PersistentStore
  unfolding spill_insert Hdfs.get Hdfs.get_index
  hdfs_store worker_id = record {
    State = AtRest;
    name = λ s. Config.hdfs;
    is_healthy = λ s. ok s.store.health;
    spill_insert = spill_insert worker_id;
    get = λ s. Hdfs.get D s.store;
    get_index = λ s. Hdfs.get_index D s.store;
    purge = λ s app_id shuffle_id. (
      record {
        store = (purge D s.store app_id shuffle_id).0;
        rests = purge-IsResting s.store app_id shuffle_id s.rests;
      },
      (purge D s.store app_id shuffle_id).1,
    );
  }

  pub hdfs_store-IsLawful : Responds D → (worker_id : Bytes) → IsLawful (hdfs_store worker_id)
  unfolding hdfs_store
  hdfs_store-IsLawful clients worker_id = record {
    name-cases = λ s. inr refl;
    is_healthy-returns = λ s e. cc;
    spill_insert-returns = λ s uid blocks.
        let (r, done, rests) =
          data_insert-IsResting D c s.store worker_id uid (sort_by_task (concat blocks)) s.rests in
        data_insert-returns clients s.store worker_id uid (sort_by_task (concat blocks)) r s.rests
          done;
  }
