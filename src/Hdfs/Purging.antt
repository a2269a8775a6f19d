-- ===== src/Hdfs/Purging.antt =====
-- src/store/hdfs.rs: which locks a purge removes. It tests the path of a lock for a directory with the
-- slash that ends its name.
use r.Base.{
  subst, ap, ◌∙◌, bytes_eq, nat_eq, bytes_beq_iff, ◌≡◌, refl, none, some, List, [], ◌∷◌, ◌++◌,
  Bytes, Bool, true, false, ◌||◌, ◌==◌, if◌then◌else◌, arith, Bool-cases, inl, inr, beq_refl,
}
use r.Base.Int.{ℤ, pos}
use r.Base.Map
use r.Base.Map.{Map}
use r.SemaphoreWithIndex.{SemaphoreWithIndex}
use r.Memory.{PartitionedUId}
use r.LocalFile.Paths.{starts_with, slash}
use r.Hdfs.{
  HdfsDelegator, HdfsStore, purge, purged_dir, keys_to_delete, remove_keys, removed_client,
  delete_remote,
}
use r.Hdfs.Paths.{get_app_dir, get_file_path_prefix_by_uid, contains, below}

abbrev has_key : Bytes → List Bytes → Bool
has_key key [] = false
has_key key (k ∷ keys) = (k == key) || has_key key keys

-- Of two names without a slash, the first with a slash and more begins with the second and a slash
-- just if they are equal.
starts_with-name :
    (a b more : Bytes)
    → contains 47 a ≡ false
    → contains 47 b ≡ false
    → starts_with (a ++ (47 ∷ more)) (b ++ slash) ≡ (a == b)
unfolding starts_with
starts_with-name [] [] more ha hb = refl
starts_with-name [] (y ∷ b) more ha hb = ground (arith, ha, hb)
starts_with-name (x ∷ a) [] more ha hb = ground (arith, ha, hb)
starts_with-name (x ∷ a) (y ∷ b) more ha hb = ground (arith, ha, hb, starts_with-name a b more)

module _ (D : HdfsDelegator) where
  get-remove_keys :
      (key : Bytes) (keys : List Bytes) (s : HdfsStore D) (size : ℤ)
      → Map.get key (remove_keys D keys s size).0.partition_file_locks
        ≡ (if has_key key keys then none else Map.get key s.partition_file_locks)
  unfolding remove_keys
  get-remove_keys key [] s size = refl
  get-remove_keys key (k ∷ keys) s size =
      get-remove_keys key keys _ _ ∙ ground (arith, Map.get-remove k key s.partition_file_locks)

  keys_to_delete-start :
      (key dir : Bytes) (locks : Map Bytes SemaphoreWithIndex)
      → has_key key (keys_to_delete D dir locks) ≡ true
      → starts_with key dir ≡ true
  unfolding keys_to_delete
  keys_to_delete-start key dir [] e = absurd (ground (arith, e))
  keys_to_delete-start key dir ((k, lock) ∷ locks) e = elim (Bool-cases (starts_with k dir)) [
    | inl hit ↦ elim (Bool-cases (k == key)) [
      | inl same ↦ subst (λ j. starts_with j dir ≡ true) ((bytes_beq_iff k key).0 same) hit
      | inr other ↦ keys_to_delete-start key dir locks (ground (arith, e, hit, other))
    ]
    | inr miss ↦ keys_to_delete-start key dir locks (ground (arith, e, miss))
  ]

  -- A lock is gone or kept by its path.
  get-keys_to_delete :
      (key dir : Bytes) (locks : Map Bytes SemaphoreWithIndex)
      → (if has_key key (keys_to_delete D dir locks) then none else Map.get key locks)
        ≡ (if starts_with key dir then none else Map.get key locks)
  unfolding keys_to_delete Map.get
  get-keys_to_delete key dir [] = ground arith
  get-keys_to_delete key dir ((k, lock) ∷ locks) = ground (
    arith,
    get-keys_to_delete key dir locks,
    bytes_beq_iff k key,
    keys_to_delete-start key dir locks,
    ap (λ j. starts_with j dir) {x = k} {y = key},
  )

  delete_remote-locks :
      (s : HdfsStore D) (a : D.Client) (dir : Bytes) (keys : List Bytes)
      → ((delete_remote D s a dir keys).0.partition_file_locks ≡ s.partition_file_locks)
        × ((delete_remote D s a dir keys).0.app_remote_clients ≡ s.app_remote_clients)
  unfolding delete_remote
  delete_remote-locks s a dir [] = (refl, refl)
  delete_remote-locks s a dir (k ∷ keys) = (refl, refl)

  remove_keys-clients :
      (keys : List Bytes) (s : HdfsStore D) (size : ℤ)
      → (remove_keys D keys s size).0.app_remote_clients ≡ s.app_remote_clients
  unfolding remove_keys
  remove_keys-clients [] s size = refl
  remove_keys-clients (k ∷ keys) s size = remove_keys-clients keys _ _

  -- A purge of an application whose client is known forgets the client, and the locks whose path is
  -- below its directory; all other locks stay.
  purge-locks :
      (s : HdfsStore D) (app_id : Bytes) (a : D.Client) (key : Bytes)
      → Map.get app_id s.app_remote_clients ≡ some a
      → (Map.get key (purge D s app_id none).0.partition_file_locks ≡ (
          if starts_with key (get_app_dir app_id)
          then none
          else Map.get key s.partition_file_locks))
        × (Map.get app_id (purge D s app_id none).0.app_remote_clients ≡ none)
  unfolding purge purged_dir removed_client
  purge-locks s app_id a key client =
      let dir = get_app_dir app_id in
      let keys = keys_to_delete D dir s.partition_file_locks in
      let s0 = removed_client D s app_id none in
      let s1 = (remove_keys D keys s0 (pos 0)).0 in
      let (locks, clients) = delete_remote-locks s1 a dir keys in
      rw (purge, client)
        (
          ap (λ m. Map.get key m) locks
              ∙ (get-remove_keys key keys s0 (pos 0)
                  ∙ get-keys_to_delete key dir s.partition_file_locks),
          ap (λ m. Map.get app_id m) (clients ∙ remove_keys-clients keys s0 (pos 0))
              ∙ (Map.get-remove app_id app_id s.app_remote_clients ∙ rw (beq_refl app_id) refl),
        )

  -- If no slash stands in the ids of two applications and the client of the first is known, then a
  -- purge of the first, even one whose deletion of files fails, forgets its client, and of the two it
  -- removes the locks of the first alone.
  pub purge_app_lem :
      (s : HdfsStore D) (app_id : Bytes) (a : D.Client) (worker_id : Bytes) (uid : PartitionedUId)
      → Map.get app_id s.app_remote_clients ≡ some a
      → contains 47 app_id ≡ false
      → contains 47 uid.app_id ≡ false
      → (Map.get
            (get_file_path_prefix_by_uid worker_id uid)
            (purge D s app_id none).0.partition_file_locks
          ≡ (if uid.app_id == app_id
              then none
              else Map.get (get_file_path_prefix_by_uid worker_id uid) s.partition_file_locks))
        × (Map.get app_id (purge D s app_id none).0.app_remote_clients ≡ none)
  unfolding get_file_path_prefix_by_uid get_app_dir
  purge_app_lem s app_id a worker_id uid client name name' =
      let path = get_file_path_prefix_by_uid worker_id uid in
      let (locks, clients) = purge-locks s app_id a path client in
      let same : starts_with path (get_app_dir app_id) ≡ (uid.app_id == app_id) =
        starts_with-name uid.app_id app_id (below worker_id uid) name' name in
      (locks ∙ ap (λ b. if b then none else Map.get path s.partition_file_locks) same, clients)
