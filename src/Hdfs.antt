-- ===== src/Hdfs.antt =====
-- src/store/hdfs.rs: the store of partitions in files of a remote file system. The client of an
-- application is an interface over the state of the file system, which clients share. A call is one
-- step: tasks that write to one partition at a time are those of SemaphoreWithIndex.
pub mod Paths
pub mod Inserting
pub mod Files
pub mod Written
pub mod Retrying
pub mod Purging
pub mod Permits
pub mod Names
pub mod Apart
pub mod Interface
mod Tests
use r.Base.{
  ℕ, zero, suc, Bool, true, Option, none, some, List, [], ◌∷◌, Bytes, bytes_eq, if◌then◌else◌,
}
use r.Base.Int.{ℤ, pos}
use r.Base.Machine.{add64}
use r.Base.Map
use r.Base.Map.{Map}
use r.Error.{Outcome, ok, err, panic, ◌>>=◌, other, not_read_hdfs_data_from_server}
use r.Store.Wrapper.{BytesWrapper, ResponseData, LocalDataIndex}
use r.SemaphoreWithIndex.{SemaphoreWithIndex}
use r.Memory.{PartitionedUId}
use r.Persistent.{ReadingOptions}
use r.Hybrid.Choosing.{from_anyhow}
use r.LocalFile.Paths.{starts_with}
use r.Hdfs.Paths.{get_app_dir, get_shuffle_dir, with_number}

-- The trait `HdfsDelegator` and the function that makes a client, from a root and settings.
pub record HdfsDelegator : Type 1 where
  pub State : Type 0
  pub Client : Type 0
  pub get_hdfs_delegator : Bytes → List (Bytes × Bytes) → Outcome Client
  pub touch : Client → State → Bytes → State × Outcome (Unit {0})
  pub append : Client → State → Bytes → BytesWrapper → State × Outcome (Unit {0})
  pub create_dir : Client → State → Bytes → State × Outcome (Unit {0})
  pub delete_dir : Client → State → Bytes → State × Outcome (Unit {0})

pub record WritingHandler : Type 0 where
  pub is_file_created : Bool
  pub data_len : ℤ
  pub retry_time : ℕ

unfoldable pub reset_offset : WritingHandler → ℤ → WritingHandler
reset_offset m len = record m { data_len = len }

unfoldable pub inc_retry_time : WritingHandler → WritingHandler
inc_retry_time m = record m { retry_time = suc m.retry_time }

abbrev pub default : WritingHandler
default = record { is_file_created = true; data_len = pos 0; retry_time = 0 }

pub record RemoteStorageConfig : Type 0 where
  pub root : Bytes
  pub configs : List (Bytes × Bytes)

module _ (D : HdfsDelegator) where
  -- The store, and the file system that its clients act on.
  pub record HdfsStore : Type 0 where
    pub app_remote_clients : Map Bytes D.Client
    pub partition_file_locks : Map Bytes SemaphoreWithIndex
    pub partition_cached_meta : Map Bytes WritingHandler
    pub partition_write_concurrency : ℕ
    pub health : Bool
    pub remote : D.State

  -- The login with the security settings, if there are any, is a parameter.
  unfoldable pub from :
      {K : Type 0} → (K → Outcome (Unit {0})) → Option K → ℕ → D.State → Outcome HdfsStore
  from init kerberos_security_config concurrency remote =
      let s : HdfsStore = record {
        app_remote_clients = [];
        partition_file_locks = [];
        partition_cached_meta = [];
        partition_write_concurrency = concurrency;
        health = true;
        remote = remote;
      } in
      elim kerberos_security_config [
        | none ↦ ok s
        | some kerberos_config ↦ elim (init kerberos_config) [
          | ok done ↦ ok s
          | err e ↦ panic
          | panic ↦ panic
        ]
      ]

  unfoldable pub get : HdfsStore → PartitionedUId → ReadingOptions → Outcome ResponseData
  get s uid options = err not_read_hdfs_data_from_server

  unfoldable pub get_index : HdfsStore → PartitionedUId → Outcome LocalDataIndex
  get_index s uid = err not_read_hdfs_data_from_server

  unfoldable pub register_app :
      HdfsStore → Bytes → Option RemoteStorageConfig → HdfsStore × Outcome (Unit {0})
  register_app s app_id none = (s, err other)
  register_app s app_id (some conf) = elim (D.get_hdfs_delegator conf.root conf.configs) [
    | ok client ↦ elim (Map.get app_id s.app_remote_clients) [
      | none ↦
          (record s { app_remote_clients = Map.insert app_id client s.app_remote_clients }, ok tt)
      | some old ↦ (s, ok tt)
    ]
    | err e ↦ (s, err other)
    | panic ↦ (s, panic)
  ]

  unfoldable pub purged_dir : Bytes → Option ℤ → Bytes
  unfolding get_app_dir get_shuffle_dir
  purged_dir app_id none = get_app_dir app_id
  purged_dir app_id (some shuffle_id) = get_shuffle_dir app_id shuffle_id

  unfoldable pub keys_to_delete : Bytes → Map Bytes SemaphoreWithIndex → List Bytes
  unfolding starts_with
  keys_to_delete dir [] = []
  keys_to_delete dir ((key, lock) ∷ locks) =
      let rest = keys_to_delete dir locks in if starts_with key dir then key ∷ rest else rest

  -- The rounds from an index on: the meta data of a key and the size that they had.
  unfoldable pub remove_metas :
      Bytes → ℕ → ℕ → Map Bytes WritingHandler → ℤ → Map Bytes WritingHandler × ℤ
  unfolding with_number
  remove_metas key idx zero metas size = (metas, size)
  remove_metas key idx (suc n) metas size =
      let prefix = with_number key idx in
      remove_metas key (suc idx) n (Map.remove prefix metas)
        (elim (Map.get prefix metas) [ none ↦ size | some m ↦ add64 size m.data_len ])

  -- The loop over the keys.
  unfoldable pub remove_keys : List Bytes → HdfsStore → ℤ → HdfsStore × ℤ
  unfolding remove_metas
  remove_keys [] s size = (s, size)
  remove_keys (key ∷ keys) s size =
      let (metas, size') =
        remove_metas key 0 s.partition_write_concurrency s.partition_cached_meta size in
      remove_keys keys
        (record s {
          partition_file_locks = Map.remove key s.partition_file_locks;
          partition_cached_meta = metas;
        })
        size'

  -- The store without the application's client, if the purge is of all its shuffles.
  unfoldable pub removed_client : HdfsStore → Bytes → Option ℤ → HdfsStore
  removed_client s app_id none = record s {
    app_remote_clients = Map.remove app_id s.app_remote_clients;
  }
  removed_client s app_id (some shuffle_id) = s

  unfoldable pub delete_remote :
      HdfsStore → D.Client → Bytes → List Bytes → HdfsStore × Outcome (Unit {0})
  delete_remote s filesystem dir [] = (s, ok tt)
  delete_remote s filesystem dir (key ∷ keys) =
      let (remote', answer) = D.delete_dir filesystem s.remote dir in
      (record s { remote = remote' }, from_anyhow answer)

  unfoldable pub purge : HdfsStore → Bytes → Option ℤ → HdfsStore × Outcome ℤ
  unfolding purged_dir keys_to_delete remove_keys removed_client delete_remote
  purge s app_id shuffle_id = elim (Map.get app_id s.app_remote_clients) [
    | none ↦ (s, ok (pos 0))
    | some filesystem ↦
        let dir = purged_dir app_id shuffle_id in
        let keys = keys_to_delete dir s.partition_file_locks in
        let (s1, removed_size) = remove_keys keys (removed_client s app_id shuffle_id) (pos 0) in
        let (s2, answer) = delete_remote s1 filesystem dir keys in
        (s2, answer >>= λ done. ok removed_size)
  ]
