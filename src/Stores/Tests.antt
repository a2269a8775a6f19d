-- ===== src/Stores/Tests.antt =====
-- The boxed stores over a disk and a client that accept every call and keep nothing.
use r.Base.{[], ◌∷◌, true, false}
use r.Error.{ok}
use r.Store.BigEndian.{big_endian}
use r.Persistent.{IsLawful}
use r.LocalFile.{Disk}
use r.LocalFile.Interface.{Returns, local_file_store}
use r.Hdfs.{HdfsDelegator}
use r.Hdfs.Interface.{Responds, hdfs_store}
use r.Stores.{boxed, persistent_stores-IsLawful}

abbrev null_disk : Disk
null_disk = record {
  State = Unit {0};
  root = λ s. [];
  is_healthy = λ s. true;
  is_corrupted = λ s. false;
  create_dir = λ s path. (s, ok tt);
  append = λ s path w. (s, ok tt);
  read = λ s path offset len. ok [];
  delete = λ s path. (s, ok tt);
}

abbrev null_client : HdfsDelegator
null_client = record {
  State = Unit {0};
  Client = Unit {0};
  get_hdfs_delegator = λ root configs. ok tt;
  touch = λ a r path. (r, ok tt);
  append = λ a r path w. (r, ok tt);
  create_dir = λ a r path. (r, ok tt);
  delete_dir = λ a r path. (r, ok tt);
}

null_disk-Returns : Returns null_disk
null_disk-Returns = record { append-returns = λ d p w e. cc; create_dir-returns = λ d p e. cc }

null_client-Responds : Responds null_client
null_client-Responds = record {
  touch-returns = λ a r p e. cc;
  append-returns = λ a r p w e. cc;
  create_dir-returns = λ a r p e. cc;
}

persistent_stores-IsLawful_example : IsLawful (
    boxed
      (local_file_store null_disk big_endian (λ uid. 0))
      (hdfs_store null_client big_endian (119 ∷ [])))
persistent_stores-IsLawful_example =
    persistent_stores-IsLawful null_disk null_client big_endian (λ uid. 0) (119 ∷ [])
      null_disk-Returns null_client-Responds
