-- ===== src/Hdfs/Written.antt =====
-- src/store/hdfs.rs: what an insert with the permit of an index leaves of that index's files.
use r.Base.{
  bytes_eq, ◌+◌, ◌<◌, ◌^◌, ◌≡◌, ◌⊎◌, inl, inr, refl, ap, sym, ◌∙◌, subst, none, some, List, [],
  ◌++◌, Bytes, arith, beq_refl,
}
use r.Base.Int.{pos}
use r.Base.Map
use r.Error.{WorkerError, ok, err, panic, other, Outcome-cases}
use r.Store.Blocks.{Block, AreSized, payload_len}
use r.Store.Format.{Codec}
use r.Hdfs.{HdfsDelegator, HdfsStore, WritingHandler, default}
use r.Hdfs.Inserting.{create_files, touch_files, write_blocks, insert_with_index, then_do-ok}
use r.Hdfs.Paths.{data_file, index_file}
use r.Hdfs.Files.{Files, IsWritten, touch_files-empty, write_blocks-IsWritten}

module _ (D : HdfsDelegator) (c : Codec) (files : Files D) where
  -- The files of a prefix are not made yet, or hold some blocks.
  abbrev pub Holds : HdfsStore D → Bytes → List Block → Type 0
  Holds s prefix blocks =
      ((Map.get prefix s.partition_cached_meta ≡ none) × (blocks ≡ []))
      ⊎ ((m : WritingHandler) × IsWritten D c files s prefix m blocks)

  -- The store once the files of a prefix are made.
  abbrev pub created : HdfsStore D → D.Client → Bytes → HdfsStore D
  created s a prefix = record s {
    remote = (create_files D c a s.remote prefix).0;
    partition_cached_meta = Map.insert prefix default s.partition_cached_meta;
  }

  pub created-IsWritten :
      (s : HdfsStore D) (a : D.Client) (prefix : Bytes)
      → (create_files D c a s.remote prefix).1 ≡ ok tt
      → IsWritten D c files (created s a prefix) prefix default []
  unfolding create_files
  created-IsWritten s a prefix e =
      let (made, touched, to) =
        then_do-ok (D.create_dir a s.remote _) (λ r. touch_files D c a r prefix 0) e in
      let (data_at, index_at) = touch_files-empty D c files a _ prefix 0 touched in
      record {
        cached =
            Map.get-insert prefix prefix default s.partition_cached_meta
            ∙ rw (beq_refl prefix) refl;
        offset = refl;
        data_content = ap (λ (x : D.State × _). files.file x.0 (data_file prefix 0)) to ∙ data_at;
        index_content =
            ap (λ (x : D.State × _). files.file x.0 (index_file prefix 0)) to ∙ index_at;
      }

  module _ (s : HdfsStore D) (app_id : Bytes) (a : D.Client) (prefix : Bytes)
      (blocks : List Block) where
    -- An insert into files that are there is a write.
    pub insert_with_index-cached :
        (m : WritingHandler)
        → Map.get app_id s.app_remote_clients ≡ some a
        → Map.get prefix s.partition_cached_meta ≡ some m
        → insert_with_index D c s app_id blocks prefix
          ≡ write_blocks D c s a prefix blocks m.data_len m.retry_time
    unfolding insert_with_index
    insert_with_index-cached m client cached =
        rw (insert_with_index, client) (rw (insert_with_index, cached) refl)

    -- The first insert, which makes the files.
    pub insert_with_index-first :
        Map.get app_id s.app_remote_clients ≡ some a
        → Map.get prefix s.partition_cached_meta ≡ none
        → (create_files D c a s.remote prefix).1 ≡ ok tt
        → insert_with_index D c s app_id blocks prefix
          ≡ write_blocks D c (created s a prefix) a prefix blocks (pos 0) 0
    unfolding insert_with_index
    insert_with_index-first client cached e =
        rw (insert_with_index, client) (rw (insert_with_index, cached) (ground arith))

    -- The first insert when the files cannot be made.
    pub insert_with_index-uncreated :
        (e : WorkerError)
        → Map.get app_id s.app_remote_clients ≡ some a
        → Map.get prefix s.partition_cached_meta ≡ none
        → (create_files D c a s.remote prefix).1 ≡ err e
        → insert_with_index D c s app_id blocks prefix
          ≡ (record s { remote = (create_files D c a s.remote prefix).0 }, err other)
    unfolding insert_with_index
    insert_with_index-uncreated e client cached failed =
        rw (insert_with_index, client) (rw (insert_with_index, cached) (ground arith))

    pub insert_with_index-dies :
        Map.get app_id s.app_remote_clients ≡ some a
        → Map.get prefix s.partition_cached_meta ≡ none
        → (create_files D c a s.remote prefix).1 ≡ panic
        → (insert_with_index D c s app_id blocks prefix).1 ≡ panic
    unfolding insert_with_index
    insert_with_index-dies client cached failed =
        rw (insert_with_index, client) (rw (insert_with_index, cached) (ground arith))

  first-Holds :
      (s : HdfsStore D) (app_id : Bytes) (a : D.Client) (prefix : Bytes) (blocks : List Block)
      → Map.get app_id s.app_remote_clients ≡ some a
      → Map.get prefix s.partition_cached_meta ≡ none
      → AreSized blocks
      → payload_len blocks < 2 ^ 63
      → (insert_with_index D c s app_id blocks prefix).1 ≡ ok tt
      → Holds (insert_with_index D c s app_id blocks prefix).0 prefix blocks
  first-Holds s app_id a prefix blocks client cached sized fits e =
      elim (Outcome-cases (create_files D c a s.remote prefix).1) [
        | inl (u, made) ↦
            let same = insert_with_index-first s app_id a prefix blocks client cached made in
            subst (λ (k : HdfsStore D × _). k.1 ≡ ok tt → Holds k.0 prefix blocks) (sym same)
              (λ done. inr (
                _,
                write_blocks-IsWritten D c files (created s a prefix) a prefix default [] blocks
                    (created-IsWritten s a prefix made) sized (omega arith) done,
              ))
              e
        | inr (inl (x, failed)) ↦ absurd (
            ground (
              arith,
              e,
              insert_with_index-uncreated s app_id a prefix blocks x client cached failed,
            ))
        | inr (inr failed) ↦ absurd (
            ground (arith, e, insert_with_index-dies s app_id a prefix blocks client cached failed))
      ]

  -- If an append to a file, where it succeeds, adds to that file and leaves the others alone, and a file
  -- that was made is empty, if a client is registered for the application and the files of an index
  -- hold some blocks, or are not made yet and hold none, and if the stated lengths of further blocks
  -- are right and add up with those that are held below 2^63: an insert of them that succeeds adds them
  -- to the blocks that the files hold, data and index, with their length together as the offset.
  pub insert_with_index-Holds :
      (s : HdfsStore D) (app_id : Bytes) (a : D.Client) (prefix : Bytes) (old blocks : List Block)
      → Map.get app_id s.app_remote_clients ≡ some a
      → Holds s prefix old
      → AreSized blocks
      → payload_len old + payload_len blocks < 2 ^ 63
      → (insert_with_index D c s app_id blocks prefix).1 ≡ ok tt
      → Holds (insert_with_index D c s app_id blocks prefix).0 prefix (old ++ blocks)
  insert_with_index-Holds s app_id a prefix old blocks client (inr (m, w)) sized fits e =
      let same = insert_with_index-cached s app_id a prefix blocks m client w.cached in
      subst (λ (k : HdfsStore D × _). k.1 ≡ ok tt → Holds k.0 prefix (old ++ blocks)) (sym same)
        (λ done.
          inr (_, write_blocks-IsWritten D c files s a prefix m old blocks w sized fits done))
        e
  insert_with_index-Holds s app_id a prefix old blocks client (inl (cached, empty)) sized fits e =
      let fits' : payload_len blocks < 2 ^ 63 = omega (arith, fits) in
      subst (λ l. Holds (insert_with_index D c s app_id blocks prefix).0 prefix (l ++ blocks))
        (sym empty) (first-Holds s app_id a prefix blocks client cached sized fits' e)
