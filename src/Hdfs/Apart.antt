-- ===== src/Hdfs/Apart.antt =====
-- src/store/hdfs.rs: tasks that hold different indices of a partition write to different files.
use r.Base.{ℕ, ◌<◌, ◌^◌, ◌≡◌, ◌≢◌, inl, inr, ◌∙◌, List, Bytes, false, ◌==◌, arith, bytes_eq}
use r.Base.Int.{ℤ}
use r.Base.Map
use r.Error.{WorkerError, Outcome, ok, err, panic}
use r.Store.Blocks.{Block}
use r.Store.Format.{Codec}
use r.Store.Wrapper.{BytesWrapper}
use r.Hdfs.{HdfsDelegator, HdfsStore}
use r.Hdfs.Paths.{with_number, data_file, index_file}
use r.Hdfs.Inserting.{
  then_do, touch_files, create_files, write_data_and_index, start_retry, finish_write, write_blocks,
  insert_with_index,
}
use r.Hdfs.Files.{Files}
use r.Hdfs.Written.{Holds}
use r.Hdfs.Names.{prefixes_differ, data_file-AreApart, index_file-AreApart}

-- What each of two calls keeps, both keep.
then_do-keeps {ℓ κ} :
    {S : Type ℓ} {A : Type κ} (g : S → A) (x : S × Outcome (Unit {0}))
    (f : S → S × Outcome (Unit {0})) (a : A)
    → g x.0 ≡ a
    → g (f x.0).0 ≡ a
    → g (then_do x f).0 ≡ a
then_do-keeps g (s, ok done) f a first second = second
then_do-keeps g (s, err e) f a first second = first
then_do-keeps g (s, panic) f a first second = first

module _ (D : HdfsDelegator) (c : Codec) (files : Files D) where
  module _ (prefix q : Bytes) (data_apart : (n : ℕ) → (data_file prefix n == q) ≡ false)
      (index_apart : (n : ℕ) → (index_file prefix n == q) ≡ false) where
    touch_files-keeps :
        (a : D.Client) (r : D.State) (n : ℕ)
        → files.file (touch_files D c a r prefix n).0 q ≡ files.file r q
    unfolding touch_files
    touch_files-keeps a r n =
        let first = files.file-touch_other a r (data_file prefix n) q (data_apart n) in
        then_do-keeps (λ k. files.file k q) (D.touch a r (data_file prefix n)) _ _ first
          (files.file-touch_other a _ (index_file prefix n) q (index_apart n) ∙ first)

    create_files-keeps :
        (a : D.Client) (r : D.State) → files.file (create_files D c a r prefix).0 q ≡ files.file r q
    unfolding create_files
    create_files-keeps a r =
        then_do-keeps (λ k. files.file k q) (D.create_dir a r _) _ _ (files.file-create_dir a r _ q)
          (touch_files-keeps a _ 0 ∙ files.file-create_dir a r _ q)

    write_data_and_index-keeps :
        (a : D.Client) (r : D.State) (n : ℕ) (content index : BytesWrapper)
        → files.file
            (write_data_and_index D c a r
              (data_file prefix n)
              content
              (index_file prefix n)
              index).0
            q
          ≡ files.file r q
    unfolding write_data_and_index
    write_data_and_index-keeps a r n content index =
        let first = files.file-append_other a r (data_file prefix n) content q (data_apart n) in
        then_do-keeps (λ k. files.file k q) (D.append a r (data_file prefix n) content) _ _ first
          (files.file-append_other a _ (index_file prefix n) index q (index_apart n) ∙ first)

    start_retry-keeps :
        (s : HdfsStore D) (a : D.Client) (e : WorkerError)
        → files.file (start_retry D c s a prefix e).0.remote q ≡ files.file s.remote q
    unfolding start_retry
    start_retry-keeps s a e = grind (arith, touch_files-keeps)

    finish_write-keeps :
        (s : HdfsStore D) (o : ℤ) → (finish_write D c s prefix o).0.remote ≡ s.remote
    unfolding finish_write
    finish_write-keeps s o = ground arith

    write_blocks-keeps :
        (s : HdfsStore D) (a : D.Client) (blocks : List Block) (o : ℤ) (n : ℕ)
        → files.file (write_blocks D c s a prefix blocks o n).0.remote q ≡ files.file s.remote q
    unfolding write_blocks
    write_blocks-keeps s a blocks o n =
        grind (arith, write_data_and_index-keeps, start_retry-keeps, finish_write-keeps)

    -- An insert leaves a file alone that is not one of its prefix.
    insert_with_index-keeps :
        (s : HdfsStore D) (app_id : Bytes) (blocks : List Block)
        → files.file (insert_with_index D c s app_id blocks prefix).0.remote q
          ≡ files.file s.remote q
    unfolding insert_with_index
    insert_with_index-keeps s app_id blocks = grind (arith, write_blocks-keeps, create_files-keeps)

  module _ (prefix other : Bytes) (differ : (prefix == other) ≡ false) where
    start_retry-metas :
        (s : HdfsStore D) (a : D.Client) (e : WorkerError)
        → Map.get other (start_retry D c s a prefix e).0.partition_cached_meta
          ≡ Map.get other s.partition_cached_meta
    unfolding start_retry
    start_retry-metas s a e = grind (arith, Map.get-insert, differ)

    finish_write-metas :
        (s : HdfsStore D) (o : ℤ)
        → Map.get other (finish_write D c s prefix o).0.partition_cached_meta
          ≡ Map.get other s.partition_cached_meta
    unfolding finish_write
    finish_write-metas s o = grind (arith, Map.get-insert, differ)

    write_blocks-metas :
        (s : HdfsStore D) (a : D.Client) (blocks : List Block) (o : ℤ) (n : ℕ)
        → Map.get other (write_blocks D c s a prefix blocks o n).0.partition_cached_meta
          ≡ Map.get other s.partition_cached_meta
    unfolding write_blocks
    write_blocks-metas s a blocks o n = grind (arith, start_retry-metas, finish_write-metas)

    insert_with_index-metas :
        (s : HdfsStore D) (app_id : Bytes) (blocks : List Block)
        → Map.get other (insert_with_index D c s app_id blocks prefix).0.partition_cached_meta
          ≡ Map.get other s.partition_cached_meta
    unfolding insert_with_index
    insert_with_index-metas s app_id blocks =
        grind (arith, write_blocks-metas, Map.get-insert, differ)

  -- Over clients that append to, touch or make just what they are told to: whatever an insert with one
  -- index of a partition does, and also if it fails or panics, the files of another index hold the
  -- blocks that they held, at the same offset.
  pub insert_with_index-Holds_other :
      (s : HdfsStore D) (app_id path : Bytes) (i j : ℕ) (old blocks : List Block)
      → i < 2 ^ 64
      → j < 2 ^ 64
      → i ≢ j
      → Holds D c files s (with_number path j) old
      → Holds D c files
          (insert_with_index D c s app_id blocks (with_number path i)).0
          (with_number path j)
          old
  insert_with_index-Holds_other s app_id path i j old blocks hi hj differ (inl (unmade, empty)) =
      inl (
        insert_with_index-metas (with_number path i) (with_number path j)
              (prefixes_differ path i j hi hj differ) s app_id blocks
            ∙ unmade,
        empty,
      )
  insert_with_index-Holds_other s app_id path i j old blocks hi hj differ (inr (m, w)) =
      let apart = data_file-AreApart path i j hi hj differ m.retry_time in
      let apart' = index_file-AreApart path i j hi hj differ m.retry_time in
      inr (
        m,
        record {
          cached =
              insert_with_index-metas (with_number path i) (with_number path j)
                (prefixes_differ path i j hi hj differ) s app_id blocks
              ∙ w.cached;
          offset = w.offset;
          data_content =
              insert_with_index-keeps (with_number path i) _ apart.data_apart apart.index_apart s
                app_id blocks
              ∙ w.data_content;
          index_content =
              insert_with_index-keeps (with_number path i) _ apart'.data_apart apart'.index_apart s
                app_id blocks
              ∙ w.index_content;
        },
      )
