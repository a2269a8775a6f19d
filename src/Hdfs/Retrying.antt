-- ===== src/Hdfs/Retrying.antt =====
-- src/store/hdfs.rs: an insert that fails leaves new files for the next one.
use r.Base.{
  false, if◌then◌else◌, bytes_eq, ℕ, suc, ◌≡◌, inl, inr, refl, ap, sym, ◌∙◌, subst, none, some,
  List, [], Bytes, arith, beq_refl,
}
use r.Base.Int.{ℤ, pos}
use r.Base.Map
use r.Error.{WorkerError, ok, err, other, Outcome-cases}
use r.Store.Blocks.{Block}
use r.Store.Format.{Codec, generate_shuffle_file_format}
use r.Hdfs.{HdfsDelegator, HdfsStore, WritingHandler, default, reset_offset, inc_retry_time}
use r.Hdfs.Paths.{data_file, index_file}
use r.Hdfs.Inserting.{
  create_files, touch_files, write_blocks, write_data_and_index, start_retry, finish_write,
  insert_with_index, marks_unhealthy,
}
use r.Hdfs.Files.{Files, IsWritten, touch_files-empty}
use r.Hdfs.Written.{
  created-IsWritten, insert_with_index-dies, Holds, created, insert_with_index-cached,
  insert_with_index-first, insert_with_index-uncreated,
}

module _ (D : HdfsDelegator) (c : Codec) (files : Files D) where
  -- The client can make the files of any retry.
  abbrev pub Touches : D.Client → Type 0
  Touches a = (r : D.State) (p : Bytes) → (D.touch a r p).1 ≡ ok tt

  touch_files-succeeds :
      (a : D.Client)
      → Touches a
      → (r : D.State) (prefix : Bytes) (n : ℕ) → (touch_files D c a r prefix n).1 ≡ ok tt
  unfolding touch_files
  touch_files-succeeds a touches r prefix n = grind (arith, touches)

  abbrev next : WritingHandler → WritingHandler
  next m = inc_retry_time (reset_offset m (pos 0))

  -- The store after a write that fails.
  abbrev retried : HdfsStore D → D.Client → Bytes → WritingHandler → WorkerError → HdfsStore D
  retried s a prefix m e = record s {
    health = if marks_unhealthy e then false else s.health;
    partition_cached_meta = Map.insert prefix (next m) s.partition_cached_meta;
    remote = (touch_files D c a s.remote prefix (suc m.retry_time)).0;
  }

  start_retry_lem :
      (s : HdfsStore D) (a : D.Client) (prefix : Bytes) (m : WritingHandler) (e : WorkerError)
      → Touches a
      → Map.get prefix s.partition_cached_meta ≡ some m
      → start_retry D c s a prefix e ≡ (retried s a prefix m e, err other)
  unfolding start_retry inc_retry_time reset_offset
  start_retry_lem s a prefix m e touches cached =
      rw (start_retry, cached)
        (rw (start_retry, touch_files-succeeds a touches s.remote prefix (suc m.retry_time)) refl)

  retried-IsWritten :
      (s : HdfsStore D) (a : D.Client) (prefix : Bytes) (m : WritingHandler) (e : WorkerError)
      → Touches a
      → IsWritten D c files (retried s a prefix m e) prefix (next m) []
  unfolding inc_retry_time reset_offset
  retried-IsWritten s a prefix m e touches =
      let touched = touch_files-succeeds a touches s.remote prefix (suc m.retry_time) in
      let (data_at, index_at) =
        touch_files-empty D c files a s.remote prefix (suc m.retry_time) touched in
      record {
        cached =
            Map.get-insert prefix prefix (next m) s.partition_cached_meta
            ∙ rw (beq_refl prefix) refl;
        offset = refl;
        data_content = data_at;
        index_content = index_at;
      }

  -- A write to files that are there, and fails, leaves empty files.
  write_blocks-Holds :
      (s : HdfsStore D) (a : D.Client) (prefix : Bytes) (m : WritingHandler) (blocks : List Block)
      (o : ℤ) (e : WorkerError)
      → Touches a
      → Map.get prefix s.partition_cached_meta ≡ some m
      → (write_blocks D c s a prefix blocks o m.retry_time).1 ≡ err e
      → Holds D c files (write_blocks D c s a prefix blocks o m.retry_time).0 prefix []
  unfolding write_blocks finish_write
  write_blocks-Holds s a prefix m blocks o e touches cached failed =
      let format = generate_shuffle_file_format c blocks o in
      let p = data_file prefix m.retry_time in
      let q = index_file prefix m.retry_time in
      let r = write_data_and_index D c a s.remote p format.content q format.index in
      elim (Outcome-cases r.1) [
        | inl (u, h) ↦ absurd (ground (arith, h, cached, failed))
        | inr (inl (x, h)) ↦
            let s' : HdfsStore D = record s { remote = r.0 } in
            let to : (write_blocks D c s a prefix blocks o m.retry_time).0
                ≡ retried s' a prefix m x =
              rw (write_blocks, h)
                (ap (λ (k : HdfsStore D × _). k.0)
                  (start_retry_lem s' a prefix m x touches cached)) in
            subst (λ k. Holds D c files k prefix []) (sym to)
              (inr (next m, retried-IsWritten s' a prefix m x touches))
        | inr (inr h) ↦ absurd (ground (arith, h, failed))
      ]

  first-Restarts :
      (s : HdfsStore D) (app_id : Bytes) (a : D.Client) (prefix : Bytes) (blocks : List Block)
      (e : WorkerError)
      → Touches a
      → Map.get app_id s.app_remote_clients ≡ some a
      → Map.get prefix s.partition_cached_meta ≡ none
      → (insert_with_index D c s app_id blocks prefix).1 ≡ err e
      → Holds D c files (insert_with_index D c s app_id blocks prefix).0 prefix []
  first-Restarts s app_id a prefix blocks e touches client cached failed =
      elim (Outcome-cases (create_files D c a s.remote prefix).1) [
        | inl (u, made) ↦
            let same =
              insert_with_index-first D c files s app_id a prefix blocks client cached made in
            let w = created-IsWritten D c files s a prefix made in
            subst (λ (k : HdfsStore D × _). k.1 ≡ err e → Holds D c files k.0 prefix []) (sym same)
              (write_blocks-Holds (created D c files s a prefix) a prefix default blocks (pos 0) e
                touches w.cached)
              failed
        | inr (inl (x, refused)) ↦
            let same =
              insert_with_index-uncreated D c files s app_id a prefix blocks x client cached
                refused in
            subst (λ (k : HdfsStore D × _). Holds D c files k.0 prefix []) (sym same)
              (inl (cached, refl))
        | inr (inr died) ↦ absurd (
            ground (
              arith,
              failed,
              insert_with_index-dies D c files s app_id a prefix blocks client cached died,
            ))
      ]

  -- After an insert that fails the current files of the prefix are empty, or not made yet.
  pub insert_with_index-Restarts :
      (s : HdfsStore D) (app_id : Bytes) (a : D.Client) (prefix : Bytes) (old blocks : List Block)
      (e : WorkerError)
      → Touches a
      → Map.get app_id s.app_remote_clients ≡ some a
      → Holds D c files s prefix old
      → (insert_with_index D c s app_id blocks prefix).1 ≡ err e
      → Holds D c files (insert_with_index D c s app_id blocks prefix).0 prefix []
  insert_with_index-Restarts s app_id a prefix old blocks e touches client (inl (cached, empty))
        failed =
      first-Restarts s app_id a prefix blocks e touches client cached failed
  insert_with_index-Restarts s app_id a prefix old blocks e touches client (inr (m, w)) failed =
      let same = insert_with_index-cached D c files s app_id a prefix blocks m client w.cached in
      subst (λ (k : HdfsStore D × _). k.1 ≡ err e → Holds D c files k.0 prefix []) (sym same)
        (write_blocks-Holds s a prefix m blocks m.data_len e touches w.cached) failed
