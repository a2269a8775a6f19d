-- ===== src/Hdfs/Files.antt =====
-- The files that src/store/hdfs.rs writes for a partition, and the offset it keeps for them.
use r.Base.{
  ◌≢◌, subst, inl, inr, bytes_eq, ℕ, ◌+◌, ◌<◌, ◌^◌, ◌≡◌, refl, ap, ap₂, sym, ◌∙◌, false, some, List,
  [], ◌++◌, concat, Bytes, arith, ◌==◌, beq_refl,
}
use r.Base.Int.{ℤ, pos}
use r.Base.Map
use r.Error.{WorkerError, ok, Outcome-cases}
use r.Store.Blocks.{Block, AreSized, payload_len, payloads}
use r.Store.Format.{Codec, generate_shuffle_file_format, ShuffleFileFormat}
use r.Store.Index.{index_bytes, generated}
use r.Store.Composed
use r.Store.Wrapper
use r.Store.Wrapper.{BytesWrapper}
use r.LocalFile.Paths.{data_suffix, index_suffix}
use r.LocalFile.Files.{beq_append, payload_len-append, concat-payloads_append, index_bytes-append}
use r.Hdfs.{HdfsDelegator, HdfsStore, WritingHandler, reset_offset}
use r.Hdfs.Paths.{with_number, data_file, index_file}
use r.Hdfs.Inserting.{
  start_retry, write_data_and_index, write_blocks, finish_write, touch_files, then_do-ok,
}

-- What the clients do to the contents of the files. A file that `touch` makes is empty.
pub record Files (D : HdfsDelegator) : Type 0 where
  pub file : D.State → Bytes → Bytes
  pub file-append :
      (a : D.Client) (r : D.State) (p : Bytes) (w : BytesWrapper)
      → (D.append a r p w).1 ≡ ok tt
      → file (D.append a r p w).0 p ≡ file r p ++ Wrapper.freeze w
  pub file-append_other :
      (a : D.Client) (r : D.State) (p : Bytes) (w : BytesWrapper) (q : Bytes)
      → (p == q) ≡ false
      → file (D.append a r p w).0 q ≡ file r q
  pub file-touch :
      (a : D.Client) (r : D.State) (p : Bytes)
      → (D.touch a r p).1 ≡ ok tt
      → file (D.touch a r p).0 p ≡ []
  pub file-touch_other :
      (a : D.Client) (r : D.State) (p q : Bytes)
      → (p == q) ≡ false
      → file (D.touch a r p).0 q ≡ file r q
  pub file-create_dir :
      (a : D.Client) (r : D.State) (p q : Bytes) → file (D.create_dir a r p).0 q ≡ file r q

pub paths_differ : (prefix : Bytes) (n : ℕ) → (data_file prefix n == index_file prefix n) ≡ false
unfolding data_file index_file
paths_differ prefix n = beq_append (with_number prefix n) data_suffix index_suffix

pub paths_differ_back :
    (prefix : Bytes) (n : ℕ) → (index_file prefix n == data_file prefix n) ≡ false
unfolding data_file index_file
paths_differ_back prefix n = beq_append (with_number prefix n) index_suffix data_suffix

module _ (D : HdfsDelegator) (c : Codec) (files : Files D) where
  -- The current files of a prefix hold some blocks, and the offset is their length.
  pub record IsWritten (s : HdfsStore D) (prefix : Bytes) (m : WritingHandler) (blocks : List Block)
      : Type 0 where
    pub cached : Map.get prefix s.partition_cached_meta ≡ some m
    pub offset : m.data_len ≡ pos (payload_len blocks)
    pub data_content :
        files.file s.remote (data_file prefix m.retry_time) ≡ concat (payloads blocks)
    pub index_content :
        files.file s.remote (index_file prefix m.retry_time) ≡ index_bytes c 0 blocks

  pub touch_files-empty :
      (a : D.Client) (r : D.State) (prefix : Bytes) (n : ℕ)
      → (touch_files D c a r prefix n).1 ≡ ok tt
      → (files.file (touch_files D c a r prefix n).0 (data_file prefix n) ≡ [])
        × (files.file (touch_files D c a r prefix n).0 (index_file prefix n) ≡ [])
  unfolding touch_files
  touch_files-empty a r prefix n e =
      let p = data_file prefix n in
      let q = index_file prefix n in
      let r1 = (D.touch a r p).0 in
      let (first, second, to) = then_do-ok (D.touch a r p) (λ k. D.touch a k q) e in
      (
        ap (λ (x : D.State × _). files.file x.0 p) to
            ∙ (files.file-touch_other a r1 q p (paths_differ_back prefix n)
                ∙ files.file-touch a r p first),
        ap (λ (x : D.State × _). files.file x.0 q) to ∙ files.file-touch a r1 q second,
      )

  write_data_and_index-ok :
      (a : D.Client) (r : D.State) (p : Bytes) (content : BytesWrapper) (q : Bytes)
      (index : BytesWrapper)
      → (p == q) ≡ false
      → (q == p) ≡ false
      → (write_data_and_index D c a r p content q index).1 ≡ ok tt
      → (files.file (write_data_and_index D c a r p content q index).0 p
          ≡ files.file r p ++ Wrapper.freeze content)
        × (files.file (write_data_and_index D c a r p content q index).0 q
            ≡ files.file r q ++ Wrapper.freeze index)
  unfolding write_data_and_index
  write_data_and_index-ok a r p content q index pq qp e =
      let r1 = (D.append a r p content).0 in
      let (first, second, to) = then_do-ok (D.append a r p content) (λ k. D.append a k q index) e in
      (
        ap (λ (x : D.State × _). files.file x.0 p) to
            ∙ (files.file-append_other a r1 q index p qp ∙ files.file-append a r p content first),
        ap (λ (x : D.State × _). files.file x.0 q) to
            ∙ (files.file-append a r1 q index second
                ∙ ap (λ k. k ++ Wrapper.freeze index) (files.file-append_other a r p content q pq)),
      )

  -- The store after a write that succeeds.
  abbrev written :
      HdfsStore D
      → D.Client
      → Bytes
      → WritingHandler
      → List Block
      → ℤ
      → ShuffleFileFormat
      → HdfsStore D
  written s a prefix m blocks o format = record s {
    remote =
        (write_data_and_index D c a s.remote (data_file prefix m.retry_time) format.content
          (index_file prefix m.retry_time) format.index).0;
    partition_cached_meta =
        Map.insert prefix (reset_offset m format.offset) s.partition_cached_meta;
  }

  start_retry-fails :
      (s : HdfsStore D) (a : D.Client) (prefix : Bytes) (x : WorkerError)
      → (start_retry D c s a prefix x).1 ≢ ok tt
  unfolding start_retry
  start_retry-fails s a prefix x = ground arith

  write_blocks-ok :
      (s : HdfsStore D) (a : D.Client) (prefix : Bytes) (m : WritingHandler) (blocks : List Block)
      (o : ℤ)
      → Map.get prefix s.partition_cached_meta ≡ some m
      → (write_blocks D c s a prefix blocks o m.retry_time).1 ≡ ok tt
      → (let format = generate_shuffle_file_format c blocks o in
          ((write_data_and_index D c a s.remote
              (data_file prefix m.retry_time)
              format.content
              (index_file prefix m.retry_time)
              format.index).1
            ≡ ok tt)
          × (write_blocks D c s a prefix blocks o m.retry_time).0
            ≡ written s a prefix m blocks o format)
  unfolding write_blocks finish_write start_retry reset_offset
  write_blocks-ok s a prefix m blocks o cached e =
      let format = generate_shuffle_file_format c blocks o in
      elim (Outcome-cases
        (write_data_and_index D c a s.remote (data_file prefix m.retry_time) format.content
          (index_file prefix m.retry_time) format.index).1) [
            | inl (u, h) ↦ (h, ground (arith, h, cached))
            | inr (inl (x, h)) ↦ absurd (grind (arith, start_retry-fails))
            | inr (inr h) ↦ absurd (ground (arith, h, e))
          ]

  write_from-IsWritten :
      (s : HdfsStore D) (a : D.Client) (prefix : Bytes) (m : WritingHandler)
      (old blocks : List Block)
      → IsWritten s prefix m old
      → AreSized blocks
      → payload_len old + payload_len blocks < 2 ^ 63
      → (write_blocks D c s a prefix blocks (pos (payload_len old)) m.retry_time).1 ≡ ok tt
      → IsWritten
          (write_blocks D c s a prefix blocks (pos (payload_len old)) m.retry_time).0
          prefix
          (reset_offset m (pos (payload_len (old ++ blocks))))
          (old ++ blocks)
  unfolding reset_offset Wrapper.freeze
  write_from-IsWritten s a prefix m old blocks w sized fits e =
      let o = payload_len old in
      let format = generate_shuffle_file_format c blocks (pos o) in
      let made = generated c blocks o sized fits in
      let p = data_file prefix m.retry_time in
      let q = index_file prefix m.retry_time in
      let m' = reset_offset m (pos (payload_len (old ++ blocks))) in
      let (done, to) = write_blocks-ok s a prefix m blocks (pos o) w.cached e in
      let (data_at, index_at) =
        write_data_and_index-ok a s.remote p format.content q format.index
          (paths_differ prefix m.retry_time) (paths_differ_back prefix m.retry_time) done in
      let at : format.offset ≡ pos (payload_len (old ++ blocks)) =
        ap (λ (g : ShuffleFileFormat). g.offset) made
        ∙ ap pos (sym (payload_len-append old blocks)) in
      let result : IsWritten (written s a prefix m blocks (pos o) format) prefix m'
          (old ++ blocks) =
        record {
          cached =
              Map.get-insert prefix prefix (reset_offset m format.offset) s.partition_cached_meta
              ∙ rw (beq_refl prefix) (ap (λ n. some (reset_offset m n)) at);
          offset = refl;
          data_content =
              data_at
              ∙ (ap₂ (λ k l. k ++ l) w.data_content
                    (ap (λ (g : ShuffleFileFormat). Wrapper.freeze g.content) made
                      ∙ Composed.freeze-from (payloads blocks) (payload_len blocks))
                  ∙ sym (concat-payloads_append old blocks));
          index_content =
              index_at
              ∙ (ap₂ (λ k l. k ++ l) w.index_content
                    (ap (λ (g : ShuffleFileFormat). Wrapper.freeze g.index) made)
                  ∙ (ap (λ n. index_bytes c 0 old ++ index_bytes c n blocks) (omega arith)
                      ∙ sym (index_bytes-append c 0 old blocks)));
        } in
      subst (λ k. IsWritten k prefix m' (old ++ blocks)) (sym to) result

  -- The write that succeeds after a state in which the files hold some blocks.
  pub write_blocks-IsWritten :
      (s : HdfsStore D) (a : D.Client) (prefix : Bytes) (m : WritingHandler)
      (old blocks : List Block)
      → IsWritten s prefix m old
      → AreSized blocks
      → payload_len old + payload_len blocks < 2 ^ 63
      → (write_blocks D c s a prefix blocks m.data_len m.retry_time).1 ≡ ok tt
      → IsWritten
          (write_blocks D c s a prefix blocks m.data_len m.retry_time).0
          prefix
          (reset_offset m (pos (payload_len (old ++ blocks))))
          (old ++ blocks)
  write_blocks-IsWritten s a prefix m old blocks w sized fits =
      subst
        (λ o.
          (write_blocks D c s a prefix blocks o m.retry_time).1 ≡ ok tt
          → IsWritten (write_blocks D c s a prefix blocks o m.retry_time).0 prefix
              (reset_offset m (pos (payload_len (old ++ blocks)))) (old ++ blocks))
        (sym w.offset) (write_from-IsWritten s a prefix m old blocks w sized fits)
