-- ===== src/LocalFile/Files.antt =====
-- The files that src/store/localfile.rs writes for a partition, and its offset.
use r.Base.{
  bytes_eq, bytes_beq, ℕ, ◌+◌, ◌<◌, ◌^◌, ◌≡◌, refl, ap, ap₂, sym, ◌∙◌, false, List, [], ◌∷◌, ◌++◌,
  concat, Bytes, arith, append_assoc, add-zero, ◌==◌, length,
}
use r.Base.Int.{ℤ, pos}
use r.Error.{ok}
use r.Store.Blocks.{Block, AreSized, payload_len, payloads, segment}
use r.Store.Format.{Codec, generate_shuffle_file_format, ShuffleFileFormat}
use r.Store.Index.{index_bytes, entry_bytes, generated}
use r.Store.Composed
use r.Store.Wrapper
use r.Store.Wrapper.{BytesWrapper, LocalDataIndex}
use r.Memory.{PartitionedUId}
use r.LocalFile.{Disk}
use r.LocalFile.Paths.{partition_path, data_suffix, index_suffix, data_file_path, index_file_path}
use r.LocalFile.Inserting.{append_files}

-- What a disk does to the contents of its files.
pub record Files (D : Disk) : Type 0 where
  pub file : D.State → Bytes → Bytes
  pub file-append :
      (d : D.State) (p : Bytes) (w : BytesWrapper)
      → (D.append d p w).1 ≡ ok tt
      → file (D.append d p w).0 p ≡ file d p ++ Wrapper.freeze w
  pub file-append_other :
      (d : D.State) (p : Bytes) (w : BytesWrapper) (q : Bytes)
      → (p == q) ≡ false
      → file (D.append d p w).0 q ≡ file d q
  pub file-create_dir : (d : D.State) (p q : Bytes) → file (D.create_dir d p).0 q ≡ file d q

pub beq_append : (p a b : Bytes) → bytes_beq (p ++ a) (p ++ b) ≡ bytes_beq a b
beq_append [] a b = refl
beq_append (x ∷ p) a b = ground (arith, beq_append p a b)

paths_differ : (uid : PartitionedUId) → (data_file_path uid == index_file_path uid) ≡ false
unfolding data_file_path index_file_path
paths_differ uid = beq_append (partition_path uid) data_suffix index_suffix

pub paths_differ_back : (uid : PartitionedUId) → (index_file_path uid == data_file_path uid) ≡ false
unfolding data_file_path index_file_path
paths_differ_back uid = beq_append (partition_path uid) index_suffix data_suffix

pub payload_len-append :
    (bs cs : List Block) → payload_len (bs ++ cs) ≡ payload_len bs + payload_len cs
payload_len-append [] cs = omega arith
payload_len-append (b ∷ bs) cs = omega (arith, payload_len-append bs cs)

pub concat-payloads_append :
    (bs cs : List Block)
    → concat (payloads (bs ++ cs)) ≡ concat (payloads bs) ++ concat (payloads cs)
concat-payloads_append [] cs = refl
concat-payloads_append (b ∷ bs) cs =
    ap (λ l. b.payload ++ l) (concat-payloads_append bs cs) ∙ sym (append_assoc b.payload _ _)

pub index_bytes-append :
    (c : Codec) (o : ℕ) (bs cs : List Block)
    → index_bytes c o (bs ++ cs) ≡ index_bytes c o bs ++ index_bytes c (o + payload_len bs) cs
index_bytes-append c o [] cs = rw add-zero refl
index_bytes-append c o (b ∷ bs) cs =
    ap (λ l. entry_bytes c (segment o b) ++ l) (index_bytes-append c (o + length b.payload) bs cs)
    ∙ (sym (append_assoc (entry_bytes c (segment o b)) _ _)
        ∙ ap
            (λ n.
              (entry_bytes c (segment o b) ++ index_bytes c (o + length b.payload) bs)
              ++ index_bytes c n cs)
            (omega arith))

module _ (D : Disk) (c : Codec) (files : Files D) where
  -- What a write leaves of a partition's two files.
  pub record IsAppended (d d' : D.State) (uid : PartitionedUId) (blocks : List Block) (o : ℕ)
      : Type 0 where
    pub data_file :
        files.file d' (data_file_path uid)
        ≡ files.file d (data_file_path uid) ++ concat (payloads blocks)
    pub index_file :
        files.file d' (index_file_path uid)
        ≡ files.file d (index_file_path uid) ++ index_bytes c o blocks

  append_files-ok :
      (d : D.State) (uid : PartitionedUId) (blocks : List Block) (o offset : ℤ)
      → (append_files D c d uid blocks o).1 ≡ ok offset
      → (let f = generate_shuffle_file_format c blocks o in
          let d1 = (D.append d (data_file_path uid) f.content).0 in
          ((D.append d (data_file_path uid) f.content).1 ≡ ok tt)
          × ((D.append d1 (index_file_path uid) f.index).1 ≡ ok tt)
          × (offset ≡ f.offset)
          × ((append_files D c d uid blocks o).0 ≡ (D.append d1 (index_file_path uid) f.index).0))
  unfolding append_files
  append_files-ok d uid blocks o offset e = ground arith

  -- The offset and the files after writes that succeed.
  pub append_files-IsAppended :
      (d : D.State) (uid : PartitionedUId) (blocks : List Block) (o : ℕ) (offset : ℤ)
      → AreSized blocks
      → o + payload_len blocks < 2 ^ 63
      → (append_files D c d uid blocks (pos o)).1 ≡ ok offset
      → (offset ≡ pos (o + payload_len blocks))
        × IsAppended d (append_files D c d uid blocks (pos o)).0 uid blocks o
  unfolding Wrapper.freeze
  append_files-IsAppended d uid blocks o offset sized fits e =
      let f = generate_shuffle_file_format c blocks (pos o) in
      let made = generated c blocks o sized fits in
      let p = data_file_path uid in
      let q = index_file_path uid in
      let d1 = (D.append d p f.content).0 in
      let (a, b, at, to) = append_files-ok d uid blocks (pos o) offset e in
      (
        at ∙ ap (λ (g : ShuffleFileFormat). g.offset) made,
        record {
          data_file =
              ap (λ s. files.file s p) to
              ∙ (files.file-append_other d1 q f.index p (paths_differ_back uid)
                  ∙ (files.file-append d p f.content a
                      ∙ ap (λ l. files.file d p ++ l)
                          (ap (λ (g : ShuffleFileFormat). Wrapper.freeze g.content) made
                            ∙ Composed.freeze-from (payloads blocks) (payload_len blocks))));
          index_file =
              ap (λ s. files.file s q) to
              ∙ (files.file-append d1 q f.index b
                  ∙ ap₂ (λ k l. k ++ l) (files.file-append_other d p f.content q (paths_differ uid))
                      (ap (λ (g : ShuffleFileFormat). Wrapper.freeze g.index) made));
        },
      )
