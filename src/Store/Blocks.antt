-- ===== src/Store/Blocks.antt =====
-- src/store/mod.rs: blocks and segments. `Bytes` is the list of its bytes; an i64 or i32 field is
-- the integer it stands for.
use r.Base.{
  add_assoc, length-append, append_assoc, take-append, add-zero, ap₂, drop-append, suc, refl, arith,
  concat, ap, ◌-◌, ◌++◌, drop, take, map, ℕ, ◌+◌, ◌≡◌, List, [], ◌∷◌, Bytes, length, All,
}
use r.Base.Int.{pos_part, ℤ, pos}

pub record Block : Type 0 where
  pub block_id : ℤ
  pub length : ℤ
  pub uncompress_length : ℤ
  pub crc : ℤ
  pub payload : Bytes
  pub task_attempt_id : ℤ

pub record DataSegment : Type 0 where
  pub block_id : ℤ
  pub offset : ℤ
  pub length : ℤ
  pub uncompress_length : ℤ
  pub crc : ℤ
  pub task_attempt_id : ℤ

-- The stated length of each block is that of its bytes.
abbrev pub AreSized : List Block → Type 0
AreSized = All (λ b. b.length ≡ pos (length b.payload))

abbrev pub payload_len : List Block → ℕ
payload_len [] = 0
payload_len (b ∷ bs) = length b.payload + payload_len bs

-- The segments of blocks that stand one after the other from an offset on.
abbrev pub segment : ℕ → Block → DataSegment
segment offset b = record {
  block_id = b.block_id;
  offset = pos offset;
  length = b.length;
  uncompress_length = b.uncompress_length;
  crc = b.crc;
  task_attempt_id = b.task_attempt_id;
}

abbrev pub segments : ℕ → List Block → List DataSegment
segments offset [] = []
segments offset (b ∷ bs) = segment offset b ∷ segments (offset + length b.payload) bs

abbrev pub payloads : List Block → List Bytes
payloads = map (λ b. b.payload)

-- The bytes that a segment names in data that begins at a base offset.
abbrev pub slice : ℕ → Bytes → DataSegment → Bytes
slice base content s = take (pos_part s.length) (drop (pos_part s.offset - base) content)

drop-append_add : (n : ℕ) (xs ys : Bytes) → drop (length xs + n) (xs ++ ys) ≡ drop n ys
drop-append_add n [] ys = ap (λ (k : ℕ). drop k ys) (omega arith)
drop-append_add n (x ∷ xs) ys =
    let e : suc (length xs) + n ≡ suc (length xs + n) = omega arith in
    rw e (drop-append_add n xs ys)

slice_head :
    (base : ℕ) (before : Bytes) (b : Block) (rest : Bytes)
    → b.length ≡ pos (length b.payload)
    → slice base (before ++ (b.payload ++ rest)) (segment (base + length before) b) ≡ b.payload
slice_head base before b rest h =
    let e : base + length before - base ≡ length before = omega arith in
    simp (h, e, drop-append, take-append)

slices_from :
    (base : ℕ) (before : Bytes) (bs : List Block)
    → AreSized bs
    → map (slice base (before ++ concat (payloads bs))) (segments (base + length before) bs)
      ≡ payloads bs
slices_from base before [] h = refl
slices_from base before (b ∷ bs) h =
    ap₂ (λ x (l : List Bytes). x ∷ l) (slice_head base before b (concat (payloads bs)) h.0)
      (rw
        (
          append_assoc before b.payload (concat (payloads bs)),
          length-append before b.payload,
          ← add_assoc base (length before) (length b.payload),
        )
        at (slices_from base (before ++ b.payload) bs h.1))

-- Segments cut the concatenation of the payloads back into them.
pub slices :
    (base : ℕ) (bs : List Block)
    → AreSized bs
    → map (slice base (concat (payloads bs))) (segments base bs) ≡ payloads bs
slices base bs h = rw add-zero at (slices_from base [] bs h)
