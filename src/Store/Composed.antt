-- ===== src/Store/Composed.antt =====
-- src/composed_bytes.rs: a chain of byte strings read as one.
use r.Base.{
  append_assoc, ◌∙◌, append-nil, ℕ, ◌+◌, ◌%◌, ◌^◌, ◌≡◌, ◌<◌, refl, List, [], ◌∷◌, ◌++◌, Bytes,
  length, concat, length-append, arith,
}

pub record ComposedBytes : Type 0 where
  pub composed : List Bytes
  pub total_len : ℕ

unfoldable pub new : ComposedBytes
new = record { composed = []; total_len = 0 }

unfoldable pub from : List Bytes → ℕ → ComposedBytes
from all total_size = record { composed = all; total_len = total_size }

-- The length is a usize.
unfoldable pub put : ComposedBytes → Bytes → ComposedBytes
put c bytes = record {
  composed = c.composed ++ (bytes ∷ []);
  total_len = (c.total_len + length bytes) % 2 ^ 64;
}

-- The loop that extends the buffer by each part.
unfoldable pub freeze_from : Bytes → List Bytes → Bytes
freeze_from bytes_mut [] = bytes_mut
freeze_from bytes_mut (x ∷ rest) = freeze_from (bytes_mut ++ x) rest

unfoldable pub freeze : ComposedBytes → Bytes
freeze c = freeze_from [] c.composed

unfoldable pub len : ComposedBytes → ℕ
len c = c.total_len

-- The stated length is that of the frozen bytes.
abbrev pub IsExact : ComposedBytes → Type 0
IsExact c = len c ≡ length (freeze c)

freeze_from-append :
    (acc : Bytes) (xs ys : List Bytes)
    → freeze_from acc (xs ++ ys) ≡ freeze_from (freeze_from acc xs) ys
unfolding freeze_from
freeze_from-append acc [] ys = refl
freeze_from-append acc (x ∷ xs) ys = freeze_from-append (acc ++ x) xs ys

pub freeze_from-concat : (acc : Bytes) (xs : List Bytes) → freeze_from acc xs ≡ acc ++ concat xs
unfolding freeze_from
freeze_from-concat acc [] = simp append-nil
freeze_from-concat acc (x ∷ xs) = freeze_from-concat (acc ++ x) xs ∙ append_assoc acc x (concat xs)

pub freeze-from : (xs : List Bytes) (n : ℕ) → freeze (from xs n) ≡ concat xs
unfolding freeze from
freeze-from xs n = freeze_from-concat [] xs

freeze-put : (c : ComposedBytes) (bytes : Bytes) → freeze (put c bytes) ≡ freeze c ++ bytes
unfolding put freeze freeze_from
freeze-put c bytes = freeze_from-append [] c.composed (bytes ∷ [])

-- If the length is that of the frozen bytes and a usize holds the new one, `put` appends the bytes
-- to what `freeze` gives and the length stays that of the frozen bytes.
pub put_lem :
    (c : ComposedBytes) (bytes : Bytes)
    → IsExact c
    → length (freeze c) + length bytes < 2 ^ 64
    → (freeze (put c bytes) ≡ freeze c ++ bytes) × IsExact (put c bytes)
unfolding len
put_lem c bytes exact fits = (
  freeze-put c bytes,
  rw (freeze-put c bytes) (unfold put in omega (arith, length-append (freeze c) bytes)),
)
