-- ===== src/Urpc/Readers.antt =====
-- The readers of src/urpc/frame.rs read back what is written before the cursor.
use r.Base.{
  ℕ, ◌^◌, ◌<◌, ◌++◌, ◌≡◌, refl, sym, subst, true, false, [], ◌∷◌, Bytes, length, take, drop, ltb,
  leb, if◌then◌else◌, arith, length-append, take-append, drop-append, Bool-cases, inl, inr,
}
use r.Base.Int.{ℤ, pos}
use r.Base.Machine.{InI32, InI64, to_u64_pos, to_i32, to_i32_small}
use r.Error.{Outcome, ok}
use r.Store.Format.{Codec}
use r.Error.{other}
use r.Urpc.Cursor.{done, fail, ◌>>=◌, skip, is_utf8, get_i64, get_i32, get_string, copy}

take_exact : (n : ℕ) (xs ys : Bytes) → length xs ≡ n → take n (xs ++ ys) ≡ xs
take_exact n xs ys e = subst (λ (k : ℕ). take k (xs ++ ys) ≡ xs) e (take-append xs ys)

drop_exact : (n : ℕ) (xs ys : Bytes) → length xs ≡ n → drop n (xs ++ ys) ≡ ys
drop_exact n xs ys e = subst (λ (k : ℕ). drop k (xs ++ ys) ≡ ys) e (drop-append xs ys)

pub skip-append : (n : ℕ) (xs ys : Bytes) → length xs ≡ n → skip n (xs ++ ys) ≡ ok (tt, ys)
unfolding skip
skip-append n xs ys e =
    let room : ltb (length (xs ++ ys)) n ≡ false = rw (length-append xs ys, e) (ground arith) in
    rw (room, drop_exact n xs ys e)

empty_of : (s : Bytes) → leb (length s) 0 ≡ true → s ≡ []
empty_of [] h = refl
empty_of (x ∷ s) h = absurd (ground arith)

module _ (c : Codec) where
  pub get_i32-put :
      (a : ℤ) (rest : Bytes) → InI32 a → get_i32 c (c.put_i32 a ++ rest) ≡ ok (a, rest)
  unfolding get_i32
  get_i32-put a rest fits =
      let size = c.length-put_i32 a in
      let some_left : ltb 0 (length (c.put_i32 a ++ rest)) ≡ true =
        rw (length-append (c.put_i32 a) rest, size) (ground arith) in
      let room : ltb (length (c.put_i32 a ++ rest)) 4 ≡ false =
        rw (length-append (c.put_i32 a) rest, size) (ground arith) in
      rw (
        some_left,
        room,
        take_exact 4 (c.put_i32 a) rest size,
        drop_exact 4 (c.put_i32 a) rest size,
        c.get-put_i32 a fits,
      )

  pub get_i64-put :
      (a : ℤ) (rest : Bytes) → InI64 a → get_i64 c (c.put_i64 a ++ rest) ≡ ok (a, rest)
  unfolding get_i64
  get_i64-put a rest fits =
      let size = c.length-put_i64 a in
      let some_left : ltb 0 (length (c.put_i64 a ++ rest)) ≡ true =
        rw (length-append (c.put_i64 a) rest, size) (ground arith) in
      let room : ltb (length (c.put_i64 a ++ rest)) 8 ≡ false =
        rw (length-append (c.put_i64 a) rest, size) (ground arith) in
      rw (
        some_left,
        room,
        take_exact 8 (c.put_i64 a) rest size,
        drop_exact 8 (c.put_i64 a) rest size,
        c.get-put_i64 a fits,
      )

  copy-append : (s rest : Bytes) → copy c (length s) (s ++ rest) ≡ ok (s, rest)
  unfolding copy
  copy-append s rest = rw (copy, skip-append (length s) s rest refl, take-append s rest)

  checked :
      (s rest : Bytes)
      → is_utf8 s ≡ true
      → (copy c (length s) >>= λ msg. if is_utf8 msg then done msg else fail other) (s ++ rest)
        ≡ ok (s, rest)
  checked s rest valid = rw (◌>>=◌, copy-append s rest) (rw valid)

  -- A string with its length before it, if it is UTF-8.
  pub get_string-put :
      (s rest : Bytes)
      → length s < 2 ^ 31
      → is_utf8 s ≡ true
      → get_string c (c.put_i32 (to_i32 (length s)) ++ (s ++ rest)) ≡ ok (s, rest)
  unfolding get_string
  get_string-put s rest small valid =
      rw
        (
          to_i32_small (length s) small,
          get_i32-put (pos (length s)) (s ++ rest) (omega arith),
          ◌>>=◌,
          to_u64_pos (length s) (omega arith),
        )
        (elim (Bool-cases (leb (length s) 0)) [
          | inl none_left ↦ rw none_left (
              subst
                (λ (x : Bytes). Path (Outcome (Bytes × Bytes)) (ok ([], x ++ rest)) (ok (x, rest)))
                (sym (empty_of s none_left)) refl)
          | inr more ↦
              let room : ltb (length (s ++ rest)) (length s) ≡ false =
                rw (length-append s rest) (ground arith) in
              rw (more, room) (checked s rest valid)
        ])
