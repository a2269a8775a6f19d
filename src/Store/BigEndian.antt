-- ===== src/Store/BigEndian.antt =====
-- Integers in network byte order, as the `bytes` crate documents them: a codec that meets the
-- interface of Store/Format.antt.
use r.Base.{ℕ, ◌+◌, ◌*◌, ◌/◌, ◌%◌, ◌^◌, ◌≡◌, refl, [], ◌∷◌, ◌++◌, Bytes, arith}
use r.Base.Int.{ℤ, pos, negsuc}
use r.Base.Machine.{signed32, pattern32, InI64, InI32, signed64, pattern64}
use r.Store.Format.{Codec}

unfoldable pub be32 : ℕ → Bytes
be32 p = (p / 2 ^ 24) ∷ (p / 2 ^ 16 % 256) ∷ (p / 2 ^ 8 % 256) ∷ (p % 256) ∷ []

abbrev pub word32 : ℕ → ℕ → ℕ → ℕ → ℕ
word32 a b c d = a * 2 ^ 24 + b * 2 ^ 16 + c * 2 ^ 8 + d

word32-be32 : (p : ℕ) → word32 (p / 2 ^ 24) (p / 2 ^ 16 % 256) (p / 2 ^ 8 % 256) (p % 256) ≡ p
word32-be32 p = omega arith

signed32-pattern32 : (a : ℤ) → InI32 a → signed32 (pattern32 a) ≡ a
signed32-pattern32 (pos n) h = ground arith
signed32-pattern32 (negsuc n) h = ground arith

signed64-pattern64 : (a : ℤ) → InI64 a → signed64 (pattern64 a) ≡ a
signed64-pattern64 (pos n) h = ground arith
signed64-pattern64 (negsuc n) h = ground arith

unfoldable pub put_i32 : ℤ → Bytes
unfolding be32
put_i32 a = be32 (pattern32 a)

unfoldable pub get_i32 : Bytes → ℤ
get_i32 (a ∷ b ∷ c ∷ d ∷ rest) = signed32 (word32 a b c d)
get_i32 _ = pos 0

unfoldable pub put_i64 : ℤ → Bytes
unfolding be32
put_i64 a = be32 (pattern64 a / 2 ^ 32) ++ be32 (pattern64 a % 2 ^ 32)

unfoldable pub get_i64 : Bytes → ℤ
get_i64 (a ∷ b ∷ c ∷ d ∷ e ∷ f ∷ g ∷ h ∷ rest) = signed64 (word32 a b c d * 2 ^ 32 + word32 e f g h)
get_i64 _ = pos 0

pub get-put_i32 : (a : ℤ) → InI32 a → get_i32 (put_i32 a) ≡ a
unfolding get_i32 put_i32
get-put_i32 a h = rw (word32-be32 (pattern32 a)) (signed32-pattern32 a h)

halves : (p : ℕ) → p / 2 ^ 32 * 2 ^ 32 + p % 2 ^ 32 ≡ p
halves p = omega arith

pub get-put_i64 : (a : ℤ) → InI64 a → get_i64 (put_i64 a) ≡ a
unfolding get_i64 put_i64
get-put_i64 a h =
    rw
      (word32-be32 (pattern64 a / 2 ^ 32), word32-be32 (pattern64 a % 2 ^ 32), halves (pattern64 a))
      (signed64-pattern64 a h)

unfoldable pub big_endian : Codec
unfolding put_i32 get_i32 put_i64 get_i64
big_endian = record {
  put_i32 = put_i32;
  put_i64 = put_i64;
  get_i32 = get_i32;
  get_i64 = get_i64;
  length-put_i32 = λ a. refl;
  length-put_i64 = λ a. refl;
  get-put_i32 = get-put_i32;
  get-put_i64 = get-put_i64;
}
