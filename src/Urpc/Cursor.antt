-- ===== src/Urpc/Cursor.antt =====
-- The readers at the end of src/urpc/frame.rs. A cursor is the bytes that remain; a reader returns a
-- value with the cursor behind it, an error or a panic: `get_i64` and `get_i32` of the `bytes`
-- crate panic when fewer bytes remain than the integer has.
use r.Base.{
  ℕ, Bool, true, false, ◌&&◌, Option, none, some, [], ◌∷◌, Bytes, length, take, drop, ltb, leb,
  if◌then◌else◌, zero, suc,
}
use r.Base.Int.{ℤ, pos, leb_ℤ}
use r.Base.Machine.{to_u64}
use r.Error.{WorkerError, Outcome, ok, err, panic, stream_incorrect, other}
use r.Store.Format.{Codec}

abbrev pub Reader {ℓ} : Type ℓ → Type ℓ
Reader A = Bytes → Outcome (A × Bytes)

infixl 5 ◌>>=◌ ◌>>◌
abbrev pub ◌>>=◌ {ℓ κ} : {A : Type ℓ} {B : Type κ} → Reader A → (A → Reader B) → Reader B
◌>>=◌ m f src = elim (m src) [ ok x ↦ f x.0 x.1 | err e ↦ err e | panic ↦ panic ]

abbrev pub ◌>>◌ {ℓ} : {B : Type ℓ} → Reader (Unit {0}) → Reader B → Reader B
m >> k = m >>= λ _. k

abbrev pub done {ℓ} : {A : Type ℓ} → A → Reader A
done a src = ok (a, src)

abbrev pub fail {ℓ} : {A : Type ℓ} → WorkerError → Reader A
fail e src = err e

-- `Buf::remaining`
abbrev pub remaining : Reader ℕ
remaining src = ok (length src, src)

-- `std::string::String::from_utf8`: how many continuation bytes are due, and the bounds of the next.
unfoldable pub utf8_from : ℕ → ℕ → ℕ → Bytes → Bool
utf8_from zero lo hi [] = true
utf8_from (suc n) lo hi [] = false
utf8_from zero lo hi (b ∷ bs) =
    let ascii = utf8_from 0 128 191 bs in
    let two = utf8_from 1 128 191 bs in
    let three = utf8_from 2 128 191 bs in
    let four = utf8_from 3 128 191 bs in
    let after_e0 = utf8_from 2 160 191 bs in
    let after_ed = utf8_from 2 128 159 bs in
    let after_f0 = utf8_from 3 144 191 bs in
    let after_f4 = utf8_from 3 128 143 bs in
    if ltb b 128
    then ascii
    else if ltb b 194
    then false
    else if ltb b 224
    then two
    else if ltb b 225
    then after_e0
    else if ltb b 237
    then three
    else if ltb b 238
    then after_ed
    else if ltb b 240
    then three
    else if ltb b 241
    then after_f0
    else if ltb b 244
    then four
    else if ltb b 245
    then after_f4
    else false
utf8_from (suc n) lo hi (b ∷ bs) = let rest = utf8_from n 128 191 bs in leb lo b && leb b hi && rest

abbrev pub is_utf8 : Bytes → Bool
is_utf8 = utf8_from 0 128 191

unfoldable pub skip : ℕ → Reader (Unit {0})
skip n src = if ltb (length src) n then err stream_incorrect else ok (tt, drop n src)

unfoldable pub get_u8 : Reader ℕ
get_u8 [] = err stream_incorrect
get_u8 (b ∷ src) = ok (b, src)

module _ (c : Codec) where
  unfoldable pub get_i64 : Reader ℤ
  get_i64 src =
      if ltb 0 (length src)
      then if ltb (length src) 8 then panic else ok (c.get_i64 (take 8 src), drop 8 src)
      else err stream_incorrect

  unfoldable pub get_i32 : Reader ℤ
  get_i32 src =
      if ltb 0 (length src)
      then if ltb (length src) 4 then panic else ok (c.get_i32 (take 4 src), drop 4 src)
      else err stream_incorrect

  -- The bytes at the cursor, as many as are asked for, and the cursor behind them.
  unfoldable pub copy : ℕ → Reader Bytes
  copy n src = elim (skip n src) [ ok x ↦ ok (take n src, x.1) | err e ↦ err e | panic ↦ panic ]

  unfoldable pub get_bytes : Reader (Option Bytes)
  get_bytes = do
    bytes_data_len ← get_i32
    left ← remaining
    let n = to_u64 bytes_data_len
    if leb_ℤ bytes_data_len (pos 0)
        then done none
        else if ltb left n
        then fail stream_incorrect
        else do found ← copy n; done (some found)

  unfoldable pub get_string : Reader Bytes
  get_string = do
    prefix ← get_i32
    left ← remaining
    let len = to_u64 prefix
    if leb len 0
        then done []
        else if ltb left len
        then fail stream_incorrect
        else do msg ← copy len; if is_utf8 msg then done msg else fail other
