-- ===== src/Base/Decimal.antt =====
-- The decimal print of integers, `{}`, with as many digits of fuel as their types can have.
use Prim.Native.Nat.{ℕ, zero, suc, ◌+◌, ◌-◌, ◌*◌, ◌/◌, ◌%◌, ◌^◌, ◌<◌}
use mathlib.Core.Path.{refl, ◌≡◌, ap, sym, ◌∙◌}
use mathlib.Core.List.{List, [], ◌∷◌, ◌++◌}
use native.Mathlib.Omega.{arith}
use native.Mathlib.Nat.{pow-suc}
use r.Base.Tests.{ltb, if◌then◌else◌}
use r.Base.Int.{ℤ, pos, negsuc}

-- The digits of a number that has no more than the fuel.
abbrev pub digits : ℕ → ℕ → List ℕ
digits zero n = []
digits (suc fuel) n =
    let more = digits fuel (n / 10) in
    if ltb n 10 then (48 + n) ∷ [] else more ++ ((48 + n % 10) ∷ [])

-- `{}` of an i32.
abbrev pub display : ℤ → List ℕ
display (pos n) = digits 10 n
display (negsuc n) = 45 ∷ digits 10 (n + 1)

-- `{}` of a usize.
unfoldable pub display_usize : ℕ → List ℕ
display_usize n = digits 20 n

-- The number that digits stand for after those before them.
abbrev value : ℕ → List ℕ → ℕ
value n [] = n
value n (d ∷ ds) = value (n * 10 + (d - 48)) ds

value-append : (n d : ℕ) (xs : List ℕ) → value n (xs ++ (d ∷ [])) ≡ value n xs * 10 + (d - 48)
value-append n d [] = refl
value-append n d (x ∷ xs) = value-append (n * 10 + (x - 48)) d xs

value-digits : (fuel n : ℕ) → n < 10 ^ fuel → value 0 (digits fuel n) ≡ n
value-digits zero n h = omega arith
value-digits (suc fuel) n h =
    let p : 10 ^ suc fuel ≡ 10 ^ fuel * 10 = pow-suc 10 fuel in
    let more = value-digits fuel (n / 10) in
    ground (arith, more, value-append 0 (48 + n % 10) (digits fuel (n / 10)))

-- Two numbers of at most twenty digits with the same print are equal.
pub display_usize-injective :
    (m n : ℕ) → m < 2 ^ 64 → n < 2 ^ 64 → display_usize m ≡ display_usize n → m ≡ n
unfolding display_usize
display_usize-injective m n hm hn e =
    sym (value-digits 20 m (omega arith)) ∙ (ap (value 0) e ∙ value-digits 20 n (omega arith))
