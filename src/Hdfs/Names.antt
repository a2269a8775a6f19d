-- ===== src/Hdfs/Names.antt =====
-- src/store/hdfs.rs: the files of two indices of a partition have different names.
use r.Base.{
  ℕ, zero, suc, ◌+◌, ◌/◌, ◌%◌, ◌<◌, ◌^◌, false, ◌||◌, [], ◌∷◌, ◌++◌, Bytes, ◌≡◌, ◌≢◌, refl, ap₂,
  sym, ◌∙◌, arith, append_assoc, ◌==◌, bytes_eq, nat_eq, bytes_beq_iff, Bool-cases, inl, inr,
}
use mathlib.Core.List.{head-eq_of_cons-eq, tail-eq_of_cons-eq, append_cancel_left}
use r.Base.Decimal.{digits, display_usize, display_usize-injective}
use r.LocalFile.Paths.{data_suffix, index_suffix}
use r.Hdfs.Paths.{with_number, data_file, index_file, contains}

contains-append : (x : ℕ) (a b : Bytes) → contains x (a ++ b) ≡ (contains x a || contains x b)
contains-append x [] b = refl
contains-append x (y ∷ a) b = ground (arith, contains-append x a b)

-- No underscore stands in a print.
digits_lem : (fuel n : ℕ) → contains 95 (digits fuel n) ≡ false
digits_lem zero n = refl
digits_lem (suc fuel) n = ground (
  arith,
  digits_lem fuel (n / 10),
  contains-append 95 (digits fuel (n / 10)) ((48 + n % 10) ∷ []),
)

display_usize_lem : (n : ℕ) → contains 95 (display_usize n) ≡ false
unfolding display_usize
display_usize_lem n = digits_lem 20 n

-- What stands before the first underscore is determined.
before_underscore :
    (a b x y : Bytes)
    → contains 95 a ≡ false
    → contains 95 b ≡ false
    → a ++ (95 ∷ x) ≡ b ++ (95 ∷ y)
    → a ≡ b
before_underscore [] [] x y ha hb e = refl
before_underscore [] (c ∷ b) x y ha hb e =
    let head : 95 ≡ c = head-eq_of_cons-eq e in absurd (ground (arith, hb, head))
before_underscore (c ∷ a) [] x y ha hb e =
    let head : c ≡ 95 = head-eq_of_cons-eq e in absurd (ground (arith, ha, head))
before_underscore (c ∷ a) (d ∷ b) x y ha hb e =
    ap₂ (λ k (l : Bytes). k ∷ l) (head-eq_of_cons-eq e)
      (before_underscore a b x y (ground (arith, ha)) (ground (arith, hb)) (tail-eq_of_cons-eq e))

-- A name with an index, and more after an underscore.
names_differ :
    (path x y : Bytes) (i j : ℕ)
    → i < 2 ^ 64
    → j < 2 ^ 64
    → i ≢ j
    → with_number path i ++ (95 ∷ x) ≢ with_number path j ++ (95 ∷ y)
unfolding with_number
names_differ path x y i j hi hj differ e =
    let tails = append_cancel_left path _ _ (
      sym (append_assoc path (95 ∷ display_usize i) (95 ∷ x))
      ∙ (e ∙ append_assoc path (95 ∷ display_usize j) (95 ∷ y))) in
    differ (
      display_usize-injective i j hi hj (
        before_underscore (display_usize i) (display_usize j) x y (display_usize_lem i)
          (display_usize_lem j) (tail-eq_of_cons-eq tails)))

beq_false : (a b : Bytes) → a ≢ b → (a == b) ≡ false
beq_false a b differ = elim (Bool-cases (a == b)) [
  | inl hit ↦ absurd (differ ((bytes_beq_iff a b).0 hit))
  | inr miss ↦ miss
]

module _ (path : Bytes) (i j : ℕ) (hi : i < 2 ^ 64) (hj : j < 2 ^ 64) (differ : i ≢ j) where
  pub prefixes_differ : (with_number path i == with_number path j) ≡ false
  unfolding with_number
  prefixes_differ = beq_false _ _ λ e. differ (
      display_usize-injective i j hi hj (
        tail-eq_of_cons-eq
          (append_cancel_left path (95 ∷ display_usize i) (95 ∷ display_usize j) e)))

  files_differ :
      (n m : ℕ) (s t : Bytes)
      → (with_number (with_number path i) n ++ s == with_number (with_number path j) m ++ t) ≡ false
  unfolding with_number
  files_differ n m s t = beq_false _ _ λ e.
      names_differ path (display_usize n ++ s) (display_usize m ++ t) i j hi hj differ (
        sym (append_assoc (with_number path i) (95 ∷ display_usize n) s)
        ∙ (e ∙ append_assoc (with_number path j) (95 ∷ display_usize m) t))

  -- No file of the first index is one of the second.
  pub record AreApart (file : Bytes) : Type 0 where
    pub data_apart : (n : ℕ) → (data_file (with_number path i) n == file) ≡ false
    pub index_apart : (n : ℕ) → (index_file (with_number path i) n == file) ≡ false

  pub data_file-AreApart : (m : ℕ) → AreApart (data_file (with_number path j) m)
  unfolding data_file index_file
  data_file-AreApart m = record {
    data_apart = λ n. files_differ n m data_suffix data_suffix;
    index_apart = λ n. files_differ n m index_suffix data_suffix;
  }

  pub index_file-AreApart : (m : ℕ) → AreApart (index_file (with_number path j) m)
  unfolding data_file index_file
  index_file-AreApart m = record {
    data_apart = λ n. files_differ n m data_suffix index_suffix;
    index_apart = λ n. files_differ n m index_suffix index_suffix;
  }
