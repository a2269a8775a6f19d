-- ===== src/Budget/Ledger.antt =====
-- The budget of src/store/mem/budget.rs against a ledger of plain numbers, over whole histories of
-- calls with sizes that are not negative.
use r.Base.{
  refl, ap, ◌∙◌, min, ℕ, ◌+◌, ◌-◌, ◌≡◌, true, false, List, [], ◌∷◌, arith, Bool-cases, inl, inr,
  if◌then◌else◌, leb,
}
use r.Base.Int.{
  negsuc, neg_part_zero, +ℤ_parts, not-ltb_ℤ→le, pos_part--ℤ, pos_part-+ℤ, ℤ, pos, pos_part, ltb_ℤ,
  ◌+ℤ◌, ◌≤ℤ◌, int_laws,
}
use r.Base.Machine.{add64_eq, InI64}
use r.Budget.{dec_allocated, dec_used, move_allocated_to_used, require_allocated, MemoryBudget, new}
use r.Budget.Invariant.{
  require_refused, allocated_shrinks, used_shrinks, require_granted, dec_allocated-IsValid,
  dec_used-IsValid, move_allocated_to_used-IsValid, require_allocated-IsValid, IsValid,
}

pub data Operation : Type 0 where
  requires moves decs_used decs_allocated : ℕ → Operation

pub step : MemoryBudget → Operation → MemoryBudget
step b (requires n) = (require_allocated b (pos n)).0
step b (moves n) = (move_allocated_to_used b (pos n)).0
step b (decs_used n) = (dec_used b (pos n)).0
step b (decs_allocated n) = (dec_allocated b (pos n)).0

pub run : MemoryBudget → List Operation → MemoryBudget
run b [] = b
run b (o ∷ os) = run (step b o) os

step-IsValid : (b : MemoryBudget) (o : Operation) → IsValid b → IsValid (step b o)
unfolding step
step-IsValid b (requires n) v = require_allocated-IsValid b (pos n) v (omega arith)
step-IsValid b (moves n) v = move_allocated_to_used-IsValid b (pos n) v (omega arith)
step-IsValid b (decs_used n) v = dec_used-IsValid b (pos n) v (omega arith)
step-IsValid b (decs_allocated n) v = dec_allocated-IsValid b (pos n) v (omega arith)

run-IsValid : (b : MemoryBudget) (os : List Operation) → IsValid b → IsValid (run b os)
unfolding run
run-IsValid b [] v = v
run-IsValid b (o ∷ os) v = run-IsValid (step b o) os (step-IsValid b o v)

pub new-IsValid : (c : ℤ) → pos 0 ≤ℤ c → InI64 c → IsValid (new c)
unfolding new ◌+ℤ◌
new-IsValid c h fits = record {
  allocated_nonneg = omega arith;
  used_nonneg = omega arith;
  within = ground arith;
  capacity_fits = fits;
}

-- From a new budget with a capacity of an i64 that is not negative, after any calls of
-- `require_allocated`, `move_allocated_to_used`, `dec_used` and `dec_allocated` with sizes that are
-- not negative, allocated and used are not negative and together at most the capacity.
pub run-new-IsValid :
    (c : ℤ) (os : List Operation) → pos 0 ≤ℤ c → InI64 c → IsValid (run (new c) os)
run-new-IsValid c os h fits = run-IsValid (new c) os (new-IsValid c h fits)

pub record Ledger : Type 0 where
  pub promised : ℕ
  pub held : ℕ

abbrev pub ledger : MemoryBudget → Ledger
ledger b = record { promised = pos_part b.allocated; held = pos_part b.used }

-- What each call means, in natural numbers, whose subtraction stops at zero.
abbrev pub account : ℕ → Ledger → Operation → Ledger
account c l (requires n) =
    if leb (l.promised + l.held + n) c then record l { promised = l.promised + n } else l
account c l (moves n) = record { promised = l.promised - n; held = l.held + min n l.promised }
account c l (decs_used n) = record l { held = l.held - n }
account c l (decs_allocated n) = record l { promised = l.promised - n }

-- On a valid budget, in plain numbers.
module _ (b : MemoryBudget) (n : ℕ) (v : IsValid b) where
  requires_account :
      ledger (require_allocated b (pos n)).0 ≡ account (pos_part b.capacity) (ledger b) (requires n)
  requires_account =
      elim (Bool-cases (leb (pos_part b.allocated + pos_part b.used + n) (pos_part b.capacity))) [
        | inl room ↦
            rw (room, require_granted b (pos n) v (omega arith) (enough room))
              (rw (pos_part-+ℤ b.allocated (pos n) v.allocated_nonneg (omega arith)))
        | inr full ↦ rw (full, require_refused b (pos n) v (omega arith) (λ h. short full h))
      ]
    where
      enough :
          leb (pos_part b.allocated + pos_part b.used + n) (pos_part b.capacity) ≡ true
          → b.allocated +ℤ b.used +ℤ pos n ≤ℤ b.capacity
      enough h = ground (
        arith,
        +ℤ_parts (b.allocated +ℤ b.used) (pos n),
        +ℤ_parts b.allocated b.used,
        neg_part_zero b.allocated,
        neg_part_zero b.used,
        neg_part_zero b.capacity,
      )

      short :
          leb (pos_part b.allocated + pos_part b.used + n) (pos_part b.capacity) ≡ false
          → b.allocated +ℤ b.used +ℤ pos n ≤ℤ b.capacity
          → ⊥
      short h k = ground (
        arith,
        +ℤ_parts (b.allocated +ℤ b.used) (pos n),
        +ℤ_parts b.allocated b.used,
        neg_part_zero b.allocated,
        neg_part_zero b.used,
        neg_part_zero b.capacity,
      )

  moves_account :
      ledger (move_allocated_to_used b (pos n)).0
      ≡ account (pos_part b.capacity) (ledger b) (moves n)
  unfolding move_allocated_to_used
  moves_account = elim (Bool-cases (ltb_ℤ b.allocated (pos n))) [
    | inl short ↦
        let fits : InI64 (b.used +ℤ b.allocated) = omega int_laws in
        rw
          (
            short,
            add64_eq b.used b.allocated fits,
            pos_part-+ℤ b.used b.allocated v.used_nonneg v.allocated_nonneg,
          )
          (ground arith)
    | inr enough ↦
        let le = not-ltb_ℤ→le b.allocated (pos n) enough in
        let fits : InI64 (b.used +ℤ pos n) = omega (int_laws, le) in
        rw
          (
            enough,
            add64_eq b.used (pos n) fits,
            allocated_shrinks b (pos n) v (omega arith) enough,
            pos_part-+ℤ b.used (pos n) v.used_nonneg (omega arith),
            pos_part--ℤ b.allocated (pos n) (omega arith) le,
          )
          (ground arith)
  ]

  decs_used_account :
      ledger (dec_used b (pos n)).0 ≡ account (pos_part b.capacity) (ledger b) (decs_used n)
  unfolding dec_used
  decs_used_account = elim (Bool-cases (ltb_ℤ b.used (pos n))) [
    | inl short ↦ rw short (ground (arith, v.used_nonneg))
    | inr enough ↦
        rw (enough, used_shrinks b (pos n) v (omega arith) enough)
          (rw (pos_part--ℤ b.used (pos n) (omega arith) (not-ltb_ℤ→le b.used (pos n) enough)))
  ]

  decs_allocated_account :
      ledger (dec_allocated b (pos n)).0
      ≡ account (pos_part b.capacity) (ledger b) (decs_allocated n)
  unfolding dec_allocated
  decs_allocated_account = elim (Bool-cases (ltb_ℤ b.allocated (pos n))) [
    | inl short ↦ rw short (ground arith)
    | inr enough ↦
        rw (enough, allocated_shrinks b (pos n) v (omega arith) enough)
          (rw (
            pos_part--ℤ b.allocated (pos n) (omega arith)
              (not-ltb_ℤ→le b.allocated (pos n) enough)))
  ]

ledger-step :
    (b : MemoryBudget) (o : Operation)
    → IsValid b
    → ledger (step b o) ≡ account (pos_part b.capacity) (ledger b) o
unfolding step
ledger-step b (requires n) v = requires_account b n v
ledger-step b (moves n) v = moves_account b n v
ledger-step b (decs_used n) v = decs_used_account b n v
ledger-step b (decs_allocated n) v = decs_allocated_account b n v

of_nonneg : (a : ℤ) → pos 0 ≤ℤ a → a ≡ pos (pos_part a)
of_nonneg (pos n) h = refl
of_nonneg (negsuc n) h = absurd (omega (arith, h))

-- On a valid budget, whose amounts are not negative and together at most the capacity, each of
-- `require_allocated`, `move_allocated_to_used`, `dec_used` and `dec_allocated` with a size that
-- is not negative leaves in allocated and used exactly the natural numbers of the ledger: a request is
-- granted if it fits whole, a move takes at most what is allocated, and an amount that would fall
-- below zero is zero.
pub step-account :
    (b : MemoryBudget) (o : Operation)
    → IsValid b
    → ((step b o).allocated ≡ pos (account (pos_part b.capacity) (ledger b) o).promised)
      × ((step b o).used ≡ pos (account (pos_part b.capacity) (ledger b) o).held)
step-account b o v =
    let w = step-IsValid b o v in
    let same = ledger-step b o v in
    (
      of_nonneg (step b o).allocated w.allocated_nonneg ∙ ap (λ (l : Ledger). pos l.promised) same,
      of_nonneg (step b o).used w.used_nonneg ∙ ap (λ (l : Ledger). pos l.held) same,
    )
