-- ===== src/Budget/Invariant.antt =====
-- The budget of src/store/mem/budget.rs never promises more than its capacity, and none of its
-- arithmetic overflows.
use r.Base.{inr, inl, Bool-cases, ◌∙◌, ◌≡◌, ◌↔◌, false, arith, ap}
use r.Base.Int.{negsuc, not-ltb_ℤ→le, ℤ, pos, ltb_ℤ, ◌+ℤ◌, ◌-ℤ◌, ◌≤ℤ◌, int_laws, +ℤ_parts, -ℤ_parts}
use r.Base.Machine.{InI64, add64, sub64, add64_eq, sub64_eq}
use r.Budget.{dec_allocated, dec_used, move_allocated_to_used, require_allocated, MemoryBudget}

pub record IsValid (b : MemoryBudget) : Type 0 where
  pub allocated_nonneg : pos 0 ≤ℤ b.allocated
  pub used_nonneg : pos 0 ≤ℤ b.used
  pub within : b.allocated +ℤ b.used ≤ℤ b.capacity
  pub capacity_fits : InI64 b.capacity

-- What is left is computed with no overflow.
pub remaining_eq :
    (b : MemoryBudget)
    → IsValid b
    → sub64 (sub64 b.capacity b.allocated) b.used ≡ b.capacity -ℤ b.allocated -ℤ b.used
remaining_eq b v =
    let fits : InI64 (b.capacity -ℤ b.allocated) = omega int_laws in
    let fits' : InI64 (b.capacity -ℤ b.allocated -ℤ b.used) = omega int_laws in
    ap (λ (x : ℤ). sub64 x b.used) (sub64_eq b.capacity b.allocated fits)
    ∙ sub64_eq (b.capacity -ℤ b.allocated) b.used fits'

-- On a valid budget the test of `require_allocated` is the plain comparison.
pub require_test :
    (b : MemoryBudget) (size : ℤ)
    → IsValid b
    → (ltb_ℤ (sub64 (sub64 b.capacity b.allocated) b.used) size ≡ false)
      ↔ (b.allocated +ℤ b.used +ℤ size ≤ℤ b.capacity)
require_test b size v = rw (remaining_eq b v) (
  λ h. ground (
    arith,
    -ℤ_parts (b.capacity -ℤ b.allocated) b.used,
    -ℤ_parts b.capacity b.allocated,
    +ℤ_parts (b.allocated +ℤ b.used) size,
    +ℤ_parts b.allocated b.used,
  ),
  λ h. ground (
    arith,
    -ℤ_parts (b.capacity -ℤ b.allocated) b.used,
    -ℤ_parts b.capacity b.allocated,
    +ℤ_parts (b.allocated +ℤ b.used) size,
    +ℤ_parts b.allocated b.used,
  ),
)

module _ (b : MemoryBudget) (size : ℤ) (v : IsValid b) (size_nonneg : pos 0 ≤ℤ size) where
  pub allocated_grows :
      b.allocated +ℤ b.used +ℤ size ≤ℤ b.capacity → add64 b.allocated size ≡ b.allocated +ℤ size
  allocated_grows h =
      let fits : InI64 (b.allocated +ℤ size) = omega int_laws in add64_eq b.allocated size fits

  pub allocated_shrinks :
      ltb_ℤ b.allocated size ≡ false → sub64 b.allocated size ≡ b.allocated -ℤ size
  allocated_shrinks h =
      let fits : InI64 (b.allocated -ℤ size) = omega (int_laws, not-ltb_ℤ→le b.allocated size h) in
      sub64_eq b.allocated size fits

  pub used_shrinks : ltb_ℤ b.used size ≡ false → sub64 b.used size ≡ b.used -ℤ size
  used_shrinks h =
      let fits : InI64 (b.used -ℤ size) = omega (int_laws, not-ltb_ℤ→le b.used size h) in
      sub64_eq b.used size fits

abbrev HasRoom : MemoryBudget → ℤ → Type 0
HasRoom b size = b.allocated +ℤ b.used +ℤ size ≤ℤ b.capacity

-- Outcomes of a request on a valid budget, in plain integers.
module _ (b : MemoryBudget) (size : ℤ) (v : IsValid b) (size_nonneg : pos 0 ≤ℤ size) where
  pub require_granted :
      HasRoom b size
      → (require_allocated b size).0 ≡ record b {
        allocated = b.allocated +ℤ size;
        allocation_inc_counter = add64 b.allocation_inc_counter (pos 1);
      }
  unfolding require_allocated
  require_granted h = rw ((require_test b size v).1 h, allocated_grows b size v size_nonneg h)

  pub require_refused : ¬ HasRoom b size → require_allocated b size ≡ (b, (false, negsuc 0))
  unfolding require_allocated
  require_refused h = elim (Bool-cases (ltb_ℤ (sub64 (sub64 b.capacity b.allocated) b.used) size)) [
    | inl full ↦ rw full
    | inr room ↦ absurd (h ((require_test b size v).0 room))
  ]

  pub require_allocated-IsValid : IsValid (require_allocated b size).0
  unfolding require_allocated
  require_allocated-IsValid =
      elim (Bool-cases (ltb_ℤ (sub64 (sub64 b.capacity b.allocated) b.used) size)) [
        | inl full ↦ rw full v
        | inr room ↦
            rw (room, allocated_grows b size v size_nonneg ((require_test b size v).0 room))
              (record {
                allocated_nonneg = omega int_laws;
                used_nonneg = v.used_nonneg;
                within = omega (int_laws, (require_test b size v).0 room);
                capacity_fits = v.capacity_fits;
              })
      ]

  pub move_allocated_to_used-IsValid : IsValid (move_allocated_to_used b size).0
  unfolding move_allocated_to_used
  move_allocated_to_used-IsValid = elim (Bool-cases (ltb_ℤ b.allocated size)) [
    | inl short ↦
        let fits : InI64 (b.used +ℤ b.allocated) = omega int_laws in
        rw (short, add64_eq b.used b.allocated fits) (omega int_laws)
    | inr enough ↦
        let fits : InI64 (b.used +ℤ size) =
          omega (int_laws, not-ltb_ℤ→le b.allocated size enough) in
        rw (enough, add64_eq b.used size fits, allocated_shrinks b size v size_nonneg enough)
          (omega (int_laws, not-ltb_ℤ→le b.allocated size enough))
  ]

  pub dec_used-IsValid : IsValid (dec_used b size).0
  unfolding dec_used
  dec_used-IsValid = elim (Bool-cases (ltb_ℤ b.used size)) [
    | inl short ↦ rw short (omega int_laws)
    | inr enough ↦
        rw (enough, used_shrinks b size v size_nonneg enough)
          (omega (int_laws, not-ltb_ℤ→le b.used size enough))
  ]

  pub dec_allocated-IsValid : IsValid (dec_allocated b size).0
  unfolding dec_allocated
  dec_allocated-IsValid = elim (Bool-cases (ltb_ℤ b.allocated size)) [
    | inl short ↦ rw short (omega int_laws)
    | inr enough ↦
        rw (enough, allocated_shrinks b size v size_nonneg enough)
          (omega (int_laws, not-ltb_ℤ→le b.allocated size enough))
  ]
