-- ===== src/Budget/Tests.antt =====
-- Runs of the budget, and its theorems at concrete inputs.
use r.Base.{◌≡◌, refl, List, [], ◌∷◌, true, arith}
use r.Base.Machine.{add64, sub64}
use r.Base.Int.{◌+ℤ◌, pos}
use r.Budget.{new, require_allocated, MemoryBudget}
use r.Budget.Invariant.{IsValid}
use r.Budget.Ledger.{
  step-account, run-new-IsValid, Operation, requires, moves, decs_used, run, step, ledger, account,
}

-- The first steps of the unit test of budget.rs.
granted : (require_allocated (new (pos 100)) (pos 50)).1 ≡ (true, pos 1)
unfolding new require_allocated add64 sub64
granted = refl

abbrev calls : List Operation
calls = requires 120 ∷ requires 50 ∷ moves 50 ∷ requires 60 ∷ decs_used 30 ∷ []

run-new-IsValid_example : IsValid (run (new (pos 100)) calls)
run-new-IsValid_example = run-new-IsValid (pos 100) calls (omega arith) (omega arith)

abbrev half_full : MemoryBudget
half_full = record {
  capacity = pos 100;
  allocated = pos 20;
  used = pos 30;
  allocation_inc_counter = pos 4;
}

half_full-IsValid : IsValid half_full
unfolding ◌+ℤ◌
half_full-IsValid = omega arith

step-account_example :
    ((step half_full (moves 25)).allocated
      ≡ pos (account 100 (ledger half_full) (moves 25)).promised)
    × ((step half_full (moves 25)).used ≡ pos (account 100 (ledger half_full) (moves 25)).held)
step-account_example = step-account half_full (moves 25) half_full-IsValid
