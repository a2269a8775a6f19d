-- ===== src/Budget.antt =====
-- src/store/mem/budget.rs and src/store/mem/capacity.rs: the memory budget of the hot store. The
-- lock is held for a whole method, so a method is one step. The gauges are not modelled.
pub mod Invariant
pub mod Ledger
mod Tests
use r.Base.{Bool, true, false, if◌then◌else◌}
use r.Base.Int.{ℤ, pos, negsuc, ltb_ℤ}
use r.Base.Machine.{add64, sub64}

pub record MemoryBudget : Type 0 where
  pub capacity : ℤ
  pub allocated : ℤ
  pub used : ℤ
  pub allocation_inc_counter : ℤ

pub record CapacitySnapshot : Type 0 where
  pub capacity : ℤ
  pub allocated : ℤ
  pub used : ℤ

unfoldable pub new : ℤ → MemoryBudget
new capacity = record {
  capacity = capacity;
  allocated = pos 0;
  used = pos 0;
  allocation_inc_counter = pos 0;
}

unfoldable pub snapshot : MemoryBudget → CapacitySnapshot
snapshot b = record { capacity = b.capacity; allocated = b.allocated; used = b.used }

unfoldable pub require_allocated : MemoryBudget → ℤ → MemoryBudget × (Bool × ℤ)
require_allocated b size =
    let remaining = sub64 (sub64 b.capacity b.allocated) b.used in
    let counter = add64 b.allocation_inc_counter (pos 1) in
    if ltb_ℤ remaining size then (b, (false, negsuc 0)) else (
      record b { allocated = add64 b.allocated size; allocation_inc_counter = counter },
      (true, counter),
    )

unfoldable pub move_allocated_to_used : MemoryBudget → ℤ → MemoryBudget × Bool
move_allocated_to_used b size =
    if ltb_ℤ b.allocated size
    then (record b { allocated = pos 0; used = add64 b.used b.allocated }, true)
    else (record b { allocated = sub64 b.allocated size; used = add64 b.used size }, true)

unfoldable pub inc_used : MemoryBudget → ℤ → MemoryBudget × Bool
inc_used b size = (record b { used = add64 b.used size }, true)

unfoldable pub dec_used : MemoryBudget → ℤ → MemoryBudget × Bool
dec_used b size =
    if ltb_ℤ b.used size
    then (record b { used = pos 0 }, true)
    else (record b { used = sub64 b.used size }, true)

unfoldable pub dec_allocated : MemoryBudget → ℤ → MemoryBudget × Bool
dec_allocated b size =
    if ltb_ℤ b.allocated size
    then (record b { allocated = pos 0 }, true)
    else (record b { allocated = sub64 b.allocated size }, true)
