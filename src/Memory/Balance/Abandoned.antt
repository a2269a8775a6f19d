-- ===== src/Memory/Balance/Abandoned.antt =====
-- The stores of src/store/memory.rs that `from` builds: their eviction callback frees a budget that is
-- not the store's.
use r.Base.{
  ℕ, ◌≡◌, refl, Bool, true, false, Option, none, some, if◌then◌else◌, Bool-cases, Option-cases, inl,
  inr,
}
use r.Base.Int.{ℤ, pos}
use r.Base.Map
use r.Budget
use r.Budget.{MemoryBudget}
use r.Ticket
use r.Memory.{
  uid_eq, from, require_buffer, release_ticket, release_allocated_func, ticket_check, insert, purge,
  clear_spilled_buffer, get_or_create_buffer, get_buffer, dec_allocated, move_allocated_to_used,
}
use r.Memory.Balance.{
  Account, Step, requires, releases, moves, frees, evicts, inserts, clears, purges, Reach, here,
  next,
}

abbrev pub from_account : ℕ → ℤ → Account
from_account capacity timeout = record { store = from capacity timeout; pending = pos 0 }

-- The callback has a budget of its own.
abbrev Owns : Option MemoryBudget → Type 0
Owns o = (own : MemoryBudget) × (o ≡ some own)

callback_keeps :
    (c : Bool) (size : ℤ) (b : MemoryBudget) (o : Option MemoryBudget)
    → Owns o
    → ((if c then release_allocated_func size (b, o) else (b, o)).0 ≡ b)
      × Owns (if c then release_allocated_func size (b, o) else (b, o)).1
unfolding release_allocated_func
callback_keeps true size b none (own, e) = cc
callback_keeps true size b (some x) (own, e) = (refl, (_, refl))
callback_keeps false size b o (own, e) = (refl, (own, e))

Step-Owns : (a c : Account) → Step a c → Owns a.store.callback_budget → Owns c.store.callback_budget
unfolding require_buffer release_ticket ticket_check Ticket.ticket_check_round
    move_allocated_to_used dec_allocated insert get_or_create_buffer purge clear_spilled_buffer
    get_buffer
Step-Owns a _ (requires uid size now nonneg fits) h =
    elim (Bool-cases (Budget.require_allocated a.store.budget size).1.0) [
      | inl granted ↦ rw granted h
      | inr refused ↦ rw refused h
    ]
Step-Owns a _ (releases id size e) h = h
Step-Owns a _ (moves size nonneg le) h = h
Step-Owns a _ (frees size nonneg le) h = h
Step-Owns a _ (evicts now) h = (callback_keeps _ _ a.store.budget a.store.callback_budget h).1
Step-Owns a _ (inserts uid blocks size) h = elim (Option-cases (Map.get uid a.store.state)) [
  | inl gone ↦ rw (insert, get_or_create_buffer, gone) h
  | inr (b, there) ↦ rw (insert, get_or_create_buffer, there) h
]
Step-Owns a _ (clears uid id len small) h = elim (Option-cases (Map.get uid a.store.state)) [
  | inl gone ↦ rw (clear_spilled_buffer, get_buffer, gone) h
  | inr (b, there) ↦ rw (clear_spilled_buffer, get_buffer, there) h
]
Step-Owns a _ (purges app sh nonneg) h = h

Reach-Owns :
    (capacity : ℕ) (timeout : ℤ) (a : Account)
    → Reach (from_account capacity timeout) a
    → Owns a.store.callback_budget
unfolding from
Reach-Owns capacity timeout _ here = (_, refl)
Reach-Owns capacity timeout _ (next {b} {c} r s) = Step-Owns b c s (Reach-Owns capacity timeout b r)

-- On a store that `from` built, after any history of calls in which required sizes are not negative,
-- the ticket counter does not overflow, no more is moved to used or freed than was released, flights
-- have lengths of an i64 and purged sizes are not negative: a round of the ticket check, whatever it
-- evicts, leaves the budget that grants requests as it was.
pub ticket_check-from :
    (capacity : ℕ) (timeout : ℤ) (a : Account) (now : ℕ)
    → Reach (from_account capacity timeout) a
    → (ticket_check now a.store).budget ≡ a.store.budget
unfolding ticket_check Ticket.ticket_check_round
ticket_check-from capacity timeout a now r =
    (callback_keeps _ _ a.store.budget a.store.callback_budget (Reach-Owns capacity timeout a r)).0
