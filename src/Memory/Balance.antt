-- ===== src/Memory/Balance.antt =====
-- What src/store/memory.rs has allocated, over histories of its calls: each step is a call, and the
-- sizes that were released and not yet moved or freed are kept beside the store.
pub mod Calls
pub mod Histories
pub mod Abandoned
use r.Base.{
  ◌^◌, ◌<◌, ℕ, ◌≡◌, refl, Bool, true, false, Option, none, some, List, [], ◌∷◌, ◌==◌, if◌then◌else◌,
  arith, Bool-cases, inl, inr, Bytes,
}
use r.Base.Int.{ℤ, pos, ◌+ℤ◌, ◌-ℤ◌, ◌≤ℤ◌, ◌<ℤ◌, int_laws, parts_eq, int_eq, int_beq_iff}
use r.Base.Machine.{InI64, add64, sub64, to_i64, add64_eq}
use r.Base.Map
use r.Base.Map.{Map}
use r.Error.{Outcome, ok}
use r.Store.Blocks.{Block}
use r.Budget
use r.Budget.{MemoryBudget}
use r.Budget.Invariant
use r.Ticket
use r.Ticket.{Ticket, TicketManager}
use r.Ticket.Eviction.{IsKeyed, kept, total, AreSizes}
use r.Ticket.Sums.{IdsUpTo}
use r.Memory.{
  PartitionedUId, MemoryStore, new, require_buffer, release_ticket, ticket_check, insert, purge,
  clear_spilled_buffer, dec_allocated, move_allocated_to_used,
}

pub record Account : Type 0 where
  pub store : MemoryStore
  pub pending : ℤ

abbrev pub open_account : ℤ → Account
unfolding new
open_account capacity = record { store = new capacity; pending = pos 0 }

pub data Step (a : Account) : Account → Type 0 where
  requires :
      (uid : PartitionedUId) (size : ℤ) (now : ℕ)
      → pos 0 ≤ℤ size
      → InI64 (a.store.budget.allocation_inc_counter +ℤ pos 1)
      → Step a (record a { store = (require_buffer a.store uid size now).0 })
  releases :
      (id size : ℤ)
      → (release_ticket a.store id).1 ≡ ok size
      → Step a (record { store = (release_ticket a.store id).0; pending = a.pending +ℤ size })
  moves :
      (size : ℤ)
      → pos 0 ≤ℤ size
      → size ≤ℤ a.pending
      → Step a (record { store = move_allocated_to_used a.store size; pending = a.pending -ℤ size })
  frees :
      (size : ℤ)
      → pos 0 ≤ℤ size
      → size ≤ℤ a.pending
      → Step a (record { store = dec_allocated a.store size; pending = a.pending -ℤ size })
  evicts : (now : ℕ) → Step a (record a { store = ticket_check now a.store })
  inserts :
      (uid : PartitionedUId) (blocks : List Block) (size : ℕ)
      → Step a (record a { store = insert a.store uid blocks size })
  clears :
      (uid : PartitionedUId) (flight_id flight_len : ℕ)
      → flight_len < 2 ^ 63
      → Step a (record a { store = (clear_spilled_buffer a.store uid flight_id flight_len).0 })
  purges :
      (app_id : Bytes) (shuffle_id : Option ℤ)
      → pos 0 ≤ℤ (purge a.store app_id shuffle_id).1
      → Step a (record a { store = (purge a.store app_id shuffle_id).0 })

pub data Reach (a : Account) : Account → Type 0 where
  here : Reach a a
  next : {b c : Account} → Reach a b → Step b c → Reach a c

-- What is allocated stands in a ticket or is pending.
pub record IsBalanced (b : MemoryBudget) (m : Map ℤ Ticket) (pending : ℤ) : Type 0 where
  pub valid : Invariant.IsValid b
  pub keyed : IsKeyed m
  pub sizes : AreSizes m
  pub fresh : IdsUpTo b.allocation_inc_counter m
  pub pending_nonneg : pos 0 ≤ℤ pending
  pub balance : b.allocated ≡ total m +ℤ pending

-- The same of an account, whose callback frees the store's own budget.
pub record IsSettled (a : Account) : Type 0 where
  pub balanced : IsBalanced a.store.budget a.store.ticket_manager.ticket_store a.pending
  pub shared : a.store.callback_budget ≡ none
