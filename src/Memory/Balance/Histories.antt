-- ===== src/Memory/Balance/Histories.antt =====
-- Histories of calls of src/store/memory.rs from a new store stay balanced.
use r.Base.{
  ◌∙◌, ℕ, ◌≡◌, refl, sym, subst, Bool, true, false, Option, none, some, ◌==◌, if◌then◌else◌, arith,
  Bool-cases, Option-cases, inl, inr, not, ap, ◌<◌, ◌^◌,
}
use r.Base.Int.{ℤ, pos, ◌+ℤ◌, ◌≤ℤ◌, int_eq}
use r.Base.Machine.{InI64, to_i64, to_i64_small}
use r.Base.Map
use r.Base.Map.{Map}
use r.Error.{ok}
use r.Budget
use r.Budget.{MemoryBudget}
use r.Budget.Ledger.{new-IsValid}
use r.Ticket
use r.Ticket.{Ticket, TicketManager}
use r.Ticket.Release.{delete_hit, delete_miss, ticket_check_round_lem}
use r.Memory.{
  uid_eq, PartitionedUId, MemoryStore, new, require_buffer, release_ticket, release_allocated_func,
  ticket_check, insert, purge, clear_spilled_buffer, get_or_create_buffer, get_buffer,
  dec_allocated, move_allocated_to_used,
}
use r.Ticket.Eviction.{total_where, kept}
use r.Memory.Balance.{
  Account, open_account, Step, requires, releases, moves, frees, evicts, inserts, clears, purges,
  Reach, here, next, IsSettled,
}
use r.Memory.Balance.Calls.{
  dec_allocated-IsBalanced, move_allocated_to_used-IsBalanced, dec_used-IsBalanced,
  release-IsBalanced, refused-IsBalanced, granted-IsBalanced, evict-IsBalanced, evicted_fits,
}

ok_inj {ℓ} : {A : Type ℓ} {a b : A} → ok a ≡ ok b → a ≡ b
ok_inj e = cc

-- The callback on a budget that it shares with the store.
freed_shared :
    (c : Bool) (size : ℤ) (b : MemoryBudget) (o : Option MemoryBudget)
    → o ≡ none
    → (if c then release_allocated_func size (b, o) else (b, o))
      ≡ ((if c then (Budget.dec_allocated b size).0 else b), none)
unfolding release_allocated_func
freed_shared true size b none e = refl
freed_shared true size b (some x) e = cc
freed_shared false size b none e = refl
freed_shared false size b (some x) e = cc

-- The store with what a round of the check leaves.
abbrev rebuilt : MemoryStore → TicketManager × (MemoryBudget × Option MemoryBudget) → MemoryStore
rebuilt s x = record s { ticket_manager = x.0; budget = x.1.0; callback_budget = x.1.1 }

module _ (a : Account) (h : IsSettled a) where
  requires-IsSettled :
      (uid : PartitionedUId) (size : ℤ) (now : ℕ)
      → pos 0 ≤ℤ size
      → InI64 (a.store.budget.allocation_inc_counter +ℤ pos 1)
      → IsSettled (record a { store = (require_buffer a.store uid size now).0 })
  unfolding require_buffer Ticket.insert
  requires-IsSettled uid size now nonneg fits =
      elim (Bool-cases (Budget.require_allocated a.store.budget size).1.0) [
        | inl granted ↦ rw granted (record {
          balanced =
              granted-IsBalanced a.store.budget a.store.ticket_manager.ticket_store a.pending
                h.balanced
                (record {
                  id = (Budget.require_allocated a.store.budget size).1.1;
                  created_time = now;
                  size = size;
                  owned_by_app_id = uid.app_id;
                })
                nonneg fits refl granted;
          shared = h.shared;
        })
        | inr refused ↦ rw refused (record {
          balanced =
              refused-IsBalanced a.store.budget a.store.ticket_manager.ticket_store a.pending
                h.balanced size refused;
          shared = h.shared;
        })
      ]

  releases-IsSettled :
      (id size : ℤ)
      → (release_ticket a.store id).1 ≡ ok size
      → IsSettled (record { store = (release_ticket a.store id).0; pending = a.pending +ℤ size })
  unfolding release_ticket
  releases-IsSettled id size e =
      elim (Option-cases (Map.get id a.store.ticket_manager.ticket_store)) [
        | inl gone ↦ absurd (let f = rw (delete_miss a.store.ticket_manager id gone) at e in cc)
        | inr (t, there) ↦
            let hit = delete_hit a.store.ticket_manager id t there in
            let same : t.size ≡ size = ok_inj (rw hit at e) in
            subst
              (λ (n : ℤ).
                IsSettled
                  (record { store = (release_ticket a.store id).0; pending = a.pending +ℤ n }))
              same
              (rw hit (record {
                balanced =
                    release-IsBalanced a.store.budget a.store.ticket_manager.ticket_store a.pending
                      h.balanced id t there;
                shared = h.shared;
              }))
      ]

  evicts-IsSettled : (now : ℕ) → IsSettled (record a { store = ticket_check now a.store })
  unfolding ticket_check
  evicts-IsSettled now =
      let test = Ticket.is_timeout now a.store.ticket_manager.ticket_timeout_sec in
      let m = a.store.ticket_manager.ticket_store in
      let round =
        ticket_check_round_lem release_allocated_func now a.store.ticket_manager
          (a.store.budget, a.store.callback_budget) h.balanced.keyed h.balanced.sizes
          (evicted_fits a.store.budget m a.pending h.balanced test) in
      let freed =
        freed_shared (not (total_where test m == pos 0)) (total_where test m) a.store.budget
          a.store.callback_budget h.shared in
      subst
        (λ (x : TicketManager × (MemoryBudget × Option MemoryBudget)).
          IsSettled (record { store = rebuilt a.store x; pending = a.pending }))
        (sym (
          round
          ∙ ap
              (λ (y : MemoryBudget × Option MemoryBudget).
                (record a.store.ticket_manager { ticket_store = kept test m }, y))
              freed))
        (record {
          balanced = evict-IsBalanced a.store.budget m a.pending h.balanced test;
          shared = refl;
        })

  clears-IsSettled :
      (uid : PartitionedUId) (flight_id flight_len : ℕ)
      → flight_len < 2 ^ 63
      → IsSettled (record a { store = (clear_spilled_buffer a.store uid flight_id flight_len).0 })
  unfolding clear_spilled_buffer get_buffer
  clears-IsSettled uid id len small = elim (Option-cases (Map.get uid a.store.state)) [
    | inl gone ↦
        rw (clear_spilled_buffer, get_buffer, gone)
          (record { balanced = h.balanced; shared = h.shared })
    | inr (b, there) ↦
        rw (clear_spilled_buffer, get_buffer, there)
          (record {
            balanced =
                dec_used-IsBalanced a.store.budget a.store.ticket_manager.ticket_store a.pending
                  h.balanced (to_i64 len) (rw (to_i64_small len small) (omega arith));
            shared = h.shared;
          })
  ]

Step-IsSettled : (a c : Account) → Step a c → IsSettled a → IsSettled c
unfolding move_allocated_to_used dec_allocated insert get_or_create_buffer purge
Step-IsSettled a _ (requires uid size now nonneg fits) h =
    requires-IsSettled a h uid size now nonneg fits
Step-IsSettled a _ (releases id size e) h = releases-IsSettled a h id size e
Step-IsSettled a _ (moves size nonneg le) h = record {
  balanced =
      move_allocated_to_used-IsBalanced a.store.budget a.store.ticket_manager.ticket_store a.pending
        h.balanced size nonneg le;
  shared = h.shared;
}
Step-IsSettled a _ (frees size nonneg le) h = record {
  balanced =
      dec_allocated-IsBalanced a.store.budget a.store.ticket_manager.ticket_store a.pending
        h.balanced size nonneg le;
  shared = h.shared;
}
Step-IsSettled a _ (evicts now) h = evicts-IsSettled a h now
Step-IsSettled a _ (inserts uid blocks size) h = elim (Option-cases (Map.get uid a.store.state)) [
  | inl gone ↦
      rw (insert, get_or_create_buffer, gone) (record { balanced = h.balanced; shared = h.shared })
  | inr (b, there) ↦
      rw (insert, get_or_create_buffer, there) (record { balanced = h.balanced; shared = h.shared })
]
Step-IsSettled a _ (clears uid id len small) h = clears-IsSettled a h uid id len small
Step-IsSettled a _ (purges app sh nonneg) h = record {
  balanced =
      dec_used-IsBalanced a.store.budget a.store.ticket_manager.ticket_store a.pending h.balanced
        (purge a.store app sh).1 nonneg;
  shared = h.shared;
}

open_account-IsSettled : (c : ℤ) → pos 0 ≤ℤ c → InI64 c → IsSettled (open_account c)
unfolding new Budget.new ◌+ℤ◌
open_account-IsSettled c nonneg fits = record {
  balanced = record {
    valid = new-IsValid c nonneg fits;
    keyed = tt;
    sizes = tt;
    fresh = tt;
    pending_nonneg = omega arith;
    balance = refl;
  };
  shared = refl;
}

-- On a store that `new` built, with a capacity of an i64 that is not negative, after any history of
-- calls in which required sizes are not negative, the ticket counter does not overflow, no more is
-- moved to used or freed than was released, flights have lengths of an i64 and purged sizes are not
-- negative: the tickets stand under ids up to the counter, what is allocated is the sum of the
-- tickets' sizes and of what was released and not moved or freed, and allocated and used together
-- stay within the capacity.
pub Reach-IsSettled :
    (capacity : ℤ) (a : Account)
    → pos 0 ≤ℤ capacity
    → InI64 capacity
    → Reach (open_account capacity) a
    → IsSettled a
Reach-IsSettled k _ nonneg fits here = open_account-IsSettled k nonneg fits
Reach-IsSettled k _ nonneg fits (next {b} {c} r s) =
    Step-IsSettled b c s (Reach-IsSettled k b nonneg fits r)
