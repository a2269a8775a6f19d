-- ===== src/Memory/Tickets.antt =====
-- The tickets of src/store/memory.rs: a buffer that was required is released once.
use r.Base.{subst, ℕ, ◌≡◌, ap, Bool-cases, inl, inr}
use r.Base.Int.{ℤ, int_eq}
use r.Error.{ok_inj, WorkerError, ok, err, ticket_id_not_exist}
use r.Budget
use r.Budget.{MemoryBudget}
use r.Ticket.Release.{delete-insert}
use r.Memory.{PartitionedUId, MemoryStore, RequireBufferResponse, require_buffer, release_ticket}

not_ok {ℓ} : {A : Type ℓ} {a : A} {e : WorkerError} → err e ≡ ok a → ⊥
not_ok e = cc

-- A buffer that was granted is released under its ticket with the size that was required, and a
-- second release of the ticket is an error.
pub release_ticket-require_buffer :
    (s : MemoryStore) (uid : PartitionedUId) (size : ℤ) (now : ℕ) (response : RequireBufferResponse)
    → (require_buffer s uid size now).1 ≡ ok response
    → ((release_ticket (require_buffer s uid size now).0 response.ticket_id).1 ≡ ok size)
      × ((release_ticket
            (release_ticket (require_buffer s uid size now).0 response.ticket_id).0
            response.ticket_id).1
          ≡ err (ticket_id_not_exist response.ticket_id))
unfolding require_buffer release_ticket
release_ticket-require_buffer s uid size now response e =
    elim (Bool-cases (Budget.require_allocated s.budget size).1.0) [
      | inl granted ↦
          let same = ap (λ (r : RequireBufferResponse). r.ticket_id) (ok_inj (rw granted at e)) in
          subst
            (λ (i : ℤ).
              ((release_ticket (require_buffer s uid size now).0 i).1 ≡ ok size)
              × ((release_ticket (release_ticket (require_buffer s uid size now).0 i).0 i).1
                  ≡ err (ticket_id_not_exist i)))
            same
            (rw granted (
              delete-insert s.ticket_manager (Budget.require_allocated s.budget size).1.1 size now
                uid.app_id))
      | inr refused ↦ absurd (not_ok (rw refused at e))
    ]
