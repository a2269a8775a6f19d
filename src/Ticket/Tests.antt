-- ===== src/Ticket/Tests.antt =====
-- Runs of the ticket manager, and its theorems at concrete inputs.
use r.Base.{◌≡◌, refl, List, [], ◌∷◌, Bytes, arith, ◌==◌, bytes_eq, not, if◌then◌else◌}
use r.Base.Int.{ℤ, pos, int_eq, ◌+ℤ◌}
use r.Base.Machine.{add64, to_i64}
use r.Base.Map
use r.Ticket.{TicketManager, is_timeout, ticket_check_round, ids_where, remove_all}
use r.Ticket.Eviction.{kept, total_where}
use r.Ticket.Release.{ticket_check_round_lem, IsValid}

abbrev app_a : Bytes
app_a = 97 ∷ []

abbrev app_b : Bytes
app_b = 98 ∷ []

abbrev three : TicketManager
three = record {
  ticket_store =
      (pos 3, record { id = pos 3; created_time = 90; size = pos 7; owned_by_app_id = app_a })
      ∷ (pos 2, record { id = pos 2; created_time = 10; size = pos 5; owned_by_app_id = app_b })
      ∷ (pos 1, record { id = pos 1; created_time = 10; size = pos 4; owned_by_app_id = app_a })
      ∷ [];
  ticket_timeout_sec = pos 30;
}

three-IsValid : IsValid three
unfolding Map.get
three-IsValid = (refl, refl, (refl, refl, (refl, refl, tt)))

evicted : (ticket_check_round (λ x (s : List ℤ). x ∷ s) 100 (three, [])).1 ≡ pos 9 ∷ []
unfolding ticket_check_round ids_where remove_all is_timeout Map.get Map.remove add64 to_i64
evicted = refl

ticket_check_round_example : ticket_check_round (λ x (s : List ℤ). x ∷ s) 100 (three, []) ≡ (
  record three { ticket_store = kept (is_timeout 100 (pos 30)) three.ticket_store },
  if not (total_where (is_timeout 100 (pos 30)) three.ticket_store == pos 0)
      then total_where (is_timeout 100 (pos 30)) three.ticket_store ∷ []
      else [],
)
unfolding is_timeout to_i64 ◌+ℤ◌
ticket_check_round_example =
    ticket_check_round_lem (λ x (s : List ℤ). x ∷ s) 100 three [] three-IsValid (omega arith)
      (omega arith)
