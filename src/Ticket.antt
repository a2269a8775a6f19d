-- ===== src/Ticket.antt =====
-- src/store/mem/ticket.rs: the tickets of granted buffers. The clock is an argument. A call of the
-- concurrent map is one step. `ticket_check` loops for ever with a sleep between rounds: a round is
-- a function, and the callback that frees the evicted size acts on a state of its own.
pub mod Eviction
pub mod Release
pub mod Sums
mod Tests
use r.Base.{
  ℕ, ◌+◌, ◌-◌, ◌%◌, ◌^◌, Bool, true, false, Option, none, some, List, [], ◌∷◌, Bytes, ◌==◌,
  bytes_eq, if◌then◌else◌, not,
}
use r.Base.Int.{ℤ, pos, int_eq, ltb_ℤ}
use r.Base.Machine.{add64, to_i64}
use r.Base.Map
use r.Base.Map.{Map}
use r.Error.{Outcome, ok, err, ticket_id_not_exist}

pub record Ticket : Type 0 where
  pub id : ℤ
  pub created_time : ℕ
  pub size : ℤ
  pub owned_by_app_id : Bytes

-- `(now - self.created_time) as i64 > timeout_sec`, where the subtraction is one of u64.
unfoldable pub is_timeout : ℕ → ℤ → Ticket → Bool
is_timeout now timeout_sec t = ltb_ℤ timeout_sec (to_i64 ((now + 2 ^ 64 - t.created_time) % 2 ^ 64))

pub record TicketManager : Type 0 where
  pub ticket_store : Map ℤ Ticket
  pub ticket_timeout_sec : ℤ

unfoldable pub exist : TicketManager → ℤ → Bool
exist m ticket_id = elim (Map.get ticket_id m.ticket_store) [ none ↦ false | some t ↦ true ]

unfoldable pub delete : TicketManager → ℤ → TicketManager × Outcome ℤ
delete m ticket_id = elim (Map.get ticket_id m.ticket_store) [
  | none ↦ (m, err (ticket_id_not_exist ticket_id))
  | some t ↦ (record m { ticket_store = Map.remove ticket_id m.ticket_store }, ok t.size)
]

-- The ids of the tickets in a view of the store that pass a test.
unfoldable pub ids_where : (Ticket → Bool) → Map ℤ Ticket → List ℤ
ids_where test [] = []
ids_where test ((k, t) ∷ m) = let rest = ids_where test m in if test t then t.id ∷ rest else rest

abbrev pub removed_size : Option Ticket → ℤ
removed_size none = pos 0
removed_size (some t) = t.size

-- The loop that removes the collected ids and adds up the sizes that it finds.
unfoldable pub remove_all : List ℤ → Map ℤ Ticket → ℤ → Map ℤ Ticket × ℤ
remove_all [] m size = (m, size)
remove_all (id ∷ ids) m size =
    remove_all ids (Map.remove id m) (add64 size (removed_size (Map.get id m)))

unfoldable pub delete_by_app_id : TicketManager → Bytes → TicketManager × ℤ
delete_by_app_id m app_id =
    let deleted_ids = ids_where (λ t. t.owned_by_app_id == app_id) m.ticket_store in
    let (store, size) = remove_all deleted_ids m.ticket_store (pos 0) in
    (record m { ticket_store = store }, size)

-- True if the id was in the store before.
unfoldable pub insert : TicketManager → ℤ → ℤ → ℕ → Bytes → TicketManager × Bool
insert m ticket_id size created_timestamp app_id =
    let ticket : Ticket = record {
      id = ticket_id;
      created_time = created_timestamp;
      size = size;
      owned_by_app_id = app_id;
    } in
    (
      record m { ticket_store = Map.insert ticket_id ticket m.ticket_store },
      elim (Map.get ticket_id m.ticket_store) [ none ↦ false | some t ↦ true ],
    )

-- One round of the loop of `ticket_check`: the callback runs if anything was freed.
unfoldable pub ticket_check_round {ℓ} :
    {S : Type ℓ} → (ℤ → S → S) → ℕ → TicketManager × S → TicketManager × S
ticket_check_round free_allocated_fn now (m, s) =
    let discard_tickets = ids_where (is_timeout now m.ticket_timeout_sec) m.ticket_store in
    let (store, total_removed_size) = remove_all discard_tickets m.ticket_store (pos 0) in
    (
      record m { ticket_store = store },
      if not (total_removed_size == pos 0) then free_allocated_fn total_removed_size s else s,
    )
