-- ===== src/Ticket/Release.antt =====
-- A ticket is released once, and an eviction takes exactly what it should: src/store/mem/ticket.rs.
use r.Base.Map.{Map}
use r.Base.{
  not, ap, Option-cases, inr, inl, Bool-cases, beq_refl, ℕ, ◌≡◌, refl, none, some, [], ◌∷◌, Bytes,
  ◌==◌, bytes_eq, if◌then◌else◌, arith,
}
use r.Base.Int.{int_beq_iff, ℤ, pos, int_eq}
use r.Base.Machine.{InI64}
use r.Base.Map
use r.Error.{Outcome, ok, err, ticket_id_not_exist}
use r.Ticket.{
  Ticket, TicketManager, is_timeout, delete, insert, delete_by_app_id, ticket_check_round,
}
use r.Ticket.Eviction.{removed_total, IsKeyed, AreSizes, kept, total_where, remove_all_where}

-- A manager whose store is keyed by the tickets' own ids.
abbrev pub IsValid : TicketManager → Type 0
IsValid m = IsKeyed m.ticket_store

pub IsKeyed-remove : (k : ℤ) (m : Map ℤ Ticket) → IsKeyed m → IsKeyed (Map.remove k m)
unfolding Map.remove
IsKeyed-remove k [] v = tt
IsKeyed-remove k ((j, t) ∷ m) v = elim (Bool-cases (j == k)) [
  | inl hit ↦ rw hit (IsKeyed-remove k m v.2)
  | inr miss ↦
      rw miss (v.0, rw (Map.get-remove k j m) (ground (arith, v.1)), IsKeyed-remove k m v.2)
]

pub delete_hit :
    (m : TicketManager) (id : ℤ) (t : Ticket)
    → Map.get id m.ticket_store ≡ some t
    → delete m id ≡ (record m { ticket_store = Map.remove id m.ticket_store }, ok t.size)
unfolding delete
delete_hit m id t h = rw (h, delete)

pub delete_miss :
    (m : TicketManager) (id : ℤ)
    → Map.get id m.ticket_store ≡ none
    → delete m id ≡ (m, err (ticket_id_not_exist id))
unfolding delete
delete_miss m id h = rw (h, delete)

abbrev ticket_of : ℤ → ℤ → ℕ → Bytes → Ticket
ticket_of id size created app_id = record {
  id = id;
  created_time = created;
  size = size;
  owned_by_app_id = app_id;
}

get-insert_self :
    (m : TicketManager) (id size : ℤ) (created : ℕ) (app_id : Bytes)
    → Map.get id (insert m id size created app_id).0.ticket_store
      ≡ some (ticket_of id size created app_id)
unfolding insert
get-insert_self m id size created app_id =
    rw (Map.get-insert id id (ticket_of id size created app_id) m.ticket_store) (rw (beq_refl id))

-- A release that succeeds takes the ticket away: the next one of it is an error.
delete_again :
    (m : TicketManager) (id : ℤ) → (delete (delete m id).0 id).1 ≡ err (ticket_id_not_exist id)
delete_again m id = elim (Option-cases (Map.get id m.ticket_store)) [
  | inl gone ↦ rw (delete_miss m id gone) (rw (delete_miss m id gone))
  | inr (t, there) ↦ rw (delete_hit m id t there) (
      ap (λ (x : TicketManager × Outcome ℤ). x.1)
        (delete_miss (record m { ticket_store = Map.remove id m.ticket_store }) id (removed there)))
]
  where
    removed :
        {t : Ticket}
        → Map.get id m.ticket_store ≡ some t
        → Map.get id (Map.remove id m.ticket_store) ≡ none
    removed h = rw (Map.get-remove id id m.ticket_store) (rw (beq_refl id))

-- A ticket just inserted is released with its size, and a second release of it is an error.
pub delete-insert :
    (m : TicketManager) (id size : ℤ) (created : ℕ) (app_id : Bytes)
    → ((delete (insert m id size created app_id).0 id).1 ≡ ok size)
      × ((delete (delete (insert m id size created app_id).0 id).0 id).1
          ≡ err (ticket_id_not_exist id))
delete-insert m id size created app_id = (
  ap (λ (x : TicketManager × Outcome ℤ). x.1)
      (delete_hit (insert m id size created app_id).0 id (ticket_of id size created app_id)
        (get-insert_self m id size created app_id)),
  delete_again (insert m id size created app_id).0 id,
)

-- Other tickets are not touched.
pub get-delete :
    (m : TicketManager) (id j : ℤ)
    → Map.get j (delete m id).0.ticket_store ≡ (if id == j then none else Map.get j m.ticket_store)
unfolding delete
get-delete m id j = ground (arith, Map.get-remove id j m.ticket_store, int_beq_iff id j)

pub insert-IsValid :
    (m : TicketManager) (id size : ℤ) (created : ℕ) (app_id : Bytes)
    → IsValid m
    → IsValid (insert m id size created app_id).0
unfolding insert Map.insert
insert-IsValid m id size created app_id v = (
  refl,
  rw (Map.get-remove id id m.ticket_store) (rw (beq_refl id)),
  IsKeyed-remove id m.ticket_store v,
)

-- If the tickets stand once under their own ids with sizes that are not negative, and the sum of
-- those of the application fits an i64, the deletion by application keeps exactly the tickets of
-- the others and returns that sum.
pub delete_by_app_id_lem :
    (m : TicketManager) (app_id : Bytes)
    → IsValid m
    → AreSizes m.ticket_store
    → InI64 (total_where (λ t. t.owned_by_app_id == app_id) m.ticket_store)
    → delete_by_app_id m app_id ≡ (
      record m { ticket_store = kept (λ t. t.owned_by_app_id == app_id) m.ticket_store },
      total_where (λ t. t.owned_by_app_id == app_id) m.ticket_store,
    )
unfolding delete_by_app_id
delete_by_app_id_lem m app_id v s fits = rw (
  remove_all_where (λ t. t.owned_by_app_id == app_id) m.ticket_store (pos 0) v,
  removed_total (λ t. t.owned_by_app_id == app_id) m.ticket_store s fits,
)

-- If the tickets stand once under their own ids with sizes that are not negative, and the sum of
-- those that timed out fits an i64, a round of the timeout check keeps exactly the tickets that
-- have not timed out and hands the callback that sum, if it is not 0.
pub ticket_check_round_lem {ℓ} :
    {S : Type ℓ} (free : ℤ → S → S) (now : ℕ) (m : TicketManager) (s : S)
    → IsValid m
    → AreSizes m.ticket_store
    → InI64 (total_where (is_timeout now m.ticket_timeout_sec) m.ticket_store)
    → ticket_check_round free now (m, s) ≡ (
      record m { ticket_store = kept (is_timeout now m.ticket_timeout_sec) m.ticket_store },
      if not (total_where (is_timeout now m.ticket_timeout_sec) m.ticket_store == pos 0)
          then free (total_where (is_timeout now m.ticket_timeout_sec) m.ticket_store) s
          else s,
    )
unfolding ticket_check_round
ticket_check_round_lem free now m s v sizes fits = rw (
  remove_all_where (is_timeout now m.ticket_timeout_sec) m.ticket_store (pos 0) v,
  removed_total (is_timeout now m.ticket_timeout_sec) m.ticket_store sizes fits,
)
