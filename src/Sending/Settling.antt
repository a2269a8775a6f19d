-- ===== src/Sending/Settling.antt =====
-- What the two settlements of a sent request leave of the memory budget.
use r.Base.{
  ℕ, ◌+◌, ◌-◌, ◌<◌, ◌≤◌, ◌^◌, ◌≡◌, refl, ap, ◌∙◌, arith, if◌then◌else◌, ◌==◌, ltb, ltb→lt,
  Bool-cases, inl, inr,
}
use r.Base.Int.{ℤ, pos, negsuc, int_eq, ltb_ℤ}
use r.Base.Machine.{sub64, sub64_pos, add64_pos}
use r.Budget
use r.Budget.{MemoryBudget}
use r.Memory
use r.Persistent.{PersistentStore}
use r.Hybrid.{HybridStore}
use r.Hybrid.Answering
use r.Sending.{settle_grpc, settle_urpc}

-- A budget of a capacity and a counter with some allocated and some used.
abbrev pub budget_of : ℤ → ℤ → ℕ → ℕ → MemoryBudget
budget_of capacity counter allocated used = record {
  capacity = capacity;
  allocated = pos allocated;
  used = pos used;
  allocation_inc_counter = counter;
}

moved :
    (c i : ℤ) (a n u : ℕ)
    → n ≤ a
    → a < 2 ^ 63
    → u + n < 2 ^ 63
    → (Budget.move_allocated_to_used (budget_of c i a u) (pos n)).0 ≡ budget_of c i (a - n) (u + n)
unfolding Budget.move_allocated_to_used
moved c i a n u f k l = ground (arith, sub64_pos a n f k, add64_pos u n l)

freed :
    (c i : ℤ) (a m u : ℕ)
    → m ≤ a
    → a < 2 ^ 63
    → (Budget.dec_allocated (budget_of c i a u) (pos m)).0 ≡ budget_of c i (a - m) u
unfolding Budget.dec_allocated
freed c i a m u f k = ground (arith, sub64_pos a m f k)

-- What a size below zero frees is allocated anew.
unfreed :
    (c i : ℤ) (a m u : ℕ)
    → a + m + 1 < 2 ^ 63
    → (Budget.dec_allocated (budget_of c i a u) (negsuc m)).0 ≡ budget_of c i (a + m + 1) u
unfolding Budget.dec_allocated sub64
unfreed c i a m u k = ground arith

sub64_neg : (r n : ℕ) → r < n → n < 2 ^ 63 → sub64 (pos r) (pos n) ≡ negsuc (n - r - 1)
unfolding sub64
sub64_neg r n h k = ground arith

abbrev rest_grpc : MemoryBudget → ℤ → MemoryBudget
rest_grpc b unused = if unused == pos 0 then b else (Budget.dec_allocated b unused).0

abbrev rest_urpc : MemoryBudget → ℤ → MemoryBudget
rest_urpc b unused = if ltb_ℤ (pos 0) unused then (Budget.dec_allocated b unused).0 else b

same_budget : (c i : ℤ) (a b w : ℕ) → a ≡ b → budget_of c i a w ≡ budget_of c i b w
same_budget c i a b w e = ap (λ x. budget_of c i x w) e

over :
    (c i : ℤ) (a r n w : ℕ)
    → r < n
    → n ≤ a
    → a < 2 ^ 63
    → (rest_grpc (budget_of c i (a - n) w) (sub64 (pos r) (pos n)) ≡ budget_of c i (a - r) w)
      × (rest_urpc (budget_of c i (a - n) w) (sub64 (pos r) (pos n)) ≡ budget_of c i (a - n) w)
over c i a r n w h f k =
    let e = sub64_neg r n h (omega arith) in
    (
      rw e (
          unfreed c i (a - n) (n - r - 1) w (omega arith)
          ∙ same_budget c i _ (a - r) w (omega arith)),
      rw e (ground arith),
    )

under :
    (c i : ℤ) (a r n w : ℕ)
    → n ≤ r
    → r ≤ a
    → a < 2 ^ 63
    → (rest_grpc (budget_of c i (a - n) w) (sub64 (pos r) (pos n)) ≡ budget_of c i (a - r) w)
      × (rest_urpc (budget_of c i (a - n) w) (sub64 (pos r) (pos n)) ≡ budget_of c i (a - r) w)
under c i a r n w h f k =
    let e = sub64_pos r n h (omega arith) in
    let all =
      freed c i (a - n) (r - n) w (omega arith) (omega arith)
      ∙ same_budget c i _ (a - r) w (omega arith) in
    (rw e (ground (arith, all)), rw e (ground (arith, all)))

module _ (P : PersistentStore) where
  budget-settle_grpc :
      (h : HybridStore P) (r n : ℤ)
      → (settle_grpc P h r n).hot_store.budget
        ≡ rest_grpc (Budget.move_allocated_to_used h.hot_store.budget n).0 (sub64 r n)
  unfolding settle_grpc Answering.move_allocated_to_used_from_hot_store
      Answering.release_allocated_from_hot_store Memory.move_allocated_to_used Memory.dec_allocated
  budget-settle_grpc h r n = ground arith

  budget-settle_urpc :
      (h : HybridStore P) (r n : ℤ)
      → (settle_urpc P h r n).hot_store.budget
        ≡ rest_urpc (Budget.move_allocated_to_used h.hot_store.budget n).0 (sub64 r n)
  unfolding settle_urpc Answering.move_allocated_to_used_from_hot_store
      Answering.release_allocated_from_hot_store Memory.move_allocated_to_used Memory.dec_allocated
  budget-settle_urpc h r n = ground arith

  -- A request for which the ticket held r and of which n was inserted, where r and n are allocated
  -- and no sum overflows: n is used in both handlers, and the gRPC handler takes the ticket's r off
  -- what is allocated; the urpc handler does so if n is r at most, but takes n if more was inserted
  -- than the ticket held, so that it frees what other tickets hold.
  pub settle_lem :
      (h : HybridStore P) (c i : ℤ) (a u r n : ℕ)
      → h.hot_store.budget ≡ budget_of c i a u
      → r ≤ a
      → n ≤ a
      → a < 2 ^ 63
      → u + n < 2 ^ 63
      → ((settle_grpc P h (pos r) (pos n)).hot_store.budget ≡ budget_of c i (a - r) (u + n))
        × ((settle_urpc P h (pos r) (pos n)).hot_store.budget
            ≡ budget_of c i (a - (if ltb r n then n else r)) (u + n))
  settle_lem h c i a u r n e f g k l =
      let into = ap (λ b. (Budget.move_allocated_to_used b (pos n)).0) e ∙ moved c i a n u g k l in
      let grpc =
        budget-settle_grpc h (pos r) (pos n) ∙ ap (λ b. rest_grpc b (sub64 (pos r) (pos n))) into in
      let urpc =
        budget-settle_urpc h (pos r) (pos n) ∙ ap (λ b. rest_urpc b (sub64 (pos r) (pos n))) into in
      elim (Bool-cases (ltb r n)) [
        | inl more ↦
            let (x, y) = over c i a r n (u + n) (ltb→lt r n more) g k in
            (grpc ∙ x, urpc ∙ (y ∙ rw more refl))
        | inr less ↦
            let le : n ≤ r = ground (arith, less) in
            let (x, y) = under c i a r n (u + n) le f k in (grpc ∙ x, urpc ∙ (y ∙ rw less refl))
      ]
