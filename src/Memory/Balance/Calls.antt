-- ===== src/Memory/Balance/Calls.antt =====
-- Each call of src/store/memory.rs on the budget and the tickets keeps them balanced.
use r.Base.{
  ◌≡◌, refl, sym, subst, Bool, true, false, none, some, ◌∷◌, ◌==◌, if◌then◌else◌, arith, Bool-cases,
  inl, inr, not,
}
use r.Base.Int.{
  ℤ, pos, ◌+ℤ◌, ◌-ℤ◌, ◌≤ℤ◌, int_laws, parts_eq, int_eq, int_beq_iff, ltb_ℤ, le→not-ltb_ℤ,
}
use r.Base.Machine.{InI64, sub64, add64_eq}
use r.Base.Map
use r.Base.Map.{Map}
use r.Budget
use r.Budget.{MemoryBudget}
use r.Budget.Invariant
use r.Budget.Invariant.{IsValid}
use r.Ticket.{Ticket}
use r.Ticket.Eviction.{total_where_nonneg, kept, total_where, total-split, total_nonneg}
use r.Ticket.Release.{IsKeyed-remove}
use r.Ticket.Sums.{
  IdsUpTo, IdsUpTo-le, get-IdsUpTo, IdsUpTo-remove, AreSizes-remove, total-remove, IdsUpTo-kept,
  AreSizes-kept, IsKeyed-kept,
}
use r.Memory.Balance.{IsBalanced}

module _ (b : MemoryBudget) (m : Map ℤ Ticket) (pending : ℤ) (h : IsBalanced b m pending) where
  -- What is pending can be taken off what is allocated.
  enough : (size : ℤ) → size ≤ℤ pending → ltb_ℤ b.allocated size ≡ false
  enough size le =
      le→not-ltb_ℤ b.allocated size (omega (int_laws, total_nonneg m h.sizes, parts_eq h.balance))

  pub dec_allocated-IsBalanced :
      (size : ℤ)
      → pos 0 ≤ℤ size
      → size ≤ℤ pending
      → IsBalanced (Budget.dec_allocated b size).0 m (pending -ℤ size)
  dec_allocated-IsBalanced size nonneg le =
      let shrunk = Invariant.allocated_shrinks b size h.valid nonneg (enough size le) in
      record {
        valid = Invariant.dec_allocated-IsValid b size h.valid nonneg;
        keyed = h.keyed;
        sizes = h.sizes;
        fresh = unfold Budget.dec_allocated in rw (enough size le) h.fresh;
        pending_nonneg = omega int_laws;
        balance =
            unfold Budget.dec_allocated in
            rw (enough size le, shrunk) (omega (int_laws, parts_eq h.balance));
      }

  pub move_allocated_to_used-IsBalanced :
      (size : ℤ)
      → pos 0 ≤ℤ size
      → size ≤ℤ pending
      → IsBalanced (Budget.move_allocated_to_used b size).0 m (pending -ℤ size)
  move_allocated_to_used-IsBalanced size nonneg le =
      let shrunk = Invariant.allocated_shrinks b size h.valid nonneg (enough size le) in
      record {
        valid = Invariant.move_allocated_to_used-IsValid b size h.valid nonneg;
        keyed = h.keyed;
        sizes = h.sizes;
        fresh = unfold Budget.move_allocated_to_used in rw (enough size le) h.fresh;
        pending_nonneg = omega int_laws;
        balance =
            unfold Budget.move_allocated_to_used in
            rw (enough size le, shrunk) (omega (int_laws, parts_eq h.balance));
      }

  pub dec_used-IsBalanced :
      (size : ℤ) → pos 0 ≤ℤ size → IsBalanced (Budget.dec_used b size).0 m pending
  dec_used-IsBalanced size nonneg = record {
    valid = Invariant.dec_used-IsValid b size h.valid nonneg;
    keyed = h.keyed;
    sizes = h.sizes;
    fresh = unfold Budget.dec_used in ground (arith, h.fresh);
    pending_nonneg = h.pending_nonneg;
    balance = unfold Budget.dec_used in ground (arith, h.balance);
  }

  pub release-IsBalanced :
      (id : ℤ) (t : Ticket)
      → Map.get id m ≡ some t
      → IsBalanced b (Map.remove id m) (pending +ℤ t.size)
  release-IsBalanced id t found =
      let split = total-remove id t m h.keyed h.sizes found in
      record {
        valid = h.valid;
        keyed = IsKeyed-remove id m h.keyed;
        sizes = AreSizes-remove id m h.sizes;
        fresh = IdsUpTo-remove b.allocation_inc_counter id m h.fresh;
        pending_nonneg = omega (int_laws, split.0);
        balance = omega (int_laws, parts_eq split.1, parts_eq h.balance);
      }

  pub refused-IsBalanced :
      (size : ℤ)
      → (Budget.require_allocated b size).1.0 ≡ false
      → IsBalanced (Budget.require_allocated b size).0 m pending
  unfolding Budget.require_allocated
  refused-IsBalanced size refused =
      elim (Bool-cases (ltb_ℤ (sub64 (sub64 b.capacity b.allocated) b.used) size)) [
        | inl full ↦ rw full h
        | inr room ↦ absurd (let e = rw room at refused in cc)
      ]

  pub granted-IsBalanced :
      (t : Ticket)
      → pos 0 ≤ℤ t.size
      → InI64 (b.allocation_inc_counter +ℤ pos 1)
      → t.id ≡ (Budget.require_allocated b t.size).1.1
      → (Budget.require_allocated b t.size).1.0 ≡ true
      → IsBalanced (Budget.require_allocated b t.size).0 (Map.insert t.id t m) pending
  unfolding Budget.require_allocated Map.insert
  granted-IsBalanced t nonneg fits id granted =
      elim (Bool-cases (ltb_ℤ (sub64 (sub64 b.capacity b.allocated) b.used) t.size)) [
        | inl full ↦ absurd (let e = rw full at granted in cc)
        | inr room ↦
            let counter = add64_eq b.allocation_inc_counter (pos 1) fits in
            let next_id : t.id ≡ b.allocation_inc_counter +ℤ pos 1 = rw (room, counter) at id in
            let absent : Map.get t.id m ≡ none = rw next_id (
              get-IdsUpTo b.allocation_inc_counter (b.allocation_inc_counter +ℤ pos 1) m
                (omega int_laws) h.fresh) in
            let counted : (Budget.require_allocated b t.size).0.allocation_inc_counter
                ≡ b.allocation_inc_counter +ℤ pos 1 =
              rw (room, counter) in
            let same = Map.remove_absent t.id m absent in
            let fits_all = (Invariant.require_test b t.size h.valid).0 room in
            let grown = Invariant.allocated_grows b t.size h.valid nonneg fits_all in
            rw same (record {
              valid = Invariant.require_allocated-IsValid b t.size h.valid nonneg;
              keyed = (refl, absent, h.keyed);
              sizes = (nonneg, h.sizes);
              fresh =
                  subst (λ (c : ℤ). IdsUpTo c ((t.id, t) ∷ m)) (sym counted)
                    (
                      omega (int_laws, parts_eq next_id),
                      IdsUpTo-le b.allocation_inc_counter (b.allocation_inc_counter +ℤ pos 1) m
                          (omega int_laws) h.fresh,
                    );
              pending_nonneg = h.pending_nonneg;
              balance = rw (room, grown) (omega (int_laws, parts_eq h.balance));
            })
      ]

  evicted_le : (test : Ticket → Bool) → total_where test m ≤ℤ b.allocated
  evicted_le test = omega (
    int_laws,
    parts_eq (total-split test m),
    parts_eq h.balance,
    total_nonneg (kept test m) (AreSizes-kept test m h.sizes),
  )

  -- The sum of what an eviction takes fits an i64.
  pub evicted_fits : (test : Ticket → Bool) → InI64 (total_where test m)
  evicted_fits test =
      let valid = h.valid in omega (int_laws, evicted_le test, total_where_nonneg test m h.sizes)

  pub evict-IsBalanced :
      (test : Ticket → Bool)
      → IsBalanced
          (if not (total_where test m == pos 0)
            then (Budget.dec_allocated b (total_where test m)).0
            else b)
          (kept test m)
          pending
  evict-IsBalanced test = elim (Bool-cases (total_where test m == pos 0)) [
    | inl nothing ↦ rw nothing (record {
      valid = h.valid;
      keyed = IsKeyed-kept test m h.keyed;
      sizes = AreSizes-kept test m h.sizes;
      fresh = IdsUpTo-kept test b.allocation_inc_counter m h.fresh;
      pending_nonneg = h.pending_nonneg;
      balance =
          let zero_evicted : total_where test m ≡ pos 0 =
            (int_beq_iff (total_where test m) (pos 0)).0 nothing in
          omega
            (int_laws, parts_eq zero_evicted, parts_eq (total-split test m), parts_eq h.balance);
    })
    | inr some_evicted ↦
        let nonneg = total_where_nonneg test m h.sizes in
        let room = le→not-ltb_ℤ b.allocated (total_where test m) (evicted_le test) in
        let shrunk = Invariant.allocated_shrinks b (total_where test m) h.valid nonneg room in
        rw some_evicted (record {
          valid = Invariant.dec_allocated-IsValid b (total_where test m) h.valid nonneg;
          keyed = IsKeyed-kept test m h.keyed;
          sizes = AreSizes-kept test m h.sizes;
          fresh =
              unfold Budget.dec_allocated in
              rw room (IdsUpTo-kept test b.allocation_inc_counter m h.fresh);
          pending_nonneg = h.pending_nonneg;
          balance =
              unfold Budget.dec_allocated in
              rw (room, shrunk)
                (omega (int_laws, parts_eq (total-split test m), parts_eq h.balance));
        })
  ]
