-- ===== src/Memory/Spilling/Picked.antt =====
-- The candidates that the loops of `lookup_spill_buffers` of src/store/memory.rs pick, and what they
-- add up to.
use r.Base.{◌∙◌, ap, ℕ, ◌+◌, ◌≤◌, ◌≡◌, refl, sym, List, [], ◌∷◌, arith, Bool-cases, inl, inr, All}
use r.Base.Int.{leb_ℤ, ℤ, int_eq}
use r.Base.Machine.{add64}
use r.Base.Map
use r.Base.Map.{Map}
use r.Buffer.{BufferInternal}
use r.Memory.{get_buffer, PartitionedUId, uid_eq, MemoryStore}
use r.Memory.Spilling.{
  nothing_picked, choose, pick, pick_vals, Picking, TreeMap, sort_buffers, reversed,
}
use r.Memory.Spilling.Counting.{
  count_in, count_in_self, count, standing, count-reversed, count-sort_buffers, absent_standing,
  standing_once,
}
use r.Memory.Spilling.Sums.{
  IsStaged, AreStaged, staged_size, Listed, AllListed, reversed-Listed, sort_buffers-Listed,
  Found-self,
}

-- What is picked, where a partition is still to come as often as `n` says.
record IsSound (s : MemoryStore) (p : Picking) (n : PartitionedUId → ℕ) : Type 0 where
  total : p.spill_staging_size ≡ staged_size p.spill_candidates
  own : AreStaged s p.spill_candidates
  once : (uid : PartitionedUId) → standing uid p.spill_candidates + n uid ≤ 1

module _ (s : MemoryStore) (required : ℤ) where
  picked-IsSound :
      (size : ℤ) (pid : PartitionedUId) (b : BufferInternal) (p : Picking) (n : PartitionedUId → ℕ)
      → IsStaged s pid b
      → b.staging_size ≡ size
      → IsSound s p (λ uid. count_in uid (pid ∷ []) + n uid)
      → IsSound s
          (record {
            spill_staging_size = add64 p.spill_staging_size size;
            spill_candidates = Map.insert pid b p.spill_candidates;
          })
          n
  unfolding Map.insert
  picked-IsSound size pid b p n staged sized w =
      let self : standing pid p.spill_candidates ≡ 0 =
        omega (arith, count_in_self pid, w.once pid) in
      rw (Map.remove_absent pid p.spill_candidates (absent_standing pid p.spill_candidates self))
        (record {
          total =
              ap (λ z. add64 z size) w.total
              ∙ ap (λ z. add64 (staged_size p.spill_candidates) z) (sym sized);
          own = (staged, w.own);
          once = λ uid. omega (arith, w.once uid);
        })

  fewer :
      (p : Picking) (m n : PartitionedUId → ℕ)
      → ((uid : PartitionedUId) → n uid ≤ m uid)
      → IsSound s p m
      → IsSound s p n
  fewer p m n le w = record {
    total = w.total;
    own = w.own;
    once = λ uid. omega (arith, w.once uid, le uid);
  }

  pick_vals-IsSound :
      (size : ℤ) (vals : List PartitionedUId) (p : Picking) (n : PartitionedUId → ℕ)
      → All (Listed s size) vals
      → IsSound s p (λ uid. count_in uid vals + n uid)
      → IsSound s (pick_vals s required size vals p).0 n
  unfolding pick_vals get_buffer
  pick_vals-IsSound size [] p n listed w = fewer p _ n (λ uid. omega arith) w
  pick_vals-IsSound size (pid ∷ vals) p n ((b, (staged, sized)), listed) w =
      elim (Bool-cases (leb_ℤ required p.spill_staging_size)) [
        | inl enough ↦ rw enough (fewer p _ n (λ uid. omega arith) w)
        | inr more ↦ rw more (
            rw (get_buffer, staged.0)
              (pick_vals-IsSound size vals _ n listed (
                picked-IsSound size pid b p (λ uid. count_in uid vals + n uid) staged sized
                  (fewer p _ _ (λ uid. omega arith) w))))
      ]

  pick-IsSound :
      (m : TreeMap) (p : Picking)
      → AllListed s m
      → IsSound s p (λ uid. count uid m)
      → IsSound s (pick s required m p) (λ uid. 0)
  unfolding pick
  pick-IsSound [] p listed w = w
  pick-IsSound ((size, vals) ∷ m) p listed w =
      let after = pick_vals-IsSound size vals p (λ uid. count uid m) listed.0 w in
      elim (Bool-cases (pick_vals s required size vals p).1) [
        | inl left ↦ rw left (fewer _ _ (λ uid. 0) (λ uid. omega arith) after)
        | inr on ↦ rw on (pick-IsSound m _ listed.1 after)
      ]

  -- What the loops pick from a store in which no partition stands twice: staged buffers of the store,
  -- whose staging sizes are what the loops added up.
  pub choose_sound :
      Map.Distinct s.state
      → ((choose s required).spill_staging_size ≡ staged_size (choose s required).spill_candidates)
        × AreStaged s (choose s required).spill_candidates
  unfolding choose
  choose_sound d =
      let tree = sort_buffers s.state [] in
      let listed = sort_buffers-Listed s s.state [] (Found-self s.state d) tt in
      let w = pick-IsSound (reversed tree) nothing_picked (reversed-Listed s tree listed) (record {
        total = refl;
        own = tt;
        once = λ uid. omega (
          arith,
          count-reversed uid tree,
          count-sort_buffers uid s.state [],
          standing_once uid s.state d,
        );
      }) in
      (w.total, w.own)
