-- ===== src/Memory/Spilling/Choice.antt =====
-- What `lookup_spill_buffers` of src/store/memory.rs picks.
use r.Base.{
  ap₂, ◌≡◌, refl, sym, subst, Bool, true, false, Option, none, some, List, [], ◌∷◌, ◌==◌,
  Bool-cases, Option-cases, inl, inr, ◌⊎◌,
}
use r.Base.Int.{ℤ, pos, int_eq, leb_ℤ}
use r.Base.Machine.{add64, sub64}
use r.Base.Map
use r.Base.Map.{Map}
use r.Error.{ok, err, other}
use r.Buffer.{BufferInternal}
use r.Memory.{PartitionedUId, uid_eq, uid_beq_iff, MemoryStore, get_buffer}
use r.Memory.Spilling.{
  TreeMap, sort_buffers, reversed, Picking, pick_vals, pick, nothing_picked, choose,
  lookup_spill_buffers,
}
use r.Memory.Spilling.Listing.{In, InTree, InTree-reversed, InTree-sort_buffers}
use r.Memory.Spilling.Sums.{AreStaged, staged_size}
use r.Memory.Spilling.Picked.{choose_sound}

-- The candidate of a partition is its buffer in the store.
abbrev Taken : MemoryStore → PartitionedUId → Picking → Type 0
Taken s uid p = Map.get uid p.spill_candidates ≡ Map.get uid s.state

missing_buffer :
    (s : MemoryStore) (uid : PartitionedUId)
    → Map.get uid s.state ≡ none
    → get_buffer s uid ≡ err other
missing_buffer s uid e = unfold get_buffer in rw (get_buffer, e)

stored_buffer :
    (s : MemoryStore) (uid : PartitionedUId) (b : BufferInternal)
    → Map.get uid s.state ≡ some b
    → get_buffer s uid ≡ ok b
stored_buffer s uid b e = unfold get_buffer in rw (get_buffer, e)

module _ (s : MemoryStore) (required : ℤ) where
  -- One more candidate.
  abbrev picked : ℤ → PartitionedUId → BufferInternal → Picking → Picking
  picked size pid b p = record {
    spill_staging_size = add64 p.spill_staging_size size;
    spill_candidates = Map.insert pid b p.spill_candidates;
  }

  picked-Taken :
      (size : ℤ) (pid : PartitionedUId) (b : BufferInternal) (p : Picking) (uid : PartitionedUId)
      → Map.get pid s.state ≡ some b
      → (pid ≡ uid) ⊎ Taken s uid p
      → Taken s uid (picked size pid b p)
  picked-Taken size pid b p uid there h = elim (Bool-cases (pid == uid)) [
    | inl hit ↦
        let same : pid ≡ uid = (uid_beq_iff pid uid).0 hit in
        rw (Map.get-insert pid uid b p.spill_candidates) (rw hit (sym (rw same at there)))
    | inr miss ↦ rw (Map.get-insert pid uid b p.spill_candidates) (rw miss (still miss h))
  ]
    where
      still : (pid == uid) ≡ false → (pid ≡ uid) ⊎ Taken s uid p → Taken s uid p
      still miss (inl e) = absurd (let k = (uid_beq_iff pid uid).1 e in cc)
      still miss (inr t) = t

  -- Enough was picked and the loops were left, or the partition is a candidate.
  abbrev Settled : PartitionedUId → Picking × Bool → Type 0
  Settled uid r =
      ((r.1 ≡ true) × (leb_ℤ required r.0.spill_staging_size ≡ true))
      ⊎ ((r.1 ≡ false) × Taken s uid r.0)

  pick_vals-Settled :
      (size : ℤ) (vals : List PartitionedUId) (p : Picking) (uid : PartitionedUId)
      (b : BufferInternal)
      → Map.get uid s.state ≡ some b
      → In uid vals ⊎ Taken s uid p
      → Settled uid (pick_vals s required size vals p)
  unfolding pick_vals
  pick_vals-Settled size [] p uid b there (inl h) = absurd h
  pick_vals-Settled size [] p uid b there (inr t) = inr (refl, t)
  pick_vals-Settled size (pid ∷ vals) p uid b there h =
      elim (Bool-cases (leb_ℤ required p.spill_staging_size)) [
        | inl enough ↦ rw enough (inl (refl, enough))
        | inr more ↦ rw more (elim (Option-cases (Map.get pid s.state)) [
          | inl gone ↦
              rw (missing_buffer s pid gone)
                (pick_vals-Settled size vals p uid b there (later gone h))
          | inr (d, found) ↦
              rw (stored_buffer s pid d found)
                (pick_vals-Settled size vals (picked size pid d p) uid b there (taken d found h))
        ])
      ]
    where
      later :
          Map.get pid s.state ≡ none
          → In uid (pid ∷ vals) ⊎ Taken s uid p
          → In uid vals ⊎ Taken s uid p
      later gone (inl (inl e)) = absurd (clash (subst (λ k. Map.get k s.state ≡ none) e gone))
        where
          clash : Map.get uid s.state ≡ none → ⊥
          clash g = cc
      later gone (inl (inr k)) = inl k
      later gone (inr t) = inr t

      taken :
          (d : BufferInternal)
          → Map.get pid s.state ≡ some d
          → In uid (pid ∷ vals) ⊎ Taken s uid p
          → In uid vals ⊎ Taken s uid (picked size pid d p)
      taken d found (inl (inl e)) = inr (picked-Taken size pid d p uid found (inl e))
      taken d found (inl (inr k)) = inl k
      taken d found (inr t) = inr (picked-Taken size pid d p uid found (inr t))

  -- The outer loop is left only when enough was picked.
  pick_vals-left :
      (size : ℤ) (vals : List PartitionedUId) (p : Picking)
      → (pick_vals s required size vals p).1 ≡ true
      → leb_ℤ required (pick_vals s required size vals p).0.spill_staging_size ≡ true
  unfolding pick_vals
  pick_vals-left size [] p left = cc
  pick_vals-left size (pid ∷ vals) p left =
      elim (Bool-cases (leb_ℤ required p.spill_staging_size)) [
        | inl enough ↦ rw enough enough
        | inr more ↦ elim (Option-cases (Map.get pid s.state)) [
          | inl gone ↦ rw more (
              rw (missing_buffer s pid gone)
                (pick_vals-left size vals p (rw (missing_buffer s pid gone) at (rw more at left))))
          | inr (d, found) ↦ rw more (
              rw (stored_buffer s pid d found) (
                pick_vals-left size vals (picked size pid d p)
                  (rw (stored_buffer s pid d found) at (rw more at left))))
        ]
      ]

  kept_going :
      (uid : PartitionedUId) (r : Picking × Bool) → r.1 ≡ false → Settled uid r → Taken s uid r.0
  kept_going uid r on (inl e) = absurd (let k = e.0 in cc)
  kept_going uid r on (inr t) = t.1

  pick-Settled :
      (m : TreeMap) (p : Picking) (uid : PartitionedUId) (b : BufferInternal)
      → Map.get uid s.state ≡ some b
      → InTree uid m ⊎ Taken s uid p
      → (leb_ℤ required (pick s required m p).spill_staging_size ≡ true)
        ⊎ Taken s uid (pick s required m p)
  unfolding pick
  pick-Settled [] p uid b there (inl h) = absurd h
  pick-Settled [] p uid b there (inr t) = inr t
  pick-Settled ((size, vals) ∷ m) p uid b there h =
      elim (Bool-cases (pick_vals s required size vals p).1) [
        | inl left ↦ rw left (stopped left h)
        | inr on ↦
            rw on (pick-Settled m (pick_vals s required size vals p).0 uid b there (carried on h))
      ]
    where
      stopped :
          (pick_vals s required size vals p).1 ≡ true
          → InTree uid ((size, vals) ∷ m) ⊎ Taken s uid p
          → (leb_ℤ required (pick_vals s required size vals p).0.spill_staging_size ≡ true)
            ⊎ Taken s uid (pick_vals s required size vals p).0
      stopped left h = inl (pick_vals-left size vals p left)

      carried :
          (pick_vals s required size vals p).1 ≡ false
          → InTree uid ((size, vals) ∷ m) ⊎ Taken s uid p
          → InTree uid m ⊎ Taken s uid (pick_vals s required size vals p).0
      carried on (inr t) = inr (
          kept_going uid (pick_vals s required size vals p) on
            (pick_vals-Settled size vals p uid b there (inr t)))
      carried on (inl (inl k)) = inr (
          kept_going uid (pick_vals s required size vals p) on
            (pick_vals-Settled size vals p uid b there (inl k)))
      carried on (inl (inr k)) = inl k

-- If no partition stands twice in the store, a lookup that is to free more than nothing answers with
-- buffers of the store that have something staged, each under its partition, whose staging sizes,
-- added up as i64, are at least what is to be freed, unless every partition that has something staged
-- is among them.
pub lookup_spill_buffers_lem :
    (s : MemoryStore) (expected_mem_used : ℤ) (uid : PartitionedUId) (b : BufferInternal)
    → Map.Distinct s.state
    → leb_ℤ (sub64 s.budget.used expected_mem_used) (pos 0) ≡ false
    → Map.get uid s.state ≡ some b
    → (b.staging_size == pos 0) ≡ false
    → (candidates : Map PartitionedUId BufferInternal) × (lookup_spill_buffers s expected_mem_used
        ≡ ok candidates)
      × AreStaged s candidates
      × ((leb_ℤ (sub64 s.budget.used expected_mem_used) (staged_size candidates) ≡ true)
          ⊎ (Map.get uid candidates ≡ some b))
unfolding lookup_spill_buffers choose
lookup_spill_buffers_lem s expected uid b d some_needed there staged =
    let required = sub64 s.budget.used expected in
    let tree = sort_buffers s.state [] in
    let listed = InTree-reversed uid tree (InTree-sort_buffers uid b s.state [] there staged) in
    let (total, own) = choose_sound s required d in
    (
      (choose s required).spill_candidates,
      rw some_needed,
      own,
      subst
          (λ (x : ℤ × Option BufferInternal).
            (leb_ℤ required x.0 ≡ true) ⊎ (Map.get uid (choose s required).spill_candidates ≡ x.1))
          (ap₂ (λ (z : ℤ) (o : Option BufferInternal). (z, o)) total there)
          (pick-Settled s required (reversed tree) nothing_picked uid b there (inl listed)),
    )
