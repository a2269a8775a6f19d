-- ===== src/Memory/Spilling.antt =====
-- `lookup_spill_buffers` of src/store/memory.rs: the partitions whose staged blocks a spill takes,
-- those with the largest staging size first. The tree map is a list in ascending order.
pub mod Listing
pub mod Choice
pub mod Counting
pub mod Sums
pub mod Picked
use r.Base.{
  ℕ, ◌≡◌, refl, sym, subst, ap, Bool, true, false, Option, none, some, List, [], ◌∷◌, ◌++◌, ◌==◌,
  if◌then◌else◌, arith, Bool-cases, Option-cases, inl, inr, ◌⊎◌,
}
use r.Base.Int.{ℤ, pos, int_eq, int_beq_iff, ltb_ℤ, leb_ℤ}
use r.Base.Machine.{add64, sub64}
use r.Base.Map
use r.Base.Map.{Map}
use r.Error.{Outcome, ok, err, panic, other}
use r.Buffer.{BufferInternal}
use r.Memory.{PartitionedUId, uid_eq, uid_beq_iff, MemoryStore, get_buffer}

abbrev pub TreeMap : Type 0
TreeMap = List (ℤ × List PartitionedUId)

-- `entry(staging_size).or_insert_with(|| vec![]).push(key)`
unfoldable pub push_key : ℤ → PartitionedUId → TreeMap → TreeMap
push_key size key [] = (size, key ∷ []) ∷ []
push_key size key ((s, valset) ∷ m) =
    let rest = push_key size key m in
    if s == size
    then (s, valset ++ (key ∷ [])) ∷ m
    else if ltb_ℤ size s
    then (size, key ∷ []) ∷ (s, valset) ∷ m
    else (s, valset) ∷ rest

-- The loop over the buffers; one with nothing staged is left out.
unfoldable pub sort_buffers : Map PartitionedUId BufferInternal → TreeMap → TreeMap
sort_buffers [] m = m
sort_buffers ((key, b) ∷ buffers) m =
    sort_buffers buffers (if b.staging_size == pos 0 then m else push_key b.staging_size key m)

unfoldable pub reversed : TreeMap → TreeMap
reversed [] = []
reversed (x ∷ m) = reversed m ++ (x ∷ [])

pub record Picking : Type 0 where
  pub spill_staging_size : ℤ
  pub spill_candidates : Map PartitionedUId BufferInternal

module _ (s : MemoryStore) (required : ℤ) where
  -- `for pid in vals`, with whether the outer loop was left.
  unfoldable pub pick_vals : ℤ → List PartitionedUId → Picking → Picking × Bool
  pick_vals size [] p = (p, false)
  pick_vals size (pid ∷ vals) p =
      let skipped = pick_vals size vals p in
      if leb_ℤ required p.spill_staging_size then (p, true) else elim (get_buffer s pid) [
        | ok b ↦ pick_vals size vals (record {
          spill_staging_size = add64 p.spill_staging_size size;
          spill_candidates = Map.insert pid b p.spill_candidates;
        })
        | err e ↦ skipped
        | panic ↦ skipped
      ]

  -- `'outer: for (size, vals) in iter`
  unfoldable pub pick : TreeMap → Picking → Picking
  pick [] p = p
  pick ((size, vals) ∷ m) p =
      let (p', left) = pick_vals size vals p in let rest = pick m p' in if left then p' else rest

abbrev pub nothing_picked : Picking
nothing_picked = record { spill_staging_size = pos 0; spill_candidates = [] }

-- The loops, from the buffers to what is picked.
unfoldable pub choose : MemoryStore → ℤ → Picking
choose s required = pick s required (reversed (sort_buffers s.state [])) nothing_picked

unfoldable pub lookup_spill_buffers : MemoryStore → ℤ → Outcome (Map PartitionedUId BufferInternal)
lookup_spill_buffers s expected_mem_used =
    let required_spilled_size = sub64 s.budget.used expected_mem_used in
    if leb_ℤ required_spilled_size (pos 0)
    then err other
    else ok (choose s required_spilled_size).spill_candidates
