-- ===== src/Spill/Draining.antt =====
-- How the event buses of src/store/spill end when no event is published: what is left to do for the
-- queued events, and the loops on fuel.
use r.Base.{
  ℕ, zero, suc, ◌+◌, ◌-◌, ◌*◌, ◌≤◌, ◌<◌, ◌≡◌, refl, ap, ◌∙◌, subst, ◌⊎◌, inl, inr, true, none, List,
  [], ◌∷◌, arith, sum_by,
}
use r.Persistent.{PersistentStore, IsLawful}
use r.Spill
use r.Spill.{SpillMessage, HierarchyEventBus}
use r.Hybrid.{HybridStore}
use r.Spill.Bus.{BusStep, dispatch, flush_to_localfile, flush_to_hdfs, step, pick}
use r.Spill.Outcomes.{counters}
use r.Spill.Effects.{
  total, Effect, nothing, dispatched, dropped, flushed, retried, step-Effect, is_waiting,
}
use r.Spill.Counting.{one, bytes, IsCounted, IsCounted-Effect}

-- What is left to do for an event before it is dispatched, and before it is flushed.
abbrev pub before_dispatch : SpillMessage → ℕ
before_dispatch m = 2 * (4 - m.retry_cnt) + 2

abbrev pub before_flush : SpillMessage → ℕ
before_flush m = 2 * (4 - m.retry_cnt) + 1

sum_by_le :
    (f : SpillMessage → ℕ) (xs : List SpillMessage)
    → ((m : SpillMessage) → f m ≤ 10)
    → sum_by f xs ≤ 10 * sum_by one xs
sum_by_le f [] h = omega arith
sum_by_le f (x ∷ xs) h = omega (arith, h x, sum_by_le f xs h)

module _ (P : PersistentStore) where
  abbrev work : HybridStore P → ℕ
  work h = total before_dispatch before_flush h.event_bus

  work_le : (h : HybridStore P) → work h ≤ 10 * total one one h.event_bus
  work_le h = omega (
    arith,
    sum_by_le before_dispatch h.event_bus.parent (λ m. omega arith),
    sum_by_le before_flush h.event_bus.localfile (λ m. omega arith),
    sum_by_le before_flush h.event_bus.hdfs (λ m. omega arith),
  )

  work-Effect : (h k : HybridStore P) → Effect P true h k → work k < work h
  unfolding Spill.set_candidate_storage_type Spill.inc_retry_counter
  work-Effect h k (nothing out e) = absurd cc
  work-Effect h k (dispatched m t moved same) = omega (arith, moved before_dispatch before_flush)
  work-Effect h k (dropped m moved ended) = omega (arith, moved before_dispatch before_flush)
  work-Effect h k (flushed m moved ended) = omega (arith, moved before_dispatch before_flush)
  work-Effect h k (retried m tries moved same) =
      omega (arith, tries, moved before_dispatch before_flush)

  -- A number of events handled in some order, while other tasks change anything but the counters and
  -- the queues.
  pub data Runs (h : HybridStore P) : ℕ → HybridStore P → Type 0 where
    start : Runs h zero h
    handle :
        (n : ℕ) (k : HybridStore P)
        → Runs h n k
        → (s : BusStep) → is_waiting P s k ≡ true
        → Runs h (suc n) (step P s k)
    meanwhile :
        (n : ℕ) (k l : HybridStore P) → Runs h n k → counters P l ≡ counters P k → Runs h n l

  module _ (lawful : IsLawful P) where
    work-step :
        (s : BusStep) (h : HybridStore P) → is_waiting P s h ≡ true → work (step P s h) < work h
    work-step s h there =
        work-Effect h (step P s h)
          (subst (λ b. Effect P b h (step P s h)) there (step-Effect P lawful s h))

    work-Runs : (h k : HybridStore P) (n : ℕ) → Runs h n k → n + work k ≤ work h
    work-Runs h k zero start = omega arith
    work-Runs h k n (handle i l r s there) = omega (arith, work-Runs h l i r, work-step s l there)
    work-Runs h k n (meanwhile i l j r e) =
        omega (arith, work-Runs h l n r, ap (λ c. total before_dispatch before_flush c.1) e)

  -- Over stores that do not panic and are named after local files or HDFS: however the events of the
  -- queues are ordered, whatever the handlers answer and whatever other tasks do to the rest of the
  -- store, no more than ten events are handled for each that was queued at first, if none is
  -- published meanwhile.
  pub Runs-ends :
      (h k : HybridStore P) (n : ℕ) → IsLawful P → Runs h n k → n ≤ 10 * total one one h.event_bus
  Runs-ends h k n lawful r = omega (arith, work-Runs lawful h k n r, work_le h)

  abbrev pub empty : HierarchyEventBus
  empty = record { parent = []; localfile = []; hdfs = [] }

  -- The oldest event of a bus that has one.
  unfoldable pub next : HierarchyEventBus → BusStep
  next bus = elim bus.parent [
    | [] ↦ elim bus.localfile [ [] ↦ flush_to_hdfs 0 | m ∷ ms ↦ flush_to_localfile 0 ]
    | m ∷ ms ↦ dispatch 0
  ]

  -- The loops of the buses, with the oldest event first, on fuel.
  unfoldable pub drain : ℕ → HybridStore P → HybridStore P
  unfolding step next
  drain zero h = h
  drain (suc fuel) h = drain fuel (step P (next h.event_bus) h)

  next-waiting :
      (h : HybridStore P) → (is_waiting P (next h.event_bus) h ≡ true) ⊎ (h.event_bus ≡ empty)
  unfolding pick next
  next-waiting h = ground arith

  step-absent :
      (h : HybridStore P) → pick 0 h.event_bus.hdfs ≡ none → step P (flush_to_hdfs 0) h ≡ h
  unfolding step
  step-absent h out = rw (step, out) refl

  step-empty : (h : HybridStore P) → h.event_bus ≡ empty → step P (next h.event_bus) h ≡ h
  unfolding step pick next
  step-empty h e =
      ap (λ b. step P (next b) h) e
      ∙ step-absent h (ap (λ (b : HierarchyEventBus). pick 0 b.hdfs) e)

  done :
      (h : HybridStore P)
      → IsCounted P h
      → h.event_bus ≡ empty
      → (h.event_bus ≡ empty) × (h.memory_spill_event_num ≡ 0) × (h.in_flight_bytes_size ≡ 0)
  done h c e = (
    e,
    omega (arith, c.number, ap (λ b. total one one b) e),
    omega (arith, c.in_flight, ap (λ b. total bytes bytes b) e),
  )

  module _ (lawful : IsLawful P) where
    drain-work :
        (fuel : ℕ) (h : HybridStore P)
        → IsCounted P h
        → work h ≤ fuel
        → ((drain fuel h).event_bus ≡ empty)
          × ((drain fuel h).memory_spill_event_num ≡ 0)
          × ((drain fuel h).in_flight_bytes_size ≡ 0)
    unfolding drain
    drain-work zero h c enough = elim (next-waiting h) [
      | inl there ↦ absurd (omega (arith, work-step lawful (next h.event_bus) h there))
      | inr idle ↦ done h c idle
    ]
    drain-work (suc fuel) h c enough = elim (next-waiting h) [
      | inl there ↦
          let s = next h.event_bus in
          let counted = IsCounted-Effect P _ h (step P s h) (step-Effect P lawful s h) c in
          drain-work fuel (step P s h) counted (omega (arith, work-step lawful s h there))
      | inr idle ↦
          rw (drain, step-empty h idle)
            (drain-work fuel h c
              (omega (arith, ap (λ b. total before_dispatch before_flush b) idle)))
    ]

  -- Handling the oldest events first, ten for each queued one, empties the queues and brings both
  -- counters to zero, if they counted the queued events and the stores do not panic and are named
  -- after local files or HDFS.
  pub drain-empties :
      (fuel : ℕ) (h : HybridStore P)
      → IsLawful P
      → IsCounted P h
      → 10 * total one one h.event_bus ≤ fuel
      → ((drain fuel h).event_bus ≡ empty)
        × ((drain fuel h).memory_spill_event_num ≡ 0)
        × ((drain fuel h).in_flight_bytes_size ≡ 0)
  drain-empties fuel h lawful c enough = drain-work lawful fuel h c (omega (arith, work_le h))
