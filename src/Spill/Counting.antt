-- ===== src/Spill/Counting.antt =====
-- The counters of the spill events in src/store/hybrid.rs against the queues of the event buses.
use r.Base.{Bool, subst, ℕ, ◌%◌, ◌^◌, ◌≡◌, ap, sym, ◌∙◌, [], ◌∷◌, arith, sum_by-append}
use r.Base.Machine.{to_u64}
use r.Persistent.{PersistentStore, IsLawful}
use r.Spill
use r.Spill.{SpillMessage}
use r.Hybrid
use r.Hybrid.{HybridStore}
use r.Spill.Bus.{BusStep, step}
use r.Spill.Outcomes.{counters}
use r.Spill.Effects.{
  is_waiting, total, Effect, nothing, dispatched, dropped, flushed, retried, step-Effect,
}

abbrev pub one : SpillMessage → ℕ
one m = 1

abbrev pub bytes : SpillMessage → ℕ
bytes m = to_u64 m.size

module _ (P : PersistentStore) where
  -- What other tasks and the buses do: publish an event, handle one, or anything that leaves the
  -- counters and the queues alone.
  pub data Reach (h : HybridStore P) : HybridStore P → Type 0 where
    start : Reach h h
    publish :
        (k : HybridStore P)
        → Reach h k
        → (m : SpillMessage) → Reach h (Hybrid.publish_spill_event P k m)
    handle : (k : HybridStore P) → Reach h k → (s : BusStep) → Reach h (step P s k)
    meanwhile : (k l : HybridStore P) → Reach h k → counters P l ≡ counters P k → Reach h l

  -- The counters are the number and the bytes of the queued events, as 64-bit numbers.
  pub record IsCounted (h : HybridStore P) : Type 0 where
    pub number : h.memory_spill_event_num ≡ total one one h.event_bus % 2 ^ 64
    pub in_flight : h.in_flight_bytes_size ≡ total bytes bytes h.event_bus % 2 ^ 64

  IsCounted-publish_spill_event :
      (h : HybridStore P) (m : SpillMessage)
      → IsCounted h
      → IsCounted (Hybrid.publish_spill_event P h m)
  unfolding Hybrid.publish_spill_event Hybrid.publish Hybrid.start_spill_event
  IsCounted-publish_spill_event h m c = record {
    number = omega (arith, c.number, sum_by-append one h.event_bus.parent (m ∷ []));
    in_flight = omega (arith, c.in_flight, sum_by-append bytes h.event_bus.parent (m ∷ []));
  }

  IsCounted-counters :
      (h k : HybridStore P) → counters P k ≡ counters P h → IsCounted h → IsCounted k
  IsCounted-counters h k e c = record {
    number = ap (λ x. x.0.0) e ∙ c.number ∙ ap (λ x. total one one x.1 % 2 ^ 64) (sym e);
    in_flight = ap (λ x. x.0.1) e ∙ c.in_flight ∙ ap (λ x. total bytes bytes x.1 % 2 ^ 64) (sym e);
  }

  pub IsCounted-Effect :
      (b : Bool) (h k : HybridStore P) → Effect P b h k → IsCounted h → IsCounted k
  unfolding Hybrid.finish_spill_event Spill.set_candidate_storage_type Spill.inc_retry_counter
  IsCounted-Effect b h k (nothing out e) c = subst IsCounted (sym e) c
  IsCounted-Effect b h k (dispatched m t moved same) c = record {
    number = omega (arith, c.number, moved one one, ap (λ x. x.0) same);
    in_flight = omega (arith, c.in_flight, moved bytes bytes, ap (λ x. x.1) same);
  }
  IsCounted-Effect b h k (dropped m moved ended) c = record {
    number = omega (arith, c.number, moved one one, ap (λ x. x.0) ended);
    in_flight = omega (arith, c.in_flight, moved bytes bytes, ap (λ x. x.1) ended);
  }
  IsCounted-Effect b h k (flushed m moved ended) c = record {
    number = omega (arith, c.number, moved one one, ap (λ x. x.0) ended);
    in_flight = omega (arith, c.in_flight, moved bytes bytes, ap (λ x. x.1) ended);
  }
  IsCounted-Effect b h k (retried m tries moved same) c = record {
    number = omega (arith, c.number, moved one one, ap (λ x. x.0) same);
    in_flight = omega (arith, c.in_flight, moved bytes bytes, ap (λ x. x.1) same);
  }

  -- Over stores that do not panic and are named after local files or HDFS: if the counters of spill
  -- events are the number and the bytes of the queued events, modulo 2^64, then they still are after
  -- any sequence of events published, events handled in any order with any outcome, and changes by
  -- other tasks that leave the counters and the queues alone.
  pub Reach-IsCounted : (h k : HybridStore P) → IsLawful P → IsCounted h → Reach h k → IsCounted k
  Reach-IsCounted h k lawful c start = c
  Reach-IsCounted h k lawful c (publish l r m) =
      IsCounted-publish_spill_event l m (Reach-IsCounted h l lawful c r)
  Reach-IsCounted h k lawful c (handle l r s) =
      IsCounted-Effect (is_waiting P s l) l (step P s l) (step-Effect P lawful s l)
        (Reach-IsCounted h l lawful c r)
  Reach-IsCounted h k lawful c (meanwhile l j r e) =
      IsCounted-counters l k e (Reach-IsCounted h l lawful c r)
