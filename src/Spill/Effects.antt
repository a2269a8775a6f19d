-- ===== src/Spill/Effects.antt =====
-- What a step of the buses of src/store/spill/hierarchy_event_bus.rs does to the queues, as sums of
-- any weights of the queued messages, and to the counters of the hybrid store.
use r.Base.{
  Bool, ap₂, ap, ◌∙◌, ℕ, zero, suc, ◌+◌, ◌<◌, ◌≡◌, refl, inl, inr, true, false, none, some, List,
  [], ◌∷◌, ◌++◌, arith, sum_by, sum_by-append, Option-cases,
}
use r.Error.{ok}
use r.Config.{StorageType, localfile, hdfs}
use r.Persistent.{PersistentStore, IsLawful}
use r.Spill
use r.Spill.{SpillMessage, HierarchyEventBus}
use r.Hybrid
use r.Hybrid.{HybridStore}
use r.Spill.Handlers.{Handled, on_select, on_flush}
use r.Spill.Bus.{
  pick, BusStep, dispatch, flush_to_localfile, flush_to_hdfs, with_bus, publish_to_child,
  dispatch_hook, retry_hook, step,
}
use r.Spill.Outcomes.{counters, finished, on_select-cases, on_flush-cases}

-- The sum of the weights of the queued messages.
abbrev pub total : (SpillMessage → ℕ) → (SpillMessage → ℕ) → HierarchyEventBus → ℕ
total in_parent in_child bus =
    sum_by in_parent bus.parent + (sum_by in_child bus.localfile + sum_by in_child bus.hdfs)

pub sum_by-pick {ℓ} :
    {A : Type ℓ} (f : A → ℕ) (n : ℕ) (xs : List A) (x : A) (rest : List A)
    → pick n xs ≡ some (x, rest)
    → sum_by f xs ≡ f x + sum_by f rest
unfolding pick
sum_by-pick f n [] x rest e = ground arith
sum_by-pick f zero (y ∷ ys) x rest e = ground arith
sum_by-pick f (suc n) (y ∷ ys) x rest e = elim (Option-cases (pick n ys)) [
  | inl out ↦ absurd (let e1 = rw (pick, out) at e in ground (arith, e1))
  | inr ((q, others), there) ↦
      let before = sum_by-pick f n ys q others there in
      let e1 = rw (pick, there) at e in ground (arith, e1, before)
]

module _ (P : PersistentStore) where
  -- Whether the event that a step handles is there.
  abbrev pub is_waiting : BusStep → HybridStore P → Bool
  is_waiting (dispatch n) h = elim (pick n h.event_bus.parent) [ none ↦ false | some p ↦ true ]
  is_waiting (flush_to_localfile n) h = elim (pick n h.event_bus.localfile) [
    | none ↦ false
    | some p ↦ true
  ]
  is_waiting (flush_to_hdfs n) h = elim (pick n h.event_bus.hdfs) [ none ↦ false | some p ↦ true ]

  -- There is no event; an event goes to a child; one ends, before or after a flush; or it is retried.
  pub data Effect (waiting : Bool) (h k : HybridStore P) : Type 0 where
    nothing : waiting ≡ false → k ≡ h → Effect waiting h k
    dispatched :
        (m : SpillMessage) (t : StorageType)
        → ((v w : SpillMessage → ℕ)
            → total v w h.event_bus + w (Spill.set_candidate_storage_type m t)
              ≡ total v w k.event_bus + v m)
        → (counters P k).0 ≡ (counters P h).0
        → Effect waiting h k
    dropped :
        (m : SpillMessage)
        → ((v w : SpillMessage → ℕ) → total v w h.event_bus ≡ total v w k.event_bus + v m)
        → (counters P k).0 ≡ (finished P h m).0
        → Effect waiting h k
    flushed :
        (m : SpillMessage)
        → ((v w : SpillMessage → ℕ) → total v w h.event_bus ≡ total v w k.event_bus + w m)
        → (counters P k).0 ≡ (finished P h m).0
        → Effect waiting h k
    retried :
        (m : SpillMessage)
        → m.retry_cnt < 3
        → ((v w : SpillMessage → ℕ)
            → total v w h.event_bus + v (Spill.inc_retry_counter m) ≡ total v w k.event_bus + w m)
        → (counters P k).0 ≡ (counters P h).0
        → Effect waiting h k

  abbrev with_localfile : (ℕ × ℕ) × HierarchyEventBus → SpillMessage → (ℕ × ℕ) × HierarchyEventBus
  with_localfile c m = (c.0, record c.1 { localfile = c.1.localfile ++ (m ∷ []) })

  abbrev with_hdfs : (ℕ × ℕ) × HierarchyEventBus → SpillMessage → (ℕ × ℕ) × HierarchyEventBus
  with_hdfs c m = (c.0, record c.1 { hdfs = c.1.hdfs ++ (m ∷ []) })

  abbrev with_parent : (ℕ × ℕ) × HierarchyEventBus → SpillMessage → (ℕ × ℕ) × HierarchyEventBus
  with_parent c m = (c.0, record c.1 { parent = c.1.parent ++ (m ∷ []) })

  dispatch_hook-localfile :
      (r : Handled P) (m : SpillMessage)
      → r.answer ≡ ok true
      → r.message ≡ Spill.set_candidate_storage_type m localfile
      → counters P (dispatch_hook P r)
        ≡ with_localfile (counters P r.store) (Spill.set_candidate_storage_type m localfile)
  unfolding dispatch_hook publish_to_child Spill.set_candidate_storage_type
  dispatch_hook-localfile r m a e =
      rw (dispatch_hook, a)
        (rw (dispatch_hook, e) (ap (λ x. with_localfile (counters P r.store) x) e))

  dispatch_hook-hdfs :
      (r : Handled P) (m : SpillMessage)
      → r.answer ≡ ok true
      → r.message ≡ Spill.set_candidate_storage_type m hdfs
      → counters P (dispatch_hook P r)
        ≡ with_hdfs (counters P r.store) (Spill.set_candidate_storage_type m hdfs)
  unfolding dispatch_hook publish_to_child Spill.set_candidate_storage_type
  dispatch_hook-hdfs r m a e =
      rw (dispatch_hook, a) (rw (dispatch_hook, e) (ap (λ x. with_hdfs (counters P r.store) x) e))

  dispatch_hook-dropped :
      (r : Handled P) → r.answer ≡ ok false → counters P (dispatch_hook P r) ≡ counters P r.store
  unfolding dispatch_hook
  dispatch_hook-dropped r a = rw (dispatch_hook, a) refl

  retry_hook-done :
      (r : Handled P) → r.answer ≡ ok true → counters P (retry_hook P r) ≡ counters P r.store
  unfolding retry_hook
  retry_hook-done r a = rw (retry_hook, a) refl

  retry_hook-again :
      (r : Handled P)
      → r.answer ≡ ok false
      → counters P (retry_hook P r) ≡ with_parent (counters P r.store) r.message
  unfolding retry_hook Hybrid.publish
  retry_hook-again r a = rw (retry_hook, a) refl

  module _ (lawful : IsLawful P) where
    dispatch-Effect :
        (h : HybridStore P) (m : SpillMessage) (rest : List SpillMessage)
        → ((v : SpillMessage → ℕ) → sum_by v h.event_bus.parent ≡ v m + sum_by v rest)
        → Effect true h
            (dispatch_hook P (on_select P (with_bus P h (record h.event_bus { parent = rest })) m))
    unfolding Hybrid.finish_spill_event
    dispatch-Effect h m rest split =
        let bus = record h.event_bus { parent = rest } in
        let r = on_select P (with_bus P h bus) m in
        elim (on_select-cases P lawful (with_bus P h bus) m) [
          | inl (t, inl kind, answered, msg, same) ↦
              let m' = Spill.set_candidate_storage_type m localfile in
              let e =
                dispatch_hook-localfile r m answered (rw kind at msg)
                ∙ ap (λ c. with_localfile c m') same in
              (dispatched m localfile
                (λ v w. omega (
                  arith,
                  ap (λ c. total v w c.1) e,
                  sum_by-append w h.event_bus.localfile (m' ∷ []),
                  split v,
                ))
                (ap (λ c. c.0) e))
          | inl (t, inr kind, answered, msg, same) ↦
              let m' = Spill.set_candidate_storage_type m hdfs in
              let e =
                dispatch_hook-hdfs r m answered (rw kind at msg) ∙ ap (λ c. with_hdfs c m') same in
              (dispatched m hdfs
                (λ v w. omega (
                  arith,
                  ap (λ c. total v w c.1) e,
                  sum_by-append w h.event_bus.hdfs (m' ∷ []),
                  split v,
                ))
                (ap (λ c. c.0) e))
          | inr (answered, ended) ↦
              let e = dispatch_hook-dropped r answered ∙ ended in
              dropped m (λ v w. omega (arith, ap (λ c. total v w c.1) e, split v)) (ap (λ c. c.0) e)
        ]

    retry-Effect :
        (h : HybridStore P) (m : SpillMessage) (bus : HierarchyEventBus)
        → ((v w : SpillMessage → ℕ) → total v w h.event_bus ≡ w m + total v w bus)
        → Effect true h (retry_hook P (on_flush P (with_bus P h bus) m))
    unfolding Hybrid.finish_spill_event
    retry-Effect h m bus split =
        let r = on_flush P (with_bus P h bus) m in
        elim (on_flush-cases P lawful (with_bus P h bus) m) [
          | inl (answered, ended) ↦
              let e = retry_hook-done r answered ∙ ended in
              flushed m (λ v w. omega (arith, ap (λ c. total v w c.1) e, split v w))
                (ap (λ c. c.0) e)
          | inr (answered, tries, msg, same) ↦
              let m' = Spill.inc_retry_counter m in
              let e = retry_hook-again r answered ∙ ap₂ with_parent same msg in
              retried m tries
                (λ v w. omega (
                  arith,
                  ap (λ c. total v w c.1) e,
                  sum_by-append v bus.parent (m' ∷ []),
                  split v w,
                ))
                (ap (λ c. c.0) e)
        ]

    pub step-Effect : (s : BusStep) (h : HybridStore P) → Effect (is_waiting s h) h (step P s h)
    unfolding step
    step-Effect (dispatch n) h = elim (Option-cases (pick n h.event_bus.parent)) [
      | inl out ↦ nothing (rw (is_waiting, out) refl) (rw (step, out) refl)
      | inr ((m, rest), there) ↦
          rw (step, is_waiting, there)
            (dispatch-Effect h m rest (λ v. sum_by-pick v n h.event_bus.parent m rest there))
    ]
    step-Effect (flush_to_localfile n) h = elim (Option-cases (pick n h.event_bus.localfile)) [
      | inl out ↦ nothing (rw (is_waiting, out) refl) (rw (step, out) refl)
      | inr ((m, rest), there) ↦
          rw (step, is_waiting, there)
            (retry-Effect h m _
              (λ v w. omega (arith, sum_by-pick w n h.event_bus.localfile m rest there)))
    ]
    step-Effect (flush_to_hdfs n) h = elim (Option-cases (pick n h.event_bus.hdfs)) [
      | inl out ↦ nothing (rw (is_waiting, out) refl) (rw (step, out) refl)
      | inr ((m, rest), there) ↦
          rw (step, is_waiting, there)
            (retry-Effect h m _
              (λ v w. omega (arith, sum_by-pick w n h.event_bus.hdfs m rest there)))
    ]
