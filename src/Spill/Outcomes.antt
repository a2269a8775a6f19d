-- ===== src/Spill/Outcomes.antt =====
-- What the handlers of src/store/spill do to the counters and the queues of the hybrid store, and to
-- the message.
use r.Base.{
  ◌∙◌, ◌-◌, ◌<◌, ap, ℕ, ◌+◌, ◌%◌, ◌^◌, ◌≡◌, ◌≢◌, refl, ◌⊎◌, inl, inr, true, false, arith,
  Bool-cases,
}
use r.Base.Machine.{to_u64}
use r.Error.{Outcome-cases, WorkerError, ok, err, panic}
use r.Config.{StorageType, localfile, hdfs}
use r.Persistent.{PersistentStore, IsLawful}
use r.Spill
use r.Spill.{SpillMessage, HierarchyEventBus}
use r.Hybrid
use r.Hybrid.{HybridStore}
use r.Hybrid.Choosing.{
  select_storage_for_buffer, flush_storage_for_buffer, candidates, candidate_by_partition,
  write_to_candidate, insert_into_warm, insert_into_cold, healthy_cold, candidate_by_size,
  unwrap_or,
}
use r.Spill.Handlers.{
  on_select, on_flush, handle_spill_failure, handle_spill_failure_whatever_error,
  handle_spill_success, is_fatal,
}

module _ (P : PersistentStore) where
  -- The part of the store that counts events and queues them.
  abbrev pub counters : HybridStore P → (ℕ × ℕ) × HierarchyEventBus
  counters h = ((h.memory_spill_event_num, h.in_flight_bytes_size), h.event_bus)

  abbrev pub finished : HybridStore P → SpillMessage → (ℕ × ℕ) × HierarchyEventBus
  unfolding Hybrid.finish_spill_event
  finished h m = counters (Hybrid.finish_spill_event P h (to_u64 m.size))

  pub counters-select_storage_for_buffer :
      (h : HybridStore P) (m : SpillMessage)
      → counters (select_storage_for_buffer P h m).0 ≡ counters h
  unfolding select_storage_for_buffer candidate_by_partition
  counters-select_storage_for_buffer h m = ground arith

  pub counters-flush_storage_for_buffer :
      (h : HybridStore P) (m : SpillMessage)
      → counters (flush_storage_for_buffer P h m).0 ≡ counters h
  unfolding flush_storage_for_buffer write_to_candidate insert_into_warm insert_into_cold
  counters-flush_storage_for_buffer h m = ground arith

  pub counters-handle_spill_success :
      (m : SpillMessage) (h : HybridStore P) → counters (handle_spill_success P m h) ≡ finished h m
  unfolding handle_spill_success Hybrid.finish_spill_event Hybrid.release_memory_buffer
  counters-handle_spill_success m h = ground arith

  pub counters-handle_spill_failure_whatever_error :
      (m : SpillMessage) (h : HybridStore P)
      → counters (handle_spill_failure_whatever_error P m h) ≡ finished h m
  unfolding handle_spill_failure_whatever_error Hybrid.finish_spill_event
      Hybrid.release_memory_buffer
  counters-handle_spill_failure_whatever_error m h = ground arith

  -- The counters after an end depend on those before only.
  finished_ext :
      (h k : HybridStore P) (m : SpillMessage)
      → counters h ≡ counters k
      → finished h m ≡ finished k m
  unfolding Hybrid.finish_spill_event
  finished_ext h k m e =
      ap
        (λ c. (
          ((c.0.0 + (2 ^ 64 - 1)) % 2 ^ 64, (c.0.1 + (2 ^ 64 - to_u64 m.size % 2 ^ 64)) % 2 ^ 64),
          c.1,
        ))
        e

module _ (P : PersistentStore) (lawful : IsLawful P) where
  healthy_cold-returns : (h : HybridStore P) (warm : P.State) → healthy_cold P h warm ≢ panic
  unfolding healthy_cold
  healthy_cold-returns h warm =
      ground (arith, lawful.is_healthy-returns (unwrap_or h.cold_store warm))

  candidate_by_size-returns :
      (h : HybridStore P) (size : ℕ) (warm cold : P.State)
      → candidate_by_size P h size warm cold ≢ panic
  unfolding candidate_by_size
  candidate_by_size-returns h size warm cold = ground (arith, lawful.is_healthy-returns warm)

  candidates-returns : (h : HybridStore P) (m : SpillMessage) → candidates P h m ≢ panic
  unfolding candidates
  candidates-returns h m = grind (arith, healthy_cold-returns, candidate_by_size-returns)

  select_storage_for_buffer-returns :
      (h : HybridStore P) (m : SpillMessage) → (select_storage_for_buffer P h m).1 ≢ panic
  unfolding select_storage_for_buffer candidate_by_partition
  select_storage_for_buffer-returns h m = ground (arith, candidates-returns h m)

  select_storage_for_buffer-type :
      (h : HybridStore P) (m : SpillMessage) (t : StorageType)
      → (select_storage_for_buffer P h m).1 ≡ ok t
      → (t ≡ localfile) ⊎ (t ≡ hdfs)
  unfolding select_storage_for_buffer candidate_by_partition
  select_storage_for_buffer-type h m t e = grind (arith, lawful.name-cases)

  flush_storage_for_buffer-returns :
      (h : HybridStore P) (m : SpillMessage) → (flush_storage_for_buffer P h m).1 ≢ panic
  unfolding flush_storage_for_buffer write_to_candidate insert_into_warm insert_into_cold
  flush_storage_for_buffer-returns h m = grind (arith, lawful.spill_insert-returns)

  -- A selection keeps the event with a storage type that has a bus, or ends it.
  pub on_select-cases :
      (h : HybridStore P) (m : SpillMessage)
      → ((t : StorageType) × ((t ≡ localfile) ⊎ (t ≡ hdfs))
          × ((on_select P h m).answer ≡ ok true)
          × ((on_select P h m).message ≡ Spill.set_candidate_storage_type m t)
          × (counters P (on_select P h m).store ≡ counters P h))
        ⊎ (((on_select P h m).answer ≡ ok false)
            × (counters P (on_select P h m).store ≡ finished P h m))
  unfolding on_select
  on_select-cases h m =
      let k = (select_storage_for_buffer P h m).0 in
      let same = counters-select_storage_for_buffer P h m in
      elim (Outcome-cases (select_storage_for_buffer P h m).1) [
        | inl (t, e) ↦
            let sort = select_storage_for_buffer-type h m t e in
            inl (t, sort, rw (on_select, e) refl, rw (on_select, e) refl, rw (on_select, e) same)
        | inr (inl (x, e)) ↦
            let ended =
              counters-handle_spill_failure_whatever_error P m k ∙ finished_ext P k h m same in
            inr (rw (on_select, e) refl, rw (on_select, e) ended)
        | inr (inr e) ↦ absurd (select_storage_for_buffer-returns h m e)
      ]

  -- A fatal error ends the event, any other leaves it.
  handle_spill_failure-cases :
      (x : WorkerError) (m : SpillMessage) (h : HybridStore P)
      → (((handle_spill_failure P x m h).1 ≡ false)
          × (counters P (handle_spill_failure P x m h).0 ≡ finished P h m))
        ⊎ ((is_fatal x ≡ false) × (handle_spill_failure P x m h ≡ (h, true)))
  unfolding handle_spill_failure
  handle_spill_failure-cases x m h = elim (Bool-cases (is_fatal x)) [
    | inl fatal ↦ inl (
      rw fatal refl,
      rw (handle_spill_failure, fatal) (counters-handle_spill_failure_whatever_error P m h),
    )
    | inr tried ↦ inr (tried, rw (handle_spill_failure, tried) refl)
  ]

  -- The third retry is the last: a message that was retried more often fails for good.
  flush_storage_for_buffer-limit :
      (h : HybridStore P) (m : SpillMessage) (x : WorkerError)
      → (flush_storage_for_buffer P h m).1 ≡ err x
      → is_fatal x ≡ false
      → m.retry_cnt < 3
  unfolding flush_storage_for_buffer is_fatal
  flush_storage_for_buffer-limit h m x e f = ground arith

  -- A flush ends the event, or counts a retry of one that was tried less than three times.
  pub on_flush-cases :
      (h : HybridStore P) (m : SpillMessage)
      → (((on_flush P h m).answer ≡ ok true) × (counters P (on_flush P h m).store ≡ finished P h m))
        ⊎ (((on_flush P h m).answer ≡ ok false)
            × (m.retry_cnt < 3)
            × ((on_flush P h m).message ≡ Spill.inc_retry_counter m)
            × (counters P (on_flush P h m).store ≡ counters P h))
  unfolding on_flush Spill.inc_retry_counter
  on_flush-cases h m =
      let k = (flush_storage_for_buffer P h m).0 in
      let same = counters-flush_storage_for_buffer P h m in
      elim (Outcome-cases (flush_storage_for_buffer P h m).1) [
        | inl (done, e) ↦
            let ended = counters-handle_spill_success P m k ∙ finished_ext P k h m same in
            inl (rw (on_flush, e) refl, rw (on_flush, e) ended)
        | inr (inl (x, e)) ↦ elim (handle_spill_failure-cases x (Spill.inc_retry_counter m) k) [
          | inl (fatal, ended) ↦ inl (
            rw (on_flush, e) (rw fatal refl),
            rw (on_flush, e) (ended ∙ finished_ext P k h m same),
          )
          | inr (tried, left) ↦ inr (
            rw (on_flush, e) (rw left refl),
            flush_storage_for_buffer-limit h m x e tried,
            rw (on_flush, e) refl,
            rw (on_flush, e) (rw left same),
          )
        ]
        | inr (inr e) ↦ absurd (flush_storage_for_buffer-returns h m e)
      ]
