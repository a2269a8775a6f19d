-- ===== src/Spill/Handlers.antt =====
-- src/store/spill/mod.rs, storage_select_handler.rs and storage_flush_handler.rs: the handlers of the
-- spill events. A handler is one step; it answers whether the event is dealt with, or panics.
use r.Base.{Bool, true, false, not, if◌then◌else◌}
use r.Base.Machine.{to_u64}
use r.Error.{
  WorkerError, Outcome, ok, err, panic, partial_data_lost, local_disk_unhealthy,
  app_has_been_purged, app_is_not_found, spill_event_exceed_retry_max_limit,
}
use r.Persistent.{PersistentStore}
use r.Spill
use r.Spill.{SpillMessage}
use r.Hybrid
use r.Hybrid.{HybridStore}
use r.Hybrid.Choosing.{select_storage_for_buffer, flush_storage_for_buffer}

-- The errors after which an event is not tried again.
unfoldable pub is_fatal : WorkerError → Bool
is_fatal (spill_event_exceed_retry_max_limit e) = true
is_fatal (partial_data_lost e) = true
is_fatal (local_disk_unhealthy e) = true
is_fatal app_has_been_purged = true
is_fatal app_is_not_found = true
is_fatal e = false

module _ (P : PersistentStore) where
  unfoldable pub handle_spill_failure_whatever_error : SpillMessage → HybridStore P → HybridStore P
  unfolding Spill.is_valid Hybrid.release_memory_buffer Hybrid.finish_spill_event
  handle_spill_failure_whatever_error m h =
      Hybrid.finish_spill_event P
        (if Spill.is_valid h.app_manager m.ctx
          then (Hybrid.release_memory_buffer P h m.size m).0
          else h)
        (to_u64 m.size)

  -- The answer is whether the event could be retried.
  unfoldable pub handle_spill_failure :
      WorkerError → SpillMessage → HybridStore P → HybridStore P × Bool
  unfolding is_fatal handle_spill_failure_whatever_error
  handle_spill_failure e m h =
      if is_fatal e then (handle_spill_failure_whatever_error m h, false) else (h, true)

  unfoldable pub handle_spill_success : SpillMessage → HybridStore P → HybridStore P
  unfolding Hybrid.release_memory_buffer Hybrid.finish_spill_event
  handle_spill_success m h =
      Hybrid.finish_spill_event P (Hybrid.release_memory_buffer P h m.size m).0 (to_u64 m.size)

  -- What a handler leaves: the store, the message and the answer.
  pub record Handled : Type 0 where
    pub store : HybridStore P
    pub message : SpillMessage
    pub answer : Outcome Bool

  -- `StorageSelectHandler::on_event`
  unfoldable pub on_select : HybridStore P → SpillMessage → Handled
  unfolding select_storage_for_buffer Spill.set_candidate_storage_type
      handle_spill_failure_whatever_error
  on_select h m =
      let (h', select_result) = select_storage_for_buffer P h m in
      elim select_result [
        | ok t ↦ record {
          store = h';
          message = Spill.set_candidate_storage_type m t;
          answer = ok true;
        }
        | err e ↦ record {
          store = handle_spill_failure_whatever_error m h';
          message = m;
          answer = ok false;
        }
        | panic ↦ record { store = h'; message = m; answer = panic }
      ]

  -- `StorageFlushHandler::on_event`
  unfoldable pub on_flush : HybridStore P → SpillMessage → Handled
  unfolding flush_storage_for_buffer Spill.inc_retry_counter handle_spill_failure
      handle_spill_success
  on_flush h m =
      let (h', result) = flush_storage_for_buffer P h m in
      elim result [
        | ok done ↦ record { store = handle_spill_success m h'; message = m; answer = ok true }
        | err e ↦
            let m' = Spill.inc_retry_counter m in
            let (h'', could_be_retried) = handle_spill_failure e m' h' in
            record { store = h''; message = m'; answer = ok (not could_be_retried) }
        | panic ↦ record { store = h'; message = m; answer = panic }
      ]
