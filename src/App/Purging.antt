-- ===== src/App/Purging.antt =====
-- What the purge of an application in src/app.rs does to its spill events that are still queued.
use r.Base.{◌≡◌, refl, ap, ◌∙◌, true, false, none, some, Bytes, bytes_eq, arith, beq_refl}
use r.Base.Machine.{to_u64}
use r.Base.Map
use r.Error.{ok, err, app_is_not_found}
use r.Persistent.{PersistentStore}
use r.Hybrid
use r.Hybrid.{HybridStore}
use r.Hybrid.Choosing.{select_storage_for_buffer, flush_storage_for_buffer}
use r.Spill
use r.Spill.{SpillMessage}
use r.Spill.Handlers.{
  on_select, on_flush, handle_spill_failure, handle_spill_failure_whatever_error, is_fatal,
}
use r.App.{App, AppManager, get_app, app_is_exist}
use r.App.Calls.{purge_app_data, unregistered}

module _ (P : PersistentStore) where
  dropped :
      (h : HybridStore P) (m : SpillMessage)
      → Spill.is_valid h.app_manager m.ctx ≡ false
      → handle_spill_failure_whatever_error P m h ≡ Hybrid.finish_spill_event P h (to_u64 m.size)
  unfolding handle_spill_failure_whatever_error
  dropped h m e = rw (handle_spill_failure_whatever_error, e) refl

  -- An event whose application is gone is only taken off the counters.
  on_flush-invalid :
      (h : HybridStore P) (m : SpillMessage)
      → Spill.is_valid h.app_manager m.ctx ≡ false
      → on_flush P h m ≡ record {
        store = Hybrid.finish_spill_event P h (to_u64 m.size);
        message = Spill.inc_retry_counter m;
        answer = ok true;
      }
  unfolding on_flush handle_spill_failure is_fatal Spill.inc_retry_counter
  on_flush-invalid h m e =
      let failed : flush_storage_for_buffer P h m ≡ (h, err app_is_not_found) =
        unfold flush_storage_for_buffer in rw (flush_storage_for_buffer, e) refl in
      rw (on_flush, failed) (rw failed (rw (dropped h (Spill.inc_retry_counter m) e) refl))

  on_select-invalid :
      (h : HybridStore P) (m : SpillMessage)
      → Spill.is_valid h.app_manager m.ctx ≡ false
      → on_select P h m ≡ record {
        store = Hybrid.finish_spill_event P h (to_u64 m.size);
        message = m;
        answer = ok false;
      }
  unfolding on_select
  on_select-invalid h m e =
      let failed : select_storage_for_buffer P h m ≡ (h, err app_is_not_found) =
        unfold select_storage_for_buffer in rw (select_storage_for_buffer, e) refl in
      rw (on_select, failed) (rw failed (rw (dropped h m e) refl))

  app_manager-purge_app_data :
      (manager : AppManager) (h : HybridStore P) (app_id : Bytes) (app : App)
      → get_app manager app_id ≡ some app
      → (purge_app_data P manager h app_id none).0.app_manager
        ≡ some (unregistered manager app_id none)
  unfolding purge_app_data
  app_manager-purge_app_data manager h app_id app e = rw (purge_app_data, e) refl

  is_valid-unregistered :
      (manager : AppManager) (m : SpillMessage)
      → m.ctx.has_app_manager ≡ true
      → Spill.is_valid (some (unregistered manager m.ctx.uid.app_id none)) m.ctx ≡ false
  unfolding Spill.is_valid app_is_exist get_app unregistered
  is_valid-unregistered manager m e =
      let a = m.ctx.uid.app_id in
      let gone : Map.get a (Map.remove a manager.apps) ≡ none =
        rw (Map.get-remove a a manager.apps) (rw (beq_refl a) refl) in
      ground (arith, e, gone)

  -- After the purge of a registered application, whether its data could be removed or not, a queued
  -- spill event of it, whose message knows of the manager, ends wherever it is: the selection and the
  -- flush leave both persistent stores and the memory as they are, take the event off the counters
  -- and do not ask for a retry.
  pub purge_app_data-drops :
      (manager : AppManager) (h : HybridStore P) (app : App) (m : SpillMessage)
      → get_app manager m.ctx.uid.app_id ≡ some app
      → m.ctx.has_app_manager ≡ true
      → (let h' = (purge_app_data P manager h m.ctx.uid.app_id none).0 in
          let ended = Hybrid.finish_spill_event P h' (to_u64 m.size) in
          (on_select P h' m ≡ record { store = ended; message = m; answer = ok false })
          × (on_flush P h' m
              ≡ record { store = ended; message = Spill.inc_retry_counter m; answer = ok true }))
  purge_app_data-drops manager h app m e known =
      let h' = (purge_app_data P manager h m.ctx.uid.app_id none).0 in
      let invalid : Spill.is_valid h'.app_manager m.ctx ≡ false =
        ap (λ a. Spill.is_valid a m.ctx)
          (app_manager-purge_app_data manager h m.ctx.uid.app_id app e)
        ∙ is_valid-unregistered manager m known in
      (on_select-invalid h' m invalid, on_flush-invalid h' m invalid)
