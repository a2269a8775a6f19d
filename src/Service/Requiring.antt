-- ===== src/Service/Requiring.antt =====
-- src/grpc/service.rs: registration, buffer requests, heartbeats, and the calls that do nothing.
use r.Base.{ℕ, Option, none, some, Bytes}
use r.Base.Int.{ℤ, pos, negsuc}
use r.Error.{Outcome, ok, err, panic, memory_usage_limited_by_huge_partition}
use r.Memory.{RequireBufferResponse}
use r.Persistent.{PersistentStore}
use r.Sending.{
  StatusCode, success, no_register, internal_error, no_buffer, no_buffer_for_huge_partition,
}
use r.App
use r.App.{AppConfig}
use r.App.Calls
use r.Service.{Server, write_back, uid_of}

-- The status and the id of the ticket, -1 if there is none.
unfoldable pub required : Outcome RequireBufferResponse → Option (StatusCode × ℤ)
required (ok r) = some (success, r.ticket_id)
required (err memory_usage_limited_by_huge_partition) =
    some (no_buffer_for_huge_partition, negsuc 0)
required (err _) = some (no_buffer, negsuc 0)
required panic = none

module _ (P : PersistentStore) (now : ℕ) where
  unfoldable pub require_buffer : Server P → Bytes → ℤ → ℤ → Server P × Option (StatusCode × ℤ)
  unfolding App.get_app Calls.require_buffer required
  require_buffer s app_id shuffle_id require_size = elim (App.get_app s.app_manager_ref app_id) [
    | none ↦ (s, some (no_register, pos 0))
    | some app ↦
        let ((app', h'), answer) =
          Calls.require_buffer P app s.store (uid_of app_id shuffle_id (pos 1)) require_size now in
        (write_back P s app_id app' h', required answer)
  ]

  unfoldable pub app_heartbeat : Server P → Bytes → Server P × StatusCode
  unfolding App.get_app App.heartbeat
  app_heartbeat s app_id = elim (App.get_app s.app_manager_ref app_id) [
    | none ↦ (s, no_register)
    | some app ↦ (write_back P s app_id (App.heartbeat app now) s.store, success)
  ]

  abbrev with_apps : Server P → App.AppManager → Server P
  with_apps s manager = record {
    app_manager_ref = manager;
    store = Calls.with_manager P s.store manager;
  }

  unfoldable pub register_shuffle : AppConfig → Server P → Bytes → Server P × StatusCode
  unfolding Calls.register
  register_shuffle config s app_id =
      (with_apps s (Calls.register config now app_id s.app_manager_ref), success)

  unfoldable pub unregister_shuffle : Server P → Bytes → ℤ → Server P × StatusCode
  unfolding Calls.unregister_shuffle
  unregister_shuffle s app_id shuffle_id =
      (with_apps s (Calls.unregister_shuffle app_id shuffle_id s.app_manager_ref), success)

  unfoldable pub unregister_shuffle_by_app_id : Server P → Bytes → Server P × StatusCode
  unfolding Calls.unregister_app
  unregister_shuffle_by_app_id s app_id =
      (with_apps s (Calls.unregister_app app_id s.app_manager_ref), success)

  unfoldable pub commit_shuffle_task : Server P → Server P × StatusCode
  commit_shuffle_task s = (s, internal_error)

  unfoldable pub finish_shuffle : Server P → Server P × StatusCode
  finish_shuffle s = (s, success)
