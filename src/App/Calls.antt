-- ===== src/App/Calls.antt =====
-- src/app.rs: the calls of an application into the hybrid store, and the purge events of the manager.
-- An application is shared with the manager; a call takes it and the store, and gives them back. A
-- time is in seconds.
use r.Base.{
  ℕ, ◌+◌, ◌-◌, ◌*◌, ◌%◌, ◌^◌, ltb, Bool, false, not, Option, none, some, List, [], ◌∷◌, ◌++◌, Bytes,
  bytes_eq, if◌then◌else◌,
}
use r.Base.Int.{ℤ}
use r.Base.Machine.{to_u64, to_i32}
use r.Base.Map
use r.Base.Map.{Map}
use r.Error.{Outcome, ok, err, panic, ◌>>=◌, other, memory_usage_limited_by_huge_partition}
use r.Store.Blocks.{Block}
use r.Memory
use r.Memory.{PartitionedUId, RequireBufferResponse}
use r.Persistent.{PersistentStore}
use r.Hybrid.{HybridStore}
use r.Hybrid.Choosing.{from_anyhow}
use r.Hybrid.Inserting
use r.Hybrid.Answering
use r.App.{
  App, AppManager, AppConfig, PurgeEvent, heartbeat_timeout, app_partial_shuffles_purge, app_purge,
  heartbeat, inc_partition_size, is_huge_partition, get_app, new_app, write_app,
}

-- The manager without the application if the purge is of all its shuffles.
unfoldable pub unregistered : AppManager → Bytes → Option ℤ → AppManager
unregistered manager app_id none = record manager { apps = Map.remove app_id manager.apps }
unregistered manager app_id (some shuffle_id) = manager

-- The application after a purge of a shuffle, which the manager still shares.
abbrev shared : AppManager → Bytes → Option ℤ → App → AppManager
shared manager app_id none app = manager
shared manager app_id (some shuffle_id) app = write_app manager app_id app

module _ (P : PersistentStore) where
  unfoldable pub insert :
      App → HybridStore P → PartitionedUId → List Block → ℕ → ℕ → (App × HybridStore P) × Outcome ℤ
  unfolding heartbeat inc_partition_size Inserting.insert
  insert app h uid data_blocks data_size now =
      let app1 = inc_partition_size (heartbeat app now) uid data_size in
      let app2 = record app1 {
        total_received_data_size = (app1.total_received_data_size + data_size) % 2 ^ 64;
        total_resident_data_size = (app1.total_resident_data_size + data_size) % 2 ^ 64;
      } in
      let (h', answer) = Inserting.insert P h uid data_blocks data_size in
      ((app2, h'), answer >>= λ done. ok (to_i32 data_size))

  -- The test of the memory that a huge partition uses.
  abbrev over_limit : App → HybridStore P → PartitionedUId → Outcome Bool
  over_limit app h uid = elim app.huge_partition_memory_max_available_size [
    | none ↦ panic
    | some huge_partition_memory ↦
        from_anyhow (Memory.get_buffer_size h.hot_store uid) >>= λ memory_used.
        ok (ltb huge_partition_memory memory_used)
  ]

  unfoldable pub is_backpressure_for_huge_partition :
      App → HybridStore P → PartitionedUId → App × Outcome Bool
  unfolding is_huge_partition Memory.get_buffer_size
  is_backpressure_for_huge_partition app h uid =
      let (app', huge) = is_huge_partition app uid in
      if not huge then (app', ok false) else (app', over_limit app' h uid)

  unfoldable pub require_buffer :
      App
      → HybridStore P
      → PartitionedUId
      → ℤ
      → ℕ
      → (App × HybridStore P) × Outcome RequireBufferResponse
  unfolding heartbeat is_backpressure_for_huge_partition Answering.require_buffer
  require_buffer app h uid size now =
      let (app', answer) = is_backpressure_for_huge_partition (heartbeat app now) h uid in
      elim answer [
        | ok limited ↦
            if limited
            then ((app', h), err memory_usage_limited_by_huge_partition)
            else let (h', granted) = Answering.require_buffer P h uid size now in
              ((app', h'), granted)
        | err e ↦ ((app', h), err e)
        | panic ↦ ((app', h), panic)
      ]

  unfoldable pub purge :
      App → HybridStore P → Bytes → Option ℤ → (App × HybridStore P) × Outcome (Unit {0})
  unfolding Answering.purge
  purge app h app_id shuffle_id =
      let (h', answer) = Answering.purge P h app_id shuffle_id in
      elim answer [
        | ok removed_size ↦ (
          (
            record app {
              total_resident_data_size =
                  (app.total_resident_data_size + (2 ^ 64 - to_u64 removed_size)) % 2 ^ 64;
            },
            h',
          ),
          ok tt,
        )
        | err e ↦ ((app, h'), err e)
        | panic ↦ ((app, h'), panic)
      ]

  -- The store with the manager that it asks, in a new state.
  abbrev pub with_manager : HybridStore P → AppManager → HybridStore P
  with_manager h manager = record h { app_manager = some manager }

  unfoldable pub purge_app_data :
      AppManager → HybridStore P → Bytes → Option ℤ → HybridStore P × Outcome (Unit {0})
  unfolding get_app unregistered purge
  purge_app_data manager h app_id shuffle_id = elim (get_app manager app_id) [
    | none ↦ (h, err other)
    | some app ↦
        let manager' = unregistered manager app_id shuffle_id in
        let ((app', h'), answer) = purge app (with_manager h manager') app_id shuffle_id in
        (with_manager h' (shared manager' app_id shuffle_id app'), answer)
  ]

  -- The body of the loop of the purger.
  unfoldable pub handle_purge_event :
      AppManager → HybridStore P → PurgeEvent → HybridStore P × Outcome (Unit {0})
  unfolding purge_app_data
  handle_purge_event manager h (heartbeat_timeout app_id) = purge_app_data manager h app_id none
  handle_purge_event manager h (app_purge app_id) = purge_app_data manager h app_id none
  handle_purge_event manager h (app_partial_shuffles_purge app_id shuffle_id) =
      purge_app_data manager h app_id (some shuffle_id)

-- `current - last_time > (app_heartbeat_timeout_min * 60) as u64`, in u64 and u32.
unfoldable pub is_expired : ℕ → ℕ → App → Bool
is_expired timeout_min current app =
    ltb ((timeout_min * 60) % 2 ^ 32) ((current + (2 ^ 64 - app.latest_heartbeat_time)) % 2 ^ 64)

-- A round of the heartbeat check: the events that it sends.
unfoldable pub timeout_events : ℕ → ℕ → Map Bytes App → List PurgeEvent
unfolding is_expired
timeout_events timeout_min current [] = []
timeout_events timeout_min current ((key, app) ∷ apps) =
    let rest = timeout_events timeout_min current apps in
    if is_expired timeout_min current app then heartbeat_timeout key ∷ rest else rest

unfoldable pub check_heartbeats : ℕ → AppManager → AppManager
unfolding timeout_events
check_heartbeats current manager = record manager {
  channel =
      manager.channel ++ timeout_events manager.app_heartbeat_timeout_min current manager.apps;
}

-- `register`: the application, made if it is new, gets a heartbeat.
unfoldable pub register : AppConfig → ℕ → Bytes → AppManager → AppManager
unfolding get_app new_app heartbeat
register config now app_id manager = elim (get_app manager app_id) [
  | none ↦ write_app manager app_id (heartbeat (new_app app_id config now) now)
  | some app ↦ write_app manager app_id (heartbeat app now)
]

unfoldable pub unregister_shuffle : Bytes → ℤ → AppManager → AppManager
unregister_shuffle app_id shuffle_id manager = record manager {
  channel = manager.channel ++ (app_partial_shuffles_purge app_id shuffle_id ∷ []);
}

unfoldable pub unregister_app : Bytes → AppManager → AppManager
unregister_app app_id manager = record manager {
  channel = manager.channel ++ (app_purge app_id ∷ []);
}
