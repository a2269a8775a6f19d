-- ===== src/Hybrid/Answering.antt =====
-- src/store/hybrid.rs: the calls that the hybrid store passes on to its stores.
use r.Base.{ℕ, Bool, true, false, ◌&&◌, Option, none, some, Bytes}
use r.Base.Int.{ℤ, pos}
use r.Base.Machine.{add64}
use r.Error.{Outcome, ok, err, panic, ◌>>=◌}
use r.Store.Wrapper.{ResponseData, LocalDataIndex}
use r.Memory
use r.Memory.{PartitionedUId, RequireBufferResponse}
use r.Persistent.{
  PersistentStore, ReadingOptions, memory_last_block_id_and_max_size, file_offset_and_len,
}
use r.Hybrid.{HybridStore}

module _ (P : PersistentStore) where
  -- `warm_store.as_ref().unwrap()`
  abbrev unwrap_warm : HybridStore P → Outcome P.State
  unwrap_warm h = elim h.warm_store [ none ↦ panic | some warm ↦ ok warm ]

  -- The inner option is that of the memory read's fuel.
  unfoldable pub get :
      HybridStore P
      → PartitionedUId
      → ReadingOptions
      → Option (ℕ → Bool)
      → Outcome (Option ResponseData)
  unfolding Memory.get
  get h uid (memory_last_block_id_and_max_size last_block_id max_size) task_ids =
      Memory.get h.hot_store uid last_block_id max_size task_ids
  get h uid (file_offset_and_len offset len) task_ids =
      unwrap_warm h >>= λ warm. P.get warm uid (file_offset_and_len offset len) >>= λ r. ok (some r)

  unfoldable pub get_index : HybridStore P → PartitionedUId → Outcome LocalDataIndex
  get_index h uid = unwrap_warm h >>= λ warm. P.get_index warm uid

  -- The purge of a persistent store, if there is one, and the sum with what it removed.
  abbrev purge_store : Option P.State → Bytes → Option ℤ → ℤ → Option P.State × Outcome ℤ
  purge_store none app_id shuffle_id removed_size = (none, ok removed_size)
  purge_store (some store) app_id shuffle_id removed_size =
      let (store', answer) = P.purge store app_id shuffle_id in
      (some store', answer >>= λ removed. ok (add64 removed_size removed))

  -- A store that fails ends the purge.
  unfoldable pub purge : HybridStore P → Bytes → Option ℤ → HybridStore P × Outcome ℤ
  unfolding Memory.purge
  purge h app_id shuffle_id =
      let (hot, hot_size) = Memory.purge h.hot_store app_id shuffle_id in
      let (warm, warm_answer) =
        purge_store h.warm_store app_id shuffle_id (add64 (pos 0) hot_size) in
      let h1 = record h { hot_store = hot; warm_store = warm } in
      elim warm_answer [
        | ok warm_size ↦
            let (cold, answer) = purge_store h.cold_store app_id shuffle_id warm_size in
            (record h1 { cold_store = cold }, answer)
        | err e ↦ (h1, err e)
        | panic ↦ (h1, panic)
      ]

  -- `check_healthy` with `unwrap_or(false)`
  abbrev check_healthy : Option P.State → Outcome Bool
  check_healthy none = ok true
  check_healthy (some store) = elim (P.is_healthy store) [
    | ok b ↦ ok b
    | err e ↦ ok false
    | panic ↦ panic
  ]

  -- The memory store is always healthy.
  unfoldable pub is_healthy : HybridStore P → Outcome Bool
  is_healthy h = check_healthy h.warm_store >>= λ warm.
      check_healthy h.cold_store >>= λ cold. ok (warm && cold)

  unfoldable pub require_buffer :
      HybridStore P → PartitionedUId → ℤ → ℕ → HybridStore P × Outcome RequireBufferResponse
  unfolding Memory.require_buffer
  require_buffer h uid size now =
      let (hot, answer) = Memory.require_buffer h.hot_store uid size now in
      (record h { hot_store = hot }, answer)

  unfoldable pub release_ticket : HybridStore P → ℤ → HybridStore P × Outcome ℤ
  unfolding Memory.release_ticket
  release_ticket h ticket_id =
      let (hot, answer) = Memory.release_ticket h.hot_store ticket_id in
      (record h { hot_store = hot }, answer)

  unfoldable pub move_allocated_to_used_from_hot_store : HybridStore P → ℤ → HybridStore P
  unfolding Memory.move_allocated_to_used
  move_allocated_to_used_from_hot_store h size = record h {
    hot_store = Memory.move_allocated_to_used h.hot_store size;
  }

  unfoldable pub release_allocated_from_hot_store : HybridStore P → ℤ → HybridStore P
  unfolding Memory.dec_allocated
  release_allocated_from_hot_store h size = record h {
    hot_store = Memory.dec_allocated h.hot_store size;
  }
