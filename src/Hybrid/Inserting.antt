-- ===== src/Hybrid/Inserting.antt =====
-- src/store/hybrid.rs: the insert and the spills that it starts, of a single buffer and down to the
-- low watermark. A buffer is shared with the memory store, so a spill is written back to it.
use r.Base.{ℕ, ltb, Bool, true, false, Option, none, some, List, [], ◌∷◌, if◌then◌else◌}
use r.Base.Int.{ℤ}
use r.Base.Machine.{sub64, to_i64}
use r.Base.Map.{Map}
use r.Error.{Outcome, ok, err, panic, other}
use r.Store.Blocks.{Block}
use r.Buffer
use r.Buffer.{BufferInternal}
use r.Memory
use r.Memory.{PartitionedUId, write_back}
use r.Memory.Spilling.{lookup_spill_buffers}
use r.Persistent.{PersistentStore}
use r.Spill.{SpillMessage}
use r.Hybrid
use r.Hybrid.{HybridStore}

abbrev is_some {ℓ} : {A : Type ℓ} → Option A → Bool
is_some none = false
is_some (some a) = true

module _ (P : PersistentStore) where
  -- The message of a spill of a partition's buffer.
  unfoldable pub spill_message : HybridStore P → PartitionedUId → BufferInternal → SpillMessage
  unfolding Buffer.spill
  spill_message h uid b =
      let spill_result = (Buffer.spill b).1 in
      record {
        ctx = record {
          uid = uid;
          data_blocks = spill_result.blocks;
          has_app_manager = is_some h.app_manager;
        };
        size = to_i64 spill_result.flight_len;
        retry_cnt = 0;
        flight_id = spill_result.flight_id;
        candidate_store_type = none;
      }

  unfoldable pub buffer_spill_impl :
      HybridStore P → PartitionedUId → BufferInternal → HybridStore P × ℕ
  unfolding Buffer.spill spill_message Hybrid.publish_spill_event
  buffer_spill_impl h uid b = (
    Hybrid.publish_spill_event P
        (record h { hot_store = write_back h.hot_store uid (Buffer.spill b).0 })
        (spill_message h uid b),
    (Buffer.spill b).1.flight_len,
  )

  unfoldable pub single_buffer_spill : HybridStore P → PartitionedUId → HybridStore P × Outcome ℕ
  unfolding Memory.get_buffer buffer_spill_impl
  single_buffer_spill h uid = elim (Memory.get_buffer h.hot_store uid) [
    | ok b ↦ let (h', flight_len) = buffer_spill_impl h uid b in (h', ok flight_len)
    | err e ↦ (h, err e)
    | panic ↦ (h, panic)
  ]

  -- The used size without what is in flight, and the capacity without what is allocated: the ratio
  -- that `get_memory_used_ratio` computes is the first over the second.
  unfoldable pub get_memory_used_ratio : HybridStore P → ℤ × ℤ
  unfolding Memory.memory_snapshot
  get_memory_used_ratio h =
      let snapshot = Memory.memory_snapshot h.hot_store in
      (
        sub64 snapshot.used (to_i64 h.in_flight_bytes_size),
        sub64 snapshot.capacity snapshot.allocated,
      )

  -- `for (uid, buffer) in buffers`
  unfoldable pub spill_buffers : HybridStore P → Map PartitionedUId BufferInternal → HybridStore P
  unfolding buffer_spill_impl
  spill_buffers h [] = h
  spill_buffers h ((uid, b) ∷ buffers) = spill_buffers (buffer_spill_impl h uid b).0 buffers

  unfoldable pub watermark_spill : HybridStore P → HybridStore P × Outcome (Unit {0})
  unfolding Memory.get_capacity lookup_spill_buffers spill_buffers
  watermark_spill h =
      let expected_mem_used =
        h.config.memory_spill_low_watermark (Memory.get_capacity h.hot_store) in
      elim (lookup_spill_buffers h.hot_store expected_mem_used) [
        | ok buffers ↦ (spill_buffers h buffers, ok tt)
        | err e ↦ (h, err e)
        | panic ↦ (h, panic)
      ]

  -- The spill of a buffer that is over its threshold; only the lookup of its size can fail.
  unfoldable pub spill_over_threshold :
      HybridStore P → PartitionedUId → HybridStore P × Outcome (Unit {0})
  unfolding Memory.get_buffer_staging_size single_buffer_spill
  spill_over_threshold h uid = elim h.config.memory_single_buffer_max_spill_size [
    | none ↦ (h, ok tt)
    | some threshold ↦ elim (Memory.get_buffer_staging_size h.hot_store uid) [
      | ok size ↦ (if ltb threshold size then (single_buffer_spill h uid).0 else h, ok tt)
      | err e ↦ (h, err other)
      | panic ↦ (h, panic)
    ]
  ]

  unfoldable pub spill_over_watermark : HybridStore P → HybridStore P
  unfolding get_memory_used_ratio watermark_spill
  spill_over_watermark h =
      let (used, capacity) = get_memory_used_ratio h in
      if h.config.memory_spill_high_watermark used capacity then (watermark_spill h).0 else h

  unfoldable pub insert :
      HybridStore P → PartitionedUId → List Block → ℕ → HybridStore P × Outcome (Unit {0})
  unfolding Memory.insert Hybrid.is_memory_only spill_over_threshold spill_over_watermark
  insert h uid data_blocks data_size =
      let h1 = record h { hot_store = Memory.insert h.hot_store uid data_blocks data_size } in
      if Hybrid.is_memory_only P h1
      then (h1, ok tt)
      else if h1.memory_spill_lock
      then (h1, ok tt)
      else let (h2, answer) = spill_over_threshold h1 uid in
        elim answer [
          | ok done ↦ (spill_over_watermark h2, ok tt)
          | err e ↦ (h2, err e)
          | panic ↦ (h2, panic)
        ]
