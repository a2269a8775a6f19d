-- ===== src/Service/Reporting.antt =====
-- src/app.rs and src/grpc/service.rs: the ids of the blocks that clients report and ask for. The
-- bitmaps of the croaring crate are an interface. The bitmap of a partition's meta data is kept in a
-- map beside the application; no entry is the empty bitmap that the meta data is made with.
use r.Base.{ℕ, Option, none, some, List, [], ◌∷◌, Bytes, nat_eq, bytes_eq}
use r.Base.Int.{ℤ}
use r.Base.Machine.{to_u64}
use r.Base.Map
use r.Base.Map.{Map}
use r.Error.{Outcome, ok, err, panic}
use r.Memory.{PartitionedUId}
use r.Sending.{StatusCode, success, no_register, internal_error}
use r.App
use r.App.{App, AppManager, heartbeat, get_partition_meta, meta_key, pair_eq, write_app}
use r.Service.{uid_of}

-- A bitmap, and the numbers it iterates over.
pub record Treemap : Type 1 where
  pub State : Type 0
  pub default : State
  pub add : State → ℕ → State
  pub iter : State → List ℕ
  pub serialize : State → Outcome Bytes

module _ (T : Treemap) where
  pub record Reported : Type 0 where
    pub app_manager_ref : AppManager
    pub bitmaps : Map Bytes (Map (ℤ × ℤ) T.State)

  -- The `blocks_bitmap` of a partition of an application.
  abbrev pub bitmaps_of : Reported → Bytes → Map (ℤ × ℤ) T.State
  bitmaps_of s app_id = elim (Map.get app_id s.bitmaps) [ none ↦ [] | some m ↦ m ]

  abbrev pub blocks_bitmap : Reported → PartitionedUId → T.State
  blocks_bitmap s uid = elim (Map.get (meta_key uid) (bitmaps_of s uid.app_id)) [
    | none ↦ T.default
    | some b ↦ b
  ]

  abbrev with_bitmap : Reported → PartitionedUId → T.State → Reported
  with_bitmap s uid b = record s {
    bitmaps =
        Map.insert uid.app_id (Map.insert (meta_key uid) b (bitmaps_of s uid.app_id)) s.bitmaps;
  }

  abbrev with_app : Reported → Bytes → App → Reported
  with_app s app_id app = record s { app_manager_ref = write_app s.app_manager_ref app_id app }

  -- The loop of `PartitionedMeta::report_block_ids`.
  unfoldable pub add_ids : T.State → List ℤ → T.State
  add_ids b [] = b
  add_ids b (id ∷ ids) = add_ids (T.add b (to_u64 id)) ids

  unfoldable pub report_block_ids : ℕ → Reported → App → PartitionedUId → List ℤ → Reported
  unfolding heartbeat get_partition_meta add_ids
  report_block_ids now s app uid ids =
      let app' = (get_partition_meta (heartbeat app now) uid).0 in
      with_bitmap (with_app s uid.app_id app') uid (add_ids (blocks_bitmap s uid) ids)

  unfoldable pub get_block_ids_bitmap : Reported → App → PartitionedUId → Reported × T.State
  unfolding get_partition_meta
  get_block_ids_bitmap s app uid =
      (with_app s uid.app_id (get_partition_meta app uid).0, blocks_bitmap s uid)

  unfoldable pub get_block_ids : Reported → App → PartitionedUId → Reported × Outcome Bytes
  unfolding get_partition_meta
  get_block_ids s app uid =
      (with_app s uid.app_id (get_partition_meta app uid).0, T.serialize (blocks_bitmap s uid))

  -- The loop over the reported partitions. The application is shared, so that each round sees it as
  -- the round before left it.
  unfoldable pub report_partitions :
      ℕ → Reported → Bytes → ℤ → List (ℤ × List ℤ) → Reported × StatusCode
  unfolding App.get_app report_block_ids
  report_partitions now s app_id shuffle_id [] = (s, success)
  report_partitions now s app_id shuffle_id ((partition_id, block_ids) ∷ rest) =
      elim (App.get_app s.app_manager_ref app_id) [
        | none ↦ (s, no_register)
        | some app ↦
            report_partitions now
              (report_block_ids now s app (uid_of app_id shuffle_id partition_id) block_ids) app_id
              shuffle_id rest
      ]

  unfoldable pub report_shuffle_result :
      ℕ → Reported → Bytes → ℤ → List (ℤ × List ℤ) → Reported × StatusCode
  unfolding App.get_app report_partitions
  report_shuffle_result now s app_id shuffle_id partition_to_block_ids =
      elim (App.get_app s.app_manager_ref app_id) [
        | none ↦ (s, no_register)
        | some app ↦ report_partitions now s app_id shuffle_id partition_to_block_ids
      ]

  unfoldable pub get_shuffle_result :
      Reported → Bytes → ℤ → ℤ → Reported × Option (StatusCode × Bytes)
  unfolding App.get_app get_block_ids
  get_shuffle_result s app_id shuffle_id partition_id =
      elim (App.get_app s.app_manager_ref app_id) [
        | none ↦ (s, some (no_register, []))
        | some app ↦
            let (s', answer) = get_block_ids s app (uid_of app_id shuffle_id partition_id) in
            elim answer [
              | ok bytes ↦ (s', some (success, bytes))
              | err e ↦ (s', some (internal_error, []))
              | panic ↦ (s', none)
            ]
      ]

  -- `for block_id in bitmap.iter()`
  unfoldable pub add_all : T.State → List ℕ → T.State
  add_all b [] = b
  add_all b (id ∷ ids) = add_all (T.add b id) ids

  -- The loop over the requested partitions.
  unfoldable pub collect_partitions :
      Reported → App → Bytes → ℤ → List ℤ → T.State → Reported × T.State
  unfolding get_block_ids_bitmap add_all
  collect_partitions s app app_id shuffle_id [] bitmap_result = (s, bitmap_result)
  collect_partitions s app app_id shuffle_id (partition_id ∷ partitions) bitmap_result =
      let uid = uid_of app_id shuffle_id partition_id in
      let (s', bitmap) = get_block_ids_bitmap s app uid in
      collect_partitions s' (get_partition_meta app uid).0 app_id shuffle_id partitions
        (add_all bitmap_result (T.iter bitmap))

  -- `serialize().unwrap()`: a bitmap that cannot be serialized kills the task.
  unfoldable pub get_shuffle_result_for_multi_part :
      Reported → Bytes → ℤ → List ℤ → Reported × Option (StatusCode × Bytes)
  unfolding App.get_app collect_partitions
  get_shuffle_result_for_multi_part s app_id shuffle_id partitions =
      elim (App.get_app s.app_manager_ref app_id) [
        | none ↦ (s, some (no_register, []))
        | some app ↦
            let (s', bitmap_result) =
              collect_partitions s app app_id shuffle_id partitions T.default in
            elim (T.serialize bitmap_result) [
              | ok bytes ↦ (s', some (success, bytes))
              | err e ↦ (s', none)
              | panic ↦ (s', none)
            ]
      ]
