-- ===== src/Hybrid/Choosing.antt =====
-- src/store/hybrid.rs: where a spill event goes (`select_storage_for_buffer`) and its write to that
-- store (`flush_storage_for_buffer`).
use r.Base.{ℕ, ◌-◌, ◌^◌, ltb, leb, not, ◌&&◌, Option, none, some, if◌then◌else◌}
use r.Base.Machine.{to_u64}
use r.Error.{
  Outcome, ok, err, panic, ◌>>=◌, other, app_is_not_found, no_candidate_store,
  spill_event_exceed_retry_max_limit,
}
use r.Config.{StorageType, hdfs}
use r.App
use r.App.{AppManager, App}
use r.Persistent.{PersistentStore}
use r.Spill
use r.Spill.{SpillMessage}
use r.Hybrid.{HybridStore}

-- `?` on a result whose error is an `anyhow` one.
abbrev pub from_anyhow {ℓ} : {A : Type ℓ} → Outcome A → Outcome A
from_anyhow (ok a) = ok a
from_anyhow (err e) = err other
from_anyhow panic = panic

abbrev pub unwrap_or {ℓ} : {A : Type ℓ} → Option A → A → A
unwrap_or none a = a
unwrap_or (some b) a = b

module _ (P : PersistentStore) where
  -- The cold store, or the warm one if there is none or it is unhealthy.
  unfoldable pub healthy_cold : HybridStore P → P.State → Outcome P.State
  healthy_cold h warm =
      let cold = unwrap_or h.cold_store warm in
      from_anyhow (P.is_healthy cold) >>= λ healthy. ok (if healthy then cold else warm)

  -- The normal assignment.
  unfoldable pub candidate_by_size : HybridStore P → ℕ → P.State → P.State → Outcome P.State
  candidate_by_size h spill_size warm cold = from_anyhow (P.is_healthy warm) >>= λ healthy.
      let cold_spilled_size = unwrap_or h.config.memory_spill_to_cold_threshold_size (2 ^ 64 - 1) in
      ok (if healthy && ltb cold_spilled_size spill_size then cold else warm)

  -- The assignment of huge partitions, which may mark the partition.
  unfoldable pub candidate_by_partition :
      HybridStore P → SpillMessage → P.State → P.State → HybridStore P × Outcome P.State
  unfolding App.get_app App.is_huge_partition
  candidate_by_partition h m candidate cold = elim h.app_manager [
    | none ↦ (h, ok candidate)
    | some manager ↦ elim (App.get_app manager m.ctx.uid.app_id) [
      | none ↦ (h, err app_is_not_found)
      | some app ↦
          let (app', huge) = App.is_huge_partition app m.ctx.uid in
          (
            record h { app_manager = some (App.write_app manager m.ctx.uid.app_id app') },
            ok (
                if huge
                  && ltb h.config.huge_partition_memory_spill_to_hdfs_threshold_size (to_u64 m.size)
                then cold
                else candidate),
          )
    ]
  ]

  -- The candidates by size and health, the cold one last.
  unfoldable pub candidates : HybridStore P → SpillMessage → Outcome (P.State × P.State)
  unfolding healthy_cold candidate_by_size
  candidates h m = elim h.warm_store [
    | none ↦ err other
    | some warm ↦ healthy_cold h warm >>= λ cold.
        candidate_by_size h (to_u64 m.size) warm cold >>= λ candidate. ok (candidate, cold)
  ]

  unfoldable pub select_storage_for_buffer :
      HybridStore P → SpillMessage → HybridStore P × Outcome StorageType
  unfolding Spill.is_valid candidates candidate_by_partition
  select_storage_for_buffer h m =
      if not (Spill.is_valid h.app_manager m.ctx)
      then (h, err app_is_not_found)
      else elim (candidates h m) [
        | ok (candidate, cold) ↦
            let (h', chosen) = candidate_by_partition h m candidate cold in
            (h', chosen >>= λ c. ok (P.name (if leb 1 m.retry_cnt then cold else c)))
        | err e ↦ (h, err e)
        | panic ↦ (h, panic)
      ]

  unfoldable pub insert_into_warm :
      HybridStore P → P.State → SpillMessage → HybridStore P × Outcome (Unit {0})
  insert_into_warm h warm m =
      let (warm', answer) = P.spill_insert warm m.ctx.uid m.ctx.data_blocks in
      (record h { warm_store = some warm' }, answer)

  unfoldable pub insert_into_cold :
      HybridStore P → P.State → SpillMessage → HybridStore P × Outcome (Unit {0})
  unfolding insert_into_warm
  insert_into_cold h warm m = elim h.cold_store [
    | none ↦ insert_into_warm h warm m
    | some cold ↦
        let (cold', answer) = P.spill_insert cold m.ctx.uid m.ctx.data_blocks in
        (record h { cold_store = some cold' }, answer)
  ]

  -- The write to the candidate.
  unfoldable pub write_to_candidate :
      HybridStore P → SpillMessage → HybridStore P × Outcome (Unit {0})
  unfolding insert_into_warm insert_into_cold
  write_to_candidate h m = elim m.candidate_store_type [
    | none ↦ (h, err no_candidate_store)
    | some storage_type ↦ elim h.warm_store [
      | none ↦ (h, err other)
      | some warm ↦ elim storage_type [
        | hdfs ↦ insert_into_cold h warm m
        | _ ↦ insert_into_warm h warm m
      ]
    ]
  ]

  unfoldable pub flush_storage_for_buffer :
      HybridStore P → SpillMessage → HybridStore P × Outcome (Unit {0})
  unfolding Spill.is_valid write_to_candidate
  flush_storage_for_buffer h m =
      if not (Spill.is_valid h.app_manager m.ctx)
      then (h, err app_is_not_found)
      else if leb 3 m.retry_cnt
      then (h, err (spill_event_exceed_retry_max_limit m.ctx.uid.app_id))
      else write_to_candidate h m
