-- ===== src/Reject.antt =====
-- src/reject/mod.rs: the policies that may refuse a request for a partition, and the gateway that asks
-- them in order.
use r.Base.{none, some, List, [], ◌∷◌, ◌≡◌, if◌then◌else◌, arith}
use r.Error.{Outcome, ok, err, panic, app_is_not_found, memory_usage_limited_by_huge_partition}
use r.Memory.{PartitionedUId}
use r.Persistent.{PersistentStore}
use r.Hybrid.{HybridStore}
use r.App
use r.App.{App, AppManager, write_app}
use r.App.Calls

-- The implementations of `ManualRejectPolicy`.
pub data RejectionPolicy : Type 0 where
  service_unhealthy_rejection_policy : RejectionPolicy
  disk_unhealthy_rejection_policy : RejectionPolicy
  huge_partition_rejection_policy : RejectionPolicy

-- `RejectionPolicyGateway::new`
abbrev pub policies : List RejectionPolicy
policies =
    service_unhealthy_rejection_policy ∷ disk_unhealthy_rejection_policy
    ∷ huge_partition_rejection_policy ∷ []

module _ (P : PersistentStore) (h : HybridStore P) where
  -- The policy of huge partitions, which may mark the partition.
  unfoldable pub allow_huge_partition :
      AppManager → PartitionedUId → AppManager × Outcome (Unit {0})
  unfolding App.get_app Calls.is_backpressure_for_huge_partition
  allow_huge_partition manager request = elim (App.get_app manager request.app_id) [
    | none ↦ (manager, err app_is_not_found)
    | some app ↦
        let (app', answer) = Calls.is_backpressure_for_huge_partition P app h request in
        let manager' = write_app manager request.app_id app' in
        elim answer [
          | ok limited ↦
              (manager', if limited then err memory_usage_limited_by_huge_partition else ok tt)
          | err e ↦ (manager', err e)
          | panic ↦ (manager', panic)
        ]
  ]

  unfoldable pub should_allow_by :
      RejectionPolicy → AppManager → PartitionedUId → AppManager × Outcome (Unit {0})
  unfolding allow_huge_partition
  should_allow_by service_unhealthy_rejection_policy manager request = (manager, ok tt)
  should_allow_by disk_unhealthy_rejection_policy manager request = (manager, ok tt)
  should_allow_by huge_partition_rejection_policy manager request =
      allow_huge_partition manager request

  -- The loop of the gateway, which ends with the first refusal.
  unfoldable pub ask :
      List RejectionPolicy → AppManager → PartitionedUId → AppManager × Outcome (Unit {0})
  unfolding should_allow_by
  ask [] manager uid = (manager, ok tt)
  ask (policy ∷ rest) manager uid =
      let (manager', answer) = should_allow_by policy manager uid in
      let asked = ask rest manager' uid in
      elim answer [ ok done ↦ asked | err e ↦ (manager', err e) | panic ↦ (manager', panic) ]

  unfoldable pub should_allow : AppManager → PartitionedUId → AppManager × Outcome (Unit {0})
  unfolding ask
  should_allow manager uid = ask policies manager uid

  -- The gateway asks no more than the policy of huge partitions does.
  should_allow-allow_huge_partition :
      (manager : AppManager) (uid : PartitionedUId)
      → should_allow manager uid ≡ allow_huge_partition manager uid
  unfolding should_allow
  should_allow-allow_huge_partition manager uid = ground arith
