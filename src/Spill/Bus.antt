-- ===== src/Spill/Bus.antt =====
-- src/event_bus.rs and src/store/spill/hierarchy_event_bus.rs: the event buses and their hooks. A bus
-- takes the events of its queue in order but handles several at a time, which end in any order: a step
-- handles any event of a queue, to the end of its hook.
use r.Base.{ℕ, zero, suc, Option, none, some, List, [], ◌∷◌, ◌++◌, if◌then◌else◌}
use r.Error.{ok, err, panic}
use r.Config.{StorageType, localfile, hdfs}
use mathlib.Core.Option
use r.Persistent.{PersistentStore}
use r.Spill.{SpillMessage, HierarchyEventBus}
use r.Hybrid
use r.Hybrid.{HybridStore}
use r.Spill.Handlers.{Handled, on_select, on_flush}

-- An event of a queue, and the others.
unfoldable pub pick {ℓ} : {A : Type ℓ} → ℕ → List A → Option (A × List A)
pick n [] = none
pick zero (x ∷ xs) = some (x, xs)
pick (suc n) (x ∷ xs) = Option.map (λ (picked : _ × List _). (picked.0, x ∷ picked.1)) (pick n xs)

-- The event to handle next, by its place in the queue.
pub data BusStep : Type 0 where
  dispatch : ℕ → BusStep
  flush_to_localfile : ℕ → BusStep
  flush_to_hdfs : ℕ → BusStep

module _ (P : PersistentStore) where
  abbrev pub with_bus : HybridStore P → HierarchyEventBus → HybridStore P
  with_bus h bus = record h { event_bus = bus }

  -- `sync_publish` to the child of a storage type; other types have no child.
  unfoldable pub publish_to_child : HybridStore P → SpillMessage → StorageType → HybridStore P
  publish_to_child h m localfile =
      with_bus h (record h.event_bus { localfile = h.event_bus.localfile ++ (m ∷ []) })
  publish_to_child h m hdfs =
      with_bus h (record h.event_bus { hdfs = h.event_bus.hdfs ++ (m ∷ []) })
  publish_to_child h m t = h

  -- The hook of the dispatcher.
  unfoldable pub dispatch_hook : Handled P → HybridStore P
  unfolding publish_to_child
  dispatch_hook r = elim r.answer [
    | ok is_succeed ↦
        if is_succeed
        then elim r.message.candidate_store_type [
          | none ↦ r.store
          | some t ↦ publish_to_child r.store r.message t
        ]
        else r.store
    | err e ↦ r.store
    | panic ↦ r.store
  ]

  -- The hook of the children.
  unfoldable pub retry_hook : Handled P → HybridStore P
  unfolding Hybrid.publish
  retry_hook r = elim r.answer [
    | ok is_succeed ↦ if is_succeed then r.store else Hybrid.publish P r.store r.message
    | err e ↦ r.store
    | panic ↦ r.store
  ]

  unfoldable pub step : BusStep → HybridStore P → HybridStore P
  unfolding dispatch_hook retry_hook on_select on_flush
  step (dispatch n) h = elim (pick n h.event_bus.parent) [
    | none ↦ h
    | some (m, rest) ↦
        dispatch_hook (on_select P (with_bus h (record h.event_bus { parent = rest })) m)
  ]
  step (flush_to_localfile n) h = elim (pick n h.event_bus.localfile) [
    | none ↦ h
    | some (m, rest) ↦
        retry_hook (on_flush P (with_bus h (record h.event_bus { localfile = rest })) m)
  ]
  step (flush_to_hdfs n) h = elim (pick n h.event_bus.hdfs) [
    | none ↦ h
    | some (m, rest) ↦ retry_hook (on_flush P (with_bus h (record h.event_bus { hdfs = rest })) m)
  ]
