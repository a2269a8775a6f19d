-- ===== src/App/Racing.antt =====
-- The huge partitions of an application in src/app.rs against the counter of them, while calls of
-- `is_huge_partition` take their locked steps in any order.
use r.Base.{zero, suc, ℕ, ◌+◌, ◌≤◌, List, [], ◌∷◌, arith, length}
use r.Base.Map
use r.Base.Map.{Map}
use r.Memory.{PartitionedUId}
use r.App.{
  Bytes, App, pair_eq, AppConfig, inc_partition_size, Stage, looks_up, counts, answers, advance,
  new_app,
}
use r.App.Marking.{marked}

-- What a call is yet to add to the counter: after its mark, and at most.
abbrev owed : Stage → ℕ
owed counts = 1
owed stage = 0

abbrev live : Stage → ℕ
live (answers huge) = 0
live stage = 1

-- The calls that were made, and where each stands.
abbrev pub Callers : Type 0
Callers = List (PartitionedUId × Stage)

abbrev pub all_owed : Callers → ℕ
all_owed [] = 0
all_owed ((uid, stage) ∷ callers) = owed stage + all_owed callers

abbrev pub all_live : Callers → ℕ
all_live [] = 0
all_live ((uid, stage) ∷ callers) = live stage + all_live callers

-- The next step of the call at a place.
abbrev pub moved : ℕ → ℕ → App → Callers → App × Callers
moved t n app [] = (app, [])
moved t zero app ((uid, stage) ∷ callers) =
    ((advance t uid app stage).0, (uid, (advance t uid app stage).1) ∷ callers)
moved t (suc n) app (caller ∷ callers) =
    ((moved t n app callers).0, caller ∷ (moved t n app callers).1)

-- What a step may do, where `o` and `l` count what the calls still owe and may add.
record Effect (app : App) (o l : ℕ) (app' : App) (o' l' : ℕ) : Type 0 where
  distinct : Map.Distinct app'.bitmap_of_blocks
  covered :
      marked app'.bitmap_of_blocks + (app.huge_partition_number + o)
      ≤ marked app.bitmap_of_blocks + (app'.huge_partition_number + o')
  bounded : app'.huge_partition_number + l' ≤ app.huge_partition_number + l

-- An application and the calls of it.
pub record Calling : Type 0 where
  pub app : App
  pub callers : Callers

pub data Event : Type 0 where
  adds : PartitionedUId → ℕ → Event
  asks : PartitionedUId → Event
  moves : ℕ → Event

abbrev pub step : ℕ → Calling → Event → Calling
step t c (adds uid size) = record c { app = inc_partition_size c.app uid size }
step t c (asks uid) = record c { callers = (uid, looks_up) ∷ c.callers }
step t c (moves n) = record {
  app = (moved t n c.app c.callers).0;
  callers = (moved t n c.app c.callers).1;
}

abbrev pub run : ℕ → List Event → Calling → Calling
run t [] c = c
run t (e ∷ es) c = run t es (step t c e)

abbrev pub asked : List Event → ℕ
asked [] = 0
asked (asks uid ∷ es) = suc (asked es)
asked (e ∷ es) = asked es

-- Each partition stands once, each that is marked is counted or about to be, and the counter is at
-- most the number of calls that have marked a partition or still may.
pub record IsCounted (c : Calling) : Type 0 where
  pub distinct : Map.Distinct c.app.bitmap_of_blocks
  pub covered : marked c.app.bitmap_of_blocks ≤ c.app.huge_partition_number + all_owed c.callers
  pub bounded : c.app.huge_partition_number + all_live c.callers ≤ length c.callers

pub new_app-IsCounted :
    (app_id : Bytes) (config : AppConfig) (now : ℕ)
    → IsCounted (record { app = new_app app_id config now; callers = [] })
unfolding new_app
new_app-IsCounted app_id config now = record {
  distinct = tt;
  covered = omega arith;
  bounded = omega arith;
}
