-- ===== src/App/Sizes.antt =====
-- The sizes of an application's partitions in src/app.rs, and which partition is huge.
use r.Base.{
  true, false, if◌then◌else◌, ℕ, ◌+◌, ◌-◌, ◌%◌, ◌^◌, ◌<◌, ◌≤◌, ◌≡◌, refl, ap, sym, ◌∙◌, Bool, ◌||◌,
  ltb, some, arith, beq_refl, Bool-cases, Option-cases, inl, inr,
}
use r.Base.Machine.{to_u64, to_i32}
use r.Base.Map
use r.Memory.{PartitionedUId}
use r.App.{
  false, true, Stage, marks, sizes, answers, answer_of, advance, advances, meta_of, App,
  PartitionedMeta, pair_eq, new_meta, inc_size, meta_key, write_meta, get_partition_meta,
  inc_partition_size, is_over_threshold, is_huge_partition, mark_as_huge_partition,
}

cast_small : (n : ℕ) → n < 2 ^ 31 → to_u64 (to_i32 n) ≡ n
unfolding to_u64 to_i32
cast_small n h = ground arith

cast_large : (n : ℕ) → 2 ^ 31 ≤ n → n < 2 ^ 32 → to_u64 (to_i32 n) ≡ 2 ^ 64 - 2 ^ 32 + n
unfolding to_u64 to_i32
cast_large n h k = ground arith

meta_of-write_meta :
    (app : App) (uid : PartitionedUId) (m : PartitionedMeta)
    → meta_of (write_meta app uid m) uid ≡ m
meta_of-write_meta app uid m =
    rw (meta_of, Map.get-insert (meta_key uid) (meta_key uid) m app.bitmap_of_blocks)
      (rw (beq_refl (meta_key uid)) refl)

meta_of-get_partition_meta :
    (app : App) (uid : PartitionedUId)
    → ((get_partition_meta app uid).1 ≡ meta_of app uid)
      × (meta_of (get_partition_meta app uid).0 uid ≡ meta_of app uid)
unfolding get_partition_meta
meta_of-get_partition_meta app uid =
    elim (Option-cases (Map.get (meta_key uid) app.bitmap_of_blocks)) [
      | inl fresh ↦
          let unknown : meta_of app uid ≡ new_meta = rw (meta_of, fresh) refl in
          (
            rw (get_partition_meta, fresh) (sym unknown),
            rw (get_partition_meta, fresh) (meta_of-write_meta app uid new_meta ∙ sym unknown),
          )
      | inr (m, there) ↦ (
        rw (get_partition_meta, there) (rw (meta_of, there) refl),
        rw (get_partition_meta, there) refl,
      )
    ]

meta_of-inc_partition_size :
    (app : App) (uid : PartitionedUId) (size : ℕ)
    → meta_of (inc_partition_size app uid size) uid ≡ inc_size (meta_of app uid) (to_i32 size)
unfolding inc_partition_size
meta_of-inc_partition_size app uid size =
    let app' = (get_partition_meta app uid).0 in
    meta_of-write_meta app' uid (inc_size (get_partition_meta app uid).1 (to_i32 size))
    ∙ ap (λ m. inc_size m (to_i32 size)) (meta_of-get_partition_meta app uid).0

-- A size below 2^31 is added to that of its partition, if the sum is below 2^64.
pub inc_partition_size_lem :
    (app : App) (uid : PartitionedUId) (size : ℕ)
    → size < 2 ^ 31
    → (meta_of app uid).total_size + size < 2 ^ 64
    → (meta_of (inc_partition_size app uid size) uid).total_size
      ≡ (meta_of app uid).total_size + size
unfolding inc_size
inc_partition_size_lem app uid size small fits =
    ap (λ (m : PartitionedMeta). m.total_size) (meta_of-inc_partition_size app uid size)
    ∙ omega (arith, cast_small size small)

-- A size of 2^31 or more, below 2^32, adds 2^64 - 2^32 too much to a partition whose size was below
-- 2^31, modulo 2^64.
pub inc_partition_size-large :
    (app : App) (uid : PartitionedUId) (size : ℕ)
    → 2 ^ 31 ≤ size
    → size < 2 ^ 32
    → (meta_of app uid).total_size < 2 ^ 31
    → (meta_of (inc_partition_size app uid size) uid).total_size
      ≡ ((meta_of app uid).total_size + size + (2 ^ 64 - 2 ^ 32)) % 2 ^ 64
unfolding inc_size
inc_partition_size-large app uid size large fits known =
    ap (λ (m : PartitionedMeta). m.total_size) (meta_of-inc_partition_size app uid size)
    ∙ omega (arith, cast_large size large fits)

marked_as : PartitionedMeta → Bool → PartitionedMeta
marked_as m b = record m { is_huge_partition = b }

-- What a call does without others between its steps, from the test and the comparison.
abbrev decided : App → PartitionedUId → Bool → Bool → App × Bool
decided a uid huge over =
    if huge
    then (a, true)
    else if over
    then (
      record (write_meta a uid (mark_as_huge_partition (meta_of a uid))) {
        huge_partition_number = (a.huge_partition_number + 1) % 2 ^ 64;
      },
      true,
    )
    else (a, false)

abbrev ended : App × Stage → App × Bool
ended (a, stage) = (a, answer_of stage)

from_comparison :
    (t : ℕ) (uid : PartitionedUId) (a : App) (over : Bool)
    → ended (advances 2 t uid a (if over then marks else answers false)) ≡ decided a uid false over
unfolding advances advance
from_comparison t uid a true = refl
from_comparison t uid a false = refl

from_test :
    (t : ℕ) (uid : PartitionedUId) (a : App) (huge : Bool)
    → ended (advances 3 t uid a (if huge then answers true else sizes))
      ≡ decided a uid huge (ltb t (meta_of a uid).total_size)
unfolding advances advance
from_test t uid a true = refl
from_test t uid a false = from_comparison t uid a (ltb t (meta_of a uid).total_size)

is_over_threshold_eq :
    (app : App) (uid : PartitionedUId) (t : ℕ)
    → (let a = (get_partition_meta app uid).0 in
        is_over_threshold app uid t
        ≡ decided a uid (meta_of a uid).is_huge_partition (ltb t (meta_of a uid).total_size))
unfolding is_over_threshold advances advance
is_over_threshold_eq app uid t =
    let a = (get_partition_meta app uid).0 in from_test t uid a (meta_of a uid).is_huge_partition

is_over_threshold_lem :
    (app : App) (uid : PartitionedUId) (threshold : ℕ)
    → (let m = meta_of app uid in
        ((is_over_threshold app uid threshold).1
          ≡ (m.is_huge_partition || ltb threshold m.total_size))
        × (meta_of (is_over_threshold app uid threshold).0 uid
            ≡ marked_as m (is_over_threshold app uid threshold).1))
unfolding mark_as_huge_partition marked_as
is_over_threshold_lem app uid threshold =
    let m = meta_of app uid in
    let known = (meta_of-get_partition_meta app uid).1 in
    let app' = (get_partition_meta app uid).0 in
    let m' = meta_of app' uid in
    rw (is_over_threshold_eq app uid threshold) (elim (Bool-cases m'.is_huge_partition) [
      | inl huge ↦
          rw huge
            (rw (sym known, huge) refl, ap (marked_as m') huge ∙ ap (λ k. marked_as k true) known)
      | inr normal ↦ elim (Bool-cases (ltb threshold m'.total_size)) [
        | inl over ↦
            rw (normal, over)
              (
                rw (sym known, normal, over) refl,
                meta_of-write_meta app' uid (mark_as_huge_partition m')
                    ∙ ap mark_as_huge_partition known,
              )
        | inr under ↦
            rw (normal, under)
              (
                rw (sym known, normal, under) refl,
                ap (marked_as m') normal ∙ ap (λ k. marked_as k false) known,
              )
      ]
    ])

-- With both limits configured, a partition is huge if it was marked or is over the threshold; it then
-- is marked, and otherwise it is not, and its size is as before.
pub is_huge_partition_lem :
    (app : App) (uid : PartitionedUId) (threshold available : ℕ)
    → app.huge_partition_marked_threshold ≡ some threshold
    → app.huge_partition_memory_max_available_size ≡ some available
    → ((is_huge_partition app uid).1
        ≡ ((meta_of app uid).is_huge_partition || ltb threshold (meta_of app uid).total_size))
      × (meta_of (is_huge_partition app uid).0 uid
          ≡ record (meta_of app uid) { is_huge_partition = (is_huge_partition app uid).1 })
unfolding is_huge_partition marked_as
is_huge_partition_lem app uid threshold available e f =
    let same : is_huge_partition app uid ≡ is_over_threshold app uid threshold =
      ground (arith, e, f) in
    let over = is_over_threshold_lem app uid threshold in
    (
      ap (λ (r : App × Bool). r.1) same ∙ over.0,
      ap (λ (r : App × Bool). meta_of r.0 uid) same
          ∙ (over.1 ∙ ap (marked_as (meta_of app uid)) (ap (λ (r : App × Bool). r.1) (sym same))),
    )
