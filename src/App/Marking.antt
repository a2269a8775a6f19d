-- ===== src/App/Marking.antt =====
-- The marks of huge partitions of an application in src/app.rs: how many there are, and which calls
-- leave their number alone.
use r.Base.{
  subst, ℕ, ◌+◌, ◌≡◌, refl, ap, none, some, [], ◌∷◌, if◌then◌else◌, arith, ◌==◌, beq_refl,
  Bool-cases, Option-cases, inl, inr,
}
use r.Base.Int.{ℤ}
use r.Base.Map
use r.Base.Map.{Map}
use r.Memory.{PartitionedUId}
use r.App.{
  App, PartitionedMeta, pair_eq, pair_beq_iff, new_meta, inc_size, meta_key, get_partition_meta,
  inc_partition_size,
}

abbrev pub mark : PartitionedMeta → ℕ
mark m = if m.is_huge_partition then 1 else 0

-- The number of marked partitions, and what one of them counts.
abbrev pub marked : Map (ℤ × ℤ) PartitionedMeta → ℕ
marked [] = 0
marked ((k, m) ∷ metas) = mark m + marked metas

abbrev pub mark_at : ℤ × ℤ → Map (ℤ × ℤ) PartitionedMeta → ℕ
mark_at k metas = elim (Map.get k metas) [ none ↦ 0 | some m ↦ mark m ]

marked-remove :
    (k : ℤ × ℤ) (metas : Map (ℤ × ℤ) PartitionedMeta)
    → Map.Distinct metas
    → marked (Map.remove k metas) + mark_at k metas ≡ marked metas
unfolding Map.get Map.remove
marked-remove k [] d = omega arith
marked-remove k ((j, m) ∷ metas) d = elim (Bool-cases (j == k)) [
  | inl hit ↦
      let e = (pair_beq_iff j k).0 hit in
      let absent = subst (λ (i : ℤ × ℤ). Map.get i metas ≡ none) e d.0 in
      rw (mark_at, hit) (omega (arith, ap marked (Map.remove_absent k metas absent)))
  | inr miss ↦ rw (mark_at, miss) (omega (arith, marked-remove k metas d.1))
]

pub marked-insert :
    (k : ℤ × ℤ) (m : PartitionedMeta) (metas : Map (ℤ × ℤ) PartitionedMeta)
    → Map.Distinct metas
    → marked (Map.insert k m metas) + mark_at k metas ≡ mark m + marked metas
unfolding Map.insert
marked-insert k m metas d = omega (arith, marked-remove k metas d)

-- Of two states of an application: no other partition is marked, and the counter is the same.
pub record Same (app app' : App) : Type 0 where
  pub distinct : Map.Distinct app'.bitmap_of_blocks
  pub total : marked app'.bitmap_of_blocks ≡ marked app.bitmap_of_blocks
  pub number : app'.huge_partition_number ≡ app.huge_partition_number

pub get_partition_meta-Same :
    (app : App) (uid : PartitionedUId)
    → Map.Distinct app.bitmap_of_blocks
    → Same app (get_partition_meta app uid).0
      × (mark_at (meta_key uid) (get_partition_meta app uid).0.bitmap_of_blocks
          ≡ mark (get_partition_meta app uid).1)
unfolding get_partition_meta
get_partition_meta-Same app uid d =
    let key = meta_key uid in
    elim (Option-cases (Map.get key app.bitmap_of_blocks)) [
      | inl fresh ↦
          let was : mark_at key app.bitmap_of_blocks ≡ 0 = rw (mark_at, fresh) refl in
          rw (get_partition_meta, fresh)
            (
              record {
                distinct = Map.Distinct-insert key new_meta app.bitmap_of_blocks d;
                total = omega (arith, was, marked-insert key new_meta app.bitmap_of_blocks d);
                number = refl;
              },
              rw (mark_at, Map.get-insert key key new_meta app.bitmap_of_blocks)
                  (rw (beq_refl key) refl),
            )
      | inr (m, there) ↦
          rw (get_partition_meta, there)
            (record { distinct = d; total = refl; number = refl }, rw (mark_at, there) refl)
    ]

pub inc_partition_size-Same :
    (app : App) (uid : PartitionedUId) (size : ℕ)
    → Map.Distinct app.bitmap_of_blocks
    → Same app (inc_partition_size app uid size)
unfolding inc_partition_size inc_size
inc_partition_size-Same app uid size d =
    let key = meta_key uid in
    let (same, at_key) = get_partition_meta-Same app uid d in
    let metas = (get_partition_meta app uid).0.bitmap_of_blocks in
    record {
      distinct = Map.Distinct-insert key _ metas same.distinct;
      total = omega (arith, same.total, at_key, marked-insert key _ metas same.distinct);
      number = same.number;
    }
