-- ===== src/Memory/Spilling/Counting.antt =====
-- How often `lookup_spill_buffers` of src/store/memory.rs lists a partition.
use r.Base.{
  beq_refl, ℕ, ◌+◌, ◌≤◌, ◌≡◌, refl, subst, none, List, [], ◌∷◌, ◌++◌, ◌==◌, if◌then◌else◌, arith,
  Bool-cases, inl, inr,
}
use r.Base.Int.{ℤ, pos, int_eq, ltb_ℤ}
use r.Base.Map
use r.Base.Map.{Map}
use r.Buffer.{BufferInternal}
use r.Memory.{PartitionedUId, uid_eq, uid_beq_iff}
use r.Memory.Spilling.{TreeMap, push_key, sort_buffers, reversed}

-- How often a partition stands in a list, in the tree and in a map.
abbrev pub here : PartitionedUId → PartitionedUId → ℕ
here uid k = if k == uid then 1 else 0

abbrev pub count_in : PartitionedUId → List PartitionedUId → ℕ
count_in uid [] = 0
count_in uid (k ∷ ks) = here uid k + count_in uid ks

abbrev pub count : PartitionedUId → TreeMap → ℕ
count uid [] = 0
count uid ((size, vals) ∷ m) = count_in uid vals + count uid m

abbrev pub standing : PartitionedUId → Map PartitionedUId BufferInternal → ℕ
standing uid [] = 0
standing uid ((k, b) ∷ m) = here uid k + standing uid m

pub count_in_self : (uid : PartitionedUId) → count_in uid (uid ∷ []) ≡ 1
count_in_self uid = rw (beq_refl uid) refl

count_in-append :
    (uid : PartitionedUId) (ks js : List PartitionedUId)
    → count_in uid (ks ++ js) ≡ count_in uid ks + count_in uid js
count_in-append uid [] js = omega arith
count_in-append uid (k ∷ ks) js = omega (arith, count_in-append uid ks js)

count-append :
    (uid : PartitionedUId) (m n : TreeMap) → count uid (m ++ n) ≡ count uid m + count uid n
count-append uid [] n = omega arith
count-append uid ((size, vals) ∷ m) n = omega (arith, count-append uid m n)

count-push_key :
    (uid key : PartitionedUId) (size : ℤ) (m : TreeMap)
    → count uid (push_key size key m) ≡ count uid m + here uid key
unfolding push_key
count-push_key uid key size [] = omega arith
count-push_key uid key size ((s, vals) ∷ m) = elim (Bool-cases (s == size)) [
  | inl same ↦ rw same (omega (arith, count_in-append uid vals (key ∷ [])))
  | inr differ ↦ rw differ (elim (Bool-cases (ltb_ℤ size s)) [
    | inl less ↦ rw less (omega arith)
    | inr more ↦ rw more (omega (arith, count-push_key uid key size m))
  ])
]

pub count-reversed : (uid : PartitionedUId) (m : TreeMap) → count uid (reversed m) ≡ count uid m
unfolding reversed
count-reversed uid [] = refl
count-reversed uid ((size, vals) ∷ m) =
    omega (arith, count-append uid (reversed m) ((size, vals) ∷ []), count-reversed uid m)

pub count-sort_buffers :
    (uid : PartitionedUId) (buffers : Map PartitionedUId BufferInternal) (m : TreeMap)
    → count uid (sort_buffers buffers m) ≤ count uid m + standing uid buffers
unfolding sort_buffers
count-sort_buffers uid [] m = omega arith
count-sort_buffers uid ((key, b) ∷ buffers) m = elim (Bool-cases (b.staging_size == pos 0)) [
  | inl empty ↦ rw empty (omega (arith, count-sort_buffers uid buffers m))
  | inr staged ↦ rw staged (
      omega (
        arith,
        count-sort_buffers uid buffers (push_key b.staging_size key m),
        count-push_key uid key b.staging_size m,
      ))
]

pub standing_absent :
    (uid : PartitionedUId) (m : Map PartitionedUId BufferInternal)
    → Map.get uid m ≡ none
    → standing uid m ≡ 0
unfolding Map.get
standing_absent uid [] e = refl
standing_absent uid ((k, b) ∷ m) e = ground (arith, standing_absent uid m)

pub absent_standing :
    (uid : PartitionedUId) (m : Map PartitionedUId BufferInternal)
    → standing uid m ≡ 0
    → Map.get uid m ≡ none
unfolding Map.get
absent_standing uid [] e = refl
absent_standing uid ((k, b) ∷ m) e = ground (arith, absent_standing uid m)

pub standing_once :
    (uid : PartitionedUId) (m : Map PartitionedUId BufferInternal)
    → Map.Distinct m
    → standing uid m ≤ 1
standing_once uid [] d = omega arith
standing_once uid ((k, b) ∷ m) d = elim (Bool-cases (k == uid)) [
  | inl hit ↦
      let same = (uid_beq_iff k uid).0 hit in
      let absent = subst (λ (i : PartitionedUId). Map.get i m ≡ none) same d.0 in
      rw hit (omega (arith, standing_absent uid m absent))
  | inr miss ↦ rw miss (omega (arith, standing_once uid m d.1))
]
