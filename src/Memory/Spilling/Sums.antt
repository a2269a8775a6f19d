-- ===== src/Memory/Spilling/Sums.antt =====
-- Under which size `lookup_spill_buffers` of src/store/memory.rs lists a partition.
use r.Base.{
  ◌≡◌, refl, sym, subst, false, none, some, List, [], ◌∷◌, ◌++◌, ◌==◌, beq_refl, Bool-cases, inl,
  inr, All,
}
use r.Base.Int.{ℤ, pos, int_eq, int_beq_iff, ltb_ℤ}
use r.Base.Machine.{add64}
use r.Base.Map
use r.Base.Map.{Map}
use r.Buffer.{BufferInternal}
use r.Memory.{PartitionedUId, uid_eq, uid_beq_iff, MemoryStore}
use r.Memory.Spilling.{TreeMap, push_key, sort_buffers, reversed}

-- A buffer is that of its partition in the store and has something staged.
abbrev pub IsStaged : MemoryStore → PartitionedUId → BufferInternal → Type 0
IsStaged s uid b = (Map.get uid s.state ≡ some b) × ((b.staging_size == pos 0) ≡ false)

abbrev pub AreStaged : MemoryStore → Map PartitionedUId BufferInternal → Type 0
AreStaged s = All (λ (x : PartitionedUId × BufferInternal). IsStaged s x.0 x.1)

-- The staging sizes of some candidates, added up as i64.
abbrev pub staged_size : Map PartitionedUId BufferInternal → ℤ
staged_size [] = pos 0
staged_size ((uid, b) ∷ m) = add64 (staged_size m) b.staging_size

-- A partition is listed under the staging size of its buffer.
abbrev pub Listed : MemoryStore → ℤ → PartitionedUId → Type 0
Listed s size uid = (b : BufferInternal) × (IsStaged s uid b × (b.staging_size ≡ size))

abbrev pub AllListed : MemoryStore → TreeMap → Type 0
AllListed s = All (λ (x : ℤ × List PartitionedUId). All (Listed s x.0) x.1)

All-append {ℓ ℓ'} :
    {A : Type ℓ} (P : A → Type ℓ') (xs ys : List A) → All P xs → All P ys → All P (xs ++ ys)
All-append P [] ys h k = k
All-append P (x ∷ xs) ys h k = (h.0, All-append P xs ys h.1 k)

module _ (s : MemoryStore) where
  push_key-Listed :
      (size : ℤ) (key : PartitionedUId) (m : TreeMap)
      → Listed s size key
      → AllListed s m
      → AllListed s (push_key size key m)
  unfolding push_key
  push_key-Listed size key [] h k = ((h, tt), tt)
  push_key-Listed size key ((t, vals) ∷ m) h k = elim (Bool-cases (t == size)) [
    | inl same ↦
        let e : t ≡ size = (int_beq_iff t size).0 same in
        rw same (
          All-append (Listed s t) vals (key ∷ []) k.0
              (subst (λ (n : ℤ). Listed s n key) (sym e) h, tt),
          k.1,
        )
    | inr differ ↦ rw differ (elim (Bool-cases (ltb_ℤ size t)) [
      | inl less ↦ rw less ((h, tt), k)
      | inr more ↦ rw more (k.0, push_key-Listed size key m h k.1)
    ])
  ]

  pub reversed-Listed : (m : TreeMap) → AllListed s m → AllListed s (reversed m)
  unfolding reversed
  reversed-Listed [] k = tt
  reversed-Listed (x ∷ m) k = All-append _ (reversed m) (x ∷ []) (reversed-Listed m k.1) (k.0, tt)

  -- The buffers are the store's.
  abbrev pub Stored : Map PartitionedUId BufferInternal → Type 0
  Stored = All (λ (x : PartitionedUId × BufferInternal). Map.get x.0 s.state ≡ some x.1)

  pub sort_buffers-Listed :
      (buffers : Map PartitionedUId BufferInternal) (m : TreeMap)
      → Stored buffers
      → AllListed s m
      → AllListed s (sort_buffers buffers m)
  unfolding sort_buffers
  sort_buffers-Listed [] m h k = k
  sort_buffers-Listed ((key, b) ∷ buffers) m h k = elim (Bool-cases (b.staging_size == pos 0)) [
    | inl empty ↦ rw empty (sort_buffers-Listed buffers m h.1 k)
    | inr staged ↦ rw staged (
        sort_buffers-Listed buffers (push_key b.staging_size key m) h.1
          (push_key-Listed b.staging_size key m (b, ((h.0, staged), refl)) k))
  ]

-- Each pair of a map without double keys is found.
abbrev pub Found : Map PartitionedUId BufferInternal → Map PartitionedUId BufferInternal → Type 0
Found m = All (λ (x : PartitionedUId × BufferInternal). Map.get x.0 m ≡ some x.1)

Found-cons :
    (k : PartitionedUId) (b : BufferInternal) (m n : Map PartitionedUId BufferInternal)
    → Map.get k m ≡ none
    → Found m n
    → Found ((k, b) ∷ m) n
unfolding Map.get
Found-cons k b m [] absent h = tt
Found-cons k b m ((j, d) ∷ n) absent h = elim (Bool-cases (k == j)) [
  | inl hit ↦
      let gone =
        subst (λ (i : PartitionedUId). Map.get i m ≡ none) ((uid_beq_iff k j).0 hit) absent in
      absurd (let e = h.0 in cc)
  | inr miss ↦ (rw miss h.0, Found-cons k b m n absent h.1)
]

pub Found-self : (m : Map PartitionedUId BufferInternal) → Map.Distinct m → Found m m
unfolding Map.get
Found-self [] d = tt
Found-self ((k, b) ∷ m) d = (rw (beq_refl k) refl, Found-cons k b m m d.0 (Found-self m d.1))
