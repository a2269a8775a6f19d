-- ===== src/Memory/Spilling/Listing.antt =====
-- Every partition with something staged is listed by `lookup_spill_buffers` of src/store/memory.rs.
use r.Base.{
  ◌≡◌, refl, sym, subst, false, some, List, [], ◌∷◌, ◌++◌, ◌==◌, Bool-cases, inl, inr, ◌⊎◌,
}
use r.Base.Int.{ℤ, pos, int_eq, ltb_ℤ}
use r.Base.Map
use r.Base.Map.{Map}
use r.Buffer.{BufferInternal}
use r.Memory.{PartitionedUId, uid_eq, uid_beq_iff}
use r.Memory.Spilling.{TreeMap, push_key, sort_buffers, reversed}

abbrev pub In : PartitionedUId → List PartitionedUId → Type 0
In uid [] = ⊥
In uid (x ∷ xs) = (x ≡ uid) ⊎ In uid xs

abbrev pub InTree : PartitionedUId → TreeMap → Type 0
InTree uid [] = ⊥
InTree uid ((size, vals) ∷ m) = In uid vals ⊎ InTree uid m

In-append_last : (uid : PartitionedUId) (xs : List PartitionedUId) → In uid (xs ++ (uid ∷ []))
In-append_last uid [] = inl refl
In-append_last uid (x ∷ xs) = inr (In-append_last uid xs)

In-append_before :
    (uid : PartitionedUId) (xs ys : List PartitionedUId) → In uid xs → In uid (xs ++ ys)
In-append_before uid [] ys h = absurd h
In-append_before uid (x ∷ xs) ys (inl e) = inl e
In-append_before uid (x ∷ xs) ys (inr h) = inr (In-append_before uid xs ys h)

InTree-push_key : (size : ℤ) (uid : PartitionedUId) (m : TreeMap) → InTree uid (push_key size uid m)
unfolding push_key
InTree-push_key size uid [] = inl (inl refl)
InTree-push_key size uid ((s, vals) ∷ m) = elim (Bool-cases (s == size)) [
  | inl same ↦ rw same (inl (In-append_last uid vals))
  | inr differ ↦ rw differ (elim (Bool-cases (ltb_ℤ size s)) [
    | inl less ↦ rw less (inl (inl refl))
    | inr more ↦ rw more (inr (InTree-push_key size uid m))
  ])
]

InTree-push_key_kept :
    (size : ℤ) (key uid : PartitionedUId) (m : TreeMap)
    → InTree uid m
    → InTree uid (push_key size key m)
unfolding push_key
InTree-push_key_kept size key uid [] h = absurd h
InTree-push_key_kept size key uid ((s, vals) ∷ m) h = elim (Bool-cases (s == size)) [
  | inl same ↦ rw same (grown h)
  | inr differ ↦ rw differ (elim (Bool-cases (ltb_ℤ size s)) [
    | inl less ↦ rw less (inr h)
    | inr more ↦ rw more (deeper h (InTree-push_key_kept size key uid m))
  ])
]
  where
    grown : InTree uid ((s, vals) ∷ m) → InTree uid ((s, vals ++ (key ∷ [])) ∷ m)
    grown (inl k) = inl (In-append_before uid vals (key ∷ []) k)
    grown (inr k) = inr k

    deeper :
        InTree uid ((s, vals) ∷ m)
        → (InTree uid m → InTree uid (push_key size key m))
        → InTree uid ((s, vals) ∷ push_key size key m)
    deeper (inl k) f = inl k
    deeper (inr k) f = inr (f k)

InTree-append_left : (uid : PartitionedUId) (m n : TreeMap) → InTree uid m → InTree uid (m ++ n)
InTree-append_left uid [] n h = absurd h
InTree-append_left uid (x ∷ m) n (inl k) = inl k
InTree-append_left uid (x ∷ m) n (inr k) = inr (InTree-append_left uid m n k)

InTree-append_right : (uid : PartitionedUId) (m n : TreeMap) → InTree uid n → InTree uid (m ++ n)
InTree-append_right uid [] n h = h
InTree-append_right uid (x ∷ m) n h = inr (InTree-append_right uid m n h)

pub InTree-reversed : (uid : PartitionedUId) (m : TreeMap) → InTree uid m → InTree uid (reversed m)
unfolding reversed
InTree-reversed uid [] h = absurd h
InTree-reversed uid ((s, vals) ∷ m) (inl k) =
    InTree-append_right uid (reversed m) ((s, vals) ∷ []) (inl k)
InTree-reversed uid ((s, vals) ∷ m) (inr k) =
    InTree-append_left uid (reversed m) ((s, vals) ∷ []) (InTree-reversed uid m k)

sort_buffers_keeps :
    (uid : PartitionedUId) (buffers : Map PartitionedUId BufferInternal) (m : TreeMap)
    → InTree uid m
    → InTree uid (sort_buffers buffers m)
unfolding sort_buffers
sort_buffers_keeps uid [] m h = h
sort_buffers_keeps uid ((key, b) ∷ buffers) m h = elim (Bool-cases (b.staging_size == pos 0)) [
  | inl empty ↦ rw empty (sort_buffers_keeps uid buffers m h)
  | inr staged ↦ rw staged (
      sort_buffers_keeps uid buffers (push_key b.staging_size key m)
        (InTree-push_key_kept b.staging_size key uid m h))
]

some_inj : {a b : BufferInternal} → (some a ≡ some b) → a ≡ b
some_inj e = cc

-- Every buffer with something staged is a candidate.
pub InTree-sort_buffers :
    (uid : PartitionedUId) (b : BufferInternal) (buffers : Map PartitionedUId BufferInternal)
    (m : TreeMap)
    → Map.get uid buffers ≡ some b
    → (b.staging_size == pos 0) ≡ false
    → InTree uid (sort_buffers buffers m)
unfolding sort_buffers Map.get
InTree-sort_buffers uid b [] m e staged = cc
InTree-sort_buffers uid b ((key, d) ∷ buffers) m e staged = elim (Bool-cases (key == uid)) [
  | inl hit ↦
      let same : d ≡ b = some_inj (rw hit at e) in
      let here : key ≡ uid = (uid_beq_iff key uid).0 hit in
      let staged' : (d.staging_size == pos 0) ≡ false =
        subst (λ (x : BufferInternal). (x.staging_size == pos 0) ≡ false) (sym same) staged in
      rw staged' (
        sort_buffers_keeps uid buffers (push_key d.staging_size key m) (
          subst (λ (k : PartitionedUId). InTree k (push_key d.staging_size key m)) here
            (InTree-push_key d.staging_size key m)))
  | inr miss ↦ InTree-sort_buffers uid b buffers _ (rw miss at e) staged
]
