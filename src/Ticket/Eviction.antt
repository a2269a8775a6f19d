-- ===== src/Ticket/Eviction.antt =====
-- What the removal loops of src/store/mem/ticket.rs take out of the store and add up.
use r.Base.{
  sym, ◌∙◌, ◌≡◌, refl, Bool, false, none, List, [], ◌∷◌, ◌==◌, Bool-cases, inl, inr, arith,
  if◌then◌else◌, All,
}
use r.Base.Int.{
  zero_+ℤ, +ℤ_assoc, parts_eq, int_beq_iff, ℤ, pos, int_eq, ◌+ℤ◌, ◌≤ℤ◌, int_laws, +ℤ_parts,
}
use r.Base.Machine.{InI64, add64, add64_eq}
use r.Base.Map
use r.Base.Map.{Map}
use r.Ticket.{Ticket, ids_where, remove_all}

-- Each ticket stands under its own id, and no id stands twice.
abbrev pub IsKeyed : Map ℤ Ticket → Type 0
IsKeyed [] = Unit {0}
IsKeyed ((k, t) ∷ m) = (t.id ≡ k) × (Map.get k m ≡ none) × IsKeyed m

-- The tickets that fail a test, and the sizes of those that pass it.
abbrev pub kept : (Ticket → Bool) → Map ℤ Ticket → Map ℤ Ticket
kept test [] = []
kept test ((k, t) ∷ m) = if test t then kept test m else (k, t) ∷ kept test m

abbrev pub sum64_where : (Ticket → Bool) → Map ℤ Ticket → ℤ → ℤ
sum64_where test [] acc = acc
sum64_where test ((k, t) ∷ m) acc = sum64_where test m (if test t then add64 acc t.size else acc)

abbrev Lacks : ℤ → List ℤ → Type 0
Lacks k = All (λ (i : ℤ). (k == i) ≡ false)

ids_where-Lacks :
    (test : Ticket → Bool) (k : ℤ) (m : Map ℤ Ticket)
    → IsKeyed m
    → Map.get k m ≡ none
    → Lacks k (ids_where test m)
unfolding ids_where Map.get
ids_where-Lacks test k [] v h = tt
ids_where-Lacks test k ((j, t) ∷ m) v h =
    ground (arith, int_beq_iff k t.id, int_beq_iff j k, ids_where-Lacks test k m v.2)

remove_all_skip :
    (ids : List ℤ) (k : ℤ) (t : Ticket) (m : Map ℤ Ticket) (acc : ℤ)
    → Lacks k ids
    → remove_all ids ((k, t) ∷ m) acc
      ≡ ((k, t) ∷ (remove_all ids m acc).0, (remove_all ids m acc).1)
unfolding remove_all Map.get Map.remove
remove_all_skip [] k t m acc h = refl
remove_all_skip (i ∷ ids) k t m acc h = rw h.0 (remove_all_skip ids k t _ _ h.1)

remove_all_hit :
    (ids : List ℤ) (k : ℤ) (t : Ticket) (m : Map ℤ Ticket) (acc : ℤ)
    → t.id ≡ k
    → Map.get k m ≡ none
    → remove_all (t.id ∷ ids) ((k, t) ∷ m) acc ≡ remove_all ids m (add64 acc t.size)
unfolding remove_all Map.get Map.remove
remove_all_hit ids k t m acc e h =
    let h' : Map.get t.id m ≡ none = rw e h in
    rw ((int_beq_iff k t.id).1 (sym e)) (rw (Map.remove_absent t.id m h'))

pub remove_all_where :
    (test : Ticket → Bool) (m : Map ℤ Ticket) (acc : ℤ)
    → IsKeyed m
    → remove_all (ids_where test m) m acc ≡ (kept test m, sum64_where test m acc)
unfolding ids_where
remove_all_where test [] acc v = unfold remove_all in refl
remove_all_where test ((k, t) ∷ m) acc v = elim (Bool-cases (test t)) [
  | inl hit ↦ rw hit (
      rw (remove_all_hit (ids_where test m) k t m acc v.0 v.1)
        (remove_all_where test m (add64 acc t.size) v.2))
  | inr miss ↦
      rw (miss, remove_all_skip (ids_where test m) k t m acc (ids_where-Lacks test k m v.2 v.1))
        (rw (remove_all_where test m acc v.2))
]

-- Sizes that are not negative, and their plain sum.
abbrev pub AreSizes : Map ℤ Ticket → Type 0
AreSizes [] = Unit {0}
AreSizes ((k, t) ∷ m) = (pos 0 ≤ℤ t.size) × AreSizes m

abbrev pub total_where : (Ticket → Bool) → Map ℤ Ticket → ℤ
total_where test [] = pos 0
total_where test ((k, t) ∷ m) = if test t then t.size +ℤ total_where test m else total_where test m

abbrev pub total : Map ℤ Ticket → ℤ
total [] = pos 0
total ((k, t) ∷ m) = t.size +ℤ total m

pub total_where_nonneg :
    (test : Ticket → Bool) (m : Map ℤ Ticket) → AreSizes m → pos 0 ≤ℤ total_where test m
total_where_nonneg test [] s = omega arith
total_where_nonneg test ((k, t) ∷ m) s =
    ground (arith, total_where_nonneg test m s.1, +ℤ_parts t.size (total_where test m))

pub total_nonneg : (m : Map ℤ Ticket) → AreSizes m → pos 0 ≤ℤ total m
total_nonneg [] s = omega arith
total_nonneg ((k, t) ∷ m) s = omega (int_laws, total_nonneg m s.1)

-- What is evicted and what is kept make up the store.
pub total-split :
    (test : Ticket → Bool) (m : Map ℤ Ticket) → total_where test m +ℤ total (kept test m) ≡ total m
total-split test [] = omega int_laws
total-split test ((k, t) ∷ m) = elim (Bool-cases (test t)) [
  | inl hit ↦ rw hit (omega (int_laws, parts_eq (total-split test m)))
  | inr miss ↦ rw miss (omega (int_laws, parts_eq (total-split test m)))
]

-- The machine sum is the plain one where that fits.
pub sum64_where_eq :
    (test : Ticket → Bool) (m : Map ℤ Ticket) (acc : ℤ)
    → AreSizes m
    → pos 0 ≤ℤ acc
    → InI64 (acc +ℤ total_where test m)
    → sum64_where test m acc ≡ acc +ℤ total_where test m
sum64_where_eq test [] acc s h fits = omega int_laws
sum64_where_eq test ((k, t) ∷ m) acc s h fits = elim (Bool-cases (test t)) [
  | inl hit ↦
      let fits' : InI64 (acc +ℤ (t.size +ℤ total_where test m)) = rw hit at fits in
      let small : InI64 (acc +ℤ t.size) = omega (int_laws, total_where_nonneg test m s.1) in
      let rest : InI64 (acc +ℤ t.size +ℤ total_where test m) = omega int_laws in
      rw (hit, add64_eq acc t.size small)
        (sum64_where_eq test m (acc +ℤ t.size) s.1 (omega int_laws) rest ∙ +ℤ_assoc acc t.size _)
  | inr miss ↦ rw miss (sum64_where_eq test m acc s.1 h (rw miss at fits))
]

pub removed_total :
    (test : Ticket → Bool) (m : Map ℤ Ticket)
    → AreSizes m
    → InI64 (total_where test m)
    → sum64_where test m (pos 0) ≡ total_where test m
removed_total test m s fits =
    let fits' : InI64 (pos 0 +ℤ total_where test m) = omega int_laws in
    sum64_where_eq test m (pos 0) s (omega arith) fits' ∙ zero_+ℤ (total_where test m)
