-- ===== src/Ticket/Sums.antt =====
-- Removals and evictions of src/store/mem/ticket.rs against the ids and the sizes of the tickets.
use r.Base.{◌≡◌, refl, Bool, none, some, [], ◌∷◌, ◌==◌, arith, Bool-cases, inl, inr}
use r.Base.Int.{ℤ, pos, ◌+ℤ◌, ◌≤ℤ◌, ◌<ℤ◌, int_laws, parts_eq, int_eq, int_beq_iff}
use r.Base.Map
use r.Base.Map.{Map}
use r.Ticket.{Ticket}
use r.Ticket.Eviction.{IsKeyed, kept, total, AreSizes}

-- No id is above a bound: the counter of the budget.
abbrev pub IdsUpTo : ℤ → Map ℤ Ticket → Type 0
IdsUpTo c [] = Unit {0}
IdsUpTo c ((k, t) ∷ m) = (k ≤ℤ c) × IdsUpTo c m

pub IdsUpTo-le : (c d : ℤ) (m : Map ℤ Ticket) → c ≤ℤ d → IdsUpTo c m → IdsUpTo d m
IdsUpTo-le c d [] h u = tt
IdsUpTo-le c d ((k, t) ∷ m) h u = (omega arith, IdsUpTo-le c d m h u.1)

pub get-IdsUpTo : (c k : ℤ) (m : Map ℤ Ticket) → c <ℤ k → IdsUpTo c m → Map.get k m ≡ none
unfolding Map.get
get-IdsUpTo c k [] h u = refl
get-IdsUpTo c k ((j, t) ∷ m) h u = elim (Bool-cases (j == k)) [
  | inl hit ↦
      let same : j ≡ k = (int_beq_iff j k).0 hit in absurd (let e = parts_eq same in omega arith)
  | inr miss ↦ rw miss (get-IdsUpTo c k m h u.1)
]

pub IdsUpTo-remove : (c k : ℤ) (m : Map ℤ Ticket) → IdsUpTo c m → IdsUpTo c (Map.remove k m)
unfolding Map.remove
IdsUpTo-remove c k [] u = tt
IdsUpTo-remove c k ((j, t) ∷ m) u = elim (Bool-cases (j == k)) [
  | inl hit ↦ rw hit (IdsUpTo-remove c k m u.1)
  | inr miss ↦ rw miss (u.0, IdsUpTo-remove c k m u.1)
]

pub AreSizes-remove : (k : ℤ) (m : Map ℤ Ticket) → AreSizes m → AreSizes (Map.remove k m)
unfolding Map.remove
AreSizes-remove k [] u = tt
AreSizes-remove k ((j, t) ∷ m) u = elim (Bool-cases (j == k)) [
  | inl hit ↦ rw hit (AreSizes-remove k m u.1)
  | inr miss ↦ rw miss (u.0, AreSizes-remove k m u.1)
]

some_inj : {a b : Ticket} → (some a ≡ some b) → a ≡ b
some_inj e = cc

-- A stored ticket has a size that is not negative, and it is one of those that make up the total.
pub total-remove :
    (k : ℤ) (t : Ticket) (m : Map ℤ Ticket)
    → IsKeyed m
    → AreSizes m
    → Map.get k m ≡ some t
    → (pos 0 ≤ℤ t.size) × (total m ≡ t.size +ℤ total (Map.remove k m))
unfolding Map.get Map.remove
total-remove k t [] v s e = cc
total-remove k t ((j, u) ∷ m) v s e = elim (Bool-cases (j == k)) [
  | inl hit ↦
      let same : j ≡ k = (int_beq_iff j k).0 hit in
      let gone : Map.remove k m ≡ m = Map.remove_absent k m (rw same at v.1) in
      let ticket : u ≡ t = some_inj (rw hit at e) in rw (hit, gone, ← ticket) (s.0, refl)
  | inr miss ↦
      let rest = total-remove k t m v.2 s.1 (rw miss at e) in
      rw miss (rest.0, omega (int_laws, parts_eq rest.1))
]

module _ (test : Ticket → Bool) where
  pub IdsUpTo-kept : (c : ℤ) (m : Map ℤ Ticket) → IdsUpTo c m → IdsUpTo c (kept test m)
  IdsUpTo-kept c [] u = tt
  IdsUpTo-kept c ((k, t) ∷ m) u = ground (arith, IdsUpTo-kept c m u.1)

  pub AreSizes-kept : (m : Map ℤ Ticket) → AreSizes m → AreSizes (kept test m)
  AreSizes-kept [] u = tt
  AreSizes-kept ((k, t) ∷ m) u = ground (arith, AreSizes-kept m u.1)

  get-kept : (k : ℤ) (m : Map ℤ Ticket) → Map.get k m ≡ none → Map.get k (kept test m) ≡ none
  unfolding Map.get
  get-kept k [] h = refl
  get-kept k ((j, t) ∷ m) h = ground (arith, get-kept k m)

  pub IsKeyed-kept : (m : Map ℤ Ticket) → IsKeyed m → IsKeyed (kept test m)
  IsKeyed-kept [] v = tt
  IsKeyed-kept ((k, t) ∷ m) v = ground (arith, IsKeyed-kept m v.2, get-kept k m v.1)
