-- ===== src/Base/Map.antt =====
-- A hash map as an association list. Its order stands for the map's unspecified iteration order.
use mathlib.Core.Logic.{inr, inl}
use mathlib.Core.Path.{refl, ◌≡◌}
use mathlib.Core.Option.{Option, none, some}
use mathlib.Core.List.{List, [], ◌∷◌}
use native.Mathlib.Omega.{arith}
use r.Base.Tests.{beq_refl, Bool-cases, Eq, ◌==◌, if◌then◌else◌}

abbrev pub Map {ℓ κ} : Type ℓ → Type κ → Type (ℓ ⊔ κ)
Map K V = List (K × V)

module _ {ℓ κ} {K : Type ℓ} {V : Type κ} ⦃e : Eq K⦄ where
  unfoldable pub get : K → Map K V → Option V
  get k [] = none
  get k ((j, v) ∷ m) = if j == k then some v else get k m

  unfoldable pub remove : K → Map K V → Map K V
  remove k [] = []
  remove k ((j, v) ∷ m) = let rest = remove k m in if j == k then rest else (j, v) ∷ rest

  unfoldable pub insert : K → V → Map K V → Map K V
  insert k v m = (k, v) ∷ remove k m

  pub get-remove : (k j : K) (m : Map K V) → get j (remove k m) ≡ (if k == j then none else get j m)
  unfolding get remove
  get-remove k j [] = ground arith
  get-remove k j ((i, v) ∷ m) =
      ground (arith, get-remove k j m, e.beq_iff i k, e.beq_iff i j, e.beq_iff k j)

  pub get-insert :
      (k j : K) (v : V) (m : Map K V) → get j (insert k v m) ≡ (if k == j then some v else get j m)
  unfolding get insert
  get-insert k j v m = ground (arith, get-remove k j m)

  -- No key stands twice.
  abbrev pub Distinct : Map K V → Type κ
  Distinct [] = Unit {κ}
  Distinct ((k, v) ∷ m) = (get k m ≡ none) × Distinct m

  pub remove_absent : (k : K) (m : Map K V) → get k m ≡ none → remove k m ≡ m
  unfolding get remove
  remove_absent k [] h = refl
  remove_absent k ((j, v) ∷ m) h = ground (arith, remove_absent k m)

  pub Distinct-remove : (k : K) (m : Map K V) → Distinct m → Distinct (remove k m)
  unfolding remove
  Distinct-remove k [] d = tt
  Distinct-remove k ((j, v) ∷ m) d = elim (Bool-cases (j == k)) [
    | inl hit ↦ rw hit (Distinct-remove k m d.1)
    | inr miss ↦ rw miss (rw (get-remove k j m) (ground (arith, d.0)), Distinct-remove k m d.1)
  ]

  pub Distinct-insert : (k : K) (v : V) (m : Map K V) → Distinct m → Distinct (insert k v m)
  unfolding insert
  Distinct-insert k v m d = (rw (get-remove k k m) (rw (beq_refl k)), Distinct-remove k m d)

  pub remove-insert : (k : K) (v : V) (m : Map K V) → get k m ≡ none → remove k (insert k v m) ≡ m
  unfolding remove insert
  remove-insert k v m h = rw (beq_refl k) (rw (remove_absent k m h) (remove_absent k m h))
