-- ===== src/SemaphoreWithIndex/Interleaving.antt =====
-- Interleaved acquires and drops of src/semaphore_with_index.rs.
use r.Base.{
  subst, ℕ, zero, suc, ◌+◌, ◌≤◌, ◌<◌, ◌≡◌, refl, some, List, [], ◌∷◌, ◌++◌, length, length-append,
  ltb, leb, ◌==◌, nat_eq, if◌then◌else◌, arith, ap, sym, ◌∙◌, ◌&&◌,
}
use r.Error.{ok_inj, ok}
use r.SemaphoreWithIndex.{
  take_permit, take_index, SemaphoreWithIndex, indices_from, new, acquire_internal, pop_index,
  push_index, release_internal,
}

-- The semaphore with its tasks: those that have a permit and no index yet, the indices of the live
-- permits, and the drops that gave their index back and not yet the permit.
pub record Tasks : Type 0 where
  pub semaphore : SemaphoreWithIndex
  pub entering : ℕ
  pub held : List ℕ
  pub leaving : ℕ

abbrev pub begin : ℕ → Tasks
begin permits = record { semaphore = new permits; entering = 0; held = []; leaving = 0 }

pub data Step (t : Tasks) : Tasks → Type 0 where
  acquires :
      (s : SemaphoreWithIndex)
      → acquire_internal t.semaphore ≡ some s
      → Step t (record t { semaphore = s; entering = t.entering + 1 })
  takes :
      (s : SemaphoreWithIndex) (i n : ℕ)
      → t.entering ≡ suc n
      → pop_index t.semaphore ≡ ok (s, i)
      → Step t (record t { semaphore = s; entering = n; held = i ∷ t.held })
  drops :
      (i : ℕ) (before after : List ℕ)
      → t.held ≡ before ++ (i ∷ after)
      → Step t (record t {
        semaphore = push_index t.semaphore i;
        held = before ++ after;
        leaving = t.leaving + 1;
      })
  releases :
      (n : ℕ)
      → t.leaving ≡ suc n
      → Step t (record t { semaphore = release_internal t.semaphore; leaving = n })

pub data Reach (t : Tasks) : Tasks → Type 0 where
  here : Reach t t
  next : {u v : Tasks} → Reach t u → Step u v → Reach t v

some_inj {ℓ} : {A : Type ℓ} {a b : A} → (some a ≡ some b) → a ≡ b
some_inj e = cc

-- How often an index stands in a list.
abbrev pub count : ℕ → List ℕ → ℕ
count i [] = 0
count i (x ∷ xs) = (if x == i then 1 else 0) + count i xs

count-append : (i : ℕ) (xs ys : List ℕ) → count i (xs ++ ys) ≡ count i xs + count i ys
count-append i [] ys = omega arith
count-append i (x ∷ xs) ys = omega (arith, count-append i xs ys)

count-indices_from :
    (i idx n : ℕ) → count i (indices_from idx n) ≡ (if leb idx i && ltb i (idx + n) then 1 else 0)
unfolding indices_from
count-indices_from i idx zero = ground arith
count-indices_from i idx (suc n) = ground (arith, count-indices_from i (suc idx) n)

length-indices_from : (idx n : ℕ) → length (indices_from idx n) ≡ n
unfolding indices_from
length-indices_from idx zero = refl
length-indices_from idx (suc n) = ap suc (length-indices_from (suc idx) n)

-- Every permit and every index is in one place.
pub record IsConserved (permits : ℕ) (t : Tasks) : Type 0 where
  pub permits_eq : t.semaphore.internal + t.entering + length t.held + t.leaving ≡ permits
  pub indices_eq : length t.held + length t.semaphore.index_container ≡ permits
  pub once :
      (i : ℕ)
      → count i t.held + count i t.semaphore.index_container ≡ (if ltb i permits then 1 else 0)

begin-IsConserved : (permits : ℕ) → IsConserved permits (begin permits)
unfolding new
begin-IsConserved permits = record {
  permits_eq = omega arith;
  indices_eq = omega (arith, length-indices_from 0 permits);
  once = λ i. ground (arith, count-indices_from i 0 permits);
}

take_permit-some :
    (n : ℕ) (s s' : SemaphoreWithIndex)
    → take_permit n s ≡ some s'
    → (n ≡ suc s'.internal) × (s'.index_container ≡ s.index_container)
take_permit-some zero s s' e = cc
take_permit-some (suc n) s s' e =
    subst
      (λ (x : SemaphoreWithIndex).
        (suc n ≡ suc x.internal) × (x.index_container ≡ s.index_container))
      (some_inj e) (refl, refl)

take_index_ok :
    (l : List ℕ) (s s' : SemaphoreWithIndex) (i : ℕ)
    → take_index l s ≡ ok (s', i)
    → (s'.internal ≡ s.internal) × (l ≡ i ∷ s'.index_container)
take_index_ok [] s s' i e = cc
take_index_ok (j ∷ l) s s' i e =
    subst
      (λ (x : SemaphoreWithIndex × ℕ).
        (x.0.internal ≡ s.internal) × (j ∷ l ≡ x.1 ∷ x.0.index_container))
      (ok_inj e) (refl, refl)

Step-IsConserved :
    (permits : ℕ) (t u : Tasks) → Step t u → IsConserved permits t → IsConserved permits u
unfolding acquire_internal pop_index push_index release_internal
Step-IsConserved permits t _ (acquires s e) h =
    let (one_less, same) = take_permit-some t.semaphore.internal t.semaphore s e in
    record {
      permits_eq = let k = h.permits_eq in omega arith;
      indices_eq = rw same h.indices_eq;
      once = rw same h.once;
    }
Step-IsConserved permits t _ (takes s i n e f) h =
    let (same, taken) = take_index_ok t.semaphore.index_container t.semaphore s i f in
    let size : length t.semaphore.index_container ≡ suc (length s.index_container) =
      ap length taken in
    record {
      permits_eq = let k = h.permits_eq in omega arith;
      indices_eq = let k = h.indices_eq in omega arith;
      once = λ j.
          let split : count j t.semaphore.index_container ≡ count j (i ∷ s.index_container) =
            ap (count j) taken in
          let k = h.once j in sym (omega arith) ∙ k;
    }
Step-IsConserved permits t _ (drops i before after e) h =
    let size : length t.held ≡ length before + suc (length after) =
      ap length e ∙ length-append before (i ∷ after) in
    record {
      permits_eq = let k = h.permits_eq in omega (arith, length-append before after);
      indices_eq = let k = h.indices_eq in omega (arith, length-append before after);
      once = λ j.
          let split : count j t.held ≡ count j before + count j (i ∷ after) =
            ap (count j) e ∙ count-append j before (i ∷ after) in
          let joined = count-append j before after in omega arith ∙ h.once j;
    }
Step-IsConserved permits t _ (releases n e) h = record {
  permits_eq = let k = h.permits_eq in omega arith;
  indices_eq = h.indices_eq;
  once = h.once;
}

-- However the acquires and drops of a semaphore with some permits are interleaved, no more tasks
-- than permits hold one, and every index below the number of permits is in the queue or held by
-- one live permit, once, and no other index is.
pub Reach-IsConserved : (permits : ℕ) (t : Tasks) → Reach (begin permits) t → IsConserved permits t
Reach-IsConserved permits t here = begin-IsConserved permits
Reach-IsConserved permits _ (next {u} {v} r s) =
    Step-IsConserved permits u v s (Reach-IsConserved permits u r)

take_index-some :
    (permits : ℕ) (l : List ℕ) (s : SemaphoreWithIndex)
    → 0 < length l
    → ((i : ℕ) → count i l ≤ (if ltb i permits then 1 else 0))
    → (s' : SemaphoreWithIndex) × ((i : ℕ) × ((take_index l s ≡ ok (s', i)) × (i < permits)))
take_index-some permits [] s more once = absurd (omega arith)
take_index-some permits (i ∷ l) s more once =
    let bound = once i in (record s { index_container = l }, (i, (refl, ground arith)))

-- A task that has a permit and no index yet finds one: the `unwrap` of an acquire does not panic.
pub pop_index-succeeds :
    (permits : ℕ) (t : Tasks)
    → Reach (begin permits) t
    → 0 < t.entering
    → (s : SemaphoreWithIndex) × ((i : ℕ) × ((pop_index t.semaphore ≡ ok (s, i)) × (i < permits)))
unfolding pop_index
pop_index-succeeds permits t r some_entering =
    let h = Reach-IsConserved permits t r in
    let places = h.permits_eq in
    let indices = h.indices_eq in
    take_index-some permits t.semaphore.index_container t.semaphore (omega arith)
      (λ i. let k = h.once i in omega arith)
