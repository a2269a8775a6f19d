-- ===== src/SemaphoreWithIndex/Tests.antt =====
-- Two tasks on a semaphore, and the theorems at a concrete history.
use r.Base.{ℕ, ◌<◌, ◌≡◌, refl, [], ◌∷◌, arith}
use r.Error.{ok}
use r.SemaphoreWithIndex.{SemaphoreWithIndex, indices_from, new, acquire_internal, pop_index}
use r.SemaphoreWithIndex.Interleaving.{
  Tasks, begin, Reach, here, next, acquires, takes, IsConserved, Reach-IsConserved,
  pop_index-succeeds,
}

-- Of two permits one is taken with index 0, and another task waits for its index.
abbrev after_take : SemaphoreWithIndex
after_take = record { internal = 1; permits = 2; index_container = 1 ∷ [] }

abbrev entered : Tasks
entered = record {
  semaphore = record { internal = 0; permits = 2; index_container = 1 ∷ [] };
  entering = 1;
  held = 0 ∷ [];
  leaving = 0;
}

to_entered : Reach (begin 2) entered
unfolding new indices_from acquire_internal pop_index
to_entered =
    next
      (next
        (next here
          (acquires (record { internal = 1; permits = 2; index_container = 0 ∷ 1 ∷ [] }) refl))
        (takes after_take 0 0 refl refl))
      (acquires (record { internal = 0; permits = 2; index_container = 1 ∷ [] }) refl)

Reach-IsConserved_example : IsConserved 2 entered
Reach-IsConserved_example = Reach-IsConserved 2 entered to_entered

pop_index-succeeds_example :
    (s : SemaphoreWithIndex) × ((i : ℕ) × ((pop_index entered.semaphore ≡ ok (s, i)) × (i < 2)))
pop_index-succeeds_example = pop_index-succeeds 2 entered to_entered (omega arith)
