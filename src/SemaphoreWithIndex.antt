-- ===== src/SemaphoreWithIndex.antt =====
-- src/semaphore_with_index.rs: a semaphore whose permits carry an index. An acquire waits for a
-- permit of the internal semaphore and then takes an index; a drop gives the index back and then
-- the permit. These are separate steps, which tasks interleave. The internal semaphore is never
-- closed, so that an acquire of it does not fail.
pub mod Interleaving
mod Tests
use r.Base.{ℕ, ◌+◌, zero, suc, Option, none, some, List, [], ◌∷◌}
use r.Error.{Outcome, ok, panic}

pub record SemaphoreWithIndex : Type 0 where
  -- The permits that the internal semaphore has left.
  pub internal : ℕ
  pub permits : ℕ
  pub index_container : List ℕ

-- The loop over `0..permits` that pushes the indices to the back.
unfoldable pub indices_from : ℕ → ℕ → List ℕ
indices_from idx zero = []
indices_from idx (suc n) = idx ∷ indices_from (suc idx) n

unfoldable pub new : ℕ → SemaphoreWithIndex
new permits = record {
  internal = permits;
  permits = permits;
  index_container = indices_from 0 permits;
}

abbrev pub take_permit : ℕ → SemaphoreWithIndex → Option SemaphoreWithIndex
take_permit zero s = none
take_permit (suc n) s = some (record s { internal = n })

-- `internal.acquire()`: no value while it has to wait.
unfoldable pub acquire_internal : SemaphoreWithIndex → Option SemaphoreWithIndex
acquire_internal s = take_permit s.internal s

abbrev pub take_index : List ℕ → SemaphoreWithIndex → Outcome (SemaphoreWithIndex × ℕ)
take_index [] s = panic
take_index (i ∷ rest) s = ok (record s { index_container = rest }, i)

-- `index_ref.pop_front().unwrap()`
unfoldable pub pop_index : SemaphoreWithIndex → Outcome (SemaphoreWithIndex × ℕ)
pop_index s = take_index s.index_container s

-- The body of `drop`, and the drop of the internal permit after it.
unfoldable pub push_index : SemaphoreWithIndex → ℕ → SemaphoreWithIndex
push_index s i = record s { index_container = i ∷ s.index_container }

unfoldable pub release_internal : SemaphoreWithIndex → SemaphoreWithIndex
release_internal s = record s { internal = s.internal + 1 }
