-- ===== src/Memory/Tests.antt =====
-- Runs of the memory store, and its theorems at concrete inputs.
use r.Buffer.{BufferInternal}
use r.Base.{◌⊎◌, true, ℕ, ◌≡◌, refl, [], ◌∷◌, none, some, arith, if◌then◌else◌}
use r.Base.Int.{leb_ℤ, pos, int_eq, ◌+ℤ◌}
use r.Base.Machine.{add64, sub64, to_i64}
use r.Base.Map
use r.Base.Map.{Map}
use r.Error.{ok, err, other, ticket_id_not_exist}
use r.Store.Blocks.{Block}
use r.Buffer
use r.Budget
use r.Memory.{
  removed_list, remove_buffers, get_or_create_buffer, PartitionedUId, uid_eq, uid_beq, MemoryStore,
  RequireBufferResponse, new, from, insert, get_buffer, purge, is_purged, require_buffer,
  release_ticket, ticket_check,
}
use r.Memory.Buffers.{get_buffer-purge, taken, belongs}
use r.Memory.Spilling.{lookup_spill_buffers}
use r.Memory.Spilling.Sums.{AreStaged, staged_size}
use r.Memory.Spilling.Choice.{lookup_spill_buffers_lem}
use r.Memory.Tickets.{release_ticket-require_buffer}
use r.Memory.Balance.Abandoned.{from_account, ticket_check-from}
use r.Memory.Balance.{Account, open_account, Reach, here, next, requires, IsSettled}
use r.Memory.Balance.Histories.{Reach-IsSettled}

abbrev uid_of : ℕ → ℕ → PartitionedUId
uid_of shuffle partition = record {
  app_id = 97 ∷ [];
  shuffle_id = pos shuffle;
  partition_id = pos partition;
}

abbrev block : Block
block = record {
  block_id = pos 3;
  length = pos 2;
  uncompress_length = pos 200;
  crc = pos 7;
  payload = 104 ∷ 105 ∷ [];
  task_attempt_id = pos 1;
}

abbrev empty : MemoryStore
empty = new (pos 100)

abbrev filled : MemoryStore
filled = insert (insert empty (uid_of 1 0) (block ∷ []) 2) (uid_of 2 0) (block ∷ []) 2

purged_used : (purge filled (97 ∷ []) (some (pos 2))).1 ≡ pos 2
unfolding purge is_purged removed_list remove_buffers insert get_or_create_buffer new Buffer.new
    Buffer.append Map.get Map.insert Map.remove uid_beq add64 to_i64
purged_used = refl

-- A granted request.
abbrev granted : RequireBufferResponse
granted = record { ticket_id = pos 1; allocated_timestamp = 50 }

is_granted : (require_buffer empty (uid_of 1 0) (pos 7) 50).1 ≡ ok granted
unfolding require_buffer new Budget.new Budget.require_allocated sub64 add64
is_granted = refl

release_ticket-require_buffer_example :
    ((release_ticket (require_buffer empty (uid_of 1 0) (pos 7) 50).0 (pos 1)).1 ≡ ok (pos 7))
    × ((release_ticket
          (release_ticket (require_buffer empty (uid_of 1 0) (pos 7) 50).0 (pos 1)).0
          (pos 1)).1
        ≡ err (ticket_id_not_exist (pos 1)))
release_ticket-require_buffer_example =
    release_ticket-require_buffer empty (uid_of 1 0) (pos 7) 50 granted is_granted

abbrev configured : MemoryStore
configured = (require_buffer (from 100 (pos 30)) (uid_of 1 0) (pos 7) 50).0

-- A request on the configured store, whose ticket is then abandoned.
abbrev waiting : Account
waiting = record { store = configured; pending = pos 0 }

to_waiting : Reach (from_account 100 (pos 30)) waiting
unfolding from Budget.new ◌+ℤ◌
to_waiting = next here (requires (uid_of 1 0) (pos 7) 50 (omega arith) (omega arith))

ticket_check-from_example : (ticket_check 100 configured).budget ≡ configured.budget
ticket_check-from_example = ticket_check-from 100 (pos 30) waiting 100 to_waiting

abbrev required : Account
required = record {
  store = (require_buffer (open_account (pos 100)).store (uid_of 1 0) (pos 7) 50).0;
  pending = pos 0;
}

to_required : Reach (open_account (pos 100)) required
unfolding new Budget.new ◌+ℤ◌
to_required = next here (requires (uid_of 1 0) (pos 7) 50 (omega arith) (omega arith))

Reach-IsSettled_example : IsSettled required
Reach-IsSettled_example = Reach-IsSettled (pos 100) required (omega arith) (omega arith) to_required

filled-Distinct : Map.Distinct filled.state
unfolding insert get_or_create_buffer new Map.get Map.insert Map.remove uid_beq
filled-Distinct = (refl, (refl, tt))

get_buffer-purge_example :
    (get_buffer (purge filled (97 ∷ []) none).0 (uid_of 1 0)
      ≡ (if belongs (97 ∷ []) none (uid_of 1 0) then err other else get_buffer filled (uid_of 1 0)))
    × ((purge filled (97 ∷ []) none).1 ≡ taken (belongs (97 ∷ []) none) filled.state (pos 0))
    × ((purge filled (97 ∷ []) none).0.budget
        ≡ (Budget.dec_used filled.budget (taken (belongs (97 ∷ []) none) filled.state (pos 0))).0)
get_buffer-purge_example = get_buffer-purge filled (97 ∷ []) none (uid_of 1 0) filled-Distinct

-- Ten bytes are used, of which four are expected to stay; one partition has two bytes staged.
abbrev staged : BufferInternal
staged = record {
  total_size = pos 2;
  staging_size = pos 2;
  flight_size = pos 0;
  staging = (block ∷ []) ∷ [];
  flight = [];
  flight_counter = 0;
}

abbrev used : MemoryStore
used = record empty {
  state = (uid_of 1 0, staged) ∷ [];
  budget = record {
    capacity = pos 100;
    allocated = pos 0;
    used = pos 10;
    allocation_inc_counter = pos 0;
  };
}

lookup_spill_buffers_lem_example :
    (candidates : Map PartitionedUId BufferInternal) × (lookup_spill_buffers used (pos 4)
      ≡ ok candidates)
    × AreStaged used candidates
    × ((leb_ℤ (sub64 (pos 10) (pos 4)) (staged_size candidates) ≡ true)
        ⊎ (Map.get (uid_of 1 0) candidates ≡ some staged))
unfolding Map.get uid_beq sub64
lookup_spill_buffers_lem_example =
    lookup_spill_buffers_lem used (pos 4) (uid_of 1 0) staged (refl, tt) refl refl refl
