-- ===== src/Memory.antt =====
-- src/store/memory.rs: the hot store. A call is one step: it holds the map's locks and does not
-- yield between its effects. The clock is an argument. The eviction callback of the tickets acts on
-- the budget that `new` or `from` gave it, which need not be the store's own.
pub mod Buffers
pub mod Tickets
pub mod Balance
pub mod Spilling
mod Tests
use r.Base.{
  bytes_beq_iff, refl, ◌↔◌, ◌≡◌, ℕ, ◌∷◌, [], List, Bytes, Bool, true, false, not, ◌&&◌, beq_refl,
  Option, none, some, ◌==◌, Eq, bytes_eq, if◌then◌else◌,
}
use r.Base.Int.{int_beq_iff, ℤ, pos, negsuc, int_eq, ltb_ℤ, leb_ℤ}
use r.Base.Machine.{add64, sub64, to_i64, to_u64}
use mathlib.Core.Option
use r.Base.Map
use r.Base.Map.{Map}
use r.Error.{Outcome, ok, err, panic, ◌>>=◌, other, no_enough_memory_to_be_allocated}
use r.Store.Blocks.{Block}
use r.Store.Wrapper.{ResponseData, mem}
use r.Budget
use r.Budget.{MemoryBudget, CapacitySnapshot}
use r.Ticket
use r.Ticket.{TicketManager}
use r.Buffer
use r.Buffer.{BufferInternal}

pub record PartitionedUId : Type 0 where
  pub app_id : Bytes
  pub shuffle_id : ℤ
  pub partition_id : ℤ

unfoldable pub uid_beq : PartitionedUId → PartitionedUId → Bool
uid_beq a b =
    (a.app_id == b.app_id) && (a.shuffle_id == b.shuffle_id) && (a.partition_id == b.partition_id)

and_true : (x y : Bool) → (x && y) ≡ true → (x ≡ true) × (y ≡ true)
and_true true y h = (refl, h)
and_true false y h = cc

same :
    (a b : PartitionedUId)
    → a.app_id ≡ b.app_id
    → a.shuffle_id ≡ b.shuffle_id
    → a.partition_id ≡ b.partition_id
    → a ≡ b
same a b e f g = cc

pub uid_beq_iff : (a b : PartitionedUId) → (uid_beq a b ≡ true) ↔ (a ≡ b)
unfolding uid_beq
uid_beq_iff a b = (
  λ h.
      let (xy, z) = and_true ((a.app_id == b.app_id) && (a.shuffle_id == b.shuffle_id)) _ h in
      let (x, y) = and_true (a.app_id == b.app_id) _ xy in
      same a b ((bytes_beq_iff a.app_id b.app_id).0 x) ((int_beq_iff a.shuffle_id b.shuffle_id).0 y)
        ((int_beq_iff a.partition_id b.partition_id).0 z),
  λ e. rw e (rw (beq_refl b.app_id, beq_refl b.shuffle_id, beq_refl b.partition_id)),
)

instance abbrev pub uid_eq : Eq PartitionedUId
uid_eq = record { beq = uid_beq; beq_iff = uid_beq_iff }

pub record MemoryStore : Type 0 where
  pub memory_capacity : ℤ
  pub state : Map PartitionedUId BufferInternal
  pub budget : MemoryBudget
  pub ticket_manager : TicketManager
  -- The budget of the eviction callback where that is another one.
  pub callback_budget : Option MemoryBudget

unfoldable pub new : ℤ → MemoryStore
unfolding Budget.new
new max_memory_size = record {
  memory_capacity = max_memory_size;
  state = [];
  budget = Budget.new max_memory_size;
  ticket_manager = record { ticket_store = []; ticket_timeout_sec = pos 300 };
  callback_budget = none;
}

-- The capacity is the one that was parsed from the configuration.
unfoldable pub from : ℕ → ℤ → MemoryStore
unfolding Budget.new
from capacity buffer_ticket_timeout_sec = record {
  memory_capacity = to_i64 capacity;
  state = [];
  budget = Budget.new (to_i64 capacity);
  ticket_manager = record { ticket_store = []; ticket_timeout_sec = buffer_ticket_timeout_sec };
  callback_budget = some (Budget.new (to_i64 capacity));
}

unfoldable pub memory_snapshot : MemoryStore → CapacitySnapshot
unfolding Budget.snapshot
memory_snapshot s = Budget.snapshot s.budget

unfoldable pub get_capacity : MemoryStore → ℤ
get_capacity s = s.memory_capacity

unfoldable pub dec_allocated : MemoryStore → ℤ → MemoryStore
unfolding Budget.dec_allocated
dec_allocated s size = record s { budget = (Budget.dec_allocated s.budget size).0 }

unfoldable pub move_allocated_to_used : MemoryStore → ℤ → MemoryStore
unfolding Budget.move_allocated_to_used
move_allocated_to_used s size = record s {
  budget = (Budget.move_allocated_to_used s.budget size).0;
}

unfoldable pub get_buffer : MemoryStore → PartitionedUId → Outcome BufferInternal
get_buffer s uid = elim (Map.get uid s.state) [ none ↦ err other | some b ↦ ok b ]

-- The buffer of a partition, an empty one if there is none, and the store with it.
unfoldable pub get_or_create_buffer : MemoryStore → PartitionedUId → MemoryStore × BufferInternal
unfolding Buffer.new
get_or_create_buffer s uid = elim (Map.get uid s.state) [
  | none ↦ (record s { state = Map.insert uid Buffer.new s.state }, Buffer.new)
  | some b ↦ (s, b)
]

-- The store after a mutation through a shared reference to the buffer of a partition.
abbrev pub write_back : MemoryStore → PartitionedUId → BufferInternal → MemoryStore
write_back s uid b = record s { state = Map.insert uid b s.state }

unfoldable pub get_buffer_size : MemoryStore → PartitionedUId → Outcome ℕ
unfolding get_buffer
get_buffer_size s uid = get_buffer s uid >>= λ b. ok (to_u64 b.total_size)

unfoldable pub get_buffer_staging_size : MemoryStore → PartitionedUId → Outcome ℕ
unfolding get_buffer
get_buffer_staging_size s uid = get_buffer s uid >>= λ b. ok (to_u64 b.staging_size)

unfoldable pub insert : MemoryStore → PartitionedUId → List Block → ℕ → MemoryStore
unfolding get_or_create_buffer Buffer.append
insert s uid blocks size =
    let (s', b) = get_or_create_buffer s uid in write_back s' uid (Buffer.append b blocks size)

unfoldable pub get :
    MemoryStore → PartitionedUId → ℤ → ℤ → Option (ℕ → Bool) → Outcome (Option ResponseData)
unfolding get_buffer Buffer.get_v2
get s uid last_block_id max_size task_ids =
    get_buffer s uid >>= λ b. ok (Option.map mem (Buffer.get_v2 b last_block_id max_size task_ids))

unfoldable pub clear_spilled_buffer :
    MemoryStore → PartitionedUId → ℕ → ℕ → MemoryStore × Outcome (Unit {0})
unfolding get_buffer Buffer.clear Budget.dec_used
clear_spilled_buffer s uid flight_id flight_len = elim (get_buffer s uid) [
  | ok b ↦ (
    record (write_back s uid (Buffer.clear b flight_id flight_len)) {
      budget = (Budget.dec_used s.budget (to_i64 flight_len)).0;
    },
    ok tt,
  )
  | err e ↦ (s, err e)
  | panic ↦ (s, panic)
]

-- Which partitions a purge is about: those of an application, or of one of its shuffles.
unfoldable pub is_purged : Bytes → Option ℤ → PartitionedUId → Bool
is_purged app_id none uid = uid.app_id == app_id
is_purged app_id (some shuffle_id) uid = (uid.app_id == app_id) && (uid.shuffle_id == shuffle_id)

unfoldable pub removed_list :
    Bytes → Option ℤ → Map PartitionedUId BufferInternal → List PartitionedUId
removed_list app_id shuffle_id [] = []
removed_list app_id shuffle_id ((uid, b) ∷ m) =
    let rest = removed_list app_id shuffle_id m in
    if is_purged app_id shuffle_id uid then uid ∷ rest else rest

unfoldable pub remove_buffers :
    List PartitionedUId
    → Map PartitionedUId BufferInternal
    → ℤ
    → Map PartitionedUId BufferInternal × ℤ
remove_buffers [] m used = (m, used)
remove_buffers (uid ∷ uids) m used =
    remove_buffers uids (Map.remove uid m)
      (elim (Map.get uid m) [ none ↦ used | some b ↦ add64 used b.total_size ])

unfoldable pub purge : MemoryStore → Bytes → Option ℤ → MemoryStore × ℤ
unfolding removed_list remove_buffers Budget.dec_used
purge s app_id shuffle_id =
    let (state, used) = remove_buffers (removed_list app_id shuffle_id s.state) s.state (pos 0) in
    (record s { state = state; budget = (Budget.dec_used s.budget used).0 }, used)

pub record RequireBufferResponse : Type 0 where
  pub ticket_id : ℤ
  pub allocated_timestamp : ℕ

unfoldable pub require_buffer :
    MemoryStore → PartitionedUId → ℤ → ℕ → MemoryStore × Outcome RequireBufferResponse
unfolding Budget.require_allocated Ticket.insert
require_buffer s uid size now =
    let (budget, (succeed, ticket_id)) = Budget.require_allocated s.budget size in
    if succeed
    then (
      record s {
        budget = budget;
        ticket_manager = (Ticket.insert s.ticket_manager ticket_id size now uid.app_id).0;
      },
      ok (record { ticket_id = ticket_id; allocated_timestamp = now }),
    )
    else (record s { budget = budget }, err no_enough_memory_to_be_allocated)

unfoldable pub release_ticket : MemoryStore → ℤ → MemoryStore × Outcome ℤ
unfolding Ticket.delete
release_ticket s ticket_id =
    let (m, answer) = Ticket.delete s.ticket_manager ticket_id in
    (record s { ticket_manager = m }, answer)

-- `release_allocated_func` on the budget that it captured.
unfoldable pub release_allocated_func :
    ℤ → MemoryBudget × Option MemoryBudget → MemoryBudget × Option MemoryBudget
unfolding Budget.dec_allocated
release_allocated_func size (budget, none) = ((Budget.dec_allocated budget size).0, none)
release_allocated_func size (budget, some own) = (budget, some (Budget.dec_allocated own size).0)

-- A round of the ticket manager's check at a time, on the store it belongs to.
unfoldable pub ticket_check : ℕ → MemoryStore → MemoryStore
unfolding Ticket.ticket_check_round release_allocated_func
ticket_check now s =
    let (m, (budget, own)) =
      Ticket.ticket_check_round release_allocated_func now
        (s.ticket_manager, (s.budget, s.callback_budget)) in
    record s { ticket_manager = m; budget = budget; callback_budget = own }
