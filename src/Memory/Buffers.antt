-- ===== src/Memory/Buffers.antt =====
-- What inserts, purges and reads of src/store/memory.rs do to the buffers of the partitions.
use r.Base.{
  fun_ext, ℕ, ◌≡◌, refl, Bool, true, false, ◌&&◌, bytes_eq, Option, none, some, List, [], ◌∷◌,
  Bytes, ◌==◌, if◌then◌else◌, arith, Bool-cases, Option-cases, inl, inr, beq_refl, All,
}
use r.Base.Int.{ℤ, pos, int_eq}
use r.Base.Machine.{add64}
use r.Error.{ok, err, other}
use r.Store.Blocks.{Block}
use r.Buffer
use r.Buffer.{BufferInternal}
use r.Budget
use r.Base.Map
use r.Base.Map.{Map}
use r.Memory.{
  uid_beq_iff, PartitionedUId, uid_eq, MemoryStore, get_buffer, insert, purge, is_purged,
  removed_list, remove_buffers, get_or_create_buffer,
}

-- The buffer of a partition, or the empty one that an insert creates.
abbrev pub current : MemoryStore → PartitionedUId → BufferInternal
unfolding Buffer.new
current s uid = elim (Map.get uid s.state) [ none ↦ Buffer.new | some b ↦ b ]

-- An insert appends to the buffer of its partition, created if there was none, and leaves the
-- buffers of the other partitions and the budget alone.
pub get_buffer-insert :
    (s : MemoryStore) (uid other_uid : PartitionedUId) (blocks : List Block) (size : ℕ)
    → (get_buffer (insert s uid blocks size) other_uid ≡ (
        if uid == other_uid
        then ok (Buffer.append (current s uid) blocks size)
        else get_buffer s other_uid))
      × ((insert s uid blocks size).budget ≡ s.budget)
unfolding get_buffer insert get_or_create_buffer
get_buffer-insert s uid j blocks size = elim (Option-cases (Map.get uid s.state)) [
  | inl fresh ↦
      let at_uid =
        Map.get-insert uid j (Buffer.append Buffer.new blocks size)
          (Map.insert uid Buffer.new s.state) in
      let before = Map.get-insert uid j Buffer.new s.state in
      rw (get_buffer, insert, get_or_create_buffer, fresh, at_uid, before) (ground arith, refl)
  | inr (b, there) ↦
      rw
        (
          get_buffer,
          insert,
          get_or_create_buffer,
          there,
          Map.get-insert uid j (Buffer.append b blocks size) s.state,
        )
        (rw (current, there) (ground arith), refl)
]

-- The buffers that a purge leaves, and the sum of the sizes of those it takes.
abbrev pub left :
    (PartitionedUId → Bool) → Map PartitionedUId BufferInternal → Map PartitionedUId BufferInternal
left test [] = []
left test ((uid, b) ∷ m) = if test uid then left test m else (uid, b) ∷ left test m

abbrev pub taken : (PartitionedUId → Bool) → Map PartitionedUId BufferInternal → ℤ → ℤ
taken test [] acc = acc
taken test ((uid, b) ∷ m) acc = taken test m (if test uid then add64 acc b.total_size else acc)

abbrev Lacks : PartitionedUId → List PartitionedUId → Type 0
Lacks k = All (λ (i : PartitionedUId). (k == i) ≡ false)

removed_list-Lacks :
    (app_id : Bytes) (shuffle_id : Option ℤ) (k : PartitionedUId)
    (m : Map PartitionedUId BufferInternal)
    → Map.get k m ≡ none
    → Lacks k (removed_list app_id shuffle_id m)
unfolding removed_list Map.get
removed_list-Lacks app sh k [] h = tt
removed_list-Lacks app sh k ((j, b) ∷ m) h =
    ground (arith, uid_beq_iff j k, uid_beq_iff k j, removed_list-Lacks app sh k m)

remove_buffers_skip :
    (ids : List PartitionedUId) (k : PartitionedUId) (b : BufferInternal)
    (m : Map PartitionedUId BufferInternal) (acc : ℤ)
    → Lacks k ids
    → remove_buffers ids ((k, b) ∷ m) acc
      ≡ ((k, b) ∷ (remove_buffers ids m acc).0, (remove_buffers ids m acc).1)
unfolding remove_buffers Map.get Map.remove
remove_buffers_skip [] k b m acc h = refl
remove_buffers_skip (i ∷ ids) k b m acc h = rw h.0 (remove_buffers_skip ids k b _ _ h.1)

remove_buffers_hit :
    (ids : List PartitionedUId) (k : PartitionedUId) (b : BufferInternal)
    (m : Map PartitionedUId BufferInternal) (acc : ℤ)
    → Map.get k m ≡ none
    → remove_buffers (k ∷ ids) ((k, b) ∷ m) acc ≡ remove_buffers ids m (add64 acc b.total_size)
unfolding remove_buffers Map.get Map.remove
remove_buffers_hit ids k b m acc h = rw (beq_refl k) (rw (Map.remove_absent k m h))

remove_buffers_lem :
    (app_id : Bytes) (shuffle_id : Option ℤ) (m : Map PartitionedUId BufferInternal) (acc : ℤ)
    → Map.Distinct m
    → remove_buffers (removed_list app_id shuffle_id m) m acc
      ≡ (left (is_purged app_id shuffle_id) m, taken (is_purged app_id shuffle_id) m acc)
unfolding removed_list
remove_buffers_lem app sh [] acc d = unfold remove_buffers in refl
remove_buffers_lem app sh ((k, b) ∷ m) acc d = elim (Bool-cases (is_purged app sh k)) [
  | inl hit ↦ rw hit (
      rw (remove_buffers_hit (removed_list app sh m) k b m acc d.0)
        (remove_buffers_lem app sh m (add64 acc b.total_size) d.1))
  | inr miss ↦
      rw
        (
          miss,
          remove_buffers_skip (removed_list app sh m) k b m acc (removed_list-Lacks app sh k m d.0),
        )
        (rw (remove_buffers_lem app sh m acc d.1))
]

get-left :
    (test : PartitionedUId → Bool) (k : PartitionedUId) (m : Map PartitionedUId BufferInternal)
    → Map.get k (left test m) ≡ (if test k then none else Map.get k m)
unfolding Map.get
get-left test k [] = ground arith
get-left test k ((j, b) ∷ m) = ground (arith, get-left test k m, uid_beq_iff j k)

-- The partitions of an application, or of one of its shuffles if one is given.
pub belongs : Bytes → Option ℤ → PartitionedUId → Bool
belongs app_id shuffle_id uid =
    (uid.app_id == app_id) && elim shuffle_id [ none ↦ true | some i ↦ uid.shuffle_id == i ]

is_purged-belongs :
    (app_id : Bytes) (shuffle_id : Option ℤ)
    → is_purged app_id shuffle_id ≡ belongs app_id shuffle_id
unfolding is_purged belongs
is_purged-belongs app_id none = fun_ext (λ uid. ground arith)
is_purged-belongs app_id (some i) = refl

-- If no partition stands twice in the map, a purge of an application, or of one shuffle of it,
-- removes the buffers of the partitions with its id, and with that of the shuffle if one is given,
-- leaves the others, returns the sum of the sizes of those it removes, added up as i64, and takes that
-- off the used part of the budget.
pub get_buffer-purge :
    (s : MemoryStore) (app_id : Bytes) (shuffle_id : Option ℤ) (uid : PartitionedUId)
    → Map.Distinct s.state
    → (get_buffer (purge s app_id shuffle_id).0 uid
        ≡ (if belongs app_id shuffle_id uid then err other else get_buffer s uid))
      × ((purge s app_id shuffle_id).1 ≡ taken (belongs app_id shuffle_id) s.state (pos 0))
      × ((purge s app_id shuffle_id).0.budget
          ≡ (Budget.dec_used s.budget (taken (belongs app_id shuffle_id) s.state (pos 0))).0)
unfolding get_buffer purge
get_buffer-purge s app sh uid d =
    rw
      (
        remove_buffers_lem app sh s.state (pos 0) d,
        is_purged-belongs app sh,
        get_buffer,
        get-left (belongs app sh) uid s.state,
      )
      (ground arith, refl, refl)
