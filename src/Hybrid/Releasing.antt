-- ===== src/Hybrid/Releasing.antt =====
-- A spill of a buffer in src/store/hybrid.rs and the release of its memory after the flush.
use r.Base.{ℕ, ◌+◌, ◌%◌, ◌^◌, ◌<◌, ◌≡◌, refl, ap, ◌∙◌, none, [], arith, beq_refl, nat_eq}
use r.Base.Int.{pos}
use r.Base.Machine.{add64, sub64, to_i64, to_u64, to_i64_small, to_u64_pos}
use r.Base.Map
use r.Error.{ok}
use r.Buffer
use r.Buffer.{BufferInternal}
use r.Budget
use r.Memory
use r.Memory.{PartitionedUId, uid_eq, get_buffer, write_back, MemoryStore}
use r.Persistent.{PersistentStore}
use r.Hybrid
use r.Hybrid.{HybridStore}
use r.Hybrid.Inserting.{spill_message, buffer_spill_impl}

-- A buffer without its staged blocks, after a spill of a staging size and the clear of its flight.
abbrev pub without_staged : BufferInternal → ℕ → BufferInternal
without_staged b n = record b {
  staging = [];
  staging_size = pos 0;
  flight_counter = (b.flight_counter + 1) % 2 ^ 64;
  total_size = sub64 b.total_size (pos n);
  flight_size = sub64 (add64 b.flight_size (pos n)) (pos n);
}

clear-spill :
    (b : BufferInternal) (n : ℕ)
    → b.staging_size ≡ pos n
    → n < 2 ^ 63
    → Map.get b.flight_counter b.flight ≡ none
    → Buffer.clear (Buffer.spill b).0 b.flight_counter n ≡ without_staged b n
unfolding Buffer.clear Buffer.spill
clear-spill b n e small fresh =
    rw (Buffer.clear, Map.get-insert b.flight_counter b.flight_counter b.staging b.flight)
      (rw (beq_refl b.flight_counter) (
        rw (Map.remove-insert b.flight_counter b.staging b.flight fresh, to_i64_small n small, e)
          refl))

get_buffer-write_back :
    (s : MemoryStore) (uid : PartitionedUId) (b : BufferInternal)
    → get_buffer (write_back s uid b) uid ≡ ok b
unfolding get_buffer
get_buffer-write_back s uid b =
    rw (get_buffer, Map.get-insert uid uid b s.state) (rw (beq_refl uid) refl)

-- The size of a message is the staging size that it was made from.
bytes-spill_message :
    (b : BufferInternal) (n : ℕ)
    → b.staging_size ≡ pos n
    → n < 2 ^ 63
    → to_u64 (to_i64 (to_u64 b.staging_size)) ≡ n
bytes-spill_message b n e small =
    rw (e, to_u64_pos n (omega arith), to_i64_small n small) (to_u64_pos n (omega arith))

clear_spilled_buffer-there :
    (s : MemoryStore) (uid : PartitionedUId) (b : BufferInternal) (id n : ℕ)
    → get_buffer s uid ≡ ok b
    → (Memory.clear_spilled_buffer s uid id n).0 ≡ record (write_back s uid (Buffer.clear b id n)) {
      budget = (Budget.dec_used s.budget (to_i64 n)).0;
    }
unfolding Memory.clear_spilled_buffer
clear_spilled_buffer-there s uid b id n e = rw (Memory.clear_spilled_buffer, e) refl

-- The memory store after the clear of a flight that was just spilled.
cleared :
    (s : MemoryStore) (uid : PartitionedUId) (b : BufferInternal) (n size : ℕ)
    → size ≡ n
    → b.staging_size ≡ pos n
    → n < 2 ^ 63
    → Map.get b.flight_counter b.flight ≡ none
    → (let s' = write_back s uid (Buffer.spill b).0 in
        (Memory.clear_spilled_buffer s' uid b.flight_counter size).0
        ≡ record (write_back s' uid (without_staged b n)) {
          budget = (Budget.dec_used s.budget (pos n)).0;
        })
cleared s uid b n size same e small fresh =
    let s' = write_back s uid (Buffer.spill b).0 in
    ap (λ k. (Memory.clear_spilled_buffer s' uid b.flight_counter k).0) same
    ∙ (clear_spilled_buffer-there s' uid (Buffer.spill b).0 b.flight_counter n
          (get_buffer-write_back s uid (Buffer.spill b).0)
        ∙ (rw (clear-spill b n e small fresh, to_i64_small n small) refl))

module _ (P : PersistentStore) where
  -- After the spill of a partition's buffer and the release of its message, as a successful flush
  -- does it, the buffer is as before but for the staged blocks, which the message carries, and their
  -- size is taken off the used memory; the staging size is below 2^63 and the flight's number is
  -- free.
  pub release_memory_buffer-buffer_spill_impl :
      (h : HybridStore P) (uid : PartitionedUId) (b : BufferInternal) (n : ℕ)
      → b.staging_size ≡ pos n
      → n < 2 ^ 63
      → Map.get b.flight_counter b.flight ≡ none
      → (let m = spill_message P h uid b in
          let h' = (Hybrid.release_memory_buffer P (buffer_spill_impl P h uid b).0 m.size m).0 in
          (m.ctx.data_blocks ≡ b.staging)
          × (get_buffer h'.hot_store uid ≡ ok (without_staged b n))
          × (h'.hot_store.budget ≡ (Budget.dec_used h.hot_store.budget (pos n)).0))
  unfolding Hybrid.release_memory_buffer buffer_spill_impl spill_message Hybrid.publish_spill_event
      Hybrid.publish Hybrid.start_spill_event Buffer.spill
  release_memory_buffer-buffer_spill_impl h uid b n e small fresh =
      let after = cleared h.hot_store uid b n _ (bytes-spill_message b n e small) e small fresh in
      (
        refl,
        ap (λ (s : MemoryStore). get_buffer s uid) after
            ∙ get_buffer-write_back (write_back h.hot_store uid (Buffer.spill b).0) uid
                (without_staged b n),
        ap (λ (s : MemoryStore). s.budget) after,
      )
