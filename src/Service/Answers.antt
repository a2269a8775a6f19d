-- ===== src/Service/Answers.antt =====
-- What the memory read of src/grpc/service.rs answers with.
use r.Base.{ℕ, Bool, Option, none, some, List, Bytes, ◌≡◌, ◌<◌, ◌^◌, refl, ap, ◌∙◌, map}
use r.Base.Map
use mathlib.Core.Option
use r.Error.{Outcome, ok, err, other, ◌>>=◌}
use r.Store.Blocks.{Block, AreSized, payload_len, segments, slice, payloads}
use r.Store.Wrapper.{mem, PartitionedMemoryData}
use r.Buffer.{BufferInternal}
use r.Buffer
use r.Buffer.Answers.{answer, get_v2_lem}
use r.Memory
use r.Memory.{uid_eq}
use r.Persistent.{PersistentStore, memory_last_block_id_and_max_size}
use r.Hybrid.Answering
use r.Sending.{success}
use r.App
use r.App.{App}
use r.App.Reading
use r.Service.{Server, uid_of}
use r.Service.Reading.{
  GetMemoryShuffleDataRequest, GetMemoryShuffleDataResponse, memory_response, expected_task_ids,
  get_memory_shuffle_data,
}

module _ (P : PersistentStore) where
  -- The blocks that a request asks for, in the buffer of its partition.
  abbrev pub requested :
      (Bytes → Option (ℕ → Bool)) → GetMemoryShuffleDataRequest → BufferInternal → List Block
  requested deserialize req b =
      answer b req.last_block_id req.read_buffer_size
        (expected_task_ids deserialize req.serialized_expected_task_ids_bitmap)

  select-memory :
      (s : Server P) (app : App) (req : GetMemoryShuffleDataRequest) (b : BufferInternal)
      (task_ids : Option (ℕ → Bool)) (m : PartitionedMemoryData) (now : ℕ)
      → Map.get (uid_of req.app_id req.shuffle_id req.partition_id) s.store.hot_store.state ≡ some b
      → Buffer.get_v2 b req.last_block_id req.read_buffer_size task_ids ≡ some m
      → (Reading.select P app s.store
          (uid_of req.app_id req.shuffle_id req.partition_id)
          (memory_last_block_id_and_max_size req.last_block_id req.read_buffer_size)
          task_ids
          now).1
        ≡ ok (some (mem m))
  unfolding Reading.select Answering.get Memory.get Memory.get_buffer
  select-memory s app req b task_ids m now there found =
      ap
        (λ (o : Option BufferInternal).
          elim o as (λ x. Outcome BufferInternal) [ none ↦ err other | some k ↦ ok k ] >>= λ k.
          ok (Option.map mem (Buffer.get_v2 k req.last_block_id req.read_buffer_size task_ids)))
        there
      ∙ ap (λ r. ok (Option.map mem r)) found

  -- If the application is registered, its partition has a buffer, and the stated lengths of the blocks
  -- that the request asks for are right and below 2^63 together, then the answer succeeds, its segments
  -- are those of just these blocks, and they cut its bytes into the blocks' payloads.
  pub get_memory_shuffle_data_lem :
      (now : ℕ) (deserialize : Bytes → Option (ℕ → Bool)) (s : Server P)
      (req : GetMemoryShuffleDataRequest) (app : App) (b : BufferInternal)
      → App.get_app s.app_manager_ref req.app_id ≡ some app
      → Map.get (uid_of req.app_id req.shuffle_id req.partition_id) s.store.hot_store.state ≡ some b
      → AreSized (requested deserialize req b)
      → payload_len (requested deserialize req b) < 2 ^ 63
      → (r : GetMemoryShuffleDataResponse) × ((get_memory_shuffle_data P now deserialize s req).1
          ≡ some r)
        × (r.status ≡ success)
        × (r.shuffle_data_block_segments ≡ segments 0 (requested deserialize req b))
        × (map (slice 0 r.content) r.shuffle_data_block_segments
            ≡ payloads (requested deserialize req b))
  unfolding get_memory_shuffle_data
  get_memory_shuffle_data_lem now deserialize s req app b registered there sized fits =
      let task_ids = expected_task_ids deserialize req.serialized_expected_task_ids_bitmap in
      let (m, found, laid, len, cut) =
        get_v2_lem b req.last_block_id req.read_buffer_size task_ids sized fits in
      (
        memory_response (mem m),
        rw (get_memory_shuffle_data, registered)
            (rw (get_memory_shuffle_data, select-memory s app req b task_ids m now there found)
              refl),
        refl,
        laid,
        cut,
      )
