-- ===== src/Service/Reading.antt =====
-- src/grpc/service.rs: the reads of a partition. The clock and the reader of a serialized bitmap are
-- arguments. There is no answer if the handler panics, or if a memory read ran out of fuel.
use r.Base.{ℕ, Bool, Option, none, some, List, [], ◌∷◌, Bytes}
use r.Base.Int.{ℤ, pos}
use r.Error.{ok, err, panic}
use r.Store.Blocks.{DataSegment}
use r.Store.Wrapper
use r.Store.Wrapper.{ResponseData, local, mem, direct, LocalDataIndex}
use r.Persistent.{PersistentStore, memory_last_block_id_and_max_size, file_offset_and_len}
use r.Sending.{StatusCode, success, no_register, internal_error}
use r.App
use r.App.{App}
use r.App.Reading
use r.Service.{Server, write_back, uid_of}

pub record GetMemoryShuffleDataRequest : Type 0 where
  pub app_id : Bytes
  pub shuffle_id : ℤ
  pub partition_id : ℤ
  pub last_block_id : ℤ
  pub read_buffer_size : ℤ
  pub serialized_expected_task_ids_bitmap : Bytes

pub record GetMemoryShuffleDataResponse : Type 0 where
  pub shuffle_data_block_segments : List DataSegment
  pub content : Bytes
  pub status : StatusCode

pub record GetLocalShuffleDataRequest : Type 0 where
  pub app_id : Bytes
  pub shuffle_id : ℤ
  pub partition_id : ℤ
  pub offset : ℤ
  pub length : ℤ

pub record GetLocalShuffleDataResponse : Type 0 where
  pub content : Bytes
  pub status : StatusCode

pub record GetLocalShuffleIndexResponse : Type 0 where
  pub index_data : Bytes
  pub status : StatusCode
  pub data_file_len : ℤ

abbrev no_segments : StatusCode → GetMemoryShuffleDataResponse
no_segments status = record { shuffle_data_block_segments = []; content = []; status = status }

abbrev pub memory_response : ResponseData → GetMemoryShuffleDataResponse
memory_response r = record {
  shuffle_data_block_segments = (Wrapper.from_memory r).shuffle_data_block_segments;
  content = Wrapper.freeze (Wrapper.from_memory r).content;
  status = success;
}

-- The filter of the expected tasks: an empty one, or one that is not read, is none.
unfoldable pub expected_task_ids : (Bytes → Option (ℕ → Bool)) → Bytes → Option (ℕ → Bool)
expected_task_ids deserialize [] = none
expected_task_ids deserialize (x ∷ bytes) = deserialize (x ∷ bytes)

module _ (P : PersistentStore) (now : ℕ) where
  unfoldable pub get_memory_shuffle_data :
      (Bytes → Option (ℕ → Bool))
      → Server P
      → GetMemoryShuffleDataRequest
      → Server P × Option GetMemoryShuffleDataResponse
  unfolding App.get_app Reading.select expected_task_ids Wrapper.from_memory Wrapper.freeze
  get_memory_shuffle_data deserialize s req = elim (App.get_app s.app_manager_ref req.app_id) [
    | none ↦ (s, some (no_segments no_register))
    | some app ↦
        let (app', answer) =
          Reading.select P app s.store (uid_of req.app_id req.shuffle_id req.partition_id)
            (memory_last_block_id_and_max_size req.last_block_id req.read_buffer_size)
            (expected_task_ids deserialize req.serialized_expected_task_ids_bitmap) now in
        let s' = write_back P s req.app_id app' s.store in
        elim answer [
          | ok (some r) ↦ (s', some (memory_response r))
          | ok none ↦ (s', none)
          | err e ↦ (s', some (no_segments internal_error))
          | panic ↦ (s', none)
        ]
  ]

  unfoldable pub get_local_shuffle_data :
      Server P → GetLocalShuffleDataRequest → Server P × Option GetLocalShuffleDataResponse
  unfolding App.get_app Reading.select Wrapper.from_local
  get_local_shuffle_data s req = elim (App.get_app s.app_manager_ref req.app_id) [
    | none ↦ (s, some (record { content = []; status = no_register }))
    | some app ↦
        let (app', answer) =
          Reading.select P app s.store (uid_of req.app_id req.shuffle_id req.partition_id)
            (file_offset_and_len req.offset req.length) none now in
        let s' = write_back P s req.app_id app' s.store in
        elim answer [
          | ok (some r) ↦ (s', some (record { content = Wrapper.from_local r; status = success }))
          | ok none ↦ (s', none)
          | err e ↦ (s', some (record { content = []; status = internal_error }))
          | panic ↦ (s', none)
        ]
  ]

  unfoldable pub get_local_shuffle_index :
      Server P → Bytes → ℤ → ℤ → Server P × Option GetLocalShuffleIndexResponse
  unfolding App.get_app Reading.list_index
  get_local_shuffle_index s app_id shuffle_id partition_id =
      elim (App.get_app s.app_manager_ref app_id) [
        | none ↦ (s, some (record { index_data = []; status = no_register; data_file_len = pos 0 }))
        | some app ↦
            let (app', answer) =
              Reading.list_index P app s.store (uid_of app_id shuffle_id partition_id) now in
            let s' = write_back P s app_id app' s.store in
            elim answer [
              | ok r ↦ (
                s',
                some (record {
                  index_data = r.index_data;
                  status = success;
                  data_file_len = r.data_file_len;
                }),
              )
              | err e ↦ (
                s',
                some (record { index_data = []; status = internal_error; data_file_len = pos 0 }),
              )
              | panic ↦ (s', none)
            ]
      ]
