-- ===== src/Service/Commands.antt =====
-- src/urpc/command.rs: the commands that read. The numbers of the status codes, which the build
-- generates, and the messages of the answers are arguments.
use r.Base.{ℕ, Option, none, some, [], Bytes}
use r.Base.Int.{ℤ, pos}
use r.Error.{WorkerError, ok, err, panic}
use r.Store.Wrapper.{ResponseData, local, mem, direct}
use r.Persistent.{PersistentStore, memory_last_block_id_and_max_size, file_offset_and_len}
use r.Sending.{StatusCode, success, no_register, internal_error}
use r.App
use r.App.Reading
use r.Urpc.Commands
use r.Urpc.Commands.{
  Frame, GetMemoryDataRequestCommand, GetLocalDataRequestCommand, GetLocalDataIndexRequestCommand,
}
use r.Service.{Server, write_back, uid_of}

module _ (code : StatusCode → ℤ) (message : StatusCode → Option WorkerError → Bytes) where
  abbrev memory_frame : ℤ → StatusCode → Option WorkerError → ResponseData → Frame
  memory_frame id status e content = Commands.get_memory_data_response (record {
    request_id = id;
    status_code = code status;
    ret_msg = message status e;
    content = content;
  })

  abbrev local_frame : ℤ → StatusCode → Option WorkerError → Bytes → Frame
  local_frame id status e content = Commands.get_local_data_response (record {
    request_id = id;
    status_code = code status;
    ret_msg = message status e;
    content = content;
  })

  abbrev index_frame : ℤ → StatusCode → Option WorkerError → Bytes → ℤ → Frame
  index_frame id status e index_data data_file_len =
      Commands.get_local_data_index_response (record {
        request_id = id;
        status_code = code status;
        ret_msg = message status e;
        index_data = index_data;
        data_file_len = data_file_len;
      })

  abbrev rpc_frame : ℤ → StatusCode → Frame
  rpc_frame id status =
      Commands.rpc_response
        (record { request_id = id; status_code = code status; ret_msg = message status none })

  -- A read that has data of the other kind.
  abbrev local_or_incorrect : ℤ → ResponseData → Frame
  local_or_incorrect id (local bytes) = local_frame id success none bytes
  local_or_incorrect id (mem m) = local_frame id internal_error none []

  module _ (P : PersistentStore) (now : ℕ) where
    -- The filter of the expected tasks that the request carries is not passed on.
    unfoldable pub apply_get_memory_data :
        Server P → GetMemoryDataRequestCommand → Server P × Option Frame
    unfolding App.get_app Reading.select
    apply_get_memory_data s req = elim (App.get_app s.app_manager_ref req.app_id) [
      | none ↦ (s, some (rpc_frame req.request_id no_register))
      | some app ↦
          let (app', answer) =
            Reading.select P app s.store (uid_of req.app_id req.shuffle_id req.partition_id)
              (memory_last_block_id_and_max_size req.last_block_id req.read_buffer_size) none now in
          let s' = write_back P s req.app_id app' s.store in
          elim answer [
            | ok (some r) ↦ (s', some (memory_frame req.request_id success none r))
            | ok none ↦ (s', none)
            | err e ↦ (
              s',
              some (
                  memory_frame req.request_id internal_error (some e)
                    (mem (record { shuffle_data_block_segments = []; content = direct [] }))),
            )
            | panic ↦ (s', none)
          ]
    ]

    unfoldable pub apply_get_local_data :
        Server P → GetLocalDataRequestCommand → Server P × Option Frame
    unfolding App.get_app Reading.select
    apply_get_local_data s req = elim (App.get_app s.app_manager_ref req.app_id) [
      | none ↦ (s, some (local_frame req.request_id no_register none []))
      | some app ↦
          let (app', answer) =
            Reading.select P app s.store (uid_of req.app_id req.shuffle_id req.partition_id)
              (file_offset_and_len req.offset req.length) none now in
          let s' = write_back P s req.app_id app' s.store in
          elim answer [
            | ok (some r) ↦ (s', some (local_or_incorrect req.request_id r))
            | ok none ↦ (s', none)
            | err e ↦ (s', some (local_frame req.request_id internal_error (some e) []))
            | panic ↦ (s', none)
          ]
    ]

    unfoldable pub apply_get_local_data_index :
        Server P → GetLocalDataIndexRequestCommand → Server P × Option Frame
    unfolding App.get_app Reading.list_index
    apply_get_local_data_index s req = elim (App.get_app s.app_manager_ref req.app_id) [
      | none ↦ (s, some (index_frame req.request_id no_register none [] (pos 0)))
      | some app ↦
          let (app', answer) =
            Reading.list_index P app s.store (uid_of req.app_id req.shuffle_id req.partition_id)
              now in
          let s' = write_back P s req.app_id app' s.store in
          elim answer [
            | ok r ↦
                (s', some (index_frame req.request_id success none r.index_data r.data_file_len))
            | err e ↦ (s', some (index_frame req.request_id internal_error (some e) [] (pos 0)))
            | panic ↦ (s', none)
          ]
    ]
