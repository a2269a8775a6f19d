-- ===== src/Error.antt =====
-- src/error.rs: the errors of the worker, and the outcome of a fallible call. `other` stands for
-- an `anyhow` error; its text and that of
-- `STREAM_INCORRECT` are not modelled.
use r.Base.{refl, inr, inl, ◌⊎◌, ◌≡◌, Bytes, Bool, true, false}
use r.Base.Int.{ℤ}

pub data WorkerError : Type 0 where
  no_available_local_disk : WorkerError
  internal_error : WorkerError
  app_is_not_found : WorkerError
  no_candidate_store : WorkerError
  partial_data_lost : Bytes → WorkerError
  local_disk_unhealthy : Bytes → WorkerError
  local_disk_owned_by_partition_corrupted : Bytes → WorkerError
  no_enough_memory_to_be_allocated : WorkerError
  memory_usage_limited_by_huge_partition : WorkerError
  http_service_error : Bytes → WorkerError
  ticket_id_not_exist : ℤ → WorkerError
  hdfs_native_client_not_found : Bytes → WorkerError
  app_has_been_purged : WorkerError
  not_read_hdfs_data_from_server : WorkerError
  spill_event_exceed_retry_max_limit : Bytes → WorkerError
  stream_incomplete : WorkerError
  stream_incorrect : WorkerError
  stream_abnormal : WorkerError
  stream_message_type_not_found : WorkerError
  hdfs_io_error : Bytes → WorkerError
  out_of_memory : WorkerError
  hdfs_unhealthy : WorkerError
  other : WorkerError

-- A call returns a value, an error, or panics.
pub data Outcome {ℓ} (A : Type ℓ) : Type ℓ where
  ok : A → Outcome A
  err : WorkerError → Outcome A
  panic : Outcome A

infixl 5 ◌>>=◌ ◌>>◌
abbrev pub ◌>>=◌ {ℓ κ} : {A : Type ℓ} {B : Type κ} → Outcome A → (A → Outcome B) → Outcome B
ok a >>= f = f a
err e >>= f = err e
panic >>= f = panic

abbrev pub ◌>>◌ {ℓ} : {B : Type ℓ} → Outcome (Unit {0}) → Outcome B → Outcome B
m >> k = m >>= λ _. k

abbrev pub guard : Bool → WorkerError → Outcome (Unit {0})
guard true e = ok tt
guard false e = err e

pub Outcome-cases {ℓ} :
    {A : Type ℓ} (o : Outcome A)
    → ((a : A) × (o ≡ ok a)) ⊎ (((e : WorkerError) × (o ≡ err e)) ⊎ (o ≡ panic))
Outcome-cases (ok a) = inl (a, refl)
Outcome-cases (err e) = inr (inl (e, refl))
Outcome-cases panic = inr (inr refl)

pub ok_inj {ℓ} : {A : Type ℓ} {a b : A} → ok a ≡ ok b → a ≡ b
ok_inj e = cc
