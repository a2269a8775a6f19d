-- ===== src/LocalFile/Delegator.antt =====
-- src/store/local/delegator.rs: a disk with its health, over an interface of the file I/O
-- (src/store/local/sync_io.rs), and a round of its periodic check. The space of the disk is an
-- argument of a round, and the floating point of the watermarks is a parameter of the disk.
use r.Base.{
  ℕ, ◌+◌, ◌-◌, ◌%◌, ◌^◌, Bool, true, false, not, ◌&&◌, Option, none, [], ◌∷◌, Bytes, ◌==◌, nat_eq,
  bytes_eq, if◌then◌else◌,
}
use r.Base.Int.{ℤ, pos}
use r.Error.{Outcome, ok, err, panic}
use r.Store.Wrapper.{BytesWrapper}
use r.LocalFile.{Disk}

-- The trait `LocalIO` without `file_stat`.
pub record LocalIo : Type 1 where
  pub State : Type 0
  pub create_dir : State → Bytes → State × Outcome (Unit {0})
  pub append : State → Bytes → BytesWrapper → State × Outcome (Unit {0})
  pub read : State → Bytes → ℤ → Option ℤ → Outcome Bytes
  pub delete : State → Bytes → State × Outcome (Unit {0})
  pub write : State → Bytes → Bytes → State × Outcome (Unit {0})

-- "corruption_check.file" and "hello world".
abbrev pub temp_path : Bytes
temp_path =
    99 ∷ 111 ∷ 114 ∷ 114 ∷ 117 ∷ 112 ∷ 116 ∷ 105 ∷ 111 ∷ 110 ∷ 95 ∷ 99 ∷ 104 ∷ 101 ∷ 99 ∷ 107 ∷ 46
    ∷ 102 ∷ 105 ∷ 108 ∷ 101 ∷ []

abbrev pub written_data : Bytes
written_data = 104 ∷ 101 ∷ 108 ∷ 108 ∷ 111 ∷ 32 ∷ 119 ∷ 111 ∷ 114 ∷ 108 ∷ 100 ∷ []

module _ (Io : LocalIo) where
  -- The tests against the watermarks take the used size and the capacity.
  pub record LocalDiskDelegator : Type 0 where
    pub root : Bytes
    pub io_handler : Io.State
    pub is_healthy : Bool
    pub is_corrupted : Bool
    pub high_watermark : ℕ → ℕ → Bool
    pub low_watermark : ℕ → ℕ → Bool

  unfoldable pub new : Bytes → Io.State → (ℕ → ℕ → Bool) → (ℕ → ℕ → Bool) → LocalDiskDelegator
  new root io_handler high_watermark low_watermark = record {
    root = root;
    io_handler = io_handler;
    is_healthy = true;
    is_corrupted = false;
    high_watermark = high_watermark;
    low_watermark = low_watermark;
  }

  unfoldable pub mark_healthy : LocalDiskDelegator → LocalDiskDelegator
  mark_healthy d = record d { is_healthy = true }

  unfoldable pub mark_unhealthy : LocalDiskDelegator → LocalDiskDelegator
  mark_unhealthy d = record d { is_healthy = false }

  unfoldable pub mark_corrupted : LocalDiskDelegator → LocalDiskDelegator
  mark_corrupted d = record d { is_corrupted = true }

  -- The part of `capacity_check` with the used size. The integer division for a gauge panics on a
  -- capacity of zero.
  unfoldable pub check_used : LocalDiskDelegator → ℕ → ℕ → LocalDiskDelegator × Outcome (Unit {0})
  unfolding mark_unhealthy mark_healthy
  check_used d used capacity =
      if capacity == 0
      then (d, panic)
      else if d.is_healthy && d.high_watermark used capacity
      then (mark_unhealthy d, ok tt)
      else if not d.is_healthy && d.low_watermark used capacity
      then (mark_healthy d, ok tt)
      else (d, ok tt)

  unfoldable pub capacity_check :
      LocalDiskDelegator → Outcome ℕ → Outcome ℕ → LocalDiskDelegator × Outcome (Unit {0})
  unfolding check_used
  capacity_check d (ok capacity) (ok available) =
      check_used d ((capacity + (2 ^ 64 - available)) % 2 ^ 64) capacity
  capacity_check d (ok capacity) (err e) = (d, err e)
  capacity_check d (ok capacity) panic = (d, panic)
  capacity_check d (err e) available = (d, err e)
  capacity_check d panic available = (d, panic)

  abbrev pub with_io : LocalDiskDelegator → Io.State → LocalDiskDelegator
  with_io d io = record d { io_handler = io }

  -- What is read back after the write.
  unfoldable pub check_read : LocalDiskDelegator → LocalDiskDelegator × Outcome (Unit {0})
  unfolding mark_corrupted
  check_read d = elim (Io.read d.io_handler temp_path (pos 0) none) [
    | ok read_data ↦ (if written_data == read_data then d else mark_corrupted d, ok tt)
    | err e ↦ (d, err e)
    | panic ↦ (d, panic)
  ]

  unfoldable pub write_read_check : LocalDiskDelegator → LocalDiskDelegator × Outcome (Unit {0})
  unfolding check_read
  write_read_check d =
      let (io1, deleted) = Io.delete d.io_handler temp_path in
      elim deleted [
        | ok done ↦
            let (io2, written) = Io.write io1 temp_path written_data in
            elim written [
              | ok done' ↦ check_read (with_io d io2)
              | err e ↦ (with_io d io2, err e)
              | panic ↦ (with_io d io2, panic)
            ]
        | err e ↦ (with_io d io1, err e)
        | panic ↦ (with_io d io1, panic)
      ]

  -- The second half of a round, whose error marks the disk.
  unfoldable pub check_files : LocalDiskDelegator → LocalDiskDelegator × Outcome (Unit {0})
  unfolding write_read_check mark_corrupted
  check_files d =
      let (d', answer) = write_read_check d in
      elim answer [
        | ok done ↦ (d', ok tt)
        | err e ↦ (mark_corrupted d', ok tt)
        | panic ↦ (d', panic)
      ]

  -- A round of the loop of `schedule_check`: an error of the first check is logged.
  unfoldable pub check_round :
      LocalDiskDelegator → Outcome ℕ → Outcome ℕ → LocalDiskDelegator × Outcome (Unit {0})
  unfolding capacity_check check_files
  check_round d capacity available =
      if d.is_corrupted
      then (d, ok tt)
      else let (d1, answer) = capacity_check d capacity available in
        elim answer [ ok done ↦ check_files d1 | err e ↦ check_files d1 | panic ↦ (d1, panic) ]

  -- The delegator as a disk of the local file store: its I/O is that of the handler.
  abbrev pub delegate :
      LocalDiskDelegator → Io.State × Outcome (Unit {0}) → LocalDiskDelegator × Outcome (Unit {0})
  delegate d (io, answer) = (with_io d io, answer)

  abbrev pub delegated_disk : Disk
  delegated_disk = record {
    State = LocalDiskDelegator;
    root = λ d. d.root;
    is_healthy = λ d. d.is_healthy;
    is_corrupted = λ d. d.is_corrupted;
    create_dir = λ d path. delegate d (Io.create_dir d.io_handler path);
    append = λ d path w. delegate d (Io.append d.io_handler path w);
    read = λ d path offset length. Io.read d.io_handler path offset length;
    delete = λ d path. delegate d (Io.delete d.io_handler path);
  }
