-- ===== src/Urpc/Reading.antt =====
-- The loop of `Connection::read_frame` of src/urpc/connection.rs. What the socket gives is the list of
-- its reads: a read of no bytes is the end of the stream, and at the end of the list it waits.
use r.Base.{
  ltb→lt, ap₂, ◌≤◌, ℕ, subst, sym, ap, ◌∙◌, ◌≡◌, ◌≢◌, refl, ◌<◌, ◌+◌, ◌^◌, Option, none, some, List,
  [], ◌∷◌, ◌++◌, concat, Bytes, length, take, drop, true, All, arith, append_assoc, length-append,
  ltb, Bool-cases, inl, inr,
}
use mathlib.Core.List.{head-eq_of_cons-eq, tail-eq_of_cons-eq}
use r.Base.Machine.{InI64, InI32}
use r.Error.{ok_inj, Outcome, ok, err, panic, stream_abnormal}
use r.Store.Format.{Codec}
use r.Urpc.Commands
use r.Urpc.Commands.{RpcResponseCommand}
use r.Urpc.Cursor.{is_utf8}
use r.Urpc.Frame.{parse_frame}
use r.Urpc.Writing.{write}
use r.Urpc.Checking.{parse_frame-take}
use r.Urpc.RoundTrip.{parse_frame-write}

-- The answer, with the buffer and the reads that are left.
abbrev pub ReadResult : Type 0
ReadResult = Outcome (Option Commands.Frame) × Bytes × List Bytes

-- The end of the stream.
abbrev at_end : Bytes → List Bytes → ReadResult
at_end [] reads = (ok none, [], reads)
at_end (x ∷ buffer) reads = (err stream_abnormal, x ∷ buffer, reads)

module _ (c : Codec) where
  -- No value while it has to wait for the socket.
  unfoldable pub read_frame : Bytes → List Bytes → Option ReadResult
  read_frame buffer [] = elim (parse_frame c buffer) [
    | ok (some frame, rest) ↦ some (ok (some frame), rest, [])
    | ok (none, rest) ↦ none
    | err e ↦ some (err e, buffer, [])
    | panic ↦ some (panic, buffer, [])
  ]
  read_frame buffer (read ∷ reads) = elim (parse_frame c buffer) [
    | ok (some frame, rest) ↦ some (ok (some frame), rest, read ∷ reads)
    | ok (none, rest) ↦ elim read [
      | [] ↦ some (at_end rest reads)
      | x ∷ bytes ↦ read_frame (rest ++ (x ∷ bytes)) reads
    ]
    | err e ↦ some (err e, buffer, read ∷ reads)
    | panic ↦ some (panic, buffer, read ∷ reads)
  ]

-- Of two ways to cut the same bytes in two, the shorter first part begins the longer one.
take_of :
    (xs ys zs rest : Bytes)
    → xs ++ zs ≡ ys ++ rest
    → length xs < length ys
    → take (length xs) ys ≡ xs
take_of [] ys zs rest e h = refl
take_of (x ∷ xs) [] zs rest e h = absurd (omega (arith, h))
take_of (x ∷ xs) (y ∷ ys) zs rest e h =
    ap₂ (λ b (l : Bytes). b ∷ l) (sym (head-eq_of_cons-eq e))
      (take_of xs ys zs rest (tail-eq_of_cons-eq e) (omega (arith, h)))

drop_of :
    (xs ys zs rest : Bytes)
    → xs ++ zs ≡ ys ++ rest
    → length ys ≤ length xs
    → (xs ≡ ys ++ drop (length ys) xs) × (drop (length ys) xs ++ zs ≡ rest)
drop_of xs [] zs rest e h = (refl, e)
drop_of [] (y ∷ ys) zs rest e h = absurd (omega (arith, h))
drop_of (x ∷ xs) (y ∷ ys) zs rest e h =
    let (split, left) = drop_of xs ys zs rest (tail-eq_of_cons-eq e) (omega (arith, h)) in
    (ap₂ (λ b (l : Bytes). b ∷ l) (head-eq_of_cons-eq e) split, left)

-- The reads of a socket that is not closed.
abbrev pub AreReads : List Bytes → Type 0
AreReads = All (λ read. read ≢ [])

module _ (c : Codec) where
  read_frame-found :
      (buffer : Bytes) (reads : List Bytes) (frame : Commands.Frame) (left : Bytes)
      → parse_frame c buffer ≡ ok (some frame, left)
      → read_frame c buffer reads ≡ some (ok (some frame), left, reads)
  unfolding read_frame
  read_frame-found buffer [] frame left e = rw (read_frame, e) refl
  read_frame-found buffer (read ∷ reads) frame left e = rw (read_frame, e) refl

  read_frame-more :
      (buffer : Bytes) (x : ℕ) (read : Bytes) (reads : List Bytes)
      → parse_frame c buffer ≡ ok (none, buffer)
      → read_frame c buffer ((x ∷ read) ∷ reads) ≡ read_frame c (buffer ++ (x ∷ read)) reads
  unfolding read_frame
  read_frame-more buffer x read reads e = rw (read_frame, e) refl

  -- What is found: the frame, and what is left of the bytes, in the buffer and in the reads.
  pub record Finds (buffer : Bytes) (reads : List Bytes) (frame : Commands.Frame) (rest : Bytes)
      : Type 0 where
    pub left : Bytes
    pub unread : List Bytes
    pub found : read_frame c buffer reads ≡ some (ok (some frame), left, unread)
    pub remaining : left ++ concat unread ≡ rest

  module _ (frame : Commands.Frame) (bytes rest : Bytes)
      (whole : (more : Bytes) → parse_frame c (bytes ++ more) ≡ ok (some frame, more))
      (part : (k : ℕ)
        → k < length bytes
        → parse_frame c (take k bytes) ≡ ok (none, take k bytes)) where
    -- A buffer that holds the frame gives it at once.
    read_frame-whole :
        (buffer : Bytes) (reads : List Bytes)
        → length bytes ≤ length buffer
        → buffer ++ concat reads ≡ bytes ++ rest
        → Finds buffer reads frame rest
    read_frame-whole buffer reads long e =
        let (split, left) = drop_of buffer bytes (concat reads) rest e long in
        let parsed = ap (parse_frame c) split ∙ whole (drop (length bytes) buffer) in
        record {
          left = drop (length bytes) buffer;
          unread = reads;
          found = read_frame-found buffer reads frame (drop (length bytes) buffer) parsed;
          remaining = left;
        }

    -- A buffer that holds a part of it is filled from the socket.
    read_frame-Finds :
        (buffer : Bytes) (reads : List Bytes)
        → AreReads reads
        → buffer ++ concat reads ≡ bytes ++ rest
        → Finds buffer reads frame rest
    read_frame-Finds buffer [] all e = read_frame-whole buffer [] (omega (arith, short buffer e)) e
      where
        short : (b : Bytes) → b ++ [] ≡ bytes ++ rest → length bytes ≤ length b
        short b h =
            let lengths : length (b ++ []) ≡ length (bytes ++ rest) =
              ap (λ (l : Bytes). length l) h in
            omega (arith, lengths, length-append b [], length-append bytes rest)
    read_frame-Finds buffer ([] ∷ reads) all e = absurd (all.0 refl)
    read_frame-Finds buffer ((x ∷ read) ∷ reads) all e =
        elim (Bool-cases (ltb (length buffer) (length bytes))) [
          | inr long ↦ read_frame-whole buffer ((x ∷ read) ∷ reads) (ground (arith, long)) e
          | inl less ↦
              let short : length buffer < length bytes =
                ltb→lt (length buffer) (length bytes) less in
              let cut : take (length buffer) bytes ≡ buffer =
                take_of buffer bytes (concat ((x ∷ read) ∷ reads)) rest e short in
              let parsed : parse_frame c buffer ≡ ok (none, buffer) =
                subst (λ b. parse_frame c b ≡ ok (none, b)) cut (part (length buffer) short) in
              let next =
                read_frame-Finds (buffer ++ (x ∷ read)) reads all.1
                  (append_assoc buffer (x ∷ read) (concat reads) ∙ e) in
              record {
                left = next.left;
                unread = next.unread;
                found = read_frame-more buffer x read reads parsed ∙ next.found;
                remaining = next.remaining;
              }
        ]

  -- Whatever the sizes of the reads in which it arrives: a response without data whose message is
  -- UTF-8 of less than 2 ^ 31 - 16 bytes and whose numbers fit their types is read back from a socket
  -- as it was written, and the bytes after it are left, in the buffer and in the socket.
  pub read_frame-write :
      (r : RpcResponseCommand) (bytes rest buffer : Bytes) (reads : List Bytes)
      → InI64 r.request_id
      → InI32 r.status_code
      → length r.ret_msg + 16 < 2 ^ 31
      → is_utf8 r.ret_msg ≡ true
      → write c (Commands.rpc_response r) ≡ ok bytes
      → AreReads reads
      → buffer ++ concat reads ≡ bytes ++ rest
      → Finds buffer reads (Commands.rpc_response r) rest
  read_frame-write r bytes rest buffer reads id_fits status_fits small valid written all e =
      let whole : (more : Bytes)
          → parse_frame c (bytes ++ more) ≡ ok (some (Commands.rpc_response r), more) =
        λ more.
          let (found, same, parsed) = parse_frame-write c r more id_fits status_fits small valid in
          subst (λ b. parse_frame c (b ++ more) ≡ ok (some (Commands.rpc_response r), more))
            (ok_inj (sym same ∙ written)) parsed in
      read_frame-Finds (Commands.rpc_response r) bytes rest whole
        (λ k. parse_frame-take c (Commands.rpc_response r) bytes k small written) buffer reads all e
