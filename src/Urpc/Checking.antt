-- ===== src/Urpc/Checking.antt =====
-- What `Frame::check` of src/urpc/frame.rs and `Connection::parse_frame` of src/urpc/connection.rs
-- say of the bytes that `Frame::write` wrote, and of the first of them.
use r.Base.{
  ◌-◌, ◌≤◌, ap₂, inr, ltb→lt, subst, length-take_le, ◌∙◌, inl, suc, sym, Bool-cases, ap, lt→ltb,
  true, none, take, ℕ, ◌+◌, ◌^◌, ◌<◌, ◌++◌, ◌≡◌, false, [], ◌∷◌, Bytes, length, ltb, arith,
  length-append, append_assoc,
}
use r.Base.Int.{pos}
use r.Base.Machine.{to_u64, to_u64_pos, add32, add32_pos}
use r.Error.{ok_inj, stream_incomplete, err, ok}
use r.Store.Format.{Codec}
use r.Urpc.Commands
use r.Urpc.Commands.{code, MessageType}
use r.Urpc.Cursor.{get_u8, ◌>>=◌}
use r.Urpc.Frame.{parse_frame, check}
use r.Urpc.Writing.{header, write}
use r.Urpc.Readers.{get_i32-put, skip-append}
use r.Urpc.Lengths.{length-header}
use r.Urpc.Framing.{Fits, IsFramed, write-IsFramed}

take_past : (xs ys : Bytes) (j : ℕ) → take (length xs + j) (xs ++ ys) ≡ xs ++ take j ys
take_past [] ys j = ap (λ (n : ℕ). take n ys) (omega arith)
take_past (x ∷ xs) ys j =
    let e : suc (length xs) + j ≡ suc (length xs + j) = omega arith in
    rw e (ap (λ (l : Bytes). x ∷ l) (take_past xs ys j))

module _ (c : Codec) where
  -- A header with the two lengths of what follows it passes the check.
  check-header :
      (n m : ℕ) (t : MessageType) (content rest : Bytes)
      → n + m < 2 ^ 31
      → length content ≡ n + m
      → check c (header c (pos n) t (pos m) ++ (content ++ rest)) ≡ ok (tt, rest)
  unfolding check header get_u8
  check-header n m t content rest small size =
      let tail = content ++ rest in
      let long : ltb (length (header c (pos n) t (pos m) ++ tail)) 9 ≡ false =
        rw (length-append (header c (pos n) t (pos m)) tail, length-header c (pos n) (pos m) t)
          (ground arith) in
      let shape : header c (pos n) t (pos m) ++ tail
          ≡ c.put_i32 (pos n) ++ (code t ∷ (c.put_i32 (pos m) ++ tail)) =
        append_assoc (c.put_i32 (pos n)) (code t ∷ c.put_i32 (pos m)) tail in
      let total : to_u64 (add32 (pos n) (pos m)) ≡ n + m =
        rw (add32_pos n m small) (to_u64_pos (n + m) (omega arith)) in
      let room : ltb (length tail) (n + m) ≡ false =
        rw (length-append content rest, size) (ground arith) in
      rw (long, shape)
        (rw (◌>>=◌, get_i32-put c (pos n) (code t ∷ (c.put_i32 (pos m) ++ tail)) (omega arith))
          (rw (get_u8, ◌>>=◌, get_i32-put c (pos m) tail (omega arith))
            (rw (total, room) (skip-append (n + m) content rest size))))

  pub check-framed :
      (bytes rest : Bytes) → IsFramed c bytes → check c (bytes ++ rest) ≡ ok (tt, rest)
  check-framed bytes rest f =
      rw
        (
          f.bytes_eq,
          append_assoc (header c (pos f.content_len) f.type (pos f.body_len)) f.behind rest,
        )
        (check-header f.content_len f.body_len f.type f.behind rest f.small f.size)

  -- A response that the server writes, with content and body together shorter than 2 ^ 31 bytes
  -- and a stated length of memory data that is that of its bytes, is taken by the check as one
  -- frame: what comes after it on the stream is left.
  pub check-write :
      (f : Commands.Frame) (rest : Bytes)
      → Fits c f
      → (bytes : Bytes) × (write c f ≡ ok bytes) × (check c (bytes ++ rest) ≡ ok (tt, rest))
  check-write f rest fits =
      let (bytes, written, framed) = write-IsFramed c f fits in
      (bytes, written, check-framed bytes rest framed)

  -- With fewer bytes behind the header than it states, the check waits for more.
  check-short :
      (n m : ℕ) (t : MessageType) (tail : Bytes)
      → n + m < 2 ^ 31
      → length tail < n + m
      → check c (header c (pos n) t (pos m) ++ tail) ≡ err stream_incomplete
  unfolding check header get_u8
  check-short n m t tail small short =
      let long : ltb (length (header c (pos n) t (pos m) ++ tail)) 9 ≡ false =
        rw (length-append (header c (pos n) t (pos m)) tail, length-header c (pos n) (pos m) t)
          (ground arith) in
      let shape : header c (pos n) t (pos m) ++ tail
          ≡ c.put_i32 (pos n) ++ (code t ∷ (c.put_i32 (pos m) ++ tail)) =
        append_assoc (c.put_i32 (pos n)) (code t ∷ c.put_i32 (pos m)) tail in
      let total : to_u64 (add32 (pos n) (pos m)) ≡ n + m =
        rw (add32_pos n m small) (to_u64_pos (n + m) (omega arith)) in
      let room : ltb (length tail) (n + m) ≡ true = lt→ltb (length tail) (n + m) short in
      rw (long, shape)
        (rw (◌>>=◌, get_i32-put c (pos n) (code t ∷ (c.put_i32 (pos m) ++ tail)) (omega arith))
          (rw (get_u8, ◌>>=◌, get_i32-put c (pos m) tail (omega arith)) (rw (total, room))))

  check-tiny : (bytes : Bytes) → length bytes < 9 → check c bytes ≡ err stream_incomplete
  unfolding check
  check-tiny bytes h = rw (lt→ltb (length bytes) 9 h)

  check-take :
      (bytes : Bytes) (k : ℕ)
      → IsFramed c bytes
      → k < length bytes
      → check c (take k bytes) ≡ err stream_incomplete
  check-take bytes k f short = elim (Bool-cases (ltb k 9)) [
    | inl tiny ↦
        check-tiny (take k bytes) (rw (length-take_le k bytes (omega arith)) (ltb→lt k 9 tiny))
    | inr more ↦
        let h = header c (pos f.content_len) f.type (pos f.body_len) in
        let nine = length-header c (pos f.content_len) (pos f.body_len) f.type in
        let whole : length bytes ≡ 9 + (f.content_len + f.body_len) =
          ap length f.bytes_eq ∙ length-append h f.behind ∙ ap₂ ◌+◌ nine f.size in
        let at_least : 9 ≤ k = ground arith in
        let split : length h + (k - 9) ≡ k = omega arith in
        let left : length (take (k - 9) f.behind) ≡ k - 9 =
          length-take_le (k - 9) f.behind (let z = f.size in omega arith) in
        let cut : take k bytes ≡ h ++ take (k - 9) f.behind =
          ap (take k) f.bytes_eq
          ∙ subst (λ (n : ℕ). take n (h ++ f.behind) ≡ h ++ take (k - 9) f.behind) split
              (take_past h f.behind (k - 9)) in
        rw cut (
          check-short f.content_len f.body_len f.type (take (k - 9) f.behind) f.small
            (rw left (omega arith)))
  ]

  -- As long as only the first bytes have arrived of a response that the server wrote, with content
  -- and body together shorter than 2 ^ 31 bytes and a stated length of memory data that is that of
  -- its bytes, the connection has no frame yet and keeps what it has.
  pub parse_frame-take :
      (f : Commands.Frame) (bytes : Bytes) (k : ℕ)
      → Fits c f
      → write c f ≡ ok bytes
      → k < length bytes
      → parse_frame c (take k bytes) ≡ ok (none, take k bytes)
  unfolding parse_frame
  parse_frame-take f bytes k fits written short =
      let (found, same, framed) = write-IsFramed c f fits in
      let equal : found ≡ bytes = ok_inj (sym same ∙ written) in
      rw (parse_frame, check-take bytes k (subst (IsFramed c) equal framed) short)
