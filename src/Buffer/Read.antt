-- ===== src/Buffer/Read.antt =====
-- What a read of src/store/mem/buffer.rs returns, said without its loops.
use r.Base.{
  Option-cases, sym, ◌⊎◌, ℕ, ◌≡◌, refl, Bool, true, false, Option, none, some, List, [], ◌∷◌, ◌++◌,
  ◌==◌, if◌then◌else◌, concat, arith, Bool-cases, inl, inr, append_assoc, append-nil, ◌∙◌, ap,
}
use r.Base.Int.{ℤ, int_eq, leb_ℤ}
use r.Base.Machine.{add64}
use r.Base.Map.{Map}
use r.Store.Blocks.{Block}
use r.Buffer.{
  BatchMemoryBlock, BufferInternal, Reading, Control, continue, stop, expected, visit, read_blocks,
  read_batch, read_flights, read_round, read_loop, start, invalid_block_id,
}

-- All the blocks, in the order in which a read meets them.
abbrev pub flight_blocks : Map ℕ BatchMemoryBlock → List Block
flight_blocks [] = []
flight_blocks ((id, batch) ∷ flight) = concat batch ++ flight_blocks flight

abbrev pub all_blocks : BufferInternal → List Block
all_blocks b = flight_blocks b.flight ++ concat b.staging

-- The blocks behind the first one with an id, if there is one.
abbrev pub behind : ℤ → List Block → Option (List Block)
behind id [] = none
behind id (b ∷ bs) = if b.block_id == id then some bs else behind id bs

-- Where a read starts: behind the last block that the client has, or at the front if it has none
-- or names one that is not there.
abbrev pub or_all : List Block → Option (List Block) → List Block
or_all bs none = bs
or_all bs (some rest) = rest

abbrev pub remaining : ℤ → List Block → List Block
remaining last bs = if last == invalid_block_id then bs else or_all bs (behind last bs)

abbrev pub wanted : Option (ℕ → Bool) → List Block → List Block
wanted task_ids [] = []
wanted task_ids (b ∷ bs) =
    if expected task_ids b then b ∷ wanted task_ids bs else wanted task_ids bs

-- Blocks are taken as long as the lengths taken before are below the limit.
abbrev pub page : ℤ → ℤ → List Block → List Block
page limit taken [] = []
page limit taken (b ∷ bs) =
    if leb_ℤ limit taken then [] else b ∷ page limit (add64 taken b.length) bs

abbrev pub taken_len : ℤ → List Block → ℤ
taken_len acc [] = acc
taken_len acc (b ∷ bs) = taken_len (add64 acc b.length) bs

module _ (last limit : ℤ) (task_ids : Option (ℕ → Bool)) where
  read : List Block → Reading → Reading
  read = read_blocks last limit task_ids

  read_continue :
      (b : Block) (bs : List Block) (s s' : Reading)
      → visit last limit task_ids b s ≡ continue s'
      → read (b ∷ bs) s ≡ read bs s'
  unfolding read read_blocks
  read_continue b bs s s' h = rw (h, read_blocks)

  read_stop :
      (b : Block) (bs : List Block) (s : Reading)
      → visit last limit task_ids b s ≡ stop
      → read (b ∷ bs) s ≡ s
  unfolding read read_blocks
  read_stop b bs s h = rw (h, read_blocks)

  read_nil : (s : Reading) → read [] s ≡ s
  unfolding read read_blocks
  read_nil s = refl

  -- The branches of the body.
  visit_hit :
      (b : Block) (s : Reading)
      → s.flight_found ≡ false
      → (b.block_id == last) ≡ true
      → visit last limit task_ids b s ≡ continue (record s { flight_found = true })
  unfolding visit
  visit_hit b s f e = rw (f, visit) (rw (e, visit))

  visit_before :
      (b : Block) (s : Reading)
      → s.flight_found ≡ false
      → (b.block_id == last) ≡ false
      → visit last limit task_ids b s ≡ continue s
  unfolding visit
  visit_before b s f e = ground arith

  visit_full :
      (b : Block) (s : Reading)
      → s.flight_found ≡ true
      → leb_ℤ limit s.read_len ≡ true
      → visit last limit task_ids b s ≡ stop
  unfolding visit
  visit_full b s f e = ground arith

  visit_unwanted :
      (b : Block) (s : Reading)
      → s.flight_found ≡ true
      → leb_ℤ limit s.read_len ≡ false
      → expected task_ids b ≡ false
      → visit last limit task_ids b s ≡ continue s
  unfolding visit
  visit_unwanted b s f e w = ground arith

  visit_take :
      (b : Block) (s : Reading)
      → s.flight_found ≡ true
      → leb_ℤ limit s.read_len ≡ false
      → expected task_ids b ≡ true
      → visit last limit task_ids b s
        ≡ continue (record s {
          read_len = add64 s.read_len b.length;
          read_result = s.read_result ++ (b ∷ []);
        })
  unfolding visit
  visit_take b s f e w = ground arith

  stop_full :
      (b : Block) (s : Reading)
      → visit last limit task_ids b s ≡ stop
      → (s.flight_found ≡ true) × (leb_ℤ limit s.read_len ≡ true)
  unfolding visit
  stop_full b s h = ground arith

  -- A read that has its fill stays as it is.
  full_stays :
      (bs : List Block) (s : Reading)
      → s.flight_found ≡ true
      → leb_ℤ limit s.read_len ≡ true
      → read bs s ≡ s
  full_stays [] s f h = read_nil s
  full_stays (b ∷ bs) s f h = read_stop b bs s (visit_full b s f h)

  Control-cases : (c : Control) → ((s : Reading) × (c ≡ continue s)) ⊎ (c ≡ stop)
  Control-cases (continue s) = inl (s, refl)
  Control-cases stop = inr refl

  -- So leaving the innermost loop alone is as good as leaving all of them.
  read-append : (xs ys : List Block) (s : Reading) → read (xs ++ ys) s ≡ read ys (read xs s)
  read-append [] ys s = rw (read_nil s)
  read-append (x ∷ xs) ys s = elim (Control-cases (visit last limit task_ids x s)) [
    | inl (s', e) ↦
        rw (read_continue x (xs ++ ys) s s' e, read_continue x xs s s' e) (read-append xs ys s')
    | inr e ↦
        rw (read_stop x (xs ++ ys) s e, read_stop x xs s e)
          (sym (full_stays ys s (stop_full x s e).0 (stop_full x s e).1))
  ]

  read_batch_lem :
      (batch : BatchMemoryBlock) (s : Reading)
      → read_batch last limit task_ids batch s ≡ read (concat batch) s
  unfolding read_batch read
  read_batch_lem [] s = sym (read_nil s)
  read_batch_lem (bs ∷ batch) s =
      read_batch_lem batch (read bs s) ∙ sym (read-append bs (concat batch) s)

  read_flights_lem :
      (flight : Map ℕ BatchMemoryBlock) (s : Reading)
      → read_flights last limit task_ids flight s ≡ read (flight_blocks flight) s
  unfolding read_flights
  read_flights_lem [] s = sym (read_nil s)
  read_flights_lem ((id, batch) ∷ flight) s =
      read_flights_lem flight (read_batch last limit task_ids batch s)
      ∙ ap (read (flight_blocks flight)) (read_batch_lem batch s)
      ∙ sym (read-append (concat batch) (flight_blocks flight) s)

  abbrev marked : Reading → Reading
  marked s = if last == invalid_block_id then record s { flight_found = true } else s

  read_round_lem :
      (b : BufferInternal) (s : Reading)
      → read_round last limit task_ids b s ≡ read (all_blocks b) (marked s)
  unfolding read_round
  read_round_lem b s =
      read_batch_lem b.staging (read_flights last limit task_ids b.flight (marked s))
      ∙ ap (read (concat b.staging)) (read_flights_lem b.flight (marked s))
      ∙ sym (read-append (flight_blocks b.flight) (concat b.staging) (marked s))

  page-full : (bs : List Block) (taken : ℤ) → leb_ℤ limit taken ≡ true → page limit taken bs ≡ []
  page-full [] taken h = refl
  page-full (b ∷ bs) taken h = rw h

  abbrev pub served : List Block → Reading → Reading
  served bs s = record {
    read_result = s.read_result ++ page limit s.read_len (wanted task_ids bs);
    read_len = taken_len s.read_len (page limit s.read_len (wanted task_ids bs));
    flight_found = true;
  }

  -- Once the start is found, a read takes a page of the wanted blocks.
  read_found : (bs : List Block) (s : Reading) → s.flight_found ≡ true → read bs s ≡ served bs s
  read_found [] s f = read_nil s ∙ simp (append-nil, ← f)
  read_found (b ∷ bs) s f = elim (Bool-cases (leb_ℤ limit s.read_len)) [
    | inl full ↦
        read_stop b bs s (visit_full b s f full)
        ∙ simp (page-full (wanted task_ids (b ∷ bs)) s.read_len full, append-nil, ← f)
    | inr room ↦ elim (Bool-cases (expected task_ids b)) [
      | inl take ↦
          let s' : Reading = record s {
            read_len = add64 s.read_len b.length;
            read_result = s.read_result ++ (b ∷ []);
          } in
          read_continue b bs s s' (visit_take b s f room take)
          ∙ read_found bs s' f
          ∙ rw (take, room) (rw append_assoc)
      | inr skip ↦
          read_continue b bs s s (visit_unwanted b s f room skip) ∙ read_found bs s f ∙ rw skip
    ]
  ]

  abbrev found : Reading → Reading
  found s = record s { flight_found = true }

  resumed : Option (List Block) → Reading → Reading
  resumed none s = s
  resumed (some rest) s = read rest (found s)

  -- Until then it looks for the last block that the client has.
  read_search :
      (bs : List Block) (s : Reading)
      → s.flight_found ≡ false
      → read bs s ≡ resumed (behind last bs) s
  unfolding resumed
  read_search [] s f = read_nil s
  read_search (b ∷ bs) s f = elim (Bool-cases (b.block_id == last)) [
    | inl hit ↦ rw hit (read_continue b bs s (found s) (visit_hit b s f hit))
    | inr miss ↦ rw miss (read_continue b bs s s (visit_before b s f miss) ∙ read_search bs s f)
  ]

  loop_once :
      (b : BufferInternal) (r : Reading)
      → read_round last limit task_ids b start ≡ r
      → r.flight_found ≡ true
      → read_loop last limit task_ids 2 b start ≡ some r
  unfolding read_loop
  loop_once b r e f = rw (e, read_loop) (rw (f, read_loop))

  loop_twice :
      (b : BufferInternal) (r : Reading)
      → read_round last limit task_ids b start ≡ start
      → read_round last limit task_ids b (found start) ≡ r
      → r.flight_found ≡ true
      → read_loop last limit task_ids 2 b start ≡ some r
  unfolding read_loop
  loop_twice b r e e' f = rw (e, read_loop) (rw (e', read_loop) (rw (f, read_loop)))

  -- The loop ends within two rounds.
  pub read_loop_lem :
      (b : BufferInternal)
      → read_loop last limit task_ids 2 b start
        ≡ some (served (remaining last (all_blocks b)) start)
  unfolding resumed
  read_loop_lem b = elim (Bool-cases (last == invalid_block_id)) [
    | inl inv ↦ rw inv (
        loop_once b (served (all_blocks b) start)
          (read_round_lem b start ∙ rw inv (read_found (all_blocks b) (found start) refl)) refl)
    | inr given ↦ elim (Option-cases (behind last (all_blocks b))) [
      | inl absent ↦
          rw (given, absent)
            (loop_twice b (served (all_blocks b) start)
              (read_round_lem b start
                ∙ rw given (read_search (all_blocks b) start refl ∙ rw absent))
              (read_round_lem b (found start)
                ∙ rw given (read_found (all_blocks b) (found start) refl))
              refl)
      | inr (rest, there) ↦
          rw (given, there)
            (loop_once b (served rest start)
              (read_round_lem b start
                ∙ rw given (
                    read_search (all_blocks b) start refl
                    ∙ rw there (read_found rest (found start) refl)))
              refl)
    ]
  ]
