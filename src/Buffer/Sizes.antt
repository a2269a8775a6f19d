-- ===== src/Buffer/Sizes.antt =====
-- The sizes that src/store/mem/buffer.rs keeps, over histories of appends, spills and clears in
-- which a flight is cleared with the length that its spill returned.
use r.Base.{
  zero-add, add_comm, ℕ, ◌+◌, ◌-◌, ◌%◌, ◌^◌, ◌<◌, ◌≡◌, refl, none, some, List, [], ◌∷◌, ◌==◌,
  nat_eq, arith, Bool-cases, inl, inr, nat_beq_iff,
}
use r.Base.Int.{ℤ, pos}
use r.Base.Machine.{add64, sub64, to_i64, to_u64, add64_pos, sub64_pos, to_i64_small, to_u64_pos}
use r.Base.Map
use r.Base.Map.{remove_absent, Map}
use r.Store.Blocks.{Block}
use r.Buffer.{BatchMemoryBlock, BufferInternal, new, append, spill, clear}

-- A buffer with what its callers know: the sizes appended since the last spill, and the flights that
-- were returned and not cleared yet.
pub record Protocol : Type 0 where
  pub buffer : BufferInternal
  pub staged : ℕ
  pub outstanding : Map ℕ ℕ

abbrev pub sum : Map ℕ ℕ → ℕ
sum [] = 0
sum ((id, n) ∷ m) = n + sum m

abbrev pub begin : Protocol
begin = record { buffer = new; staged = 0; outstanding = [] }

pub data Step : Protocol → Protocol → Type 0 where
  appends :
      (p : Protocol) (blocks : List Block) (size : ℕ)
      → p.staged + sum p.outstanding + size < 2 ^ 63
      → Step p (record p { buffer = append p.buffer blocks size; staged = p.staged + size })
  spills :
      (p : Protocol)
      → p.buffer.flight_counter + 1 < 2 ^ 64
      → Step p (record {
        buffer = (spill p.buffer).0;
        staged = 0;
        outstanding =
            Map.insert (spill p.buffer).1.flight_id (spill p.buffer).1.flight_len p.outstanding;
      })
  clears :
      (p : Protocol) (flight_id flight_len : ℕ)
      → Map.get flight_id p.outstanding ≡ some flight_len
      → Step p (record p {
        buffer = clear p.buffer flight_id flight_len;
        outstanding = Map.remove flight_id p.outstanding;
      })

pub data Reach (p : Protocol) : Protocol → Type 0 where
  here : Reach p p
  next : {q t : Protocol} → Reach p q → Step q t → Reach p t

-- The same flights in the buffer and with the callers.
abbrev pub SameKeys : Map ℕ BatchMemoryBlock → Map ℕ ℕ → Type 0
SameKeys [] [] = Unit {0}
SameKeys [] (b ∷ n) = ⊥
SameKeys (a ∷ m) [] = ⊥
SameKeys ((k, _) ∷ m) ((j, _) ∷ n) = (k ≡ j) × SameKeys m n

abbrev pub KeysBelow : ℕ → Map ℕ ℕ → Type 0
KeysBelow c [] = Unit {0}
KeysBelow c ((k, _) ∷ m) = (k < c) × KeysBelow c m

pub record IsAccounted (p : Protocol) : Type 0 where
  pub staging_eq : p.buffer.staging_size ≡ pos p.staged
  pub flight_eq : p.buffer.flight_size ≡ pos (sum p.outstanding)
  pub total_eq : p.buffer.total_size ≡ pos (p.staged + sum p.outstanding)
  pub fits : p.staged + sum p.outstanding < 2 ^ 63
  pub keys : SameKeys p.buffer.flight p.outstanding
  pub below : KeysBelow p.buffer.flight_counter p.outstanding
  pub distinct : Map.Distinct p.outstanding

SameKeys-remove :
    (id : ℕ) (m : Map ℕ BatchMemoryBlock) (n : Map ℕ ℕ)
    → SameKeys m n
    → SameKeys (Map.remove id m) (Map.remove id n)
unfolding Map.remove
SameKeys-remove id [] [] h = tt
SameKeys-remove id [] (b ∷ n) h = absurd h
SameKeys-remove id (a ∷ m) [] h = absurd h
SameKeys-remove id ((k, x) ∷ m) ((j, y) ∷ n) h = ground (arith, SameKeys-remove id m n h.1)

get-SameKeys :
    (id : ℕ) (m : Map ℕ BatchMemoryBlock) (n : Map ℕ ℕ) (len : ℕ)
    → SameKeys m n
    → Map.get id n ≡ some len
    → (batch : BatchMemoryBlock) × (Map.get id m ≡ some batch)
unfolding Map.get
get-SameKeys id [] [] len h e = cc
get-SameKeys id [] (b ∷ n) len h e = absurd h
get-SameKeys id (a ∷ m) [] len h e = absurd h
get-SameKeys id ((k, x) ∷ m) ((j, y) ∷ n) len h e = elim (Bool-cases (k == id)) [
  | inl hit ↦ (x, rw hit)
  | inr miss ↦
      let (batch, there) = get-SameKeys id m n len h.1 (ground (arith, h.0)) in
      (batch, rw miss there)
]

KeysBelow-remove : (c id : ℕ) (m : Map ℕ ℕ) → KeysBelow c m → KeysBelow c (Map.remove id m)
unfolding Map.remove
KeysBelow-remove c id [] h = tt
KeysBelow-remove c id ((k, n) ∷ m) h = ground (arith, KeysBelow-remove c id m h.1)

KeysBelow-suc : (c : ℕ) (m : Map ℕ ℕ) → KeysBelow c m → KeysBelow (c + 1) m
KeysBelow-suc c [] h = tt
KeysBelow-suc c ((k, n) ∷ m) h = (omega arith, KeysBelow-suc c m h.1)

-- The counter names no flight, so a spill replaces none.
get-KeysBelow : (c : ℕ) (m : Map ℕ ℕ) → KeysBelow c m → Map.get c m ≡ none
unfolding Map.get
get-KeysBelow c [] h = refl
get-KeysBelow c ((k, n) ∷ m) h = ground (arith, get-KeysBelow c m h.1)

some_inj : {a b : ℕ} → (some a ≡ some b) → a ≡ b
some_inj e = cc

sum-remove :
    (id len : ℕ) (m : Map ℕ ℕ)
    → Map.Distinct m
    → Map.get id m ≡ some len
    → sum m ≡ len + sum (Map.remove id m)
unfolding Map.get Map.remove
sum-remove id len [] d e = cc
sum-remove id len ((k, n) ∷ m) d e = elim (Bool-cases (k == id)) [
  | inl hit ↦
      let same : k ≡ id = (nat_beq_iff k id).0 hit in
      let gone : Map.remove id m ≡ m = remove_absent id m (rw same at d.0) in
      let size : n ≡ len = some_inj (rw hit at e) in rw (hit, gone, size)
  | inr miss ↦ let rest = sum-remove id len m d.1 (rw miss at e) in rw miss (omega arith)
]

-- A flight under a number that names none adds its length.
sum-insert : (c n : ℕ) (m : Map ℕ ℕ) → KeysBelow c m → sum (Map.insert c n m) ≡ n + sum m
unfolding Map.insert
sum-insert c n m h = rw (remove_absent c m (get-KeysBelow c m h)) refl

KeysBelow-insert : (c n : ℕ) (m : Map ℕ ℕ) → KeysBelow c m → KeysBelow (c + 1) (Map.insert c n m)
unfolding Map.insert
KeysBelow-insert c n m h = (omega arith, KeysBelow-remove (c + 1) c m (KeysBelow-suc c m h))

SameKeys-insert :
    (c n : ℕ) (b : BatchMemoryBlock) (m : Map ℕ BatchMemoryBlock) (out : Map ℕ ℕ)
    → SameKeys m out
    → SameKeys (Map.insert c b m) (Map.insert c n out)
unfolding Map.insert
SameKeys-insert c n b m out h = (refl, SameKeys-remove c m out h)

add_grown :
    (a : ℤ) (n size : ℕ) → a ≡ pos n → n + size < 2 ^ 63 → add64 a (to_i64 size) ≡ pos (n + size)
add_grown a n size e fits = rw (e, to_i64_small size (omega arith)) (add64_pos n size fits)

sub_shrunk :
    (a : ℤ) (n m len : ℕ) → a ≡ pos n → n < 2 ^ 63 → n ≡ len + m → sub64 a (to_i64 len) ≡ pos m
sub_shrunk a n m len e fits split =
    let left : n - len ≡ m = omega arith in
    rw (e, to_i64_small len (omega arith), sub64_pos n len (omega arith) fits, left)

appends-IsAccounted :
    (p : Protocol) (blocks : List Block) (size : ℕ)
    → p.staged + sum p.outstanding + size < 2 ^ 63
    → IsAccounted p
    → IsAccounted (record p { buffer = append p.buffer blocks size; staged = p.staged + size })
unfolding append
appends-IsAccounted p blocks size fits h =
    let swap : p.staged + size + sum p.outstanding ≡ p.staged + sum p.outstanding + size =
      omega arith in
    record {
      staging_eq = add_grown p.buffer.staging_size p.staged size h.staging_eq (omega arith);
      flight_eq = h.flight_eq;
      total_eq =
          rw swap
            (add_grown p.buffer.total_size (p.staged + sum p.outstanding) size h.total_eq fits);
      fits = omega arith;
      keys = h.keys;
      below = h.below;
      distinct = h.distinct;
    }

spills-IsAccounted :
    (p : Protocol)
    → p.buffer.flight_counter + 1 < 2 ^ 64
    → IsAccounted p
    → IsAccounted (record {
      buffer = (spill p.buffer).0;
      staged = 0;
      outstanding =
          Map.insert (spill p.buffer).1.flight_id (spill p.buffer).1.flight_len p.outstanding;
    })
unfolding spill
spills-IsAccounted p room h =
    let c = p.buffer.flight_counter in
    let len : to_u64 p.buffer.staging_size ≡ p.staged =
      rw h.staging_eq (to_u64_pos p.staged (let f = h.fits in omega arith)) in
    let grown : sum (Map.insert c (to_u64 p.buffer.staging_size) p.outstanding)
        ≡ p.staged + sum p.outstanding =
      rw (sum-insert c (to_u64 p.buffer.staging_size) p.outstanding h.below, len) in
    let counter : (c + 1) % 2 ^ 64 ≡ c + 1 = omega arith in
    record {
      staging_eq = refl;
      flight_eq =
          rw (grown, h.flight_eq, h.staging_eq, add_comm p.staged (sum p.outstanding))
            (add64_pos (sum p.outstanding) p.staged (let f = h.fits in omega arith));
      total_eq = rw (grown, zero-add (p.staged + sum p.outstanding)) h.total_eq;
      fits = let f = h.fits in rw grown (omega arith);
      keys =
          SameKeys-insert c (to_u64 p.buffer.staging_size) p.buffer.staging p.buffer.flight
            p.outstanding h.keys;
      below = rw counter (KeysBelow-insert c (to_u64 p.buffer.staging_size) p.outstanding h.below);
      distinct = Map.Distinct-insert c (to_u64 p.buffer.staging_size) p.outstanding h.distinct;
    }

clears-IsAccounted :
    (p : Protocol) (flight_id flight_len : ℕ)
    → Map.get flight_id p.outstanding ≡ some flight_len
    → IsAccounted p
    → IsAccounted (record p {
      buffer = clear p.buffer flight_id flight_len;
      outstanding = Map.remove flight_id p.outstanding;
    })
unfolding clear
clears-IsAccounted p id len found h =
    let (batch, there) = get-SameKeys id p.buffer.flight p.outstanding len h.keys found in
    let split = sum-remove id len p.outstanding h.distinct found in
    rw (clear, there)
      (record {
        staging_eq = h.staging_eq;
        flight_eq =
            sub_shrunk p.buffer.flight_size (sum p.outstanding) (sum (Map.remove id p.outstanding))
              len h.flight_eq (let f = h.fits in omega arith) split;
        total_eq =
            sub_shrunk p.buffer.total_size (p.staged + sum p.outstanding)
              (p.staged + sum (Map.remove id p.outstanding)) len h.total_eq h.fits (omega arith);
        fits = let f = h.fits in omega arith;
        keys = SameKeys-remove id p.buffer.flight p.outstanding h.keys;
        below = KeysBelow-remove p.buffer.flight_counter id p.outstanding h.below;
        distinct = Map.Distinct-remove id p.outstanding h.distinct;
      })

begin-IsAccounted : IsAccounted begin
unfolding new
begin-IsAccounted = record {
  staging_eq = refl;
  flight_eq = refl;
  total_eq = refl;
  fits = omega arith;
  keys = tt;
  below = tt;
  distinct = tt;
}

-- After any history of appends, spills and clears of outstanding flights from the empty buffer, in
-- which the sizes stay below 2 ^ 63 and the counter of flights below 2 ^ 64: the staging size is
-- what was appended since the last spill, the flight size is the sum of the flights not cleared,
-- the total size is the two together, and the flights of the buffer are those not cleared.
pub Reach-IsAccounted : (p : Protocol) → Reach begin p → IsAccounted p
Reach-IsAccounted p here = begin-IsAccounted
Reach-IsAccounted _ (next {q} r (appends _ blocks size fits)) =
    appends-IsAccounted q blocks size fits (Reach-IsAccounted q r)
Reach-IsAccounted _ (next {q} r (spills _ room)) = spills-IsAccounted q room (Reach-IsAccounted q r)
Reach-IsAccounted _ (next {q} r (clears _ id len found)) =
    clears-IsAccounted q id len found (Reach-IsAccounted q r)
