-- ===== src/Buffer/Paging.antt =====
-- A client of src/store/mem/buffer.rs that reads page after page, each from the last block of the
-- page before, over a buffer that does not change meanwhile.
use r.Base.{
  Option-cases, subst₂, subst, ◌∙◌, beq_refl, sym, ℕ, zero, suc, ◌<◌, ◌≡◌, refl, Bool, true, Option,
  none, some, List, [], ◌∷◌, ◌++◌, ◌==◌, arith, ap, Bool-cases, inl, inr, length, length-append,
}
use r.Base.Int.{int_beq_iff, ℤ, pos, int_eq, leb_ℤ, ◌<ℤ◌}
use r.Base.Machine.{add64}
use r.Store.Blocks.{Block}
use r.Buffer.{BufferInternal, get, invalid_block_id, expected}
use r.Buffer.Read.{all_blocks, remaining, wanted, page, behind}
use r.Buffer.Answers.{answer, get_lem}
use mathlib.Core.Option

-- No id stands twice.
abbrev pub HasDistinctIds : List Block → Type 0
HasDistinctIds [] = Unit {0}
HasDistinctIds (b ∷ bs) = (behind b.block_id bs ≡ none) × HasDistinctIds bs

abbrev pub last_of : Block → List Block → Block
last_of y [] = y
last_of y (z ∷ zs) = last_of z zs

-- A block whose id does not come again is not the one that is looked for behind it.
behind_skip :
    (b : Block) (bs : List Block) (id : ℤ) (rest : List Block)
    → behind b.block_id bs ≡ none
    → behind id bs ≡ some rest
    → behind id (b ∷ bs) ≡ some rest
behind_skip b bs id rest fresh there = elim (Bool-cases (b.block_id == id)) [
  | inl same ↦ absurd (clash ((int_beq_iff b.block_id id).0 same))
  | inr other ↦ rw other there
]
  where
    clash : b.block_id ≡ id → ⊥
    clash e = cc (sym fresh ∙ ap (λ (i : ℤ). behind i bs) e ∙ there)

behind_self : (b : Block) (bs : List Block) → behind b.block_id (b ∷ bs) ≡ some bs
behind_self b bs = rw (beq_refl b.block_id)

some_inj : {xs ys : List Block} → some xs ≡ some ys → xs ≡ ys
some_inj e = cc

-- What stands behind a block of the rest stands behind it in the whole.
behind-behind :
    (bs : List Block) (last id : ℤ) (mid rest : List Block)
    → HasDistinctIds bs
    → behind last bs ≡ some mid
    → behind id mid ≡ some rest
    → behind id bs ≡ some rest
behind-behind [] last id mid rest d h k = cc
behind-behind (b ∷ bs) last id mid rest d h k = elim (Bool-cases (b.block_id == last)) [
  | inl hit ↦
      behind_skip b bs id rest d.0
        (subst (λ l. behind id l ≡ some rest) (sym (some_inj (rw hit at h))) k)
  | inr miss ↦ behind_skip b bs id rest d.0 (behind-behind bs last id mid rest d.1 (rw miss at h) k)
]

HasDistinctIds-behind :
    (bs : List Block) (last : ℤ) (mid : List Block)
    → HasDistinctIds bs
    → behind last bs ≡ some mid
    → HasDistinctIds mid
HasDistinctIds-behind [] last mid d h = cc
HasDistinctIds-behind (b ∷ bs) last mid d h = elim (Bool-cases (b.block_id == last)) [
  | inl hit ↦ subst HasDistinctIds (some_inj (rw hit at h)) d.1
  | inr miss ↦ HasDistinctIds-behind bs last mid d.1 (rw miss at h)
]

nil_clash : {y : Block} {ys : List Block} → [] ≡ y ∷ ys → ⊥
nil_clash e = cc

cons_head : {x y : Block} {xs ys : List Block} → x ∷ xs ≡ y ∷ ys → x ≡ y
cons_head e = cc

cons_tail : {x y : Block} {xs ys : List Block} → x ∷ xs ≡ y ∷ ys → xs ≡ ys
cons_tail e = cc

module _ (limit : ℤ) (task_ids : Option (ℕ → Bool)) where
  abbrev Resumes : List Block → Block → List Block → Type 0
  Resumes bs y ys =
      (rest : List Block) × (behind (last_of y ys).block_id bs ≡ some rest)
      × (wanted task_ids bs ≡ (y ∷ ys) ++ wanted task_ids rest)

  -- A page that begins with the block at the front.
  taken_first :
      (b : Block) (bs : List Block) (next : List Block)
      → behind b.block_id bs ≡ none
      → expected task_ids b ≡ true
      → ((z : Block) (zs : List Block) → next ≡ z ∷ zs → Resumes bs z zs)
      → Resumes (b ∷ bs) b next
  taken_first b bs [] fresh take ih = (bs, behind_self b bs, rw take)
  taken_first b bs (z ∷ zs) fresh take ih =
      let (rest, e, w) = ih z zs refl in
      (rest, behind_skip b bs (last_of z zs).block_id rest fresh e, rw take (ap (λ l. b ∷ l) w))

  -- The last block of a page tells where the next one starts.
  page_resume :
      (bs : List Block) (taken : ℤ) (y : Block) (ys : List Block)
      → HasDistinctIds bs
      → page limit taken (wanted task_ids bs) ≡ y ∷ ys
      → Resumes bs y ys
  page_resume [] taken y ys d h = cc
  page_resume (b ∷ bs) taken y ys d h = elim (Bool-cases (expected task_ids b)) [
    | inr skip ↦
        let (rest, e, w) = page_resume bs taken y ys d.1 (rw skip at h) in
        (rest, behind_skip b bs (last_of y ys).block_id rest d.0 e, rw skip w)
    | inl take ↦ elim (Bool-cases (leb_ℤ limit taken)) [
      | inl full ↦
          let h' : page limit taken (b ∷ wanted task_ids bs) ≡ y ∷ ys = rw take at h in
          absurd (nil_clash (rw full at h'))
      | inr room ↦
          let h' : page limit taken (b ∷ wanted task_ids bs) ≡ y ∷ ys = rw take at h in
          let h'' : b ∷ page limit (add64 taken b.length) (wanted task_ids bs) ≡ y ∷ ys =
            rw room at h' in
          subst₂ (Resumes (b ∷ bs)) (cons_head h'') (cons_tail h'') (
            taken_first b bs (page limit (add64 taken b.length) (wanted task_ids bs)) d.0 take
              (λ z zs e. page_resume bs (add64 taken b.length) z zs d.1 e))
    ]
  ]

  -- An empty page means that nothing is left.
  page_empty : (bs : List Block) → pos 0 <ℤ limit → page limit (pos 0) bs ≡ [] → bs ≡ []
  page_empty [] h e = refl
  page_empty (b ∷ bs) h e = ground arith

  -- The reader that goes on until a page is empty, on fuel.
  unfoldable pub client : ℕ → BufferInternal → ℤ → Option (List Block)
  client zero b last = none
  client (suc fuel) b last = elim (get b last limit task_ids) [
    | none ↦ none
    | some r ↦ elim r.blocks [
      | [] ↦ some []
      | y ∷ ys ↦ Option.map (λ rest. (y ∷ ys) ++ rest) (client fuel b (last_of y ys).block_id)
    ]
  ]

  -- What is left after a page, seen from the whole buffer.
  HasDistinctIds-remaining :
      (bs : List Block) (last : ℤ) → HasDistinctIds bs → HasDistinctIds (remaining last bs)
  HasDistinctIds-remaining bs last d = elim (Bool-cases (last == invalid_block_id)) [
    | inl inv ↦ rw inv d
    | inr given ↦ elim (Option-cases (behind last bs)) [
      | inl absent ↦ rw (given, absent) d
      | inr (mid, there) ↦ rw (given, there) (HasDistinctIds-behind bs last mid d there)
    ]
  ]

  behind-remaining :
      (bs : List Block) (last id : ℤ) (rest : List Block)
      → HasDistinctIds bs
      → behind id (remaining last bs) ≡ some rest
      → behind id bs ≡ some rest
  behind-remaining bs last id rest d h = elim (Bool-cases (last == invalid_block_id)) [
    | inl inv ↦ rw inv at h
    | inr given ↦ elim (Option-cases (behind last bs)) [
      | inl absent ↦ rw (given, absent) at h
      | inr (mid, there) ↦ behind-behind bs last id mid rest d there (rw (given, there) at h)
    ]
  ]

  remaining_next :
      (bs : List Block) (id : ℤ) (rest : List Block)
      → behind invalid_block_id bs ≡ none
      → behind id bs ≡ some rest
      → remaining id bs ≡ rest
  remaining_next bs id rest free there = elim (Bool-cases (id == invalid_block_id)) [
    | inl inv ↦ absurd (clash ((int_beq_iff id invalid_block_id).0 inv))
    | inr given ↦ rw (given, there)
  ]
    where
      clash : id ≡ invalid_block_id → ⊥
      clash e = cc (sym free ∙ ap (λ (i : ℤ). behind i bs) (sym e) ∙ there)

  client_empty :
      (fuel : ℕ) (b : BufferInternal) (last : ℤ)
      → answer b last limit task_ids ≡ []
      → client (suc fuel) b last ≡ some []
  unfolding client
  client_empty fuel b last e = rw (get_lem b last limit task_ids, client) (rw (e, client))

  client_next :
      (fuel : ℕ) (b : BufferInternal) (last : ℤ) (y : Block) (ys : List Block)
      → answer b last limit task_ids ≡ y ∷ ys
      → client (suc fuel) b last
        ≡ Option.map (λ rest. (y ∷ ys) ++ rest) (client fuel b (last_of y ys).block_id)
  unfolding client
  client_next fuel b last y ys e = rw (get_lem b last limit task_ids, client) (rw (e, client))

module _ (limit : ℤ) (task_ids : Option (ℕ → Bool)) (b : BufferInternal) (positive : pos 0 <ℤ limit)
    (d : HasDistinctIds (all_blocks b)) (free : behind invalid_block_id (all_blocks b) ≡ none) where
  abbrev left : ℤ → List Block
  left last = wanted task_ids (remaining last (all_blocks b))

  client_step :
      (fuel : ℕ) (last : ℤ) (a : List Block)
      → answer b last limit task_ids ≡ a
      → ((next : ℤ)
          → length (left next) < fuel
          → client limit task_ids fuel b next ≡ some (left next))
      → length (left last) < suc fuel
      → client limit task_ids (suc fuel) b last ≡ some (left last)
  client_step fuel last [] e ih h =
      client_empty limit task_ids fuel b last e
      ∙ ap some (sym (page_empty limit task_ids (left last) positive e))
  client_step fuel last (y ∷ ys) e ih h =
      let (rest, there, split) =
        page_resume limit task_ids (remaining last (all_blocks b)) (pos 0) y ys
          (HasDistinctIds-remaining limit task_ids (all_blocks b) last d) e in
      let id = (last_of y ys).block_id in
      let next : remaining id (all_blocks b) ≡ rest =
        remaining_next limit task_ids (all_blocks b) id rest free
          (behind-remaining limit task_ids (all_blocks b) last id rest d there) in
      let split' : left last ≡ (y ∷ ys) ++ left id =
        split ∙ ap (λ l. (y ∷ ys) ++ wanted task_ids l) (sym next) in
      client_next limit task_ids fuel b last y ys e
      ∙ ap (Option.map (λ rest. (y ∷ ys) ++ rest))
          (ih id (omega (arith, ap (length {A = Block}) split', length-append (y ∷ ys) (left id))))
      ∙ ap some (sym split')

  -- A client that reads page after page gets every wanted block that follows its start, once and in
  -- order, if the limit is positive, the ids in the buffer are distinct and none is the reserved
  -- one, and its fuel is more than the number of those blocks: each page but the last has one.
  pub client_lem :
      (fuel : ℕ) (last : ℤ)
      → length (left last) < fuel
      → client limit task_ids fuel b last ≡ some (left last)
  client_lem zero last h = absurd (omega arith)
  client_lem (suc fuel) last h =
      client_step fuel last (answer b last limit task_ids) refl (λ next k. client_lem fuel next k) h
