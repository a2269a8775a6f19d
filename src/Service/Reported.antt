-- ===== src/Service/Reported.antt =====
-- What src/grpc/service.rs answers of the block ids that were reported to it.
use r.Base.{
  ap₂, ℕ, Bool, false, ◌||◌, ◌&&◌, none, some, List, [], ◌∷◌, Bytes, ◌==◌, nat_eq, bytes_eq,
  beq_refl, ◌≡◌, refl, subst, ap, ◌∙◌, arith, if◌then◌else◌, map, Bool-cases, inl, inr,
}
use r.Base.Int.{ℤ, int_eq, int_beq_iff}
use r.Base.Machine.{to_u64}
use r.Base.Map
use r.Error.{ok}
use r.Memory.{PartitionedUId}
use r.App
use r.App.{App, meta_key, pair_eq, get_partition_meta}
use r.Sending.{success}
use r.Service.{uid_of}
use r.Service.Reporting.{
  Treemap, Reported, add_ids, add_all, blocks_bitmap, bitmaps_of, report_block_ids,
  report_partitions, report_shuffle_result, collect_partitions, get_block_ids_bitmap,
  get_shuffle_result_for_multi_part,
}

abbrev pub has : ℕ → List ℕ → Bool
has y [] = false
has y (x ∷ xs) = (x == y) || has y xs

-- What the bitmaps of the croaring crate do: they hold the numbers that were added.
pub record IsTreemap (T : Treemap) : Type 0 where
  pub iter-default : T.iter T.default ≡ []
  pub iter-add :
      (b : T.State) (x y : ℕ) → has y (T.iter (T.add b x)) ≡ ((x == y) || has y (T.iter b))

-- An id is reported of a partition.
abbrev pub reported : ℤ → ℕ → List (ℤ × List ℤ) → Bool
reported partition_id y [] = false
reported partition_id y ((p, ids) ∷ rest) =
    ((p == partition_id) && has y (map to_u64 ids)) || reported partition_id y rest

module _ (T : Treemap) (laws : IsTreemap T) where
  abbrev holds : T.State → ℕ → Bool
  holds b y = has y (T.iter b)

  holds-add_ids :
      (b : T.State) (ids : List ℤ) (y : ℕ)
      → holds (add_ids T b ids) y ≡ (has y (map to_u64 ids) || holds b y)
  unfolding add_ids
  holds-add_ids b [] y = refl
  holds-add_ids b (id ∷ ids) y =
      holds-add_ids (T.add b (to_u64 id)) ids y ∙ ground (arith, laws.iter-add b (to_u64 id) y)

  holds-add_all :
      (b : T.State) (ids : List ℕ) (y : ℕ) → holds (add_all T b ids) y ≡ (has y ids || holds b y)
  unfolding add_all
  holds-add_all b [] y = refl
  holds-add_all b (id ∷ ids) y =
      holds-add_all (T.add b id) ids y ∙ ground (arith, laws.iter-add b id y)

  -- The bitmap at a key.
  abbrev bitmap : Map.Map (ℤ × ℤ) T.State → ℤ × ℤ → T.State
  bitmap m key = elim (Map.get key m) [ none ↦ T.default | some b ↦ b ]

  bitmap-insert :
      (shuffle_id p q : ℤ) (b : T.State) (m : Map.Map (ℤ × ℤ) T.State)
      → bitmap (Map.insert (shuffle_id, p) b m) (shuffle_id, q)
        ≡ (if p == q then b else bitmap m (shuffle_id, q))
  bitmap-insert shuffle_id p q b m =
      ground (arith, Map.get-insert (shuffle_id, p) (shuffle_id, q) b m, beq_refl shuffle_id)

  bitmaps_of-report_block_ids :
      (now : ℕ) (s : Reported T) (app : App) (uid : PartitionedUId) (ids : List ℤ)
      → bitmaps_of T (report_block_ids T now s app uid ids) uid.app_id
        ≡ Map.insert
            (meta_key uid)
            (add_ids T (blocks_bitmap T s uid) ids)
            (bitmaps_of T s uid.app_id)
  unfolding report_block_ids
  bitmaps_of-report_block_ids now s app uid ids = ground (
    arith,
    Map.get-insert uid.app_id uid.app_id
        (Map.insert (meta_key uid) (add_ids T (blocks_bitmap T s uid) ids)
          (bitmaps_of T s uid.app_id))
        s.bitmaps,
    beq_refl uid.app_id,
  )

  -- A round adds the ids to the bitmap of its partition.
  holds-report_block_ids :
      (now : ℕ) (s : Reported T) (app : App) (app_id : Bytes) (shuffle_id p q : ℤ) (ids : List ℤ)
      (y : ℕ)
      → holds
          (blocks_bitmap T
            (report_block_ids T now s app (uid_of app_id shuffle_id p) ids)
            (uid_of app_id shuffle_id q))
          y
        ≡ (((p == q) && has y (map to_u64 ids))
            || holds (blocks_bitmap T s (uid_of app_id shuffle_id q)) y)
  holds-report_block_ids now s app app_id shuffle_id p q ids y =
      let uid = uid_of app_id shuffle_id p in
      let new = add_ids T (blocks_bitmap T s uid) ids in
      ap (λ m. holds (bitmap m (shuffle_id, q)) y) (bitmaps_of-report_block_ids now s app uid ids)
      ∙ (ap (λ b. holds b y) (bitmap-insert shuffle_id p q new (bitmaps_of T s app_id))
          ∙ elim (Bool-cases (p == q)) [
            | inl hit ↦ rw hit (
                subst
                  (λ r. holds new y ≡ (
                    has y (map to_u64 ids)
                    || holds (blocks_bitmap T s (uid_of app_id shuffle_id r)) y))
                  ((int_beq_iff p q).0 hit) (holds-add_ids (blocks_bitmap T s uid) ids y))
            | inr miss ↦ rw miss refl
          ])

  -- The application is still there after a round.
  get_app-report_block_ids :
      (now : ℕ) (s : Reported T) (app : App) (app_id : Bytes) (shuffle_id p : ℤ) (ids : List ℤ)
      → App.get_app
          (report_block_ids T now s app (uid_of app_id shuffle_id p) ids).app_manager_ref
          app_id
        ≡ some (get_partition_meta (App.heartbeat app now) (uid_of app_id shuffle_id p)).0
  unfolding report_block_ids App.get_app
  get_app-report_block_ids now s app app_id shuffle_id p ids =
      Map.get-insert app_id app_id _ s.app_manager_ref.apps ∙ rw (beq_refl app_id) refl

  -- The ids of a partition after the loop over the reported ones.
  holds-report_partitions :
      (now : ℕ) (s : Reported T) (app : App) (app_id : Bytes) (shuffle_id : ℤ)
      (reports : List (ℤ × List ℤ)) (q : ℤ) (y : ℕ)
      → App.get_app s.app_manager_ref app_id ≡ some app
      → holds
          (blocks_bitmap T
            (report_partitions T now s app_id shuffle_id reports).0
            (uid_of app_id shuffle_id q))
          y
        ≡ (reported q y reports || holds (blocks_bitmap T s (uid_of app_id shuffle_id q)) y)
  unfolding report_partitions
  holds-report_partitions now s app app_id shuffle_id [] q y there = refl
  holds-report_partitions now s app app_id shuffle_id ((p, ids) ∷ reports) q y there =
      let uid = uid_of app_id shuffle_id p in
      let s' = report_block_ids T now s app uid ids in
      let next =
        holds-report_partitions now s' _ app_id shuffle_id reports q y
          (get_app-report_block_ids now s app app_id shuffle_id p ids) in
      rw (report_partitions, there)
        (next ∙ ground (arith, holds-report_block_ids now s app app_id shuffle_id p q ids y))

  or-false : (a : Bool) → (a || false) ≡ a
  or-false a = ground arith

  -- Some partition has the id by a test.
  abbrev pub any : (ℤ → Bool) → List ℤ → Bool
  any f [] = false
  any f (q ∷ qs) = f q || any f qs

  any-cong : (f g : ℤ → Bool) → ((q : ℤ) → f q ≡ g q) → (qs : List ℤ) → any f qs ≡ any g qs
  any-cong f g e [] = refl
  any-cong f g e (q ∷ qs) = ap₂ (λ a b. a || b) (e q) (any-cong f g e qs)

  -- The ids that the loop over the requested partitions collects.
  holds-collect_partitions :
      (s : Reported T) (app : App) (app_id : Bytes) (shuffle_id : ℤ) (partitions : List ℤ)
      (b : T.State) (y : ℕ)
      → holds (collect_partitions T s app app_id shuffle_id partitions b).1 y ≡ (
          any (λ q. holds (blocks_bitmap T s (uid_of app_id shuffle_id q)) y) partitions
          || holds b y)
  unfolding collect_partitions get_block_ids_bitmap
  holds-collect_partitions s app app_id shuffle_id [] b y = refl
  holds-collect_partitions s app app_id shuffle_id (q ∷ partitions) b y =
      let uid = uid_of app_id shuffle_id q in
      let (s', bitmap) = get_block_ids_bitmap T s app uid in
      let next =
        holds-collect_partitions s' (get_partition_meta app uid).0 app_id shuffle_id partitions
          (add_all T b (T.iter bitmap)) y in
      next ∙ ground (arith, holds-add_all b (T.iter (blocks_bitmap T s uid)) y)

  report_shuffle_result-there :
      (now : ℕ) (s : Reported T) (app : App) (app_id : Bytes) (shuffle_id : ℤ)
      (reports : List (ℤ × List ℤ))
      → App.get_app s.app_manager_ref app_id ≡ some app
      → (app' : App) × (App.get_app
            (report_partitions T now s app_id shuffle_id reports).0.app_manager_ref
            app_id
          ≡ some app')
  unfolding report_partitions
  report_shuffle_result-there now s app app_id shuffle_id [] there = (app, there)
  report_shuffle_result-there now s app app_id shuffle_id ((p, ids) ∷ reports) there =
      rw (report_partitions, there)
        (report_shuffle_result-there now
          (report_block_ids T now s app (uid_of app_id shuffle_id p) ids) _ app_id shuffle_id
          reports (get_app-report_block_ids now s app app_id shuffle_id p ids))

  -- Over bitmaps that hold the numbers that were added and can be serialized: after a report of a
  -- registered application, the answer for some partitions is the serialization of a bitmap that holds
  -- just the ids that were reported of one of them, now or before.
  pub get_shuffle_result_for_multi_part-report_shuffle_result :
      (now : ℕ) (s : Reported T) (app : App) (app_id : Bytes) (shuffle_id : ℤ)
      (reports : List (ℤ × List ℤ)) (partitions : List ℤ)
      → ((b : T.State) → (bytes : Bytes) × (T.serialize b ≡ ok bytes))
      → App.get_app s.app_manager_ref app_id ≡ some app
      → (b : T.State) × (bytes : Bytes) × (T.serialize b ≡ ok bytes)
        × ((get_shuffle_result_for_multi_part T
              (report_shuffle_result T now s app_id shuffle_id reports).0
              app_id
              shuffle_id
              partitions).1
            ≡ some (success, bytes))
        × ((y : ℕ)
            → has y (T.iter b)
              ≡ any
                  (λ q.
                    reported q y reports
                    || has y (T.iter (blocks_bitmap T s (uid_of app_id shuffle_id q))))
                  partitions)
  unfolding get_shuffle_result_for_multi_part report_shuffle_result
  get_shuffle_result_for_multi_part-report_shuffle_result now s app app_id shuffle_id reports
        partitions serializes there =
      let s' = (report_partitions T now s app_id shuffle_id reports).0 in
      let (app', there') = report_shuffle_result-there now s app app_id shuffle_id reports there in
      let b = (collect_partitions T s' app' app_id shuffle_id partitions T.default).1 in
      let (bytes, done) = serializes b in
      (
        b,
        bytes,
        done,
        rw (report_shuffle_result, there)
            (rw (get_shuffle_result_for_multi_part, there')
              (rw (get_shuffle_result_for_multi_part, done) refl)),
        λ y.
            holds-collect_partitions s' app' app_id shuffle_id partitions T.default y
            ∙ (ap
                  (λ l.
                    any (λ q. holds (blocks_bitmap T s' (uid_of app_id shuffle_id q)) y) partitions
                    || has y l)
                  laws.iter-default
                ∙ (or-false _
                    ∙ any-cong _ _
                        (λ q. holds-report_partitions now s app app_id shuffle_id reports q y there)
                        partitions)),
      )
