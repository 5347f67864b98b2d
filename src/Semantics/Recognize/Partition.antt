-- ===== src/Semantics/Recognize/Partition.antt =====
-- How often the features of `recognize` in cad2ml/semantics/recognizer.py list a face.
use cad2ml.Prelude.{
  ℕ, zero, suc, ◌+◌, ◌≡◌, refl, sym, ap, inl, inr, Bool, true, false, ◌||◌, List, [], ◌∷◌, ◌++◌,
  Option, some, String, str_eq, eq_iff, if◌then◌else◌, arith, map, count_where, contains, any,
  Bool-cases,
}
use cad2ml.Prelude.Options.{bind-some, some_injective}
use cad2ml.Semantics.Records.{
  Floats, FaceRecord, EdgeRecord, RecognizerConfig, FeatureRecord, FeatureType, Observation,
  get_key, default,
}
use cad2ml.Semantics.Context.{Ctx, is_claimed, observe}
use cad2ml.Semantics.Recognize.{
  ClaimTable, claim_faces, run_rules, leftover, leftovers, insert_feature, sort_features,
  number_features, finish, recognize, rules, prefix_of,
}

abbrev bit : Bool → ℕ
bit b = if b then 1 else 0

bit-or : (a b : Bool) → (a ≡ true → b ≡ false) → bit (a || b) ≡ bit b + bit a
bit-or true b h = rw (h refl) refl
bit-or false b h = omega arith

module _ (F : Floats) (k : String) where
  -- The number of features that list the face `k`, and of faces with that id.
  abbrev pub times : List (FeatureRecord F) → ℕ
  times feats = count_where (λ (feat : FeatureRecord F). contains feat.participating_faces k) feats

  abbrev pub faces_named : List (FaceRecord F) → ℕ
  faces_named faces = count_where (λ (f : FaceRecord F). str_eq f.face_id k) faces

  times-append : (xs ys : List (FeatureRecord F)) → times (xs ++ ys) ≡ times xs + times ys
  times-append [] ys = omega arith
  times-append (x ∷ xs) ys = omega (arith, times-append xs ys)

  claimed-map :
      (t : FeatureType) (ks : List String) (c : ClaimTable)
      → is_claimed F (map (λ j. (j, t)) ks ++ c) k ≡ contains ks k || is_claimed F c k
  claimed-map t [] c = refl
  claimed-map t (j ∷ ks) c = ground (arith, claimed-map t ks c)

  free_of_any :
      (ks : List String) (c : ClaimTable)
      → any (is_claimed F c) ks ≡ false
      → contains ks k ≡ true
      → is_claimed F c k ≡ false
  free_of_any [] c h q = ground arith
  free_of_any (j ∷ ks) c h q = ground (arith, eq_iff j k, free_of_any ks c)

  times-claim :
      (feats : List (FeatureRecord F)) (c : ClaimTable)
      → bit (is_claimed F (claim_faces F feats c).0 k)
        ≡ bit (is_claimed F c k) + times (claim_faces F feats c).1
  unfolding claim_faces
  times-claim [] c = omega arith
  times-claim (feat ∷ feats) c = elim (Bool-cases (any (is_claimed F c) feat.participating_faces)) [
    | inl e ↦ rw e (times-claim feats c)
    | inr e ↦ rw e (
        omega (
          arith,
          times-claim feats (map (λ j. (j, feat.feature_type)) feat.participating_faces ++ c),
          ap bit (claimed-map feat.feature_type feat.participating_faces c),
          bit-or (contains feat.participating_faces k) (is_claimed F c k)
              (free_of_any feat.participating_faces c e),
        ))
  ]

  contains-leftover :
      (f : FaceRecord F) → contains (leftover F f).participating_faces k ≡ str_eq f.face_id k
  unfolding leftover
  contains-leftover f = ground arith

  times-leftovers_claimed :
      (c : ClaimTable) (faces : List (FaceRecord F))
      → is_claimed F c k ≡ true
      → times (leftovers F c faces) ≡ 0
  unfolding leftovers
  times-leftovers_claimed c [] h = refl
  times-leftovers_claimed c (f ∷ fs) h = elim (Bool-cases (is_claimed F c f.face_id)) [
    | inl e ↦ rw e (times-leftovers_claimed c fs h)
    | inr e ↦
        rw (e, contains-leftover f)
          (ground (arith, eq_iff f.face_id k, times-leftovers_claimed c fs h))
  ]

  times-leftovers_free :
      (c : ClaimTable) (faces : List (FaceRecord F))
      → is_claimed F c k ≡ false
      → times (leftovers F c faces) ≡ faces_named faces
  unfolding leftovers
  times-leftovers_free c [] h = refl
  times-leftovers_free c (f ∷ fs) h = elim (Bool-cases (is_claimed F c f.face_id)) [
    | inl e ↦ rw e (ground (arith, eq_iff f.face_id k, times-leftovers_free c fs h))
    | inr e ↦ rw (e, contains-leftover f) (omega (arith, times-leftovers_free c fs h))
  ]

  times-insert :
      (x : FeatureRecord F) (xs : List (FeatureRecord F))
      → times (insert_feature F x xs) ≡ times (x ∷ xs)
  unfolding insert_feature
  times-insert x [] = refl
  times-insert x (y ∷ ys) = ground (arith, times-insert x ys)

  times-sort : (xs : List (FeatureRecord F)) → times (sort_features F xs) ≡ times xs
  unfolding sort_features
  times-sort [] = refl
  times-sort (x ∷ xs) = omega (arith, times-insert x (sort_features F xs), times-sort xs)

  times-number :
      (padded : ℕ → String) (counters : List (String × ℕ)) (xs : List (FeatureRecord F))
      → times (number_features F padded counters xs) ≡ times xs
  unfolding number_features
  times-number padded counters [] = refl
  times-number padded counters (x ∷ xs) = omega (
    arith,
    times-number padded
        ((
          prefix_of x.feature_type,
          suc (default zero (get_key (prefix_of x.feature_type) counters)),
        )
          ∷ counters)
        xs,
  )

  -- The claims say which faces the features of the rules list.
  times-rules :
      (rs : List (Ctx F → Option (List (FeatureRecord F)))) (ctx : Ctx F)
      (r : ClaimTable × List (FeatureRecord F))
      → run_rules F rs ctx ≡ some r
      → bit (is_claimed F r.0 k) ≡ bit (is_claimed F ctx.claimed k) + times r.1
  unfolding run_rules
  times-rules [] ctx r h = rw (sym (some_injective (ctx.claimed, []) r h)) (omega arith)
  times-rules (rule ∷ rs) ctx r h =
      let (found, (_, h')) = bind-some (rule ctx) _ r h in
      let taken : ClaimTable × List (FeatureRecord F) = claim_faces F found ctx.claimed in
      let ctx' : Ctx F = record {
        faces = ctx.faces;
        edges = ctx.edges;
        cfg = ctx.cfg;
        claimed = taken.0;
      } in
      let (rest, (hr, e)) = bind-some (run_rules F rs ctx') _ r h' in
      rw (sym (some_injective (rest.0, taken.1 ++ rest.1) r e)) (
        omega (
          arith,
          times-claim found ctx.claimed,
          times-rules rs ctx' rest hr,
          times-append taken.1 rest.1,
        ))

  times-finish :
      (padded : ℕ → String) (faces : List (FaceRecord F)) (r : ClaimTable × List (FeatureRecord F))
      → bit (is_claimed F r.0 k) ≡ times r.1
      → faces_named faces ≡ 1
      → times (finish F padded faces r) ≡ 1
  unfolding finish
  times-finish padded faces (c, feats) h once =
      let left : List (FeatureRecord F) = leftovers F c faces in
      elim (Bool-cases (is_claimed F c k)) [
        | inl e ↦ omega (
          arith,
          times-number padded [] (sort_features F (feats ++ left)),
          times-sort (feats ++ left),
          times-append feats left,
          times-leftovers_claimed c faces e,
          h,
          ap bit e,
        )
        | inr e ↦ omega (
          arith,
          times-number padded [] (sort_features F (feats ++ left)),
          times-sort (feats ++ left),
          times-append feats left,
          times-leftovers_free c faces e,
          h,
          ap bit e,
        )
      ]

  -- When `recognize` returns and a face's id occurs once in the input, exactly one of its features lists
  -- the face.
  pub recognize-partitions :
      (padded : ℕ → String) (faces : List (FaceRecord F)) (edges : List (EdgeRecord F))
      (cfg : RecognizerConfig F) (r : List (Observation F) × List (FeatureRecord F))
      → recognize F padded faces edges cfg ≡ some r
      → faces_named faces ≡ 1
      → times r.1 ≡ 1
  unfolding recognize
  recognize-partitions padded faces edges cfg r h once =
      let start : Ctx F = record { faces = faces; edges = edges; cfg = cfg; claimed = [] } in
      let (found, (hf, h')) = bind-some (run_rules F (rules F) start) _ r h in
      let (obs, (_, e)) = bind-some (observe F faces) _ r h' in
      rw (sym (some_injective (obs, finish F padded faces found) r e))
        (times-finish padded faces found (omega (arith, times-rules (rules F) start found hf)) once)
