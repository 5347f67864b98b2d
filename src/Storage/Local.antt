-- ===== src/Storage/Local.antt =====
-- A store that is an association list from keys to bytes, newest first: what the model asks of the
-- stores of cad2ml/storage/base.py can be met. A key exists here when it holds a file.
use cad2ml.Prelude.{
  ◌≡◌, refl, Bool, true, false, ◌||◌, List, [], ◌∷◌, Option, none, some, arith, if◌then◌else◌,
  Bool-cases, inl, inr,
}
use cad2ml.Storage.{ArtifactStore}
use cad2ml.Storage.Paths.{
  Path_, same_path, is_under, rebase, same_path→eq, same_path_refl, rebase_apart, is_under-rebase,
  rebase-rebase, is_under_refl, is_under_trans,
}

abbrev pub Files : Type 0 → Type 0
Files A = List (Path_ × A)

module _ {B : Type 0} where
  abbrev pub lookup : Files B → Path_ → Option B
  lookup [] j = none
  lookup ((k, b) ∷ fs) j = if same_path k j then some b else lookup fs j

  -- Without the files under `p`.
  abbrev pub without : Path_ → Files B → Files B
  without p [] = []
  without p ((k, b) ∷ fs) = if is_under p k then without p fs else (k, b) ∷ without p fs

  abbrev pub holds : Files B → Path_ → Bool
  holds [] p = false
  holds ((k, b) ∷ fs) p = is_under p k || holds fs p

  -- The files under `src`, renamed to lie under `dst`.
  abbrev pub renamed : Path_ → Path_ → Files B → Files B
  renamed src dst [] = []
  renamed src dst ((k, b) ∷ fs) =
      if is_under src k
      then (rebase src dst k, b) ∷ renamed src dst fs
      else (k, b) ∷ renamed src dst fs

  abbrev pub promote : Path_ → Path_ → Files B → Option (Files B)
  promote src dst fs =
      if holds fs dst
      then some (without src fs)
      else if holds fs src
      then some (renamed src dst fs)
      else none

  pub lookup-without :
      (p j : Path_) (fs : Files B)
      → lookup (without p fs) j ≡ (if is_under p j then none else lookup fs j)
  lookup-without p j [] = ground arith
  lookup-without p j ((k, b) ∷ fs) = elim (Bool-cases (same_path k j)) [
    | inl q ↦ ground (arith, lookup-without p j fs, same_path→eq k j q)
    | inr q ↦ ground (arith, lookup-without p j fs)
  ]

  pub holds-without : (p : Path_) (fs : Files B) → holds (without p fs) p ≡ false
  holds-without p [] = refl
  holds-without p ((k, b) ∷ fs) = ground (arith, holds-without p fs)

  pub holds_file : (j : Path_) (fs : Files B) (b : B) → lookup fs j ≡ some b → holds fs j ≡ true
  holds_file j [] b q = cc
  holds_file j ((k, c) ∷ fs) b q = elim (Bool-cases (same_path k j)) [
    | inl e ↦ ground (arith, same_path→eq k j e, is_under_refl j)
    | inr e ↦ ground (arith, holds_file j fs b)
  ]

  pub holds_under :
      (p j : Path_) (fs : Files B) → is_under p j ≡ true → holds fs j ≡ true → holds fs p ≡ true
  holds_under p j [] h q = cc
  holds_under p j ((k, c) ∷ fs) h q = elim (Bool-cases (is_under j k)) [
    | inl e ↦ rw (is_under_trans p j k h e) refl
    | inr e ↦ ground (arith, holds_under p j fs h)
  ]

  lookup-renamed_in :
      (src dst k j : Path_) (b : B) (fs : Files B)
      → is_under src k ≡ true
      → lookup (renamed src dst fs) j ≡ (
          if is_under dst j
          then lookup fs (rebase dst src j)
          else if is_under src j
          then none
          else lookup fs j)
      → lookup (renamed src dst ((k, b) ∷ fs)) j ≡ (
          if is_under dst j
          then lookup ((k, b) ∷ fs) (rebase dst src j)
          else if is_under src j
          then none
          else lookup ((k, b) ∷ fs) j)
  lookup-renamed_in src dst k j b fs h ih = elim (Bool-cases (same_path (rebase src dst k) j)) [
    | inl q ↦
        let e : rebase src dst k ≡ j = same_path→eq (rebase src dst k) j q in
        rw (h, q, ← e, is_under-rebase src dst k h, rebase-rebase src dst k h, same_path_refl k)
          refl
    | inr q ↦ elim (Bool-cases (is_under dst j)) [
      | inl d ↦ elim (Bool-cases (same_path k (rebase dst src j))) [
        | inl e ↦
            cc (same_path→eq k (rebase dst src j) e, rebase-rebase dst src j d, same_path_refl j)
        | inr e ↦ ground arith
      ]
      | inr d ↦ elim (Bool-cases (same_path k j)) [
        | inl e ↦ ground (arith, same_path→eq k j e)
        | inr e ↦ ground arith
      ]
    ]
  ]

  lookup-renamed_out :
      (src dst k j : Path_) (b : B) (fs : Files B)
      → is_under src k ≡ false
      → is_under dst k ≡ false
      → lookup (renamed src dst fs) j ≡ (
          if is_under dst j
          then lookup fs (rebase dst src j)
          else if is_under src j
          then none
          else lookup fs j)
      → lookup (renamed src dst ((k, b) ∷ fs)) j ≡ (
          if is_under dst j
          then lookup ((k, b) ∷ fs) (rebase dst src j)
          else if is_under src j
          then none
          else lookup ((k, b) ∷ fs) j)
  lookup-renamed_out src dst k j b fs h g ih = elim (Bool-cases (same_path k j)) [
    | inl e ↦ ground (arith, same_path→eq k j e)
    | inr e ↦ elim (Bool-cases (is_under dst j)) [
      | inl d ↦ elim (Bool-cases (same_path k (rebase dst src j))) [
        | inl q ↦ cc (same_path→eq k (rebase dst src j) q, is_under-rebase dst src j d)
        | inr q ↦ ground arith
      ]
      | inr d ↦ ground arith
    ]
  ]

  pub lookup-renamed :
      (src dst j : Path_) (fs : Files B)
      → holds fs dst ≡ false
      → lookup (renamed src dst fs) j ≡ (
          if is_under dst j
          then lookup fs (rebase dst src j)
          else if is_under src j
          then none
          else lookup fs j)
  lookup-renamed src dst j [] h = ground arith
  lookup-renamed src dst j ((k, b) ∷ fs) h = elim (Bool-cases (is_under src k)) [
    | inl q ↦ lookup-renamed_in src dst k j b fs q (lookup-renamed src dst j fs (ground arith))
    | inr q ↦
        lookup-renamed_out src dst k j b fs q (ground arith)
          (lookup-renamed src dst j fs (ground arith))
  ]

  pub holds-renamed :
      (src dst : Path_) (fs : Files B)
      → is_under src dst ≡ false
      → is_under dst src ≡ false
      → holds (renamed src dst fs) src ≡ false
  holds-renamed src dst [] a b = refl
  holds-renamed src dst ((k, c) ∷ fs) a b = elim (Bool-cases (is_under src k)) [
    | inl q ↦ rw (q, rebase_apart src dst k q a b) (holds-renamed src dst fs a b)
    | inr q ↦ rw (q, q) (holds-renamed src dst fs a b)
  ]

abbrev pub local_store : (B : Type 0) → ArtifactStore B
local_store B = record {
  State = Files B;
  get_bytes = λ s j. lookup s j;
  exists = λ s p. holds s p;
  put_bytes = λ k b s. (k, b) ∷ s;
  delete_prefix = λ p s. without p s;
  promote_prefix = λ src dst s. promote src dst s;
  get-put = λ k j b s. refl;
  get-delete = λ p j s. lookup-without p j s;
  exists_file = λ j s b q. holds_file j s b q;
  exists_under = λ p j s h q. holds_under p j s h q;
  exists-put = λ k p b s h. rw h refl;
  exists-delete = λ p s. holds-without p s;
  promote_taken =
      λ src dst s h. (without src s, rw h refl, λ j u. rw (lookup-without src j s, u) refl);
  promote_moved = λ src dst s h g a b. (
    renamed src dst s,
    rw (h, g) refl,
    holds-renamed src dst s a b,
    λ j. lookup-renamed src dst j s h,
  );
}
