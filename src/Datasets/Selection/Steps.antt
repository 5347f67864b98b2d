-- ===== src/Datasets/Selection/Steps.antt =====
-- One manifest of the selection in cad2ml/datasets/builder.py: what taking it or leaving it does to the lists.
use cad2ml.Prelude.{
  ℕ, ◌+◌, ◌≡◌, refl, ap, inl, inr, Bool, false, List, [], ◌∷◌, ◌++◌, none, some, String, str_eq,
  eq_iff, arith, count_where, count_where-append, any-append, Bool-cases, ◌⊎◌, any, All,
}
use cad2ml.Semantics.Records.{Floats, get_key}
use cad2ml.Datasets.Clusters.{Signature}
use cad2ml.Datasets.Selection.Judging.{IsAcceptable}
use cad2ml.Datasets.Selection.{
  Entry, Versions, Truth, Included, Excluded, Selected, take_entry, set_key,
}

-- How often an id is a key, and how often a list of manifests has it.
abbrev pub times_key {ℓ} : {A : Type ℓ} → String → List (String × A) → ℕ
times_key {A} k xs = count_where (λ (p : String × A). str_eq p.0 k) xs

set_key-new {ℓ} :
    {A : Type ℓ} (k : String) (a : A) (xs : List (String × A))
    → any (λ (p : String × A). str_eq p.0 k) xs ≡ false
    → set_key k a xs ≡ xs ++ (k, a) ∷ []
set_key-new k a [] h = refl
set_key-new k a ((j, b) ∷ xs) h =
    let other : str_eq j k ≡ false = ground arith in
    let rest : any (λ p. str_eq p.0 k) xs ≡ false = ground arith in
    rw other (ap (◌∷◌ (j, b)) (set_key-new k a xs rest))

module _ (F : Floats) (now : Versions) (gts : List (String × Truth)) where
  -- How often a source is taken, and how often an id is among the manifests and among those left out.
  abbrev pub taken : String → List (String × Included F) → ℕ
  taken sha xs = count_where (λ (p : String × Included F). str_eq p.1.source_sha256 sha) xs

  abbrev pub times_left : String → List Excluded → ℕ
  times_left k xs = count_where (λ (x : Excluded). str_eq x.sample_id k) xs

  abbrev pub times_given : String → List (Entry F) → ℕ
  times_given k ms = count_where (λ (m : Entry F). str_eq m.sample_id k) ms

  abbrev pub has_entry : String → List (String × Included F) → Bool
  has_entry k xs = any (λ (p : String × Included F). str_eq p.0 k) xs

  -- The ids of the manifests, which are the names of their directories, differ.
  abbrev pub HasUniqueIds : List (Entry F) → Type 0
  HasUniqueIds [] = Unit
  HasUniqueIds (m ∷ ms) =
      All (λ (n : Entry F). str_eq m.sample_id n.sample_id ≡ false) ms × HasUniqueIds ms

  -- A manifest that can be taken has a geometry.
  abbrev pub IsSigned : Entry F → Type 0
  IsSigned m = IsAcceptable F now gts m → (sig : Signature F) × (m.signature ≡ some sig)

  -- An entry under its id, made of an acceptable manifest and of its ground truth.
  abbrev pub IsMadeOf : String × Included F → Entry F → Type 0
  IsMadeOf p m =
      IsAcceptable F now gts m
      × (p.0 ≡ m.sample_id)
      × (p.1.sample_id ≡ m.sample_id)
      × (p.1.source_sha256 ≡ m.sha256)
      × (p.1.filename ≡ m.filename)
      × (get_key m.sha256 gts ≡ some (record { family = p.1.family; group = p.1.group }))
      × (m.signature ≡ some p.1.signature)

  -- A digest is known just when its source is taken, and then it is taken once.
  abbrev pub IsKnown : String → Selected F now gts → Type 0
  IsKnown sha sel = (id : String) × (get_key sha sel.by_sha ≡ some id)

  abbrev pub IsSettled : Selected F now gts → Type 0
  IsSettled sel =
      (sha : String)
      → ((get_key sha sel.by_sha ≡ none) × (taken sha sel.included ≡ 0))
        ⊎ (IsKnown sha sel × (taken sha sel.included ≡ 1))

  -- The entry of a manifest, and the selection after it.
  abbrev pub entry_of : Entry F → Truth → Signature F → Included F
  entry_of m gt sig = record {
    sample_id = m.sample_id;
    source_sha256 = m.sha256;
    filename = m.filename;
    family = gt.family;
    group = gt.group;
    signature = sig;
  }

  abbrev pub after_take : Entry F → Truth → Signature F → Selected F now gts → Selected F now gts
  after_take m gt sig sel = record {
    included = sel.included ++ (m.sample_id, entry_of m gt sig) ∷ [];
    manifests = set_key m.sample_id m sel.manifests;
    excluded = sel.excluded;
    reasons = sel.reasons;
    by_sha = (m.sha256, m.sample_id) ∷ sel.by_sha;
  }

  pub take_entry-new :
      (m : Entry F) (gt : Truth) (sig : Signature F) (sel : Selected F now gts)
      → m.signature ≡ some sig
      → has_entry m.sample_id sel.included ≡ false
      → take_entry F now gts m gt sel ≡ some (after_take m gt sig sel)
  unfolding take_entry
  take_entry-new m gt sig sel e new =
      rw (e, set_key-new m.sample_id (entry_of m gt sig) sel.included new) refl

  pub IsSettled-take :
      (m : Entry F) (gt : Truth) (sig : Signature F) (sel : Selected F now gts)
      → get_key m.sha256 sel.by_sha ≡ none
      → IsSettled sel
      → IsSettled (after_take m gt sig sel)
  IsSettled-take m gt sig sel unknown settled sha =
      let grown : taken sha (sel.included ++ (m.sample_id, entry_of m gt sig) ∷ [])
          ≡ taken sha sel.included + taken sha ((m.sample_id, entry_of m gt sig) ∷ []) =
        count_where-append _ sel.included ((m.sample_id, entry_of m gt sig) ∷ []) in
      elim (Bool-cases (str_eq m.sha256 sha)) [
        | inl q ↦
            let here : get_key sha sel.by_sha ≡ none = rw (← (eq_iff m.sha256 sha).0 q) unknown in
            elim (settled sha) [
              | inl (e, n) ↦ inr ((m.sample_id, rw q refl), ground (arith, grown, n, q))
              | inr ((id, e), n) ↦ let no : ⊥ = cc in absurd no
            ]
        | inr q ↦ elim (settled sha) [
          | inl (e, n) ↦ inl (rw q e, ground (arith, grown, n, q))
          | inr ((id, e), n) ↦ inr ((id, rw q e), ground (arith, grown, n, q))
        ]
      ]

  pub IsKnown-take :
      (m : Entry F) (gt : Truth) (sig : Signature F) (sel : Selected F now gts) (sha : String)
      → IsKnown sha sel
      → IsKnown sha (after_take m gt sig sel)
  IsKnown-take m gt sig sel sha (id, e) = elim (Bool-cases (str_eq m.sha256 sha)) [
    | inl q ↦ (m.sample_id, rw q refl)
    | inr q ↦ (id, rw q e)
  ]

  pub fresh-take :
      (m : Entry F) (gt : Truth) (sig : Signature F) (xs : List (String × Included F))
      (ms : List (Entry F))
      → All (λ (n : Entry F). str_eq m.sample_id n.sample_id ≡ false) ms
      → All (λ (n : Entry F). has_entry n.sample_id xs ≡ false) ms
      → All
          (λ (n : Entry F).
            has_entry n.sample_id (xs ++ (m.sample_id, entry_of m gt sig) ∷ []) ≡ false)
          ms
  fresh-take m gt sig xs [] other new = tt
  fresh-take m gt sig xs (n ∷ ms) other new = (
    ground (
      arith,
      any-append (λ (p : String × Included F). str_eq p.0 n.sample_id) xs
          ((m.sample_id, entry_of m gt sig) ∷ []),
    ),
    fresh-take m gt sig xs ms other.1 new.1,
  )
