-- ===== src/Semantics/Walks/Worklist.antt =====
-- The loop over a stack of faces in cad2ml/semantics/recognizer.py: it ends, and it visits each face that it sees once.
use cad2ml.Prelude.{
  ℕ, zero, suc, ◌+◌, ◌≤◌, ◌≡◌, refl, sym, inl, inr, Bool, true, false, not, List, [], ◌∷◌, ◌++◌,
  Option, some, String, str_eq, eq_iff, arith, contains, length, count_where, Bool-cases,
  Option-cases,
}
use cad2ml.Prelude.Options.{answer-cases, some_injective}
use cad2ml.Semantics.Walks.{Walked, done, out_of_fuel, offer, walk}

abbrev pub is_out {ℓ} : {A : Type ℓ} → Walked A → Bool
is_out out_of_fuel = true
is_out _ = false

-- How often a text stands in a list, and how many of a list are not yet seen.
abbrev pub occurs : String → List String → ℕ
occurs k xs = count_where (λ x. str_eq x k) xs

abbrev pub unseen : List String → List String → ℕ
unseen universe seen = count_where (λ x. not (contains seen x)) universe

pub unseen-all : (universe seen : List String) → unseen universe seen ≤ length universe
unseen-all [] seen = omega arith
unseen-all (x ∷ xs) seen = ground (arith, unseen-all xs seen)

unseen_step :
    (universe : List String) (n : String) (seen : List String)
    → unseen universe (n ∷ seen) ≤ unseen universe seen
unseen_step [] n seen = omega arith
unseen_step (x ∷ xs) n seen = ground (arith, unseen_step xs n seen)

unseen_new :
    (universe : List String) (n : String) (seen : List String)
    → contains universe n ≡ true
    → contains seen n ≡ false
    → suc (unseen universe (n ∷ seen)) ≤ unseen universe seen
unseen_new [] n seen h new = ground arith
unseen_new (x ∷ xs) n seen h new =
    ground (arith, eq_iff x n, eq_iff n x, unseen_new xs n seen, unseen_step xs n seen)

pub occurs-append :
    (k : String) (xs ys : List String) → occurs k (xs ++ ys) ≡ occurs k xs + occurs k ys
occurs-append k [] ys = omega arith
occurs-append k (x ∷ xs) ys = omega (arith, occurs-append k xs ys)

pub occurs-absent : (k : String) (xs : List String) → contains xs k ≡ false → occurs k xs ≡ 0
occurs-absent k [] h = refl
occurs-absent k (x ∷ xs) h = ground (arith, occurs-absent k xs)

pub occurs-new :
    (k n : String) (seen : List String)
    → contains seen n ≡ false
    → occurs k seen ≤ 1
    → occurs k (n ∷ seen) ≤ 1
occurs-new k n seen new h = elim (Bool-cases (str_eq n k)) [
  | inl e ↦ rw (e, occurs-absent k seen (rw (sym ((eq_iff n k).0 e)) new)) (omega arith)
  | inr e ↦ rw e (omega (arith, h))
]

module _ (neighbours : String → Option (List String)) (test : String → String → Option Bool) where
  module _ (universe : List String)
      (inside : (c n : String) → test c n ≡ some true → contains universe n ≡ true) where
    offer-unseen :
        (c : String) (ns seen stack : List String) (r : List String × List String)
        → offer neighbours test c ns seen stack ≡ some r
        → unseen universe r.0 + length r.1 ≤ unseen universe seen + length stack
    unfolding offer
    offer-unseen c [] seen stack r h = rw (sym (some_injective (seen, stack) r h)) (omega arith)
    offer-unseen c (n ∷ ns) seen stack r h = elim (answer-cases (test c n)) [
      | inl e ↦ ground (arith, offer-unseen c ns seen stack r)
      | inr (inl e) ↦ ground (
        arith,
        inside c n e,
        unseen_new universe n seen,
        offer-unseen c ns seen stack r,
        offer-unseen c ns (n ∷ seen) (n ∷ stack) r,
      )
      | inr (inr e) ↦ ground (arith, offer-unseen c ns seen stack r)
    ]

    pub walk_ends :
        (fuel : ℕ) (seen stack visited : List String)
        → unseen universe seen + length stack ≤ fuel
        → is_out (walk neighbours test fuel seen stack visited) ≡ false
    unfolding walk
    walk_ends fuel seen [] visited h = refl
    walk_ends zero seen (c ∷ stack) visited h = ground arith
    walk_ends (suc fuel) seen (c ∷ stack) visited h = elim (Option-cases (neighbours c)) [
      | inl e ↦ rw (walk, e) refl
      | inr (ns, e) ↦ elim (Option-cases (offer neighbours test c ns seen stack)) [
        | inl e' ↦ rw (walk, e, e') refl
        | inr (r, e') ↦
            rw (walk, e, e')
              (walk_ends fuel r.0 r.1 (visited ++ c ∷ [])
                (omega (arith, h, offer-unseen c ns seen stack r e')))
      ]
    ]

  -- What the walk adds to the visited is what it adds to the seen, less what waits on the stack.
  offer-occurs :
      (k c : String) (ns seen stack : List String) (r : List String × List String)
      → offer neighbours test c ns seen stack ≡ some r
      → occurs k r.0 + occurs k stack ≡ occurs k seen + occurs k r.1
  unfolding offer
  offer-occurs k c [] seen stack r h = rw (sym (some_injective (seen, stack) r h)) (omega arith)
  offer-occurs k c (n ∷ ns) seen stack r h = elim (answer-cases (test c n)) [
    | inl e ↦ ground (arith, offer-occurs k c ns seen stack r)
    | inr (inl e) ↦
        ground
          (arith, offer-occurs k c ns seen stack r, offer-occurs k c ns (n ∷ seen) (n ∷ stack) r)
    | inr (inr e) ↦ ground (arith, offer-occurs k c ns seen stack r)
  ]

  offer-once :
      (k c : String) (ns seen stack : List String) (r : List String × List String)
      → offer neighbours test c ns seen stack ≡ some r
      → occurs k seen ≤ 1
      → occurs k r.0 ≤ 1
  unfolding offer
  offer-once k c [] seen stack r h once = rw (sym (some_injective (seen, stack) r h)) once
  offer-once k c (n ∷ ns) seen stack r h once = elim (answer-cases (test c n)) [
    | inl e ↦ ground (arith, offer-once k c ns seen stack r)
    | inr (inl e) ↦ ground (
      arith,
      occurs-new k n seen,
      offer-once k c ns seen stack r,
      offer-once k c ns (n ∷ seen) (n ∷ stack) r,
    )
    | inr (inr e) ↦ ground (arith, offer-once k c ns seen stack r)
  ]

  walk_inverts :
      (fuel : ℕ) (c : String) (seen stack visited : List String) (r : List String × List String)
      → walk neighbours test (suc fuel) seen (c ∷ stack) visited ≡ done r
      → (ns : List String) × ((mid : List String × List String) × ((offer neighbours test c ns seen
                stack
              ≡ some mid)
            × (walk neighbours test fuel mid.0 mid.1 (visited ++ c ∷ []) ≡ done r)))
  unfolding walk
  walk_inverts fuel c seen stack visited r h = elim (Option-cases (neighbours c)) [
    | inl e ↦ ground arith
    | inr (ns, e) ↦ elim (Option-cases (offer neighbours test c ns seen stack)) [
      | inl e' ↦ ground arith
      | inr (mid, e') ↦ (ns, (mid, (e', ground arith)))
    ]
  ]

  pub walk-occurs :
      (k : String) (fuel : ℕ) (seen stack visited : List String) (r : List String × List String)
      → walk neighbours test fuel seen stack visited ≡ done r
      → occurs k r.0 + (occurs k visited + occurs k stack) ≡ occurs k seen + occurs k r.1
  unfolding walk
  walk-occurs k fuel seen [] visited r h = ground (arith)
  walk-occurs k zero seen (c ∷ stack) visited r h = cc
  walk-occurs k (suc fuel) seen (c ∷ stack) visited r h =
      let (ns, (mid, (hm, h'))) = walk_inverts fuel c seen stack visited r h in
      omega (
        arith,
        walk-occurs k fuel mid.0 mid.1 (visited ++ c ∷ []) r h',
        offer-occurs k c ns seen stack mid hm,
        occurs-append k visited (c ∷ []),
      )

  pub walk-once :
      (k : String) (fuel : ℕ) (seen stack visited : List String) (r : List String × List String)
      → walk neighbours test fuel seen stack visited ≡ done r
      → occurs k seen ≤ 1
      → occurs k r.0 ≤ 1
  unfolding walk
  walk-once k fuel seen [] visited r h once = ground (arith)
  walk-once k zero seen (c ∷ stack) visited r h once = cc
  walk-once k (suc fuel) seen (c ∷ stack) visited r h once =
      let (ns, (mid, (hm, h'))) = walk_inverts fuel c seen stack visited r h in
      walk-once k fuel mid.0 mid.1 (visited ++ c ∷ []) r h'
        (offer-once k c ns seen stack mid hm once)

  offer-grows :
      (k c : String) (ns seen stack : List String) (r : List String × List String)
      → offer neighbours test c ns seen stack ≡ some r
      → occurs k seen ≤ occurs k r.0
  unfolding offer
  offer-grows k c [] seen stack r h = rw (sym (some_injective (seen, stack) r h)) (omega arith)
  offer-grows k c (n ∷ ns) seen stack r h = elim (answer-cases (test c n)) [
    | inl e ↦ ground (arith, offer-grows k c ns seen stack r)
    | inr (inl e) ↦
        ground (arith, offer-grows k c ns seen stack r, offer-grows k c ns (n ∷ seen) (n ∷ stack) r)
    | inr (inr e) ↦ ground (arith, offer-grows k c ns seen stack r)
  ]

  pub walk-grows :
      (k : String) (fuel : ℕ) (seen stack visited : List String) (r : List String × List String)
      → walk neighbours test fuel seen stack visited ≡ done r
      → occurs k seen ≤ occurs k r.0
  unfolding walk
  walk-grows k fuel seen [] visited r h = ground (arith)
  walk-grows k zero seen (c ∷ stack) visited r h = cc
  walk-grows k (suc fuel) seen (c ∷ stack) visited r h =
      let (ns, (mid, (hm, h'))) = walk_inverts fuel c seen stack visited r h in
      omega (
        arith,
        walk-grows k fuel mid.0 mid.1 (visited ++ c ∷ []) r h',
        offer-grows k c ns seen stack mid hm,
      )
