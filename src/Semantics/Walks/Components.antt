-- ===== src/Semantics/Walks/Components.antt =====
-- `_connected` of cad2ml/semantics/recognizer.py: it ends, and its components partition the ids.
use cad2ml.Prelude.{
  ℕ, suc, ◌+◌, ◌≤◌, ◌≡◌, refl, sym, ◌⊎◌, inl, inr, true, false, List, [], ◌∷◌, some, String, eq_iff,
  arith, contains, length, Bool-cases,
}
use cad2ml.Prelude.Options.{some_injective}
use cad2ml.Semantics.Records.{Floats}
use cad2ml.Semantics.Context.{Ctx}
use cad2ml.Semantics.Walks.{
  Walked, done, key_error, out_of_fuel, adjacent, component_of, connected_from, connected,
}
use cad2ml.Semantics.Walks.Worklist.{
  is_out, occurs, unseen-all, occurs-new, walk_ends, walk-occurs, walk-once, walk-grows,
}

abbrev walked-Cases {ℓ} : {A : Type ℓ} → Walked A → Type ℓ
walked-Cases {A = A} o = (is_out o ≡ true) ⊎ ((o ≡ key_error) ⊎ ((a : A) × (o ≡ done a)))

walked-cases {ℓ} : {A : Type ℓ} (o : Walked A) → walked-Cases o
walked-cases (done a) = inr (inr (a, refl))
walked-cases key_error = inr (inl refl)
walked-cases out_of_fuel = inl refl

done_injective {ℓ} : {A : Type ℓ} (a b : A) → done a ≡ done b → a ≡ b
done_injective a b h = cc

-- How often the components list a face.
abbrev pub occurs_in : String → List (List String) → ℕ
occurs_in k [] = 0
occurs_in k (comp ∷ comps) = occurs k comp + occurs_in k comps

module _ (F : Floats) (ctx : Ctx F) (ids : List String) where
  component_ends :
      (f : String) (seen : List String) → is_out (component_of F ctx ids f seen) ≡ false
  unfolding component_of
  component_ends f seen =
      walk_ends (adjacent F ctx) (λ cur n. some (contains ids n)) ids
        (λ c n h. some_injective (contains ids n) true h) (suc (length ids)) (f ∷ seen) (f ∷ []) []
        (omega (arith, unseen-all ids (f ∷ seen)))

  from_ends : (fs seen : List String) → is_out (connected_from F ctx ids fs seen) ≡ false
  unfolding connected_from
  from_ends [] seen = refl
  from_ends (f ∷ fs) seen = elim (walked-cases (component_of F ctx ids f seen)) [
    | inl e ↦ ground (arith, component_ends f seen)
    | inr (inl e) ↦ ground (arith, from_ends fs seen)
    | inr (inr (r, e)) ↦ elim (walked-cases (connected_from F ctx ids fs r.0)) [
      | inl e' ↦ ground (arith, from_ends fs r.0)
      | inr (inl e') ↦ ground (arith, from_ends fs seen)
      | inr (inr (rest, e')) ↦ ground (arith, from_ends fs seen)
    ]
  ]

  component-occurs :
      (k f : String) (seen : List String) (r : List String × List String)
      → component_of F ctx ids f seen ≡ done r
      → occurs k r.0 ≡ occurs k seen + occurs k r.1
  unfolding component_of
  component-occurs k f seen r h = omega (
    arith,
    walk-occurs (adjacent F ctx) (λ cur n. some (contains ids n)) k (suc (length ids)) (f ∷ seen)
        (f ∷ []) [] r h,
  )

  component-once :
      (k f : String) (seen : List String) (r : List String × List String)
      → component_of F ctx ids f seen ≡ done r
      → contains seen f ≡ false
      → occurs k seen ≤ 1
      → occurs k r.0 ≤ 1
  unfolding component_of
  component-once k f seen r h new once =
      walk-once (adjacent F ctx) (λ cur n. some (contains ids n)) k (suc (length ids)) (f ∷ seen)
        (f ∷ []) [] r h (occurs-new k f seen new once)

  from_inverts :
      (f : String) (fs seen : List String) (comps : List (List String))
      → connected_from F ctx ids (f ∷ fs) seen ≡ done comps
      → contains seen f ≡ false
      → (r : List String × List String) × ((rest : List (List String)) × ((component_of F ctx ids f
                seen
              ≡ done r)
            × ((connected_from F ctx ids fs r.0 ≡ done rest) × (comps ≡ r.1 ∷ rest))))
  unfolding connected_from
  from_inverts f fs seen comps h new = elim (walked-cases (component_of F ctx ids f seen)) [
    | inl e ↦ ground (arith, component_ends f seen)
    | inr (inl e) ↦ ground arith
    | inr (inr (r, e)) ↦ elim (walked-cases (connected_from F ctx ids fs r.0)) [
      | inl e' ↦ ground (arith, from_ends fs r.0)
      | inr (inl e') ↦ ground arith
      | inr (inr (rest, e')) ↦
          (r, (rest, (e, (e', done_injective comps (r.1 ∷ rest) (ground arith)))))
    ]
  ]

  -- The components list what was not seen before, and nothing twice.
  from-once :
      (k : String) (fs seen : List String) (comps : List (List String))
      → connected_from F ctx ids fs seen ≡ done comps
      → occurs k seen ≤ 1
      → occurs_in k comps + occurs k seen ≤ 1
  unfolding connected_from
  from-once k [] seen comps h once = rw (sym (done_injective [] comps h)) (omega (arith, once))
  from-once k (f ∷ fs) seen comps h once = elim (Bool-cases (contains seen f)) [
    | inl e ↦ from-once k fs seen comps (ground arith) once
    | inr e ↦
        let (r, (rest, (hc, (hr, q)))) = from_inverts f fs seen comps h e in
        rw q (
          omega (
            arith,
            from-once k fs r.0 rest hr (component-once k f seen r hc e once),
            component-occurs k f seen r hc,
          ))
  ]

  occurs-contains : (k : String) (xs : List String) → contains xs k ≡ true → 1 ≤ occurs k xs
  occurs-contains k [] h = cc
  occurs-contains k (x ∷ xs) h = ground (arith, occurs-contains k xs)

  component-lists :
      (k f : String) (seen : List String) (r : List String × List String)
      → component_of F ctx ids f seen ≡ done r
      → occurs k (f ∷ seen) ≤ occurs k r.0
  unfolding component_of
  component-lists k f seen r h =
      walk-grows (adjacent F ctx) (λ cur n. some (contains ids n)) k (suc (length ids)) (f ∷ seen)
        (f ∷ []) [] r h

  from-covers :
      (k : String) (fs seen : List String) (comps : List (List String))
      → connected_from F ctx ids fs seen ≡ done comps
      → 1 ≤ occurs k fs + occurs k seen
      → 1 ≤ occurs_in k comps + occurs k seen
  unfolding connected_from
  from-covers k [] seen comps h q = rw (sym (done_injective [] comps h)) (omega (arith, q))
  from-covers k (f ∷ fs) seen comps h q = elim (Bool-cases (contains seen f)) [
    | inl e ↦
        from-covers k fs seen comps (ground arith)
          (ground (arith, eq_iff f k, occurs-contains k seen))
    | inr e ↦
        let (r, (rest, (hc, (hr, e')))) = from_inverts f fs seen comps h e in
        rw e' (
          omega (
            arith,
            component-occurs k f seen r hc,
            from-covers k fs r.0 rest hr (omega (arith, q, component-lists k f seen r hc)),
          ))
  ]

  -- The walks of `_connected` end within their fuel, whatever the faces and the ids.
  pub connected_ends : is_out (connected F ctx ids) ≡ false
  unfolding connected
  connected_ends = from_ends ids []

  -- When `_connected` returns, its components together list each id that is given exactly once.
  pub connected-partitions :
      (k : String) (comps : List (List String))
      → connected F ctx ids ≡ done comps
      → contains ids k ≡ true
      → occurs_in k comps ≡ 1
  unfolding connected
  connected-partitions k comps h q = omega (
    arith,
    from-once k ids [] comps h (omega arith),
    from-covers k ids [] comps h (omega (arith, occurs-contains k ids q)),
  )
