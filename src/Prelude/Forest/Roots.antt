-- ===== src/Prelude/Forest/Roots.antt =====
-- `find` and `union` of disjoint sets against a reference: the root at the end of the parents.
use Prim.Native.Nat.{ℕ, zero, suc, ◌≤◌}
use mathlib.Core.Path.{◌≡◌, refl, subst, ap, ◌∙◌}
use mathlib.Core.Logic.{◌⊎◌, inl, inr, ◌↔◌}
use mathlib.Core.Bool.{Bool, true, false}
use mathlib.Core.Option.{Option, none, some}
use native.Mathlib.Omega.{arith}
use cad2ml.Prelude.Tests.{if◌then◌else◌, Bool-cases}
use cad2ml.Prelude.Forest.{set_parent, find}

module _ {ℓ} {K : Type ℓ} (same : K → K → Bool)
    (same_iff : (a b : K) → (same a b ≡ true) ↔ (a ≡ b)) where
  -- The root at most `n` parents away.
  unfoldable pub root : ℕ → (K → K) → K → Option K
  root zero p x = if same (p x) x then some x else none
  root (suc n) p x = elim (same (p x) x) [ true ↦ some x | false ↦ root n p (p x) ]

  pub root-suc : (n : ℕ) (p : K → K) (x r : K) → root n p x ≡ some r → root (suc n) p x ≡ some r
  unfolding root
  root-suc zero p x r h = ground arith
  root-suc (suc n) p x r h = elim (Bool-cases (same (p x) x)) [
    | inl e ↦ ground arith
    | inr e ↦ ground (arith, root-suc n p (p x) r)
  ]

  pub root-le : (n m : ℕ) (p : K → K) (x r : K) → n ≤ m → root n p x ≡ some r → root m p x ≡ some r
  unfolding root
  root-le zero zero p x r l h = h
  root-le zero (suc m) p x r l h = ground (arith)
  root-le (suc n) zero p x r l h = ground arith
  root-le (suc n) (suc m) p x r l h = ground (arith, root-le n m p (p x) r)

  -- A root is its own parent.
  pub root-fixed : (n : ℕ) (p : K → K) (x r : K) → root n p x ≡ some r → p r ≡ r
  unfolding root
  root-fixed zero p x r h = ground (arith, same_iff (p x) x)
  root-fixed (suc n) p x r h = ground (arith, same_iff (p x) x, root-fixed n p (p x) r)

  pub root_self : (n : ℕ) (p : K → K) (x : K) → p x ≡ x → root n p x ≡ some x
  unfolding root
  root_self zero p x e = ground (arith, same_iff (p x) x)
  root_self (suc n) p x e = ground (arith, same_iff (p x) x)

  root-up : (n : ℕ) (p : K → K) (x : K) → same (p x) x ≡ false → root (suc n) p x ≡ root n p (p x)
  unfolding root
  root-up n p x e = ground arith

  root-base : (p : K → K) (x r : K) → root zero p x ≡ some r → (p x ≡ x) × (x ≡ r)
  unfolding root
  root-base p x r h = elim (Bool-cases (same (p x) x)) [
    | inl e ↦ ((same_iff (p x) x).0 e, ground arith)
    | inr e ↦ ground arith
  ]

  -- Either the key is the root, or its parent's root is found in one step less.
  root-step :
      (n : ℕ) (p : K → K) (x r : K)
      → root (suc n) p x ≡ some r
      → ((p x ≡ x) × (x ≡ r)) ⊎ ((same (p x) x ≡ false) × (root n p (p x) ≡ some r))
  unfolding root
  root-step n p x r h = elim (Bool-cases (same (p x) x)) [
    | inl e ↦ inl ((same_iff (p x) x).0 e, ground arith)
    | inr e ↦ inr (e, ground arith)
  ]

  root-parent : (n : ℕ) (p : K → K) (x r : K) → root n p x ≡ some r → root n p (p x) ≡ some r
  root-parent zero p x r h = rw ((root-base p x r h).0) h
  root-parent (suc n) p x r h = elim (root-step n p x r h) [
    | inl (e, q) ↦ rw e h
    | inr (ne, h') ↦ root-suc n p (p x) r h'
  ]

  no_cycle : (n : ℕ) (p : K → K) (x r : K) → p (p x) ≡ x → root n p x ≡ some r → p x ≡ x
  no_cycle zero p x r c h = (root-base p x r h).0
  no_cycle (suc n) p x r c h = elim (root-step n p x r h) [
    | inl (e, q) ↦ e
    | inr (ne, h') ↦
        no_cycle n p x r c (subst (λ z. root n p z ≡ some r) c (root-parent n p (p x) r h'))
  ]

  root-enter :
      (n : ℕ) (p : K → K) (x r : K)
      → same (p x) x ≡ false
      → root n p (p x) ≡ some r
      → root (suc n) p x ≡ some r
  root-enter n p x r ne h = rw (root-up n p x ne) h

  not_back :
      (n : ℕ) (p : K → K) (y r : K)
      → root n p y ≡ some r
      → same (p y) y ≡ false
      → same (p (p y)) y ≡ false
  not_back n p y r h ne = ground (arith, same_iff (p (p y)) y, same_iff (p y) y, no_cycle n p y r)

  unfoldable halved : K → (K → K) → K → K
  halved x p = set_parent same x (p (p x)) p

  halved-fixed : (x : K) (p : K → K) (y : K) → p y ≡ y → halved x p y ≡ y
  unfolding halved
  halved-fixed x p y e = elim (Bool-cases (same x y)) [
    | inl q ↦ rw (q, (same_iff x y).0 q, e) e
    | inr q ↦ rw q e
  ]

  halved-at : (x : K) (p : K → K) (y : K) → (halved x p y ≡ p y) ⊎ (halved x p y ≡ p (p y))
  unfolding halved
  halved-at x p y = elim (Bool-cases (same x y)) [
    | inl q ↦ inr (rw (q, (same_iff x y).0 q) refl)
    | inr q ↦ inl (rw q refl)
  ]

  -- Halving a path keeps the roots.
  halved-root :
      (x : K) (n : ℕ) (p : K → K) (y r : K) → root n p y ≡ some r → root n (halved x p) y ≡ some r
  halved-root x zero p y r h =
      let (e, q) = root-base p y r h in
      rw q (root_self zero (halved x p) r (halved-fixed x p r (subst (λ z. p z ≡ z) q e)))
  halved-root x (suc n) p y r h = elim (root-step n p y r h) [
    | inl (e, q) ↦
        rw q (root_self (suc n) (halved x p) r (halved-fixed x p r (subst (λ z. p z ≡ z) q e)))
    | inr (ne, h') ↦ elim (halved-at x p y) [
      | inl e ↦ root-enter n (halved x p) y r (rw e ne) (rw e (halved-root x n p (p y) r h'))
      | inr e ↦
          root-enter n (halved x p) y r (rw e (not_back (suc n) p y r h ne))
            (rw e (halved-root x n p (p (p y)) r (root-parent n p (p y) r h')))
    ]
  ]

  find_self : (n : ℕ) (p : K → K) (x : K) → p x ≡ x → find same n p x ≡ some (p, x)
  unfolding find
  find_self zero p x e = ground (arith, same_iff (p x) x)
  find_self (suc n) p x e = ground (arith, same_iff (p x) x)

  find-up :
      (n : ℕ) (p : K → K) (x : K)
      → same (p x) x ≡ false
      → find same (suc n) p x ≡ find same n (halved x p) (p (p x))
  unfolding find halved
  find-up n p x e = ground arith

  -- `find` returns the root, and the parents that it leaves have the same roots.
  pub find-root :
      (n : ℕ) (p : K → K) (x r : K)
      → root n p x ≡ some r
      → (q : K → K) × ((find same n p x ≡ some (q, r))
          × ((m : ℕ) (y s : K) → root m p y ≡ some s → root m q y ≡ some s))
  find-root zero p x r h =
      let (e, q) = root-base p x r h in
      (p, (find_self zero p x e ∙ ap (λ z. some (p, z)) q, λ m y s hs. hs))
  find-root (suc n) p x r h = elim (root-step n p x r h) [
    | inl (e, q) ↦ (p, (find_self (suc n) p x e ∙ ap (λ z. some (p, z)) q, λ m y s hs. hs))
    | inr (ne, h') ↦
        let (q, (e, keeps)) =
          find-root n (halved x p) (p (p x)) r
            (halved-root x n p (p (p x)) r (root-parent n p (p x) r h')) in
        (q, (find-up n p x ne ∙ e, λ m y s hs. keeps m y s (halved-root x m p y s hs)))
  ]

  linked-at : (a b : K) (p : K → K) (y : K) → same a y ≡ false → set_parent same a b p y ≡ p y
  linked-at a b p y e = rw e refl

  linked_self :
      (a b : K) (n : ℕ) (p : K → K) (y : K)
      → p b ≡ b
      → same a b ≡ false
      → p y ≡ y
      → root (suc n) (set_parent same a b p) y ≡ some (if same a y then b else y)
  linked_self a b n p y eb ne e = elim (Bool-cases (same a y)) [
    | inr q ↦ rw q (root_self (suc n) (set_parent same a b p) y (linked-at a b p y q ∙ e))
    | inl q ↦
        let at_y : set_parent same a b p y ≡ b = rw q refl in
        rw q (
          root-enter n (set_parent same a b p) y b
            (rw at_y (ground (arith, same_iff a y, same_iff b y, same_iff a b)))
            (rw at_y (root_self n (set_parent same a b p) b (linked-at a b p b ne ∙ eb))))
  ]

  -- Below a root that becomes the child of another, the other is the root.
  pub linked-root :
      (a b : K) (n : ℕ) (p : K → K) (y s : K)
      → p a ≡ a
      → p b ≡ b
      → same a b ≡ false
      → root n p y ≡ some s
      → root (suc n) (set_parent same a b p) y ≡ some (if same a s then b else s)
  linked-root a b zero p y s ea eb ne h =
      let (e, q) = root-base p y s h in
      subst (λ z. root 1 (set_parent same a b p) y ≡ some (if same a z then b else z)) q
        (linked_self a b zero p y eb ne e)
  linked-root a b (suc n) p y s ea eb ne h = elim (root-step n p y s h) [
    | inl (e, q) ↦
        subst (λ z. root (suc (suc n)) (set_parent same a b p) y ≡ some (if same a z then b else z))
          q (linked_self a b (suc n) p y eb ne e)
    | inr (ne', h') ↦
        let at_y : set_parent same a b p y ≡ p y =
          linked-at a b p y (ground (arith, same_iff a y, same_iff (p y) y)) in
        root-enter (suc n) (set_parent same a b p) y (if same a s then b else s) (rw at_y ne')
          (rw at_y (linked-root a b n p (p y) s ea eb ne h'))
  ]
