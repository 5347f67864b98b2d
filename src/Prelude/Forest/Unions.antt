-- ===== src/Prelude/Forest/Unions.antt =====
-- Unions of disjoint sets end, and put the two keys of each pair below one root.
use Prim.Native.Nat.{ℕ, zero, suc, ◌≤◌, ◌+◌}
use mathlib.Core.Path.{◌≡◌, refl, sym, ap, ◌∙◌}
use mathlib.Core.Logic.{◌⊎◌, inl, inr, ◌↔◌}
use mathlib.Core.Bool.{Bool, true, false}
use mathlib.Core.Option.{some}
use mathlib.Core.List.{List, [], ◌∷◌}
use native.Mathlib.Omega.{arith}
use cad2ml.Prelude.Tests.{if◌then◌else◌, Bool-cases}
use cad2ml.Prelude.Options.{some_injective}
use cad2ml.Prelude.Lists.{length, All}
use cad2ml.Prelude.Forest.{set_parent, find, found, union, unions}
use cad2ml.Prelude.Forest.Roots.{
  root, root-suc, root-le, root-fixed, find-root, linked-root, root_self,
}

module _ {ℓ} {K : Type ℓ} (same : K → K → Bool)
    (same_iff : (a b : K) → (same a b ≡ true) ↔ (a ≡ b)) where
  -- Each key has a root at most `n` parents away.
  abbrev pub IsRooted : ℕ → (K → K) → Type ℓ
  IsRooted n p = (x : K) → (r : K) × (root same same_iff n p x ≡ some r)

  abbrev pub HaveOneRoot : (K → K) → K → K → Type ℓ
  HaveOneRoot p x y =
      (m : ℕ) × ((r : K) × ((root same same_iff m p x ≡ some r)
          × (root same same_iff m p y ≡ some r)))

  IsRooted-le : (n m : ℕ) (p : K → K) → n ≤ m → IsRooted n p → IsRooted m p
  IsRooted-le n m p l rooted x = let (r, h) = rooted x in (r, root-le same same_iff n m p x r l h)

  -- Without links, each key is its own root.
  pub start-IsRooted : IsRooted zero (λ x. x)
  start-IsRooted x = (x, root_self same same_iff zero (λ y. y) x refl)

  -- `find` on rooted parents returns the root; keys with one root are found at one root.
  pub find-IsRooted :
      (n fuel : ℕ) (p : K → K) (x : K)
      → IsRooted n p
      → n ≤ fuel
      → (q : K → K) × ((r : K) × ((find same fuel p x ≡ some (q, r))
            × (root same same_iff n p x ≡ some r)))
  find-IsRooted n fuel p x rooted l =
      let (r, h) = rooted x in
      let (q, (e, keeps)) =
        find-root same same_iff fuel p x r (root-le same same_iff n fuel p x r l h) in
      (q, (r, (e, h)))

  -- Roots do not depend on how far one looks.
  root_unique :
      (n m : ℕ) (p : K → K) (x r s : K)
      → root same same_iff n p x ≡ some r
      → root same same_iff m p x ≡ some s
      → r ≡ s
  root_unique n m p x r s h k = some_injective r s (
      sym (root-le same same_iff n (n + m) p x r (omega arith) h)
      ∙ root-le same same_iff m (n + m) p x s (omega arith) k)

  pub found_total :
      (n fuel : ℕ) (p : K → K) (x : K)
      → IsRooted n p
      → n ≤ fuel
      → (r : K) × (found same fuel p x ≡ some r)
  found_total n fuel p x rooted l =
      let (q, (r, (e, h))) = find-IsRooted n fuel p x rooted l in (r, rw e refl)

  pub found-one :
      (n fuel : ℕ) (p : K → K) (x y : K)
      → IsRooted n p
      → n ≤ fuel
      → HaveOneRoot p x y
      → found same fuel p x ≡ found same fuel p y
  found-one n fuel p x y rooted l h =
      let (q, (r, (e, hr))) = find-IsRooted n fuel p x rooted l in
      let (q', (s, (e', hs))) = find-IsRooted n fuel p y rooted l in
      rw (e, e')
        (ap some (
          root_unique n h.0 p x r h.1.0 hr h.1.1.0
          ∙ sym (root_unique n h.0 p y s h.1.0 hs h.1.1.1)))

  -- What a step does to the parents: roots are near, and what had one root has one.
  abbrev pub IsMerge : ℕ → (K → K) → (K → K) → Type ℓ
  IsMerge n p q = IsRooted n q × ((x y : K) → HaveOneRoot p x y → HaveOneRoot q x y)

  -- The link of two roots.
  link-IsMerge :
      (c d : K) (n : ℕ) (p : K → K)
      → IsRooted n p
      → p c ≡ c
      → p d ≡ d
      → same c d ≡ false
      → IsMerge (suc n) p (set_parent same c d p)
  link-IsMerge c d n p rooted ec ed ne = (
    λ x. let (r, e) = rooted x in (_, linked-root same same_iff c d n p x r ec ed ne e),
    λ x y h.
        let (m, (r, (ex, ey))) = h in
        (
          suc m,
          (
            _,
            (
              linked-root same same_iff c d m p x r ec ed ne ex,
              linked-root same same_iff c d m p y r ec ed ne ey,
            ),
          ),
        ),
  )

  -- The two keys below roots of which one becomes the child of the other.
  link-joins :
      (c d : K) (n : ℕ) (p : K → K) (x y : K)
      → p c ≡ c
      → p d ≡ d
      → same c d ≡ false
      → root same same_iff n p x ≡ some c
      → root same same_iff n p y ≡ some d
      → HaveOneRoot (set_parent same c d p) x y
  link-joins c d n p x y ec ed ne hx hy = (
    suc n,
    (
      d,
      (
        linked-root same same_iff c d n p x c ec ed ne hx ∙ rw ((same_iff c c).1 refl) refl,
        linked-root same same_iff c d n p y d ec ed ne hy ∙ rw ne refl,
      ),
    ),
  )

  HaveOneRoot-sym : (p : K → K) (x y : K) → HaveOneRoot p x y → HaveOneRoot p y x
  HaveOneRoot-sym p x y h = (h.0, (h.1.0, (h.1.1.1, h.1.1.0)))

  module _ (pick : K → K → K × K)
      (picks : (a b : K) → (pick a b ≡ (a, b)) ⊎ (pick a b ≡ (b, a))) where
    abbrev joined : K → K → (K → K) → K → K
    joined ra rb p = if same ra rb then p else set_parent same (pick ra rb).0 (pick ra rb).1 p

    joined-merges :
        (n : ℕ) (p : K → K) (a b ra rb : K)
        → IsRooted n p
        → p ra ≡ ra
        → p rb ≡ rb
        → root same same_iff n p a ≡ some ra
        → root same same_iff n p b ≡ some rb
        → IsMerge (suc n) p (joined ra rb p) × HaveOneRoot (joined ra rb p) a b
    joined-merges n p a b ra rb rooted ea eb ha hb = elim (Bool-cases (same ra rb)) [
      | inl e ↦ rw e (
        ((λ x. let (r, h) = rooted x in (r, root-suc same same_iff n p x r h)), λ x y h. h),
        (n, (ra, (ha, hb ∙ ap some (sym ((same_iff ra rb).0 e))))),
      )
      | inr e ↦ elim (picks ra rb) [
        | inl q ↦
            rw (e, q)
              (link-IsMerge ra rb n p rooted ea eb e, link-joins ra rb n p a b ea eb e ha hb)
        | inr q ↦
            let e' : same rb ra ≡ false = ground (arith, same_iff ra rb, same_iff rb ra) in
            rw (e, q)
              (
                link-IsMerge rb ra n p rooted eb ea e',
                HaveOneRoot-sym (set_parent same rb ra p) b a
                    (link-joins rb ra n p b a eb ea e' hb ha),
              )
      ]
    ]

    -- `union` on rooted parents returns, merges, and joins the two keys.
    pub union-joins :
        (n fuel : ℕ) (p : K → K) (a b : K)
        → IsRooted n p
        → n ≤ fuel
        → (q : K → K) × ((union same pick fuel p a b ≡ some q)
            × (IsMerge (suc n) p q × HaveOneRoot q a b))
    unfolding union
    union-joins n fuel p a b rooted l =
        let (ra, ha) = rooted a in
        let (rb, hb) = rooted b in
        let (p1, (e1, keeps1)) =
          find-root same same_iff fuel p a ra (root-le same same_iff n fuel p a ra l ha) in
        let (p2, (e2, keeps2)) =
          find-root same same_iff fuel p1 b rb
            (keeps1 fuel b rb (root-le same same_iff n fuel p b rb l hb)) in
        let fixed : (x r : K) → root same same_iff n p x ≡ some r → p2 r ≡ r =
          λ x r h. root-fixed same same_iff n p2 x r (keeps2 n x r (keeps1 n x r h)) in
        let (m, j) =
          joined-merges n p2 a b ra rb
            (λ x. let (r, h) = rooted x in (r, keeps2 n x r (keeps1 n x r h))) (fixed a ra ha)
            (fixed b rb hb) (keeps2 n a ra (keeps1 n a ra ha)) (keeps2 n b rb (keeps1 n b rb hb)) in
        (
          joined ra rb p2,
          (
            rw (e1, e2) refl,
            (
              (
                m.0,
                λ x y h. m.1 x y (
                  h.0,
                  (
                    h.1.0,
                    (
                      keeps2 h.0 x h.1.0 (keeps1 h.0 x h.1.0 h.1.1.0),
                      keeps2 h.0 y h.1.0 (keeps1 h.0 y h.1.0 h.1.1.1),
                    ),
                  ),
                ),
              ),
              j,
            ),
          ),
        )

    -- So do all unions of a list, with fuel for as many steps as there are pairs and the parents had.
    pub unions-joins :
        (n fuel : ℕ) (p : K → K) (pairs : List (K × K))
        → IsRooted n p
        → n + length pairs ≤ fuel
        → (q : K → K) × ((unions same pick fuel p pairs ≡ some q)
            × (IsMerge (n + length pairs) p q × All (λ (e : K × K). HaveOneRoot q e.0 e.1) pairs))
    unfolding unions
    unions-joins n fuel p [] rooted l =
        (p, (refl, ((IsRooted-le n (n + 0) p (omega arith) rooted, λ x y h. h), tt)))
    unions-joins n fuel p ((a, b) ∷ rest) rooted l =
        let (q, (e, (m, j))) = union-joins n fuel p a b rooted (omega (arith, l)) in
        let (s, (e', (m', js))) = unions-joins (suc n) fuel q rest m.0 (omega (arith, l)) in
        (
          s,
          (
            rw (e, e') refl,
            (
              (
                IsRooted-le (suc n + length rest) (n + suc (length rest)) s (omega arith) m'.0,
                λ x y h. m'.1 x y (m.1 x y h),
              ),
              (m'.1 a b j, js),
            ),
          ),
        )
