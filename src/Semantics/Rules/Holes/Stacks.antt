-- ===== src/Semantics/Rules/Holes/Stacks.antt =====
-- The bores of `_recognize_holes` in cad2ml/semantics/recognizer.py, and the stacks of bores linked by steps.
use cad2ml.Prelude.{
  ℕ, zero, suc, Bool, List, [], ◌∷◌, ◌++◌, Option, none, some, String, if◌then◌else◌, length, ◌==◌,
}
use cad2ml.Prelude.Options.{◌>>=◌, each}
use cad2ml.Prelude.Forest.{found, unions}
use cad2ml.Semantics.Records.{Floats, FaceRecord}

-- The kind of an end with its faces, and the segment a step leads to.
pub data EndKind : Type 0 where
  end_other end_open : EndKind
  end_floor : List String → EndKind
  end_step : List String → ℕ → EndKind

abbrev pub nth {ℓ} : {A : Type ℓ} → List A → ℕ → Option A
nth [] i = none
nth (x ∷ xs) zero = some x
nth (x ∷ xs) (suc i) = nth xs i

-- `range(i, i + n)`
abbrev pub range_from : ℕ → ℕ → List ℕ
range_from i zero = []
range_from i (suc n) = i ∷ range_from (suc i) n

module _ (F : Floats) where
  pub record End : Type 0 where
    pub pos : F.R
    pub kind : EndKind
    pub nb : List String

  pub record Bore : Type 0 where
    pub seg : List (FaceRecord F)
    pub along : List F.R
    pub point : List F.R
    pub radius : F.R
    pub ends : List End

  abbrev pub has_two_ends : Bore → Bool
  has_two_ends b = length b.ends == 2

  -- The steps from the ends of bore `i`, which count if the other bore has two ends too.
  unfoldable pub links_of_ends : List Bore → ℕ → List End → Option (List (ℕ × ℕ))
  links_of_ends info i [] = some []
  links_of_ends info i (e ∷ es) = links_of_ends info i es >>= λ rest. elim e.kind [
    | end_step trans to ↦
        nth info to >>= λ b. some (if has_two_ends b then (to, i) ∷ rest else rest)
    | _ ↦ some rest
  ]

  unfoldable pub links_from : List Bore → ℕ → List Bore → Option (List (ℕ × ℕ))
  unfolding links_of_ends
  links_from info i [] = some []
  links_from info i (b ∷ bs) =
      (if has_two_ends b then links_of_ends info i b.ends else some []) >>= λ here.
      links_from info (suc i) bs >>= λ rest. some (here ++ rest)

  -- `parent[find(i)] = find(end["to"])`: the root of the second becomes the child of the first's.
  abbrev pub child_first : ℕ → ℕ → ℕ × ℕ
  child_first to i = (i, to)

  -- The parents after all links; a path has at most as many steps as there are links.
  unfoldable pub linked : List (ℕ × ℕ) → Option (ℕ → ℕ)
  linked links = unions ◌==◌ child_first (length links) (λ i. i) links

  -- `find(i)`; the halving of paths in it moves no root.
  abbrev pub stack_of : List (ℕ × ℕ) → (ℕ → ℕ) → ℕ → Option ℕ
  stack_of links parent i = found ◌==◌ (length links) parent i

  -- `stacks.setdefault(find(i), []).append(i)`
  abbrev pub add_member : ℕ → ℕ → List (ℕ × List ℕ) → List (ℕ × List ℕ)
  add_member root i [] = (root, i ∷ []) ∷ []
  add_member root i ((r, members) ∷ stacks) =
      if root == r then (r, members ++ i ∷ []) ∷ stacks else (r, members) ∷ add_member root i stacks

  unfoldable pub stacks_from :
      List (ℕ × ℕ) → (ℕ → ℕ) → List ℕ → List (ℕ × List ℕ) → Option (List (ℕ × List ℕ))
  stacks_from links parent [] stacks = some stacks
  stacks_from links parent (i ∷ is) stacks =
      stack_of links parent i >>= λ root. stacks_from links parent is (add_member root i stacks)

  -- `members.sort(key=radius)`, which is stable.
  abbrev pub insert_member : ℕ × Bore → List (ℕ × Bore) → List (ℕ × Bore)
  insert_member x [] = x ∷ []
  insert_member x (y ∷ ys) =
      if F.lt y.1.radius x.1.radius then y ∷ insert_member x ys else x ∷ y ∷ ys

  abbrev pub sorted_members : List (ℕ × Bore) → List (ℕ × Bore)
  sorted_members [] = []
  sorted_members (x ∷ xs) = insert_member x (sorted_members xs)

  abbrev pub members_of : List Bore → List ℕ → Option (List (ℕ × Bore))
  members_of info ks =
      each (λ k. nth info k >>= λ b. some (k, b)) ks >>= λ ms. some (sorted_members ms)
