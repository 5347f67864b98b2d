-- ===== src/Datasets/Selection/Sound.antt =====
-- What the selection of cad2ml/datasets/builder.py takes and leaves, beside a description of a manifest that can be taken.
use text.Mathlib.TextPositions.{eq_refl}
use cad2ml.Prelude.{
  ◌+◌, ◌≤◌, ◌≡◌, refl, inl, inr, false, List, [], ◌∷◌, some, String, str_eq, arith,
  count_where-append, All, All-append, All-map, all_members,
}
use mathlib.Core.List.{Memᴰ}
use cad2ml.Semantics.Records.{Floats}
use cad2ml.Datasets.Selection.Judging.{IsAcceptable, judge-takes, judge-leaves, verdict-cases}
use cad2ml.Datasets.Selection.{
  Entry, Versions, Truth, takes, leaves, Reason, Included, Excluded, Selected, judge, take_entry,
  leave_entry, select_from, select, nothing_selected,
}
use cad2ml.Datasets.Selection.Steps.{
  times_key, taken, times_left, times_given, has_entry, HasUniqueIds, IsSigned, IsMadeOf, IsKnown,
  IsSettled, entry_of, after_take, take_entry-new, IsSettled-take, IsKnown-take, fresh-take,
}

module _ (F : Floats) (now : Versions) (gts : List (String × Truth)) where
  -- What a selection from `ms` on ends in: each of the lists is told by what was there and by `ms`.
  record Ends (P : Entry F → Type 0) (ms : List (Entry F)) (sel : Selected F now gts) : Type 0 where
    out : Selected F now gts
    returned : select_from F now gts ms sel ≡ some out
    settled : IsSettled F now gts out
    made : All (λ p. (m : Entry F) × P m × IsMadeOf F now gts p m) out.included
    complete : All (λ m. IsAcceptable F now gts m → IsKnown F now gts m.sha256 out) ms
    kept : (sha : String) → IsKnown F now gts sha sel → IsKnown F now gts sha out
    listed :
        (k : String)
        → times_key k out.included + times_left F now gts k out.excluded
          ≡ times_key k sel.included
            + times_left F now gts k sel.excluded
            + times_given F now gts k ms

  select_from-takes :
      (m : Entry F) (ms : List (Entry F)) (gt : Truth) (sel next out : Selected F now gts)
      → judge F now gts sel.by_sha m ≡ takes gt
      → take_entry F now gts m gt sel ≡ some next
      → select_from F now gts ms next ≡ some out
      → select_from F now gts (m ∷ ms) sel ≡ some out
  unfolding select_from
  select_from-takes m ms gt sel next out v taken_ rest = rw (v, taken_, select_from) rest

  select_from-leaves :
      (m : Entry F) (ms : List (Entry F)) (r : Reason) (sel out : Selected F now gts)
      → judge F now gts sel.by_sha m ≡ leaves r
      → select_from F now gts ms (leave_entry F now gts m r sel) ≡ some out
      → select_from F now gts (m ∷ ms) sel ≡ some out
  unfolding select_from
  select_from-leaves m ms r sel out v rest = rw (v, select_from) rest

  select_from_lem :
      (P : Entry F → Type 0) (ms : List (Entry F)) (sel : Selected F now gts)
      → HasUniqueIds F now gts ms
      → All (λ (n : Entry F). has_entry F now gts n.sample_id sel.included ≡ false) ms
      → All P ms
      → All (IsSigned F now gts) ms
      → IsSettled F now gts sel
      → All (λ p. (m : Entry F) × P m × IsMadeOf F now gts p m) sel.included
      → Ends P ms sel
  unfolding select_from
  select_from_lem P [] sel unique new from signed settled made = record {
    out = sel;
    returned = refl;
    settled = settled;
    made = made;
    complete = tt;
    kept = λ sha k. k;
    listed = λ k. omega arith;
  }
  select_from_lem P (m ∷ ms) sel unique new from signed settled made =
      elim (verdict-cases (judge F now gts sel.by_sha m)) [
        | inl (gt, v) ↦
            let (acc, g, unknown) = judge-takes F now gts sel.by_sha m gt v in
            let (sig, e) = signed.0 acc in
            let sel' : Selected F now gts = after_take F now gts m gt sig sel in
            let origin : (n : Entry F) × P n
                × IsMadeOf F now gts (m.sample_id, entry_of F now gts m gt sig) n =
              (m, from.0, (acc, refl, refl, refl, refl, g, e)) in
            let rest : Ends P ms sel' =
              select_from_lem P ms sel' unique.1
                (fresh-take F now gts m gt sig sel.included ms unique.0 new.1) from.1 signed.1
                (IsSettled-take F now gts m gt sig sel unknown settled)
                (All-append _ sel.included ((m.sample_id, entry_of F now gts m gt sig) ∷ []) made
                  (origin, tt)) in
            record {
              out = rest.out;
              returned =
                  select_from-takes m ms gt sel sel' rest.out v
                    (take_entry-new F now gts m gt sig sel e new.0) rest.returned;
              settled = rest.settled;
              made = rest.made;
              complete = (
                λ a. rest.kept m.sha256 (m.sample_id, rw (eq_refl m.sha256) refl),
                rest.complete,
              );
              kept = λ sha k. rest.kept sha (IsKnown-take F now gts m gt sig sel sha k);
              listed = λ k. ground (
                arith,
                rest.listed k,
                count_where-append (λ (p : String × Included F). str_eq p.0 k) sel.included
                    ((m.sample_id, entry_of F now gts m gt sig) ∷ []),
              );
            }
        | inr (r, v) ↦
            let sel' : Selected F now gts = leave_entry F now gts m r sel in
            let rest : Ends P ms sel' =
              select_from_lem P ms sel' unique.1 new.1 from.1 signed.1 settled made in
            record {
              out = rest.out;
              returned = select_from-leaves m ms r sel rest.out v rest.returned;
              settled = rest.settled;
              made = rest.made;
              complete = (
                λ a. rest.kept m.sha256 (judge-leaves F now gts sel.by_sha m r v a),
                rest.complete,
              );
              kept = rest.kept;
              listed = λ k. ground (
                arith,
                rest.listed k,
                count_where-append (λ (x : Excluded). str_eq x.sample_id k) sel.excluded
                    (record { sample_id = m.sample_id; filename = m.filename; reason = r } ∷ []),
              );
            }
      ]

  -- What a selection from `ms` is to be.
  pub record IsSelection (ms : List (Entry F)) (out : Selected F now gts) : Type 0 where
    pub listed :
        (k : String)
        → times_key k out.included + times_left F now gts k out.excluded
          ≡ times_given F now gts k ms
    pub made : All (λ p. (m : Entry F) × Memᴰ m ms × IsMadeOf F now gts p m) out.included
    pub complete :
        All (λ m. IsAcceptable F now gts m → taken F now gts m.sha256 out.included ≡ 1) ms
    pub once : (sha : String) → taken F now gts sha out.included ≤ 1

  taken_once :
      (sel : Selected F now gts) (sha : String)
      → IsSettled F now gts sel
      → IsKnown F now gts sha sel
      → taken F now gts sha sel.included ≡ 1
  taken_once sel sha settled (id, e) = elim (settled sha) [
    | inl (none_, n) ↦ let no : ⊥ = cc in absurd no
    | inr (there, n) ↦ n
  ]

  -- On manifests whose ids differ, and in which those that can be taken F now gts have a geometry, the selection returns. Each id is
  -- then listed as often as it was given, among the samples taken F now gts or among those left out; each sample is one of the
  -- manifests, a completed one of this version and configuration with a ground truth and all artifacts, under its own id
  -- and with the family and group of its ground truth; and the source of each such manifest is taken F now gts exactly once, any
  -- other at most once.
  pub select-IsSelection :
      (ms : List (Entry F))
      → HasUniqueIds F now gts ms
      → All (IsSigned F now gts) ms
      → (out : Selected F now gts) × (select F now gts ms ≡ some out) × IsSelection ms out
  unfolding select
  select-IsSelection ms unique signed =
      let ends : Ends (λ m. Memᴰ m ms) ms (nothing_selected F now gts) =
        select_from_lem (λ m. Memᴰ m ms) ms (nothing_selected F now gts) unique
          (all_members _ ms λ m h. refl) (all_members _ ms λ m h. h) signed
          (λ sha. inl (refl, refl)) tt in
      (
        ends.out,
        ends.returned,
        record {
          listed = λ k. omega (arith, ends.listed k);
          made = ends.made;
          complete =
              All-map _ _ ms (λ m k a. taken_once ends.out m.sha256 ends.settled (k a))
                ends.complete;
          once = λ sha. elim (ends.settled sha) [
            | inl (e, n) ↦ omega (arith, n)
            | inr (e, n) ↦ omega (arith, n)
          ];
        },
      )
