-- ===== src/Jobs/Db/Rows.antt =====
-- The job table under its primary key: an id is on no row, or splits the table at the one row.
use cad2ml.Prelude.{
  ◌≡◌, refl, ap, ◌⊎◌, inl, inr, Bool, true, false, List, [], ◌∷◌, ◌++◌, String, arith, All, keep,
  map_where, count_where, Bool-cases, eq_iff, if◌then◌else◌,
}
use cad2ml.Jobs.States.{JobState}
use cad2ml.Jobs.Db.{JobRow, has_id, in_state, same}

abbrev pub Fresh : String → List JobRow → Type 0
Fresh id rows = All (λ (r : JobRow). has_id id r ≡ false) rows

-- No two rows share their job id.
abbrev pub Distinct : List JobRow → Type 0
Distinct [] = Unit
Distinct (r ∷ rows) = Fresh r.job_id rows × Distinct rows

pub record Located (id : String) (rows : List JobRow) : Type 0 where
  pub before : List JobRow
  pub row : JobRow
  pub after : List JobRow
  pub split : rows ≡ before ++ row ∷ after
  pub found : has_id id row ≡ true
  pub before_fresh : Fresh id before
  pub after_fresh : Fresh id after

Fresh-same :
    (id : String) (r : JobRow) (rows : List JobRow)
    → has_id id r ≡ true
    → Fresh r.job_id rows
    → Fresh id rows
Fresh-same id r rows h f = rw (← (eq_iff r.job_id id).0 h) f

pub locate : (id : String) (rows : List JobRow) → Distinct rows → Fresh id rows ⊎ Located id rows
locate id [] d = inl tt
locate id (r ∷ rows) d = elim (Bool-cases (has_id id r)) [
  | inl h ↦ inr (record {
    before = [];
    row = r;
    after = rows;
    split = refl;
    found = h;
    before_fresh = tt;
    after_fresh = Fresh-same id r rows h d.0;
  })
  | inr h ↦ elim (locate id rows d.1) [
    | inl f ↦ inl (h, f)
    | inr l ↦ inr (record {
      before = r ∷ l.before;
      row = l.row;
      after = l.after;
      split = ap (◌∷◌ r) l.split;
      found = l.found;
      before_fresh = (h, l.before_fresh);
      after_fresh = l.after_fresh;
    })
  ]
]

-- What a predicate that implies the id does on rows without the id.
abbrev pub Implies : (JobRow → Bool) → String → Type 0
Implies p id = (r : JobRow) → has_id id r ≡ false → p r ≡ false

pub in_state-Implies : (id : String) (s : JobState) → Implies (in_state id s) id
unfolding in_state
in_state-Implies id s r h = rw h

pub has_id-Implies : (id : String) → Implies (has_id id) id
has_id-Implies id r h = h

module _ (id : String) (p : JobRow → Bool) (i : Implies p id) where
  pub keep-Fresh : (rows : List JobRow) → Fresh id rows → keep p rows ≡ []
  keep-Fresh [] f = refl
  keep-Fresh (r ∷ rows) f = rw (i r f.0) (keep-Fresh rows f.1)

  pub count_where-Fresh : (rows : List JobRow) → Fresh id rows → count_where p rows ≡ 0
  count_where-Fresh [] f = refl
  count_where-Fresh (r ∷ rows) f = rw (i r f.0) (omega (arith, count_where-Fresh rows f.1))

  pub map_where-Fresh :
      (g : JobRow → JobRow) (rows : List JobRow) → Fresh id rows → map_where p g rows ≡ rows
  map_where-Fresh g [] f = refl
  map_where-Fresh g (r ∷ rows) f = rw (i r f.0) (ap (◌∷◌ r) (map_where-Fresh g rows f.1))

  pub keep-split :
      (xs : List JobRow) (r : JobRow) (ys : List JobRow)
      → Fresh id xs
      → Fresh id ys
      → keep p (xs ++ r ∷ ys) ≡ (if p r then r ∷ [] else [])
  keep-split [] r ys fx fy = rw (keep-Fresh ys fy)
  keep-split (x ∷ xs) r ys fx fy = rw (i x fx.0) (keep-split xs r ys fx.1 fy)

  pub count_where-split :
      (xs : List JobRow) (r : JobRow) (ys : List JobRow)
      → Fresh id xs
      → Fresh id ys
      → count_where p (xs ++ r ∷ ys) ≡ (if p r then 1 else 0)
  count_where-split [] r ys fx fy = rw (count_where-Fresh ys fy) (omega arith)
  count_where-split (x ∷ xs) r ys fx fy =
      rw (i x fx.0) (omega (arith, count_where-split xs r ys fx.1 fy))

  pub map_where-split :
      (g : JobRow → JobRow) (xs : List JobRow) (r : JobRow) (ys : List JobRow)
      → Fresh id xs
      → Fresh id ys
      → map_where p g (xs ++ r ∷ ys) ≡ xs ++ (if p r then g r else r) ∷ ys
  map_where-split g [] r ys fx fy = rw (map_where-Fresh g ys fy)
  map_where-split g (x ∷ xs) r ys fx fy =
      rw (i x fx.0) (ap (◌∷◌ x) (map_where-split g xs r ys fx.1 fy))

-- Writes that keep the ids keep the key.
pub Fresh-map_where :
    (id : String) (p : JobRow → Bool) (g : JobRow → JobRow)
    → ((r : JobRow) → (g r).job_id ≡ r.job_id)
    → (rows : List JobRow) → Fresh id rows
    → Fresh id (map_where p g rows)
Fresh-map_where id p g k [] f = tt
Fresh-map_where id p g k (r ∷ rows) f =
    (ground (arith, k r, f.0), Fresh-map_where id p g k rows f.1)

pub Distinct-map_where :
    (p : JobRow → Bool) (g : JobRow → JobRow)
    → ((r : JobRow) → (g r).job_id ≡ r.job_id)
    → (rows : List JobRow) → Distinct rows
    → Distinct (map_where p g rows)
Distinct-map_where p g k [] d = tt
Distinct-map_where p g k (r ∷ rows) d = elim (Bool-cases (p r)) [
  | inl e ↦ rw (e, k r) (Fresh-map_where r.job_id p g k rows d.0, Distinct-map_where p g k rows d.1)
  | inr e ↦ rw e (Fresh-map_where r.job_id p g k rows d.0, Distinct-map_where p g k rows d.1)
]

pub keep-Located :
    (id : String) (rows : List JobRow) (l : Located id rows) → keep (has_id id) rows ≡ l.row ∷ []
keep-Located id rows l = rw (
  l.split,
  keep-split id (has_id id) (has_id-Implies id) l.before l.row l.after l.before_fresh l.after_fresh,
  l.found,
)

pub Fresh-not-Located : (id : String) (rows : List JobRow) → Fresh id rows → Located id rows → ⊥
Fresh-not-Located id rows f l =
    cc (keep-Located id rows l, keep-Fresh id (has_id id) (has_id-Implies id) rows f)

-- The row is the only one.
pub Located-row : (id : String) (rows : List JobRow) (k l : Located id rows) → k.row ≡ l.row
Located-row id rows k l = cc (keep-Located id rows k, keep-Located id rows l)

in_state_found :
    (id : String) (rows : List JobRow) (l : Located id rows) (s : JobState)
    → in_state id s l.row ≡ same l.row.state s
unfolding in_state
in_state_found id rows l s = rw l.found

-- The count and the write of a compare-and-set, at the one row.
pub count_where-Located :
    (id : String) (rows : List JobRow) (l : Located id rows) (s : JobState)
    → count_where (in_state id s) rows ≡ (if same l.row.state s then 1 else 0)
count_where-Located id rows l s = rw (
  l.split,
  count_where-split id (in_state id s) (in_state-Implies id s) l.before l.row l.after l.before_fresh
      l.after_fresh,
  in_state_found id rows l s,
)

pub map_where-Located :
    (id : String) (rows : List JobRow) (l : Located id rows) (s : JobState) (g : JobRow → JobRow)
    → map_where (in_state id s) g rows
      ≡ l.before ++ (if same l.row.state s then g l.row else l.row) ∷ l.after
map_where-Located id rows l s g = rw (
  l.split,
  map_where-split id (in_state id s) (in_state-Implies id s) g l.before l.row l.after l.before_fresh
      l.after_fresh,
  in_state_found id rows l s,
)

-- A replaced row is where the old one was.
unfoldable pub replaced :
    (id : String) (rows : List JobRow) (l : Located id rows) (row : JobRow)
    → row.job_id ≡ l.row.job_id
    → Located id (l.before ++ row ∷ l.after)
replaced id rows l row same_id = record {
  before = l.before;
  row = row;
  after = l.after;
  split = refl;
  found = rw same_id l.found;
  before_fresh = l.before_fresh;
  after_fresh = l.after_fresh;
}
