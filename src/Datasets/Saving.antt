-- ===== src/Datasets/Saving.antt =====
-- The end of `build_dataset` in cad2ml/datasets/builder.py: a version of a dataset is written once. What is written
-- (the id is a digest of the content) and `json` are parameters.
use mathlib.Core.Path.{subst}
use cad2ml.Prelude.{
  ◌≡◌, refl, inl, inr, true, false, [], ◌∷◌, Option, none, some, String, str_eq, eq_iff,
  if◌then◌else◌, arith, Bool-cases,
}
use cad2ml.Storage.{ArtifactStore}
use cad2ml.Storage.Paths.{Path_, same_path, same_path_refl}

abbrev pub dataset_key : String → Path_
dataset_key id = "datasets" ∷ id ∷ "dataset.json" ∷ []

abbrev pub labels_key : String → Path_
labels_key id = "datasets" ∷ id ∷ "labels.json" ∷ []

-- What `json.dumps` and `json.loads` do, on the contents `C` of a dataset.
pub record JsonText (B C : Type 0) : Type 0 where
  pub dumps : C → B
  pub loads : B → Option C
  pub loads-dumps : (c : C) → loads (dumps c) ≡ some c

module _ {B C : Type 0} (st : ArtifactStore B) (json : JsonText B C) where
  -- The store after it, and what it returns; `none` is an error of reading.
  unfoldable pub save_dataset : String → B → C → st.State → st.State × Option C
  save_dataset id labels content s =
      if st.exists s (dataset_key id)
      then (s, elim (st.get_bytes s (dataset_key id)) [ none ↦ none | some b ↦ json.loads b ])
      else (
        st.put_bytes (dataset_key id) (json.dumps content) (st.put_bytes (labels_key id) labels s),
        some content,
      )

  -- The reading in `_dataset` of apps/api/main.py, under a key that the store allows: a dataset that does not
  -- exist is refused, `none`.
  unfoldable pub load_dataset : String → st.State → Option C
  load_dataset id s =
      if st.exists s (dataset_key id)
      then (elim (st.get_bytes s (dataset_key id)) [ none ↦ none | some b ↦ json.loads b ])
      else none

  same_path-id : (i j : String) → same_path (dataset_key i) (dataset_key j) ≡ str_eq i j
  unfolding same_path
  same_path-id i j = ground arith

  labels_apart : (i j : String) → same_path (labels_key i) (dataset_key j) ≡ false
  unfolding same_path
  labels_apart i j = ground arith

  -- A dataset version that did not exist is read back as it was saved.
  pub load-save :
      (id : String) (labels : B) (content : C) (s : st.State)
      → st.exists s (dataset_key id) ≡ false
      → load_dataset id (save_dataset id labels content s).0 ≡ some content
  unfolding save_dataset load_dataset
  load-save id labels content s h =
      let saved : st.State =
        st.put_bytes (dataset_key id) (json.dumps content)
          (st.put_bytes (labels_key id) labels s) in
      let found : st.get_bytes saved (dataset_key id) ≡ some (json.dumps content) =
        rw
          (
            st.get-put (dataset_key id) (dataset_key id) (json.dumps content)
                (st.put_bytes (labels_key id) labels s),
            same_path_refl (dataset_key id),
          )
          refl in
      rw (h, load_dataset, st.exists_file (dataset_key id) saved (json.dumps content) found, found)
        (json.loads-dumps content)

  -- The stored bytes of a dataset version are never changed, whichever dataset is saved after it.
  pub save_keeps :
      (id d : String) (labels b : B) (content : C) (s : st.State)
      → st.get_bytes s (dataset_key d) ≡ some b
      → st.get_bytes (save_dataset id labels content s).0 (dataset_key d) ≡ some b
  unfolding save_dataset
  save_keeps id d labels b content s h = elim (Bool-cases (st.exists s (dataset_key id))) [
    | inl e ↦ rw e h
    | inr e ↦
        rw
          (
            e,
            st.get-put (dataset_key id) (dataset_key d) (json.dumps content)
                (st.put_bytes (labels_key id) labels s),
            st.get-put (labels_key id) (dataset_key d) labels s,
            labels_apart id d,
            same_path-id id d,
          )
          (elim (Bool-cases (str_eq id d)) [
            | inl q ↦
                let gone : st.exists s (dataset_key d) ≡ false =
                  subst (λ z. st.exists s (dataset_key z) ≡ false) ((eq_iff id d).0 q) e in
                let there : st.exists s (dataset_key d) ≡ true =
                  st.exists_file (dataset_key d) s b h in
                ground arith
            | inr q ↦ rw q h
          ])
  ]
