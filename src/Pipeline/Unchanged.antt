-- ===== src/Pipeline/Unchanged.antt =====
-- What the writes of cad2ml/pipeline.py leave unchanged in the store.
use cad2ml.Prelude.{
  Bool, true, false, not, ◌&&◌, ◌≡◌, refl, sym, ◌∙◌, [], ◌∷◌, ◌++◌, some, String, Bool-cases,
  Option-cases, inl, inr, arith,
}
use cad2ml.Storage.{ArtifactStore}
use cad2ml.Storage.Paths.{Path_, same_path, is_under, is_under-append}
use cad2ml.Pipeline.{Env, Fresh, manifest_key, sample_dir}
use cad2ml.Pipeline.Process.{Site, clean, supersede, superseded_key}

module _ {B X : Type 0} (st : ArtifactStore B) (env : Env B X st) (fresh : Fresh) (j : Path_) where
  -- The file at `j` reads the same before and after.
  abbrev pub Same : st.State → st.State → Type 0
  Same s s' = st.get_bytes s' j ≡ st.get_bytes s j

  pub put-Same :
      (k : Path_) (b : B) (s : st.State) → same_path k j ≡ false → Same s (st.put_bytes k b s)
  put-Same k b s h = rw (st.get-put k j b s, h) refl

  pub delete_prefix-Same :
      (p : Path_) (s : st.State) → is_under p j ≡ false → Same s (st.delete_prefix p s)
  delete_prefix-Same p s h = rw (st.get-delete p j s, h) refl

  pub clean-Same :
      (p : Path_) (w : Site st) → is_under p j ≡ false → Same w.store (clean st p w).store
  unfolding clean
  clean-Same p w a = elim (Bool-cases (st.exists w.store p)) [
    | inl h ↦ rw (h, clean) (delete_prefix-Same p w.store a)
    | inr h ↦ rw (h, clean) refl
  ]

  pub promote-Same :
      (src dst : Path_) (s s' : st.State)
      → is_under src j ≡ false
      → is_under dst j ≡ false
      → is_under src dst ≡ false
      → is_under dst src ≡ false
      → st.exists s src ≡ true
      → st.promote_prefix src dst s ≡ some s'
      → Same s s'
  promote-Same src dst s s' a b p q here_ h = elim (Bool-cases (st.exists s dst)) [
    | inl e ↦
        let (t, r, same) = st.promote_taken src dst s e in rw (← some_eq (sym r ∙ h)) (same j a)
    | inr e ↦
        let (t, r, gone, same) = st.promote_moved src dst s e here_ p q in
        rw (← some_eq (sym r ∙ h)) (same j ∙ rw (b, a) refl)
  ]
    where
      some_eq : {x y : st.State} → some x ≡ some y → x ≡ y
      some_eq e = cc

  pub supersede-Same :
      (reuse : Bool) (id : String) (w w' : Site st)
      → is_under (sample_dir id) j ≡ false
      → ((x : String) → is_under ("superseded" ∷ x ∷ []) j ≡ false)
      → supersede st env fresh reuse id w ≡ some w'
      → Same w.store w'.store
  unfolding supersede manifest_key is_under
  supersede-Same reuse id w w' a b q =
      elim (Bool-cases (not reuse && st.exists w.store (manifest_key id))) [
        | inr h ↦ cc (rw (h, supersede) at q)
        | inl h ↦
            elim (Option-cases
              (st.promote_prefix (sample_dir id) (superseded_key st env fresh id) w.store)) [
                | inl n ↦ cc (rw (h, n, supersede) at q)
                | inr (s, n) ↦
                    let same =
                      promote-Same (sample_dir id) (superseded_key st env fresh id) w.store s a
                        (b _) refl refl
                        (st.exists_under (sample_dir id) (manifest_key id) w.store
                          (is_under-append (sample_dir id) ("manifest.json" ∷ [])) (ground arith))
                        n in
                    rw (← some_site (rw (h, n, supersede) at q)) same
              ]
      ]
    where
      some_site : {x y : Site st} → some x ≡ some y → x ≡ y
      some_site e = cc

module _ {B X : Type 0} (st : ArtifactStore B) (env : Env B X st) (fresh : Fresh) where
  -- Once the manifest is staged, the staging directory is there.
  pub staged_exists :
      (p : Path_) (b : B) (s : st.State)
      → st.get_bytes s (p ++ "manifest.json" ∷ []) ≡ some b
      → st.exists s p ≡ true
  staged_exists p b s h =
      st.exists_under p (p ++ "manifest.json" ∷ []) s (is_under-append p ("manifest.json" ∷ []))
        (st.exists_file (p ++ "manifest.json" ∷ []) s b h)
