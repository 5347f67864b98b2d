-- ===== src/Storage.antt =====
-- The interface of cad2ml/storage/base.py: artifacts under keys, and what a reader finds after a write.
-- A key is the list of its segments.
pub mod Paths
pub mod Local
use cad2ml.Prelude.{◌≡◌, Bool, true, false, Option, none, some, if◌then◌else◌}
use Paths.{Path_, same_path, is_under, rebase}

-- What the pipeline uses of `ArtifactStore`. A key exists when it is a file or a directory; a
-- directory that holds a file exists. `promote_prefix` is `none` where `os.replace` raises.
pub record ArtifactStore (B : Type 0) : Type 1 where
  pub State : Type 0
  pub get_bytes : State → Path_ → Option B
  pub exists : State → Path_ → Bool
  pub put_bytes : Path_ → B → State → State
  pub delete_prefix : Path_ → State → State
  pub promote_prefix : Path_ → Path_ → State → Option State
  pub get-put :
      (k j : Path_) (b : B) (s : State)
      → get_bytes (put_bytes k b s) j ≡ (if same_path k j then some b else get_bytes s j)
  pub get-delete :
      (p j : Path_) (s : State)
      → get_bytes (delete_prefix p s) j ≡ (if is_under p j then none else get_bytes s j)
  pub exists_file : (j : Path_) (s : State) (b : B) → get_bytes s j ≡ some b → exists s j ≡ true
  pub exists_under :
      (p j : Path_) (s : State) → is_under p j ≡ true → exists s j ≡ true → exists s p ≡ true
  pub exists-put :
      (k p : Path_) (b : B) (s : State)
      → is_under p k ≡ false
      → exists (put_bytes k b s) p ≡ exists s p
  pub exists-delete : (p : Path_) (s : State) → exists (delete_prefix p s) p ≡ false
  -- A destination that exists is kept, and the source is discarded.
  pub promote_taken :
      (src dst : Path_) (s : State)
      → exists s dst ≡ true
      → (s' : State) × (promote_prefix src dst s ≡ some s')
        × ((j : Path_) → is_under src j ≡ false → get_bytes s' j ≡ get_bytes s j)
  -- Otherwise the files of the source are renamed.
  pub promote_moved :
      (src dst : Path_) (s : State)
      → exists s dst ≡ false
      → exists s src ≡ true
      → is_under src dst ≡ false
      → is_under dst src ≡ false
      → (s' : State) × (promote_prefix src dst s ≡ some s')
        × (exists s' src ≡ false)
        × ((j : Path_)
            → get_bytes s' j ≡ (
                if is_under dst j
                then get_bytes s (rebase dst src j)
                else if is_under src j
                then none
                else get_bytes s j))
