-- ===== src/Examples/Datasets.antt =====
-- Runs of cad2ml/datasets/builder.py on three samples, two of which are near duplicates in different groups.
use cad2ml.Prelude.{ℕ, zero, suc, ◌≡◌, refl, true, false, List, [], ◌∷◌, none, some, String, All}
use cad2ml.Prelude.Forest.{find, union, unions}
use cad2ml.Semantics.Records.{default}
use cad2ml.Storage.{ArtifactStore}
use cad2ml.Storage.Local.{Files, local_store}
use cad2ml.Storage.Paths.{same_path}
use cad2ml.Datasets.Clusters.{Signature, union_all}
use cad2ml.Datasets.Splits.{
  Member, Placed, split_samples, cluster_pairs, units_from, place, assign_splits, split_families,
  split_units, split_at, check_leakage,
}
use cad2ml.Datasets.Splits.Leakage.{SetsJoined, sets_joined, split_samples-no_leak}
use cad2ml.Datasets.Splits.Together.{ShareSplit, near_duplicates_together}
use cad2ml.Datasets.Selection.{Entry, Versions, Truth, Selected, select}
use cad2ml.Datasets.Selection.Steps.{IsSigned}
use cad2ml.Datasets.Selection.Sound.{IsSelection, select-IsSelection}
use cad2ml.Datasets.Saving.{
  JsonText, dataset_key, save_dataset, load_dataset, load-save, save_keeps,
}
use cad2ml.Examples.Numbers.{naturals}

-- A generator that never moves anything.

abbrev in_order : Unit {0} → ℕ → List ℕ × Unit {0}
in_order g zero = ([], g)
in_order g (suc zero) = (0 ∷ [], g)
in_order g (suc (suc zero)) = (0 ∷ 1 ∷ [], g)
in_order g _ = (0 ∷ 1 ∷ 2 ∷ [], g)

abbrev members : List Member
members =
    record { sample_id = "a"; group = "bracket/1"; family = "bracket" }
    ∷ record { sample_id = "b"; group = "bracket/2"; family = "bracket" }
    ∷ record { sample_id = "c"; group = "bracket/3"; family = "bracket" }
    ∷ []

abbrev clusters : List (List String)
clusters = ("a" ∷ "c" ∷ []) ∷ []

abbrev placed : List Placed
placed = default [] (split_samples in_order tt false clusters members)

split_returns : split_samples in_order tt false clusters members ≡ some placed
unfolding split_samples cluster_pairs union_all unions union find units_from assign_splits
    split_families split_units split_at place
split_returns = refl

split_samples-no_leak_example :
    (check_leakage placed (λ s. s.split_unit) ≡ [])
    × (false ≡ true → check_leakage placed (λ s. s.member.family) ≡ [])
split_samples-no_leak_example =
    split_samples-no_leak in_order tt false clusters members placed split_returns

near_duplicates_together_example :
    All (λ s. All (λ t. All (ShareSplit in_order s t) clusters) placed) placed
near_duplicates_together_example =
    near_duplicates_together in_order tt clusters members placed (refl, (refl, (refl, tt)))
      split_returns

abbrev some_pairs : List (String × String)
some_pairs = ("a", "c") ∷ ("c", "d") ∷ []

sets_joined_example : SetsJoined some_pairs
sets_joined_example = sets_joined some_pairs

abbrev signature_of : ℕ → Signature naturals
signature_of n = record { volume = n; area = n; dims = (n, (n, n)) }

abbrev entry : String → String → Entry naturals
entry id sha = record {
  sample_id = id;
  filename = "part.step";
  sha256 = sha;
  status = "completed";
  rejection_code = none;
  configuration_hash = "c";
  pipeline_version = "p";
  schema_version = "s";
  artifacts =
      "brep" ∷ "graph" ∷ "pointcloud" ∷ "mesh" ∷ "views" ∷ "cameras" ∷ "features" ∷ "lineage" ∷ [];
  signature = some (signature_of 1);
}

abbrev versions : Versions
versions = record { configuration_hash = "c"; pipeline_version = "p"; schema_version = "s" }

abbrev truths : List (String × Truth)
truths = ("x", record { family = "bracket"; group = "bracket/1" }) ∷ []

-- The second manifest repeats the source of the first.
abbrev entries : List (Entry naturals)
entries = entry "a" "x" ∷ entry "b" "x" ∷ entry "c" "y" ∷ []

entries-IsSigned : All (IsSigned naturals versions truths) entries
entries-IsSigned =
    (λ a. (signature_of 1, refl), (λ a. (signature_of 1, refl), (λ a. (signature_of 1, refl), tt)))

select-IsSelection_example :
    (out : Selected naturals versions truths) × (select naturals versions truths entries ≡ some out)
    × IsSelection naturals versions truths entries out
select-IsSelection_example =
    select-IsSelection naturals versions truths entries ((refl, (refl, tt)), ((refl, tt), (tt, tt)))
      entries-IsSigned

abbrev same_json : JsonText String String
same_json = record { dumps = λ c. c; loads = λ b. some b; loads-dumps = λ c. refl }

load-save_example :
    load_dataset
      (local_store String)
      same_json
      "ds"
      (save_dataset (local_store String) same_json "ds" "labels" "content" []).0
    ≡ some "content"
load-save_example = load-save (local_store String) same_json "ds" "labels" "content" [] refl

abbrev stored : Files String
stored = (dataset_key "ds", "first") ∷ []

stored-ds : ArtifactStore.get_bytes (local_store String) stored (dataset_key "ds") ≡ some "first"
unfolding same_path
stored-ds = refl

save_keeps_example :
    ArtifactStore.get_bytes
      (local_store String)
      (save_dataset (local_store String) same_json "ds" "labels" "second" stored).0
      (dataset_key "ds")
    ≡ some "first"
save_keeps_example =
    save_keeps (local_store String) same_json "ds" "ds" "labels" "first" "second" stored stored-ds
