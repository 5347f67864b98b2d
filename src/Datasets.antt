-- ===== src/Datasets.antt =====
-- cad2ml/datasets/builder.py: which samples a dataset takes, how it splits them, and how it is stored.
pub mod Clusters
pub mod Saving
pub mod Selection
pub mod Splits
