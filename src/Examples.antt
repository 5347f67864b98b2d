-- ===== src/Examples.antt =====
-- Concrete runs of the jobs of cad2ml/jobs and apps/worker/main.py.
mod Scenes
mod Jobs
mod Worker
mod Pipeline
mod Isolation
mod Metrics
mod Numbers
mod Uploads
mod Recognizer
mod Datasets
