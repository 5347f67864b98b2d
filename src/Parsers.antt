-- ===== src/Parsers.antt =====
-- cad2ml/parsers: work on untrusted geometry in a child process.
pub mod Isolation
