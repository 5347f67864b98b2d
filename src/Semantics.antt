-- ===== src/Semantics.antt =====
-- cad2ml/semantics: from canonical faces and edges to features.
pub mod Recognize
pub mod Records
pub mod Rules
pub mod Context
pub mod Walks
