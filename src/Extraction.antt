-- ===== src/Extraction.antt =====
-- The concept extraction of graphrag_handler.py: what a language model answers, read leniently,
-- checked for lost items, and turned into the state of a phase.
pub mod Json
pub mod Payload
pub mod Parse
pub mod Gate
pub mod Outcome
pub mod Selection
pub mod Phase
pub mod Examples
