-- ===== src/SourceGraph.antt =====
-- source_graph_writer.py: the extraction output of one source, deduplicated, planned as a sequence
-- of bounded transactions, and written.
pub mod Types
mod Examples
pub mod Metadata
pub mod Dedupe
pub mod Plan
