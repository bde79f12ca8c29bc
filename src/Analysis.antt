-- ===== src/Analysis.antt =====
-- include/lucanthrope/analysis: tokens, tokenizers, filters and analyzers.
pub mod Token
pub mod CharTokenizer
pub mod Filters
pub mod Analyzers
