-- ===== src/Retrieval.antt =====
-- retrieval/: the search over documents.
pub mod Sorting
pub mod PolicySearch
pub mod Search
