-- ===== src/Data.antt =====
-- The scripts of data/scripts that fill the tables of the catalog and of the policy documents.
pub mod Policies
pub mod PolicyStore
pub mod Batches
pub mod Listings
pub mod Embeddings
pub mod Pattern
pub mod Redaction
pub mod Boilerplate
pub mod Duplicates
pub mod Cleaning
pub mod Frames
