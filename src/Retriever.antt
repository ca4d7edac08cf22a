-- ===== src/Retriever.antt =====
-- backend/retriever.py, a module for each of its parts.
pub mod Clean
pub mod Chunking
pub mod Tokens
pub mod Ingest
pub mod Bm25
pub mod Store
pub mod Uploads
pub mod Rerank
pub mod Search
pub mod Saved
pub mod Startup
