-- ===== src/Documents.antt =====
-- The uploads of backend/tasks: the records of the documents and the task that indexes a PDF.
pub mod Records
pub mod Tasks
pub mod Routes
