-- ===== src/Memory.antt =====
-- The long-term memory of backend/services/memory_service.py and backend/api/v1/memories.py.
pub mod Keys
pub mod Extract
pub mod Store
pub mod Turn
pub mod Routes
pub mod Steps
pub mod Isolation
pub mod Removal
