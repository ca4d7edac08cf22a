-- ===== src/Chat.antt =====
-- The chat of backend/services/chat_service.py, with the cache, the rate limit and the lock of
-- backend/services/cache_service.py, and the sessions of backend/api/v1/sessions.py.
pub mod Cache
pub mod Service
pub mod Sessions
pub mod Changes
