-- ===== src/Accounts.antt =====
-- Accounts: backend/services/auth_service.py, backend/api/deps.py and backend/api/v1/auth.py.
pub mod Passwords
pub mod Tokens
pub mod Service
pub mod Access
pub mod Laws
pub mod RoundTrip
pub mod Guard
