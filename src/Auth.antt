-- ===== src/Auth.antt =====
-- backend/src/auth: signing in with a wallet.
pub mod Challenge
mod Tests
