-- ===== src/Auth.antt =====
-- backend/app/auth.py: login, one-time codes, refresh sessions and the users behind them.
pub mod Store
pub mod Session
pub mod Login
pub mod Scope
