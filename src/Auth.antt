-- ===== src/Auth.antt =====
-- Authentication: backend/app/routers/auth.py and the services that it uses.
pub mod RefreshTokens
pub mod Accounts
pub mod Mfa
pub mod Sessions
pub mod Passwords
pub mod Invitations
