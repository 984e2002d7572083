-- ===== src/Auth.antt =====
-- The account services of backend/app/services and backend/app/auth.
pub mod Store
pub mod Jwt
pub mod Issue
pub mod Examples
pub mod Sessions
pub mod Accounts
pub mod Passwords
pub mod Mfa
pub mod Oauth
pub mod Account
