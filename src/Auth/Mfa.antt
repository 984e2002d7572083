-- ===== src/Auth/Mfa.antt =====
-- backend/app/services/mfa_service.py: the second factor. What pyotp, HMAC, SHA-256 and the
-- encryption of the secrets compute is a parameter, `MfaCrypto`. The login challenges stand here,
-- the factors in `Factors` and the management of the method in `Manage`.
pub mod Factors
pub mod Challenges
pub mod Manage
pub mod Attempts
pub mod Single
pub mod Counters
pub mod Codes
pub mod Removal
