-- ===== src/Guards.antt =====
-- backend/app/security/request_limits.py: the limit on the bytes of a request's body; and
-- is_statement_timeout_error of backend/app/services/public_query_security.py.
pub mod Body
pub mod Limited
pub mod Timeouts
pub mod Visits
pub mod Refers
pub mod Found
pub mod Examples
