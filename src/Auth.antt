-- ===== src/Auth.antt =====
-- internal/auth: who sends a request, and whether the route lets them in.
pub mod Errors
pub mod Samples
pub mod Context
pub mod Policy
pub mod Extractor
pub mod Jwt
pub mod Revocation
pub mod Handler
