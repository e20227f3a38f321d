-- ===== src/Middleware.antt =====
-- internal/middleware: the gateway's HTTP middleware, one module for each file.
pub mod Chain
pub mod Writer
pub mod Security
pub mod Input
pub mod Errors
pub mod Correlation
pub mod Observe
