-- ===== src/Completions.antt =====
-- xpyd/routes/completions.py: the handlers of the two completion endpoints.
pub mod Requests
pub mod Shapes
pub mod Tokens
