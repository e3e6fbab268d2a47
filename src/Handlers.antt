-- ===== src/Handlers.antt =====
-- xpyd/routes/completions.py: the handlers of the completion requests, over the state of the proxy.
pub mod Upstream
pub mod Aggregated
pub mod Session
pub mod Transfer
pub mod Disaggregated
