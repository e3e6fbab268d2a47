-- ===== src/Examples.antt =====
-- Concrete inputs on which the theorems' hypotheses hold, by the component they are about.
mod Breaker
mod Registry
mod Rings
mod Balance
mod Requests
mod Server
mod Members
mod Completions
