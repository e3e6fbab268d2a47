-- ===== src/Scheduler.antt =====
-- xpyd/scheduler: the scheduling policies.
pub mod Ring
pub mod CacheAware
pub mod ConsistentHash
pub mod LoadBalanced
pub mod RoundRobin
pub mod PowerOfTwo
