-- ===== src/Worker.antt =====
-- server/src/worker: the workers that are known, and the choice of one of them.
pub mod Selector
pub mod LeastLoad
pub mod RoundRobin
pub mod Registry
pub mod Cooldown
pub mod Strategy
