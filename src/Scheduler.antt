-- ===== src/Scheduler.antt =====
-- internal/scheduler: the queue, gangs, preemption and rebalancing.
pub mod Rebalancer
pub mod Pod
pub mod Gang
pub mod Queue
pub mod Preemption
pub mod Disagg
pub mod Watcher
pub mod Injector
