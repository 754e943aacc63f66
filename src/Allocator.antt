-- ===== src/Allocator.antt =====
-- internal/allocator: how jobs get GPUs.
pub mod Errors
pub mod Eligible
pub mod Fifo
pub mod BinPack
pub mod Routing
pub mod Strategy
pub mod GangMultiPod
pub mod Managed
