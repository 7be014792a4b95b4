-- ===== src/Gaudi.antt =====
-- The Gaudi driver: cmd/kubelet-gaudi-plugin with pkg/gaudi.
pub mod Types
pub mod Discovery
pub mod Cdi
pub mod Node
pub mod Health
pub mod Driver
mod Tests
