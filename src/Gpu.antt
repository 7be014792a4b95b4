-- ===== src/Gpu.antt =====
-- The GPU driver: cmd/kubelet-gpu-plugin with pkg/gpu and pkg/vfio.
pub mod Types
pub mod Health
pub mod Xpumd
pub mod Models
pub mod Sysfs
pub mod Probe
pub mod Memory
pub mod Sriov
pub mod Mei
pub mod Discovery
pub mod Cdi
pub mod Claims
pub mod Binding
pub mod Node
pub mod Resources
pub mod Refresh
pub mod Streams
pub mod Watch
pub mod Listen
pub mod Start
pub mod Driver
mod Tests
