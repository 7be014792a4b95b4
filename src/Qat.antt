-- ===== src/Qat.antt =====
-- The QAT driver: pkg/qat/device and cmd/kubelet-qat-plugin.
pub mod Services
pub mod Types
pub mod Sysfs
pub mod Scan
pub mod Alloc
pub mod Reconfig
pub mod Cdi
pub mod Plugin
pub mod Driver
mod Tests
