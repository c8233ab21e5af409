-- ===== src/Core.antt =====
-- mostcore/core.c, the core module: the buffer pool of each channel and the calls that the hardware
-- and application modules make into it.
pub mod Types
pub mod Text
pub mod Sysfs
pub mod Registry
pub mod Channel
pub mod Run
pub mod System
