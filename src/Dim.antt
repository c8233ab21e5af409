-- ===== src/Dim.antt =====
-- hdm-dim2/dim2_hal.c, the hardware abstraction layer of the MediaLB device: buffer sizes, the
-- allocator of its buffer memory (DBR), the two buffer slots of a channel, and the fill state of the
-- asynchronous Tx channel.
pub mod Types
pub mod Sizes
pub mod Channel
pub mod Memory
pub mod Init
pub mod Irq
