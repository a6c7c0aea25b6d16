-- ===== src/Memory.antt =====
-- libcomm_utils/src/memory: the memory block and the ring buffer.
pub mod Block
pub mod Ring
