-- ===== src/Memory.antt =====
-- The kernel's memory: the segments of an address space, and the free page frames.
pub mod Segments
pub mod Paging
pub mod Frames
