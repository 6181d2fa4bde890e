-- ===== src/Memory.antt =====
-- kernel/memory: the frames of the memory, the page tables, and the heap of the kernel.
pub mod Frames
pub mod Paging
pub mod Heap
mod Tests
