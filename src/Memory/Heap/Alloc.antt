-- ===== src/Memory/Heap/Alloc.antt =====
-- `kmalloc` on a heap of blocks.
use deprecat_os.Memory.Frames.{Frames}
use deprecat_os.Memory.Heap.{Heap}
use deprecat_os.Memory.Heap.Answers.{Answers}
