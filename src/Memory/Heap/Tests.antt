-- ===== src/Memory/Heap/Tests.antt =====
-- The theorems of the heap at a heap of a page with two blocks.
use deprecat_os.Prelude.{ℕ, refl, true, false, [], ◌∷◌, arith, ◌==◌, if◌then◌else◌}
use deprecat_os.Memory.Heap.{Heap, kfree}
use deprecat_os.Memory.Heap.Blocks.{Block, Tiled, IsHeap, used, end_at}
use deprecat_os.Memory.Heap.Answers.{Answers}
use deprecat_os.Memory.Heap.Free.{Freed, kfree_lem}

-- 100 bytes in use at 268435464, then 3980 free bytes at 268435572. The table at 8192 stands in the
-- directory at 4096 for the 4 MiB from HEAP_START on, and its first entry maps the page of the heap.
abbrev word : ℕ → ℕ
word a =
    if a == 268435456
    then 100
    else if a == 268435564
    then 3980
    else if a == 268435568
    then 1
    else if a == 4352
    then 8195
    else if a == 8192
    then 12291
    else 0

abbrev heap : Heap
heap = record {
  machine = record { frames = λ k. if k == 0 then 1 else 0; kernel_dir = 4096; word = word };
  heap_start = 268435456;
  heap_end = 268439552;
}

abbrev in_use : Block
in_use = record { size = 100; free = false }

abbrev left : Block
left = record { size = 3980; free = true }

heap-IsHeap : IsHeap heap (in_use ∷ left ∷ [])
unfolding Tiled
heap-IsHeap = record {
  tiled = (refl, refl, refl, (refl, refl, refl, refl));
  start = refl;
  pages = refl;
  below = omega arith;
  room = omega arith;
  low = record { aligned = refl; low = omega arith };
}

abbrev limit : ℕ
limit = 272629760

kfree_lem_example : Freed heap (kfree 268435464 heap) []
unfolding used end_at
kfree_lem_example = kfree_lem heap [] in_use (left ∷ []) heap-IsHeap
