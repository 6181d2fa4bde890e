-- ===== src/Memory/Heap.antt =====
-- kernel/memory/heap/kernelHeap.c: the blocks of the kernel's heap, one behind the other from
-- `heap_start` to `heap_end`. A block is its `BlockHeader`, of two words, and `size` bytes behind it.
pub mod Blocks
pub mod Pages
pub mod Mapped
pub mod Grow
pub mod Find
pub mod Reach
pub mod Answers
pub mod Alloc
pub mod Free
mod Tests
use deprecat_os.Prelude.{
  ℕ, zero, suc, ◌+◌, ◌-◌, ◌*◌, ◌/◌, ◌%◌, ◌^◌, bit_or, Bool, true, false, not, ◌&&◌, ◌==◌, ltb, leb,
  write, if◌then◌else◌,
}
use deprecat_os.Memory.Frames.{alloc_frame, free_frame}
use deprecat_os.Memory.Paging.{
  Machine, kernel_ceiling, heap_start_addr, page_present, page_rw, map_kernel_page,
}

-- HEAP_END_MIN, FRAME_SIZE_BYTES and `sizeof(BlockHeader)`
abbrev pub heap_end_min : ℕ
heap_end_min = 268439552

abbrev pub frame_size : ℕ
frame_size = 4096

abbrev pub header_size : ℕ
header_size = 8

pub record Heap : Type 0 where
  pub machine : Machine
  pub heap_start : ℕ
  pub heap_end : ℕ

abbrev pub size_at : (ℕ → ℕ) → ℕ → ℕ
size_at w h = w h

abbrev pub free_at : (ℕ → ℕ) → ℕ → Bool
free_at w h = not (w (h + 4) == 0)

-- A header written whole.
unfoldable pub put_header : ℕ → ℕ → ℕ → (ℕ → ℕ) → ℕ → ℕ
put_header h size is_free w = write (write w h size) (h + 4) is_free

abbrev pub with_words : Heap → (ℕ → ℕ) → Heap
with_words p w = record p { machine = record p.machine { word = w } }

unfoldable pub heap_init : Machine → Heap
unfolding put_header
heap_init m =
    let (frame, frames) = alloc_frame m.frames in
    let m' =
      map_kernel_page heap_start_addr frame (bit_or page_present page_rw)
        (record m { frames = frames }) in
    record {
      machine = record m' {
        word = put_header heap_start_addr (frame_size - header_size) 1 m'.word;
      };
      heap_start = heap_start_addr;
      heap_end = heap_end_min;
    }

-- What the loop of `kmalloc` comes to: a block that fits, or none, with the last block.
pub data Fit : Type 0 where
  fits : ℕ → Fit
  none_fits : ℕ → Fit

-- The loop, on fuel, with `h` as the round before left it.
unfoldable pub find_fit : ℕ → (ℕ → ℕ) → ℕ → ℕ → ℕ → ℕ → Fit
find_fit zero w heap_end wanted cursor h = none_fits h
find_fit (suc fuel) w heap_end wanted cursor h =
    let rest =
      find_fit fuel w heap_end wanted ((cursor + (header_size + size_at w cursor)) % 2 ^ 32)
        cursor in
    if not (ltb cursor heap_end)
    then none_fits h
    else if free_at w cursor && leb wanted (size_at w cursor)
    then fits cursor
    else rest

-- The block is taken, and what is left of it becomes a block of its own if a header fits.
unfoldable pub take_block : ℕ → ℕ → (ℕ → ℕ) → ℕ → ℕ
unfolding put_header
take_block cursor wanted w =
    let left = size_at w cursor - wanted in
    let split =
      write (put_header (cursor + header_size + wanted) (left - header_size) 1 w) cursor wanted in
    if ltb header_size left then write split (cursor + 4) 0 else write w (cursor + 4) 0

-- The loop that maps the new pages, `left` of them from `i` on, each to the frame `frame`: the heap
-- and the frame that is left over, 0 if there was none. Where `map_kernel_page` finds no frame for a
-- page table the page is not mapped, and an access to it is a page fault that the words of the
-- model do not show.
unfoldable pub map_pages : ℕ → ℕ → ℕ → Heap → ℕ × Heap
map_pages zero i frame p = (frame, p)
map_pages (suc left) i frame p =
    let m' = map_kernel_page i frame (bit_or page_present page_rw) p.machine in
    let (frame', frames) = alloc_frame m'.frames in
    let p' : Heap = record p { machine = record m' { frames = frames } } in
    let rest = map_pages left (i + 4096) frame' p' in
    if ltb (kernel_ceiling - 4096) i
    then (frame, p)
    else if frame' == 0
    then (0, record p' { heap_end = i + 4096 })
    else rest

-- The end of the heap below the ceiling, and the frame that is left over given back.
unfoldable pub settle : ℕ × Heap → Heap
settle (frame, p) =
    let end = if ltb kernel_ceiling p.heap_end then kernel_ceiling else p.heap_end in
    let frames = if frame == 0 then p.machine.frames else free_frame frame p.machine.frames in
    record p { machine = record p.machine { frames = frames }; heap_end = end }

-- The new bytes go to the last block if it is free, else they become a block.
unfoldable pub append_free : ℕ → ℕ → Heap → Heap
unfolding put_header
append_free h old_heap_end p =
    let w = p.machine.word in
    let more = p.heap_end - old_heap_end in
    with_words p (
      if free_at w h
      then write w h ((size_at w h + more) % 2 ^ 32)
      else put_header old_heap_end (more - header_size) 1 w)

-- The heap grows to twice its length, as far as there are frames; `frame` is the first of them.
unfoldable pub grow : ℕ → ℕ → Heap → Heap
unfolding map_pages settle append_free
grow h frame p =
    let growth = p.heap_end - p.heap_start in
    let grown : Heap = record p { heap_end = (p.heap_end + growth) % 2 ^ 32 } in
    append_free h p.heap_end (settle (map_pages (growth / 4096) p.heap_end frame grown))

-- The first frame for a growth: 0 if there is none, or no room below the ceiling.
unfoldable pub first_frame : Heap → ℕ × Heap
first_frame p =
    let (frame, frames) = alloc_frame p.machine.frames in
    if ltb p.heap_end (kernel_ceiling - 4096)
    then (frame, record p { machine = record p.machine { frames = frames } })
    else (0, p)

abbrev pub wanted_of : ℕ → ℕ
wanted_of size = (size + 3) % 2 ^ 32 / 4 * 4

abbrev pub case_fit {ℓ} : {A : Type ℓ} → Fit → (ℕ → A) → (ℕ → A) → A
case_fit (fits c) f g = f c
case_fit (none_fits h) f g = g h

-- A round of `kmalloc`, with the call of itself after a growth.
unfoldable pub kmalloc_round : ℕ → (Heap → ℕ × Heap) → Heap → ℕ × Heap
unfolding find_fit take_block grow first_frame
kmalloc_round size next p =
    let w = p.machine.word in
    case_fit (find_fit (p.heap_end - p.heap_start) w p.heap_end (wanted_of size) p.heap_start 0)
      (λ c. (c + header_size, with_words p (take_block c (wanted_of size) w)))
      (λ h.
        let (frame, p') = first_frame p in if frame == 0 then (0, p') else next (grow h frame p'))

-- `kmalloc`, on fuel: a growth adds a page at least.
unfoldable pub kmalloc_on : ℕ → ℕ → Heap → ℕ × Heap
unfolding kmalloc_round
kmalloc_on zero size p = (0, p)
kmalloc_on (suc fuel) size p = kmalloc_round size (kmalloc_on fuel size) p

unfoldable pub kmalloc : ℕ → Heap → ℕ × Heap
unfolding kmalloc_on
kmalloc size p = kmalloc_on ((kernel_ceiling - p.heap_end) / 4096 + 1) size p

-- The loop of `kfree`, on fuel: the free blocks behind the block at `h` are joined to it.
unfoldable pub join_loop : ℕ → ℕ → ℕ → (ℕ → ℕ) → ℕ → ℕ
join_loop zero heap_end h w = w
join_loop (suc fuel) heap_end h w =
    let c = (h + header_size + size_at w h) % 2 ^ 32 in
    let rest =
      join_loop fuel heap_end h
        (write w h ((size_at w h + (size_at w c + header_size)) % 2 ^ 32)) in
    if ltb c heap_end && free_at w c then rest else w

unfoldable pub kfree : ℕ → Heap → Heap
unfolding join_loop
kfree ptr p =
    let h = ptr - header_size in
    let w = write p.machine.word (h + 4) 1 in
    if ptr == 0 then p else with_words p (join_loop (p.heap_end - p.heap_start) p.heap_end h w)
