-- ===== src/Memory/Paging.antt =====
-- kernel/memory/paging/paging.c: page directory and page tables. Memory is words of 32 bits by their
-- addresses. Below HEAP_START, where the tables lie, every page is mapped to the frame of the same
-- address; the words of a page from HEAP_START on are those of the frame it is mapped to.
pub mod Keeps
pub mod Mapped
use deprecat_os.Prelude.{
  ℕ, zero, suc, ◌+◌, ◌-◌, ◌*◌, ◌/◌, ◌%◌, ◌^◌, min, bit_and, bit_or, Bool, true, false, not, ◌||◌,
  List, [], ◌∷◌, write, ◌==◌, ltb, leb, if◌then◌else◌,
}
use deprecat_os.Memory.Frames.{Frames, Entry, clipped, alloc_frame, free_frame}

-- PAGE_PRESENT, PAGE_RW and PAGE_USER
abbrev pub page_present : ℕ
page_present = 1

abbrev pub page_rw : ℕ
page_rw = 2

abbrev pub page_user : ℕ
page_user = 4

-- KERNEL_CEILING and HEAP_START
abbrev pub kernel_ceiling : ℕ
kernel_ceiling = 1073741824

abbrev pub heap_start_addr : ℕ
heap_start_addr = 268435456

-- The bitmap of the frames, `kernel_dir`, and the words.
pub record Machine : Type 0 where
  pub frames : Frames
  pub kernel_dir : ℕ
  pub word : ℕ → ℕ

abbrev pub store : ℕ → ℕ → Machine → Machine
store a v m = record m { word = write m.word a v }

-- `x & flag` as a test, for a flag of one bit, and `x & ~0xFFF`
abbrev pub has_flag : ℕ → ℕ → Bool
has_flag x flag = not (bit_and x flag == 0)

abbrev pub frame_of : ℕ → ℕ
frame_of x = x / 4096 * 4096

-- The address of the entry of a page in the directory, and in a table.
abbrev pub dir_entry : ℕ → ℕ → ℕ
dir_entry dir virt = dir + 4 * (virt / 2 ^ 22)

abbrev pub table_entry : ℕ → ℕ → ℕ
table_entry table virt = table + 4 * (virt / 2 ^ 12 % 1024)

abbrev pub is_outside : ℕ → Bool
is_outside addr = leb heap_start_addr addr || addr == 0

-- The loop that clears a table or a directory, `left` entries from `i` on.
unfoldable pub clear_table : ℕ → ℕ → ℕ → (ℕ → ℕ) → ℕ → ℕ
clear_table table zero i w = w
clear_table table (suc left) i w = clear_table table left (i + 1) (write w (table + 4 * i) 0)

-- A table for a page that has none, from the frame that `alloc_frame` returned; `false` when there
-- was no frame, or none that is mapped.
unfoldable pub add_table : ℕ → ℕ → ℕ → Machine → Bool × Machine
unfolding clear_table
add_table dir virt table_addr m =
    if table_addr == 0
    then (false, m)
    else if leb heap_start_addr table_addr
    then (false, record m { frames = free_frame table_addr m.frames })
    else (
      true,
      record m {
        word =
            write (clear_table table_addr 1024 0 m.word) (dir_entry dir virt)
              (bit_or table_addr (bit_or page_present page_rw));
      },
    )

unfoldable pub with_table : ℕ → ℕ → Machine → Bool × Machine
unfolding add_table
with_table dir virt m =
    let (table_addr, frames) = alloc_frame m.frames in
    if has_flag (m.word (dir_entry dir virt)) page_present
    then (true, m)
    else add_table dir virt table_addr (record m { frames = frames })

-- The entry of the page is set, if its table is one that is mapped.
unfoldable pub set_page : ℕ → ℕ → ℕ → ℕ → Machine → Machine
set_page dir virt phys flags m =
    let entry = m.word (dir_entry dir virt) in
    let w =
      if has_flag flags page_user
      then write m.word (dir_entry dir virt) (bit_or entry page_user)
      else m.word in
    let table = frame_of (w (dir_entry dir virt)) in
    if is_outside (frame_of entry)
    then m
    else record m { word = write w (table_entry table virt) (bit_or phys flags) }

unfoldable pub map_page : ℕ → ℕ → ℕ → ℕ → Machine → Machine
unfolding with_table set_page
map_page dir virt phys flags m =
    let (there, m') = with_table dir virt m in if there then set_page dir virt phys flags m' else m'

unfoldable pub map_kernel_page : ℕ → ℕ → ℕ → Machine → Machine
unfolding map_page
map_kernel_page virt phys flags m = map_page m.kernel_dir virt phys flags m

unfoldable pub unmap_kernel_page : ℕ → Machine → ℕ × Machine
unmap_kernel_page virt m =
    let entry = m.word (dir_entry m.kernel_dir virt) in
    let at = table_entry (frame_of entry) virt in
    if not (has_flag entry page_present)
    then (0, m)
    else if not (has_flag (m.word at) page_present)
    then (0, m)
    else (frame_of (m.word at), store at 0 m)

unfoldable pub track_ram_top : ℕ → ℕ → ℕ → ℕ → ℕ
track_ram_top base len type ram_top =
    let sum = (base + len) % 2 ^ 32 in
    let top = min (if ltb sum base then 4294967295 else sum) heap_start_addr in
    if not (type == 1)
    then ram_top
    else if ltb ram_top top || ltb heap_start_addr ram_top
    then top
    else ram_top

-- `mmap_walk(info, track_ram_top)`
unfoldable pub walk_ram : List Entry → ℕ → ℕ
unfolding track_ram_top
walk_ram [] top = top
walk_ram (e ∷ es) top =
    if not (e.base_hi == 0)
    then walk_ram es top
    else walk_ram es (track_ram_top e.base_lo (clipped e) e.type top)

-- The loop that maps each page to the frame of the same address, `left` pages from `a` on.
unfoldable pub identity_loop : ℕ → ℕ → Machine → Machine
unfolding map_page
identity_loop zero a m = m
identity_loop (suc left) a m =
    identity_loop left (a + 4096) (map_page m.kernel_dir a a (bit_or page_present page_rw) m)

-- `flags` says whether bit 6 is set; `ram_top` starts as 0.
unfoldable pub paging_init : Bool → List Entry → Machine → Machine
unfolding walk_ram identity_loop clear_table
paging_init flags es m =
    let (dir, frames) = alloc_frame m.frames in
    let ram_top = if flags then walk_ram es 0 else 0 in
    identity_loop ((ram_top - 1) / 4096) 4096
      (record { frames = frames; kernel_dir = dir; word = clear_table dir 1024 0 m.word })
