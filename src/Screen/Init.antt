-- ===== src/Screen/Init.antt =====
-- `fb_init` of kernel/drivers/fb/fbController.c, over the page tables and the heap. The cells of the
-- shadow and the history are arrays of their own, apart from the words of the heap they lie in.
use deprecat_os.Prelude.{
  ℕ, ◌+◌, ◌-◌, ◌*◌, ◌/◌, ◌%◌, ◌^◌, ◌≤◌, refl, bit_or, Bool, true, not, ◌||◌, Option, none, some,
  arith, ◌==◌, if◌then◌else◌,
}
use deprecat_os.Mem.{Memory, memset}
use deprecat_os.Memory.Paging.{Machine, has_flag, frame_of, page_present, page_rw, map_kernel_page}
use deprecat_os.Memory.Heap.{Heap, kmalloc}
use deprecat_os.Screen.Draw.{Cell, Geometry, Screen, glyph_width, glyph_height, blank, for_loop}
use deprecat_os.Screen.{history_lines, put_cell}
use deprecat_os.Screen.Pixels.{Fits}
use deprecat_os.Screen.Keeps.{Safe}

-- The fields of MBIInfo that are read.
pub record BootInfo : Type 0 where
  pub flags : ℕ
  pub addr_lo : ℕ
  pub addr_hi : ℕ
  pub pitch : ℕ
  pub width : ℕ
  pub height : ℕ
  pub bpp : ℕ
  pub type : ℕ

abbrev pub is_incompatible : BootInfo → Bool
is_incompatible info =
    not (has_flag info.flags 4096)
    || not (info.type == 1)
    || not (info.addr_hi == 0)
    || not (info.bpp == 32)

-- The end of the frame buffer, at the end of a page.
abbrev pub buffer_end : BootInfo → ℕ
buffer_end info = frame_of ((info.addr_lo + info.pitch * info.height + 4095) % 2 ^ 32)

-- The loop that maps the pages of the frame buffer.
unfoldable pub map_buffer : BootInfo → Machine → Machine
unfolding for_loop
map_buffer info m =
    let start = frame_of info.addr_lo in
    for_loop ((buffer_end info - start) / 4096) 0
      (λ k. let i = start + k * 4096 in map_kernel_page i i (bit_or page_present page_rw)) m

unfoldable pub geometry_of : BootInfo → (ℕ → ℕ) → Geometry
geometry_of info font = record {
  cols = info.width / glyph_width;
  rows = info.height / glyph_height;
  base = info.addr_lo;
  pitch = info.pitch;
  height = info.height;
  font = font;
}

-- The loops that clear the shadow.
unfoldable pub blank_cells : Geometry → (ℕ → Cell) → ℕ → Cell
unfolding for_loop
blank_cells g = for_loop g.rows 0 (λ r. for_loop g.cols 0 (λ c. put_cell (r * g.cols + c) blank))

-- `junk` is what the two arrays hold before, and `vram` the memory.
unfoldable pub first_screen : BootInfo → Geometry → (ℕ → Cell) × (ℕ → Cell) → Memory → Screen
unfolding blank_cells memset
first_screen info g junk vram = record {
  col = 0;
  row = 0;
  cursor_col = 0;
  cursor_row = 0;
  shadow = blank_cells g junk.0;
  history = junk.1;
  head = 0;
  count = 0;
  view_offset = 0;
  scrollback_on = true;
  vram = memset info.addr_lo 0 (info.pitch * info.height % 2 ^ 32) vram;
}

-- `none` is a processor that is halted.
unfoldable pub fb_init :
    BootInfo → (ℕ → ℕ) → (ℕ → Cell) × (ℕ → Cell) → Memory → Heap → Option (Geometry × Screen × Heap)
unfolding map_buffer geometry_of first_screen kmalloc
fb_init info font junk vram p =
    let g = geometry_of info font in
    let mapped : Heap = record p { machine = map_buffer info p.machine } in
    let (_, p') = kmalloc (g.rows * g.cols * 2 % 2 ^ 32) mapped in
    let (_, p'') = kmalloc (history_lines * g.cols * 2 % 2 ^ 32) p' in
    if is_incompatible info then none else some (g, first_screen info g junk vram, p'')

-- At least one glyph of pixels, whose lines lie in the frame buffer.
pub record IsUsable (info : BootInfo) : Type 0 where
  pub glyph : (8 ≤ info.width) × (16 ≤ info.height)
  pub lines : 4 * info.width ≤ info.pitch

pub geometry_of-Fits :
    (info : BootInfo) (font : ℕ → ℕ) → IsUsable info → Fits (geometry_of info font)
unfolding geometry_of
geometry_of-Fits info font u = record {
  some_row = omega (arith, u.glyph.1);
  some_col = omega (arith, u.glyph.0);
  lines = omega arith;
  width = omega (arith, u.lines);
}

pub first_screen-Safe :
    (info : BootInfo) (g : Geometry) (junk : (ℕ → Cell) × (ℕ → Cell)) (vram : Memory)
    → Fits g
    → Safe g (first_screen info g junk vram) (first_screen info g junk vram)
unfolding first_screen
first_screen-Safe info g junk vram fit = (
  record {
    cursor_row_lt = fit.some_row;
    cursor_col_lt = fit.some_col;
    head_lt = omega arith;
    count_le = omega arith;
    view_le = omega arith;
    pixels = λ a h. refl;
    cells = λ k h. refl;
    lines = λ k h. refl;
  },
  record { row_lt = fit.some_row; col_lt = fit.some_col },
)
