-- ===== src/Memory/Frames.antt =====
-- kernel/memory/frameAlloc/frameAllocator.c and the walk of kernel/memory/mmap/memoryMap.c: one
-- bit per frame of 4096 bytes, in words of 32 bits. The entries of the memory map are given in
-- their order, as the boot loader's table lists them.
pub mod Laws
pub mod Init
use deprecat_os.Prelude.{
  ℕ, zero, suc, ◌+◌, ◌-◌, ◌*◌, ◌/◌, ◌%◌, ◌^◌, bit_and, bit_or, Bool, true, false, ◌||◌, not, Option,
  none, some, List, [], ◌∷◌, write, ◌==◌, ltb, if◌then◌else◌,
}
use deprecat_os.Bits.{complement}

abbrev pub frame_bitmap_length : ℕ
frame_bitmap_length = 32768

abbrev pub frame_size_bytes : ℕ
frame_size_bytes = 4096

abbrev pub all_used : ℕ
all_used = 4294967295

-- `frame_bitmap`
abbrev pub Frames : Type 0
Frames = ℕ → ℕ

abbrev pub take : Frames → ℕ → Frames
take m f = write m (f / 32) (bit_or (m (f / 32)) (2 ^ (f % 32)))

abbrev pub give : Frames → ℕ → Frames
give m f = write m (f / 32) (bit_and (m (f / 32)) (complement 32 (2 ^ (f % 32))))

-- The loop over the bits of a word, `left` of them from `b` on.
unfoldable pub word_loop : ℕ → ℕ → ℕ → Option ℕ
word_loop word zero b = none
word_loop word (suc left) b = elim (bit_and (word / 2 ^ b) 1 == 0) [
  | true ↦ some b
  | false ↦ word_loop word left (b + 1)
]

-- The loop over the words, `left` of them from `i` on.
unfoldable pub map_loop : Frames → ℕ → ℕ → Option (ℕ × ℕ)
map_loop m zero i = none
map_loop m (suc left) i = elim (m i == all_used) [
  | true ↦ map_loop m left (i + 1)
  | false ↦ elim (word_loop (m i) 32 0) [ some b ↦ some (i, b) | none ↦ map_loop m left (i + 1) ]
]

unfoldable pub alloc_frame : Frames → ℕ × Frames
alloc_frame m = elim (map_loop m frame_bitmap_length 0) [
  | some (i, b) ↦ ((i * 32 + b) * frame_size_bytes % 2 ^ 32, write m i (bit_or (m i) (2 ^ b)))
  | none ↦ (0, m)
]

unfoldable pub free_frame : ℕ → Frames → Frames
free_frame addr m = give m (addr / 2 ^ 12)

-- The loop of `mark_free_region`, `left` frames from `i` on.
unfoldable pub give_loop : ℕ → ℕ → Frames → Frames
give_loop zero i m = m
give_loop (suc left) i m = give_loop left (i + 1) (give m i)

-- The loop that takes the frames below the end of the kernel.
unfoldable pub take_loop : ℕ → ℕ → Frames → Frames
take_loop zero i m = m
take_loop (suc left) i m = take_loop left (i + 1) (take m i)

-- `(x + 0xFFF) & ~0xFFF` and then `>> 12`, on 32 bits.
abbrev pub page_up : ℕ → ℕ
page_up x = (x + 4095) % 2 ^ 32 / 2 ^ 12

unfoldable pub mark_free_region : ℕ → ℕ → ℕ → Frames → Frames
mark_free_region base len type m =
    let first = page_up base in
    let last = (base + len) % 2 ^ 32 / 2 ^ 12 in
    if not (type == 1) then m else give_loop (last - first) first m

-- `MemoryMapEntry`
pub record Entry : Type 0 where
  pub base_lo : ℕ
  pub base_hi : ℕ
  pub len_lo : ℕ
  pub len_hi : ℕ
  pub type : ℕ

-- The length that `mmap_walk` passes on.
abbrev pub clipped : Entry → ℕ
clipped e =
    if not (e.len_hi == 0) || ltb ((e.base_lo + e.len_lo) % 2 ^ 32) e.base_lo
    then (4294967295 - e.base_lo + 1) % 2 ^ 32
    else e.len_lo

-- `mmap_walk(info, mark_free_region)`; `flags` says whether bit 6 is set.
unfoldable pub mmap_walk : List Entry → Frames → Frames
mmap_walk [] m = m
mmap_walk (e ∷ es) m =
    if not (e.base_hi == 0)
    then mmap_walk es m
    else mmap_walk es (mark_free_region e.base_lo (clipped e) e.type m)

unfoldable pub frame_alloc_init : Bool → List Entry → ℕ → Frames
frame_alloc_init flags es ebss =
    let marked : Frames = if flags then mmap_walk es (λ _. all_used) else λ _. all_used in
    take_loop (page_up ebss) 0 marked
