-- ===== src/Memory/Frames/Init.antt =====
-- The frames that `frame_alloc_init` leaves free, by the regions of the memory map.
use deprecat_os.Prelude.{
  ℕ, zero, suc, ◌+◌, ◌-◌, ◌*◌, ◌/◌, ◌%◌, ◌^◌, ◌<◌, ◌≡◌, refl, Bool, true, false, ◌&&◌, ◌||◌,
  Bool-cases, List, [], ◌∷◌, ◌==◌, leb, ltb, if◌then◌else◌, arith, inl, inr,
}
use deprecat_os.Bits.{bit-ones}
use deprecat_os.Memory.Frames.{
  Frames, all_used, take, give, give_loop, take_loop, page_up, mark_free_region, Entry, clipped,
  mmap_walk, frame_alloc_init,
}
use deprecat_os.Memory.Frames.Laws.{used, used-take, used-give}

give_loop_lem :
    (n i : ℕ) (m : Frames) (j : ℕ)
    → used (give_loop n i m) j ≡ (if leb i j && ltb j (i + n) then 0 else used m j)
unfolding give_loop
give_loop_lem zero i m j = ground arith
give_loop_lem (suc n) i m j = ground (arith, give_loop_lem n (i + 1) (give m i) j, used-give m i j)

take_loop_lem :
    (n i : ℕ) (m : Frames) (j : ℕ)
    → used (take_loop n i m) j ≡ (if leb i j && ltb j (i + n) then 1 else used m j)
unfolding take_loop
take_loop_lem zero i m j = ground arith
take_loop_lem (suc n) i m j = ground (arith, take_loop_lem n (i + 1) (take m i) j, used-take m i j)

-- The region ends below 4 GiB, and so does the first page boundary in it.
pub record IsLow (e : Entry) : Type 0 where
  pub len_hi : e.len_hi ≡ 0
  pub end_lt : e.base_lo + e.len_lo < 2 ^ 32
  pub page_lt : e.base_lo + 4095 < 2 ^ 32

abbrev pub AllLow : List Entry → Type 0
AllLow [] = Unit {0}
AllLow (e ∷ es) = (e.base_hi ≡ 0 → e.type ≡ 1 → IsLow e) × AllLow es

-- The 4096 bytes of frame `f` lie in a usable region.
abbrev pub holds : Entry → ℕ → Bool
holds e f =
    e.base_hi == 0
    && e.type == 1
    && leb e.base_lo (f * 4096)
    && leb (f * 4096 + 4096) (e.base_lo + e.len_lo)

abbrev pub held : List Entry → ℕ → Bool
held [] f = false
held (e ∷ es) f = holds e f || held es f

region_lem :
    (e : Entry) (m : Frames) (f : ℕ)
    → IsLow e
    → e.base_hi ≡ 0
    → used (mark_free_region e.base_lo (clipped e) e.type m) f ≡ (if holds e f then 0 else used m f)
unfolding mark_free_region
region_lem e m f low hi = ground (
  arith,
  give_loop_lem ((e.base_lo + e.len_lo) / 2 ^ 12 - page_up e.base_lo) (page_up e.base_lo) m f,
  low.len_hi,
  low.end_lt,
  low.page_lt,
)

reserved_lem :
    (e : Entry) (m : Frames) (f : ℕ)
    → (e.type == 1) ≡ false
    → used (mark_free_region e.base_lo (clipped e) e.type m) f ≡ used m f
unfolding mark_free_region
reserved_lem e m f reserved = ground (arith, reserved)

walk_lem :
    (es : List Entry) (m : Frames) (f : ℕ)
    → AllLow es
    → used (mmap_walk es m) f ≡ (if held es f then 0 else used m f)
unfolding mmap_walk
walk_lem [] m f low = refl
walk_lem (e ∷ es) m f (low, rest) = elim (Bool-cases (e.base_hi == 0)) [
  | inr high ↦ rw (mmap_walk, high) (walk_lem es m f rest)
  | inl zero_hi ↦
      let hi : e.base_hi ≡ 0 = ground arith in
      let after = walk_lem es (mark_free_region e.base_lo (clipped e) e.type m) f rest in
      elim (Bool-cases (e.type == 1)) [
        | inl usable ↦
            let region = region_lem e m f (low hi (ground arith)) hi in
            rw (mmap_walk, zero_hi) (ground (arith, after, region))
        | inr reserved ↦
            let region = reserved_lem e m f reserved in
            rw (mmap_walk, zero_hi) (ground (arith, after, region, reserved))
      ]
]

-- When the boot information has a memory map, every usable region that starts below 4 GiB also
-- ends below it, as does the first page boundary from its start on, and the end of the kernel
-- rounded up to a page is below 4 GiB, a frame of the first 2^20 is taken after `frame_alloc_init`
-- if it starts below the end of the kernel, else free if its 4096 bytes lie in one usable region,
-- else taken.
pub frame_alloc_init_lem :
    (es : List Entry) (ebss f : ℕ)
    → AllLow es
    → ebss + 4095 < 2 ^ 32
    → f < 1048576
    → used (frame_alloc_init true es ebss) f
      ≡ (if ltb (f * 4096) ebss then 1 else if held es f then 0 else 1)
unfolding frame_alloc_init
frame_alloc_init_lem es ebss f low b h =
    let marked = walk_lem es (λ _. all_used) f low in
    let kernel = take_loop_lem (page_up ebss) 0 (mmap_walk es (λ _. all_used)) f in
    ground (arith, marked, kernel, bit-ones (f % 32))

pub frame_alloc_init_bad :
    (es : List Entry) (ebss f : ℕ) → used (frame_alloc_init false es ebss) f ≡ 1
unfolding frame_alloc_init
frame_alloc_init_bad es ebss f =
    ground (arith, take_loop_lem (page_up ebss) 0 (λ _. all_used) f, bit-ones (f % 32))
