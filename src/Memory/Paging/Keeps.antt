-- ===== src/Memory/Paging/Keeps.antt =====
-- Mapping a page changes no word from HEAP_START on.
use deprecat_os.Prelude.{
  ℕ, zero, suc, ◌+◌, ◌*◌, ◌%◌, ◌^◌, ◌≤◌, ◌<◌, ◌≡◌, ◌∙◌, refl, bit_or, false, write, arith, Option,
  none, some, ◌==◌, leb, Bool-cases, inl, inr,
}
use deprecat_os.Memory.Frames.{Frames, alloc_frame, map_loop}
use deprecat_os.Memory.Paging.{
  Machine, heap_start_addr, dir_entry, has_flag, page_present, clear_table, add_table, with_table,
  set_page, map_page, map_kernel_page,
}

-- The directory is a page below HEAP_START.
pub record IsLow (dir : ℕ) : Type 0 where
  pub aligned : dir % 4096 ≡ 0
  pub low : dir < heap_start_addr

clear_table-high :
    (table left i : ℕ) (w : ℕ → ℕ) (a : ℕ)
    → table + 4 * (i + left) ≤ a
    → clear_table table left i w a ≡ w a
unfolding clear_table write
clear_table-high table zero i w a h = refl
clear_table-high table (suc left) i w a h =
    clear_table-high table left (i + 1) (write w (table + 4 * i) 0) a (omega arith) ∙ ground arith

frame_aligned :
    (r : Option (ℕ × ℕ)) (f : Frames)
    → (elim r as (λ _. ℕ × Frames) [
      | some (i, b) ↦ ((i * 32 + b) * 4096 % 2 ^ 32, write f i (bit_or (f i) (2 ^ b)))
      | none ↦ (0, f)
    ]).0
        % 4096
      ≡ 0
frame_aligned none f = refl
frame_aligned (some (i, b)) f = omega arith

pub alloc_frame-aligned : (f : Frames) → (alloc_frame f).0 % 4096 ≡ 0
unfolding alloc_frame
alloc_frame-aligned f = frame_aligned (map_loop f 32768 0) f

-- The flags of a page of the kernel.
abbrev pub kernel_flags : ℕ
kernel_flags = 3

set_page-high :
    (dir virt phys : ℕ) (m : Machine) (a : ℕ)
    → heap_start_addr ≤ a
    → (set_page dir virt phys kernel_flags m).word a ≡ m.word a
unfolding set_page write
set_page-high dir virt phys m a high = ground arith

set_page-dir :
    (dir virt phys flags : ℕ) (m : Machine)
    → (set_page dir virt phys flags m).kernel_dir ≡ m.kernel_dir
unfolding set_page
set_page-dir dir virt phys flags m = ground arith

add_table-high :
    (dir virt table : ℕ) (m : Machine) (a : ℕ)
    → IsLow dir
    → virt < 2 ^ 32
    → table % 4096 ≡ 0
    → heap_start_addr ≤ a
    → (add_table dir virt table m).1.word a ≡ m.word a
unfolding add_table write
add_table-high dir virt table m a low small aligned high =
    let apart : (a == dir_entry dir virt) ≡ false = ground (arith, low.aligned, low.low) in
    elim (Bool-cases (table == 0)) [
      | inl e ↦ rw (add_table, e) refl
      | inr e ↦ elim (Bool-cases (leb heap_start_addr table)) [
        | inl f ↦ rw (add_table, e, f) refl
        | inr f ↦
            let below : table < heap_start_addr = ground arith in
            rw (add_table, e, f, apart) (clear_table-high table 1024 0 m.word a (omega arith))
      ]
    ]

add_table-dir :
    (dir virt table : ℕ) (m : Machine) → (add_table dir virt table m).1.kernel_dir ≡ m.kernel_dir
unfolding add_table
add_table-dir dir virt table m = ground arith

with_table-high :
    (dir virt : ℕ) (m : Machine) (a : ℕ)
    → IsLow dir
    → virt < 2 ^ 32
    → heap_start_addr ≤ a
    → (with_table dir virt m).1.word a ≡ m.word a
unfolding with_table
with_table-high dir virt m a low small high =
    elim (Bool-cases (has_flag (m.word (dir_entry dir virt)) page_present)) [
      | inl e ↦ rw (with_table, e) refl
      | inr e ↦
          rw (with_table, e)
            (add_table-high dir virt (alloc_frame m.frames).0
              (record m { frames = (alloc_frame m.frames).1 }) a low small
              (alloc_frame-aligned m.frames) high)
    ]

with_table-dir : (dir virt : ℕ) (m : Machine) → (with_table dir virt m).1.kernel_dir ≡ m.kernel_dir
unfolding with_table
with_table-dir dir virt m = ground (
  arith,
  add_table-dir dir virt (alloc_frame m.frames).0 (record m { frames = (alloc_frame m.frames).1 }),
)

pub map_kernel_page-high :
    (virt phys : ℕ) (m : Machine) (a : ℕ)
    → IsLow m.kernel_dir
    → virt < 2 ^ 32
    → heap_start_addr ≤ a
    → (map_kernel_page virt phys kernel_flags m).word a ≡ m.word a
unfolding map_kernel_page map_page
map_kernel_page-high virt phys m a low small high =
    let t = with_table m.kernel_dir virt m in
    let kept = with_table-high m.kernel_dir virt m a low small high in
    elim (Bool-cases t.0) [
      | inl e ↦ rw (map_page, e) (set_page-high m.kernel_dir virt phys t.1 a high ∙ kept)
      | inr e ↦ rw (map_page, e) kept
    ]

pub map_kernel_page-dir :
    (virt phys flags : ℕ) (m : Machine)
    → (map_kernel_page virt phys flags m).kernel_dir ≡ m.kernel_dir
unfolding map_kernel_page map_page
map_kernel_page-dir virt phys flags m =
    let t = with_table m.kernel_dir virt m in
    let kept = with_table-dir m.kernel_dir virt m in
    elim (Bool-cases t.0) [
      | inl e ↦ rw (map_page, e) (set_page-dir m.kernel_dir virt phys flags t.1 ∙ kept)
      | inr e ↦ rw (map_page, e) kept
    ]
