-- ===== src/Fs/Tests.antt =====
-- The file system's theorems at one volume.
use deprecat_os.Prelude.{
  ℕ, ◌+◌, ◌≤◌, ◌<◌, ◌≡◌, ◌≢◌, refl, ◌⊎◌, true, none, some, arith, ◌==◌, if◌then◌else◌,
}
use deprecat_os.Fs.Bytes.{get32}
use deprecat_os.Fs.Disk.Laws.{span}
use deprecat_os.Fs.Volume.{Volume}
use deprecat_os.Fs.Volume.Laws.{block}
use deprecat_os.Fs.Bitmap.{
  block_kind, inode_kind, block_error, inode_error, alloc_block, free_block, alloc_inode,
}
use deprecat_os.Fs.Bitmap.Blocks.{
  alloc_block_lem, alloc_inode_lem, free_block_lem, Exhausted, FirstTaken, BlockFreed, block_number,
  inode_number,
}
use deprecat_os.Fs.Bitmap.Undo.{Restored, free_block-alloc_block}
use deprecat_os.Fs.Inode.{Inode, inode_blk, inode_off, get_inode, set_inode, dir_at}
use deprecat_os.Fs.Inode.Laws.{HasSlot, get_inode-set_inode}
use deprecat_os.Fs.MapBlock.{map_file_block}
use deprecat_os.Fs.MapBlock.Shared.{
  success, Walk, lookup_mode, alloc_mode, free_mode, ptr, set_ptr, counted,
}
use deprecat_os.Fs.MapBlock.Lookup.{root, route, chase, TablesFit, block_of, map_file_block-present}
use deprecat_os.Fs.MapBlock.Mint.{minted, alloc_mode-lookup_mode}
use deprecat_os.Fs.Sample.{
  volume, allocated, mounted, volume-IsSound, volume-IsSound_inodes, volume-IsNumbered, alloc_runs,
  number_4,
}

free_block-alloc_block_example :
    (u : Volume) × (free_block allocated.0 allocated.1 ≡ some (true, u)) × Restored volume u
free_block-alloc_block_example =
    free_block-alloc_block volume allocated.1 allocated.0 volume-IsSound volume-IsNumbered
      alloc_runs (λ zero_number. absurd (omega (arith, number_4, zero_number)))

alloc_block_lem_example :
    (Exhausted block_kind volume × (alloc_block volume ≡ some (block_error, volume)))
    ⊎ ((g i : ℕ) × (w : Volume) × FirstTaken block_kind 4096 volume g i w
        × (alloc_block volume ≡ some (block_number volume.fs g i, w)))
alloc_block_lem_example = alloc_block_lem volume volume-IsSound

alloc_inode_lem_example :
    (Exhausted inode_kind volume × (alloc_inode volume ≡ some (inode_error, volume)))
    ⊎ ((g i : ℕ) × (w : Volume) × FirstTaken inode_kind 4096 volume g i w
        × (alloc_inode volume ≡ some (inode_number volume.fs g i, w)))
alloc_inode_lem_example = alloc_inode_lem volume (omega arith) volume-IsSound_inodes

free_block_lem_example : BlockFreed volume 7 (free_block 7 volume)
free_block_lem_example = free_block_lem volume 7 volume-IsSound (omega arith) (omega arith)

-- The block 1038 of this file is reached through the tables in blocks 6 and 5.
abbrev file : Walk
file = record { inode = λ k. if k == 92 then 6 else 0; out = 0; cnt = none }

TablesFit-1038 : TablesFit volume (ptr file (root 1038)) (route 1038)
unfolding root route get32 TablesFit span
TablesFit-1038 = λ _. (omega arith, λ _. (omega arith, tt))

block_of_1038 : block_of volume file 1038 ≡ 9
unfolding root route get32 chase span
block_of_1038 = refl

map_file_block-present_example :
    map_file_block 0 1038 file volume
    ≡ some ((success, record file { out = block_of volume file 1038 }), volume)
map_file_block-present_example =
    map_file_block-present mounted 0 1038 file TablesFit-1038 refl
      (λ e. absurd (omega (arith, block_of_1038, e)))

alloc_mode-lookup_mode_example :
    (map_file_block alloc_mode 3 file volume
      ≡ some ((success, minted 3 allocated.0 file), allocated.1))
    × (map_file_block lookup_mode 3 (minted 3 allocated.0 file) allocated.1
        ≡ some ((success, minted 3 allocated.0 file), allocated.1))
    × (map_file_block free_mode 3 (minted 3 allocated.0 file) allocated.1
        ≡ some ((success, set_ptr (counted (minted 3 allocated.0 file)) (dir_at 3) 0), allocated.1))
    × ((j : ℕ) → j ≢ 3 → ptr (minted 3 allocated.0 file) (dir_at j) ≡ ptr file (dir_at j))
unfolding get32
alloc_mode-lookup_mode_example =
    alloc_mode-lookup_mode 3 allocated.0 file volume (omega arith) refl alloc_runs
      (omega (arith, number_4)) (omega (arith, number_4))

has_slot : HasSlot volume 5
unfolding inode_blk inode_off get32
has_slot = record {
  per_group = omega arith;
  numbered = (omega arith, omega arith);
  fits = omega arith;
  whole = omega arith;
}

get_inode-set_inode_example :
    (w : Volume) × (read : Inode) × (set_inode 5 (λ k. k) volume ≡ some (true, w))
    × (get_inode 5 w ≡ some (some read, w))
    × ((k : ℕ) → k < 128 → read k ≡ k)
    × ((k : ℕ)
        → k < 4096
        → (k < inode_off volume.fs 5) ⊎ (inode_off volume.fs 5 + 128 ≤ k)
        → block w (inode_blk volume.fs 5) k ≡ block volume (inode_blk volume.fs 5) k)
get_inode-set_inode_example = get_inode-set_inode volume 5 (λ k. k) mounted has_slot
