-- ===== src/Fs/File/Write/Data.antt =====
-- The direct blocks in `write_inode` of kernel/fs/block/blockController.c, and the copy of one block.
use deprecat_os.Prelude.{
  ℕ, zero, suc, ◌+◌, ◌-◌, ◌*◌, ◌/◌, ◌%◌, ◌^◌, min, Bool, true, false, ◌&&◌, ◌==◌, ltb,
  if◌then◌else◌,
}
use deprecat_os.Fs.Bytes.{Bytes, get32, set32}
use deprecat_os.Fs.Volume.{M, pure, ◌>>=◌, ◌>>◌, write_block}
use deprecat_os.Fs.Bitmap.{alloc_block}
use deprecat_os.Fs.Inode.{Inode, size_lo, dir_at, singly_at, doubly_at}
use deprecat_os.Fs.MapBlock.Shared.{bit_32_per_blk}
use deprecat_os.Fs.File.Fields.{more_sectors}
use deprecat_os.Fs.File.Free.{free_entries, indir_free_block, free_direct}

-- `inode`, `blocks_left` and `buf_cursor`, which counts words.
pub record Writer : Type 0 where
  pub inode : Inode
  pub left : ℕ
  pub cursor : ℕ

abbrev pub no_table : Bytes
no_table k = 0

-- `copy_bytes`
abbrev pub copy_bytes : Writer → ℕ
copy_bytes w = min ((size_lo w.inode + 2 ^ 32 - w.cursor * 2 % 2 ^ 32) % 2 ^ 32) 4096

-- The block that is copied out of the buffer: whole words, and an odd byte at the end.
unfoldable pub copied : Bytes → Writer → Bytes
copied buf w k =
    let copy = copy_bytes w in
    if ltb k (copy / 2 * 2)
    then buf (2 * w.cursor + k)
    else if copy % 2 == 1 && k == copy - 1
    then buf ((w.cursor + copy / 2) * 2)
    else 0

unfoldable pub write_data : Bytes → ℕ → Writer → M Writer
unfolding copied
write_data buf block_n w = do
  write_block block_n (copied buf w)
  pure (record { inode = w.inode; left = w.left - 1; cursor = w.cursor + copy_bytes w / 2 })

abbrev pub set_field : ℕ → ℕ → Writer → Writer
set_field at n w = record w { inode = set32 w.inode at n }

abbrev pub sectors_up : Writer → Writer
sectors_up w = record w { inode = more_sectors 1 w.inode }

-- The frees of every entry of a table in memory.
abbrev pub free_table : ℕ → Bytes → M (Unit {0})
free_table layer t = free_entries (indir_free_block layer) t bit_32_per_blk 0

-- What the writer's inode holds in its direct pointers and in the next two.
unfoldable pub undo_inode : Inode → M (Unit {0})
undo_inode inode = do
  free_direct inode 12 0
  indir_free_block 1 (get32 inode singly_at)
  indir_free_block 2 (get32 inode doubly_at)

-- A round of the loop over the direct pointers, with the rest of the loop; `false` is BLOCK_ERROR.
unfoldable pub direct_round : Bytes → ℕ → (Writer → M (Bool × Writer)) → Writer → M (Bool × Writer)
unfolding write_data
direct_round buf i next w =
    if ltb 0 w.left
    then (do
      block_n ← alloc_block
      if block_n == 0 then (do free_direct w.inode 12 0; pure (false, w)) else do
        w' ← write_data buf block_n (sectors_up w)
        next (set_field (dir_at i) block_n w'))
    else pure (true, w)

unfoldable pub write_direct : Bytes → ℕ → ℕ → Writer → M (Bool × Writer)
unfolding direct_round
write_direct buf zero i w = pure (true, w)
write_direct buf (suc n) i w = direct_round buf i (λ w'. write_direct buf n (i + 1) w') w
