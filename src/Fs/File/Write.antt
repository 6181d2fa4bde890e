-- ===== src/Fs/File/Write.antt =====
-- `write_inode` of kernel/fs/block/blockController.c: the data of a new file, block by block, with
-- its tables. When no block is left, what has been taken is given back.
pub mod Data
pub mod Indirect
use deprecat_os.Prelude.{
  ℕ, zero, suc, ◌+◌, ◌-◌, ◌*◌, ◌/◌, ◌%◌, ◌^◌, min, Bool, true, false, not, ◌&&◌, ◌||◌, ◌==◌, ltb,
  if◌then◌else◌,
}
use deprecat_os.Fs.Bytes.{Bytes, get32, set32}
use deprecat_os.Fs.Volume.{M, pure, ◌>>=◌, ◌>>◌, write_block}
use deprecat_os.Fs.Bitmap.{alloc_block, free_block}
use deprecat_os.Fs.Inode.{Inode, size_lo, dir_at, singly_at, doubly_at, triply_at}
use deprecat_os.Fs.MapBlock.Shared.{set_entry, bit_32_per_blk}
use deprecat_os.Fs.File.Fields.{blocks_for, more_sectors}
use deprecat_os.Fs.File.Free.{free_entries, indir_free_block, free_direct}
use deprecat_os.Fs.File.Write.Data.{
  Writer, no_table, copy_bytes, copied, write_data, set_field, sectors_up, free_table, undo_inode,
  direct_round, write_direct,
}
use deprecat_os.Fs.File.Write.Indirect.{
  Tables, undo_leaf, leaf_round, write_leaf, Flags, undo_doubly, link_leaf, doubly_round,
  write_doubly, undo_triply, link_doubly, triply_round, write_triply,
}

-- The pointers of the inode set to 0, `n` of the direct ones from `i` on.
unfoldable pub clear_direct : ℕ → ℕ → Inode → Inode
clear_direct zero i inode = inode
clear_direct (suc n) i inode = clear_direct n (i + 1) (set32 inode (dir_at i) 0)

unfoldable pub clear_pointers : Inode → Inode
unfolding clear_direct
clear_pointers inode =
    set32 (set32 (set32 (clear_direct 12 0 inode) singly_at 0) doubly_at 0) triply_at 0

-- The block for the table of the third layer is taken in any case, and given back when unused.
unfoldable pub write_tables : Bytes → Writer → M (Bool × Inode)
unfolding write_triply
write_tables buf w = do
  triple_ptr ← alloc_block
  if triple_ptr == 0 then (do free_direct w.inode 12 0; pure (false, w.inode)) else do
    (ok, t, has_triple, w') ←
        write_triply buf bit_32_per_blk 0
          (record {
            triply_ptr = triple_ptr;
            triply = no_table;
            doubly_ptr = 0;
            doubly = no_table;
            indir_ptr = 0;
          })
          false false w
    if not ok
        then pure (false, w'.inode)
        else if has_triple
        then (do
          write_block triple_ptr t.triply
          pure (true, (sectors_up (set_field triply_at triple_ptr w')).inode))
        else do _ ← free_block triple_ptr; pure (true, w'.inode)

-- `true` is INODE_WRITE_SUCCESS, `false` is BLOCK_ERROR; the inode is written through its pointer.
unfoldable pub write_inode : Bytes → Inode → M (Bool × Inode)
unfolding write_direct clear_pointers write_tables
write_inode buf inode = do
  let start = clear_pointers inode
  (ok, w) ←
      write_direct buf 12 0
        (record { inode = start; left = blocks_for (size_lo inode); cursor = 0 })
  if ok then write_tables buf w else pure (false, w.inode)
