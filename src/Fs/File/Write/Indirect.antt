-- ===== src/Fs/File/Write/Indirect.antt =====
-- The three nested loops of `write_inode` of kernel/fs/block/blockController.c over the tables of
-- block numbers, each with what it gives back when no block is left.
use deprecat_os.Prelude.{
  ℕ, zero, suc, ◌+◌, ◌-◌, Bool, true, false, not, ◌||◌, ◌==◌, ltb, if◌then◌else◌,
}
use deprecat_os.Fs.Bytes.{Bytes, get32}
use deprecat_os.Fs.Volume.{M, pure, ◌>>=◌, ◌>>◌, write_block}
use deprecat_os.Fs.Bitmap.{alloc_block, free_block}
use deprecat_os.Fs.Inode.{Inode, singly_at, doubly_at}
use deprecat_os.Fs.MapBlock.Shared.{set_entry, bit_32_per_blk}
use deprecat_os.Fs.File.Free.{indir_free_block, free_direct}
use deprecat_os.Fs.File.Write.Data.{
  Writer, no_table, write_data, set_field, sectors_up, free_table, undo_inode,
}

-- The blocks and the tables in memory that a level below needs for its undoing.
pub record Tables : Type 0 where
  pub triply_ptr : ℕ
  pub triply : Bytes
  pub doubly_ptr : ℕ
  pub doubly : Bytes
  pub indir_ptr : ℕ

unfoldable pub undo_leaf : Tables → Bytes → Inode → M (Unit {0})
unfolding undo_inode
undo_leaf t indir inode = do
  undo_inode inode
  free_table 2 t.triply
  free_table 1 t.doubly
  free_table 0 indir
  _ ← free_block t.indir_ptr
  _ ← free_block t.doubly_ptr
  _ ← free_block t.triply_ptr
  pure tt

-- The loop over `indir_blk_ptr_idx`, with `curr_indir_blk`.
unfoldable pub leaf_round :
    Bytes
    → Tables
    → ℕ
    → (Bytes → Writer → M (Bool × Bytes × Writer))
    → Bytes
    → Writer
    → M (Bool × Bytes × Writer)
unfolding write_data undo_leaf
leaf_round buf t i next indir w =
    if ltb 0 w.left
    then (do
      block_n ← alloc_block
      if block_n == 0
          then (do undo_leaf t indir w.inode; pure (false, indir, w))
          else do w' ← write_data buf block_n (sectors_up w); next (set_entry indir i block_n) w')
    else pure (true, indir, w)

unfoldable pub write_leaf : Bytes → Tables → ℕ → ℕ → Bytes → Writer → M (Bool × Bytes × Writer)
unfolding leaf_round
write_leaf buf t zero i indir w = pure (true, indir, w)
write_leaf buf t (suc n) i indir w =
    leaf_round buf t i (λ indir' w'. write_leaf buf t n (i + 1) indir' w') indir w

-- `flushed` and `has_double`
pub record Flags : Type 0 where
  pub flushed : Bool
  pub has_double : Bool

unfoldable pub undo_doubly : Tables → Inode → M (Unit {0})
unfolding undo_inode
undo_doubly t inode = do
  undo_inode inode
  free_table 2 t.triply
  free_table 1 t.doubly
  _ ← free_block t.doubly_ptr
  _ ← free_block t.triply_ptr
  pure tt

-- What follows a leaf: it is written, and linked from the inode or from the table above.
unfoldable pub link_leaf : ℕ → ℕ → Bytes → Tables → Flags → Writer → M (Tables × Flags × Writer)
link_leaf i indir_ptr indir t f w =
    if ltb 0 w.left || not f.flushed
    then (do
      if f.flushed then pure tt else write_block indir_ptr indir
      let f' : Flags = record f { flushed = f.flushed || not (ltb 0 w.left) }
      if i == 0
          then pure (t, f', set_field singly_at indir_ptr w)
          else pure (
            record t { doubly = set_entry t.doubly (i - 1) indir_ptr },
            record f' { has_double = true },
            w,
          ))
    else pure (t, f, w)

-- The loop over `doubly_indir_blk_ptr_idx`.
unfoldable pub doubly_round :
    Bytes
    → ℕ
    → (Tables → Flags → Writer → M (Bool × Tables × Flags × Writer))
    → Tables
    → Flags
    → Writer
    → M (Bool × Tables × Flags × Writer)
unfolding write_leaf undo_doubly link_leaf
doubly_round buf i next t f w =
    if ltb 0 w.left
    then (do
      indir_ptr ← alloc_block
      if indir_ptr == 0 then (do undo_doubly t w.inode; pure (false, t, f, w)) else do
        (ok, indir, w') ←
            write_leaf buf (record t { indir_ptr = indir_ptr }) bit_32_per_blk 0 no_table
              (sectors_up w)
        if ok
            then (do (t', f', w'') ← link_leaf i indir_ptr indir t f w'; next t' f' w'')
            else pure (false, t, f, w'))
    else pure (true, t, f, w)

unfoldable pub write_doubly :
    Bytes → ℕ → ℕ → Tables → Flags → Writer → M (Bool × Tables × Flags × Writer)
unfolding doubly_round
write_doubly buf zero i t f w = pure (true, t, f, w)
write_doubly buf (suc n) i t f w =
    doubly_round buf i (λ t' f' w'. write_doubly buf n (i + 1) t' f' w') t f w

unfoldable pub undo_triply : Tables → Inode → M (Unit {0})
undo_triply t inode = do
  free_direct inode 12 0
  free_table 2 t.triply
  indir_free_block 1 (get32 inode singly_at)
  indir_free_block 2 (get32 inode doubly_at)
  _ ← free_block t.triply_ptr
  pure tt

-- What follows a table of tables; the last flag is `has_triple`.
unfoldable pub link_doubly : ℕ → Tables → Flags → Bool → Writer → M (Tables × Bool × Writer)
link_doubly i t f has_triple w =
    if f.has_double
    then (do
      write_block t.doubly_ptr t.doubly
      if i == 0
          then pure (t, has_triple, sectors_up (set_field doubly_at t.doubly_ptr w))
          else pure
              (record t { triply = set_entry t.triply (i - 1) t.doubly_ptr }, true, sectors_up w))
    else do _ ← free_block t.doubly_ptr; pure (t, has_triple, w)

-- The loop over `triply_indir_blk_ptr_idx`.
unfoldable pub triply_round :
    Bytes
    → ℕ
    → (Tables → Bool → Bool → Writer → M (Bool × Tables × Bool × Writer))
    → Tables
    → Bool
    → Bool
    → Writer
    → M (Bool × Tables × Bool × Writer)
unfolding write_doubly undo_triply link_doubly
triply_round buf i next t flushed has_triple w =
    if ltb 0 w.left
    then (do
      doubly_ptr ← alloc_block
      if doubly_ptr == 0 then (do undo_triply t w.inode; pure (false, t, has_triple, w)) else do
        (ok, t', f, w') ←
            write_doubly buf bit_32_per_blk 0
              (record t { doubly_ptr = doubly_ptr; doubly = no_table })
              (record { flushed = flushed; has_double = false }) w
        if ok
            then (do
              (t'', has_triple', w'') ← link_doubly i t' f has_triple w'
              next t'' f.flushed has_triple' w'')
            else pure (false, t', has_triple, w'))
    else pure (true, t, has_triple, w)

unfoldable pub write_triply :
    Bytes → ℕ → ℕ → Tables → Bool → Bool → Writer → M (Bool × Tables × Bool × Writer)
unfolding triply_round
write_triply buf zero i t flushed has_triple w = pure (true, t, has_triple, w)
write_triply buf (suc n) i t flushed has_triple w =
    triply_round buf i (λ t' f h w'. write_triply buf n (i + 1) t' f h w') t flushed has_triple w
