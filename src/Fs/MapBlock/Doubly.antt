-- ===== src/Fs/MapBlock/Doubly.antt =====
-- Two tables.
use deprecat_os.Prelude.{ℕ, ◌/◌, ◌%◌, Bool, true, false, ◌==◌, if◌then◌else◌}
use deprecat_os.Fs.Bytes.{Bytes}
use deprecat_os.Fs.Volume.{M, pure, ◌>>=◌, ◌>>◌, read_block, write_block}
use deprecat_os.Fs.Bitmap.{alloc_block, free_block}
use deprecat_os.Fs.Inode.{doubly_at}
use deprecat_os.Fs.MapBlock.Shared.{
  MapStatus, success, block_error, Walk, bit_32_per_blk, alloc_mode, free_mode, missing, counted,
  uncounted, ptr, set_ptr, entry, set_entry, zero_table, elements_inside,
}

-- The place in the outer table, and in the table it leads to.
abbrev pub outer : ℕ → ℕ
outer idx = idx / bit_32_per_blk

abbrev pub inner : ℕ → ℕ
inner idx = idx % bit_32_per_blk

-- FREE_MODE: the inner table had no other entry, and goes back.
unfoldable pub doubly_drop : ℕ → Bytes → Walk → M (MapStatus × Walk)
doubly_drop idx doubly w = do
  free_block (entry doubly (outer idx))
  let doubly' = set_entry doubly (outer idx % bit_32_per_blk) 0
  if elements_inside doubly' bit_32_per_blk 0
      then (do write_block (ptr w doubly_at) doubly'; pure (success, counted w))
      else (do
        free_block (ptr w doubly_at)
        pure (success, counted (set_ptr (counted w) doubly_at 0)))

unfoldable pub doubly_clear : ℕ → Bytes → Bytes → Walk → M (MapStatus × Walk)
doubly_clear idx doubly indir w =
    let indir' = set_entry indir (inner idx) 0 in
    if elements_inside indir' bit_32_per_blk 0
    then (do write_block (entry doubly (outer idx)) indir'; pure (success, counted w))
    else doubly_drop idx doubly (counted w)

unfoldable pub doubly_found : ℕ → ℕ → Bytes → Bytes → Walk → M (MapStatus × Walk)
doubly_found mode idx doubly indir w =
    let found : Walk = record w { out = entry indir (inner idx) } in
    if mode == free_mode then doubly_clear idx doubly indir found else pure (success, found)

-- No block is left for the entry: the tables this call made go back.
unfoldable pub doubly_undo : ℕ → Bool → Bool → Bytes → Walk → M (MapStatus × Walk)
doubly_undo idx doubly_minted singly_minted doubly w =
    if singly_minted
    then (do
      free_block (entry doubly (outer idx))
      if doubly_minted
          then (do
            free_block (ptr w doubly_at)
            pure (block_error, uncounted (set_ptr (uncounted w) doubly_at 0)))
          else (do
            write_block (ptr w doubly_at) (set_entry doubly (outer idx) 0)
            pure (block_error, uncounted w)))
    else pure (block_error, w)

unfoldable pub doubly_mint : ℕ → ℕ → Bool → Bool → Bytes → Bytes → Walk → M (MapStatus × Walk)
doubly_mint mode idx doubly_minted singly_minted doubly indir w = do
  n ← alloc_block
  if n == 0 then doubly_undo idx doubly_minted singly_minted doubly w else (do
    write_block (entry doubly (outer idx)) (set_entry indir (inner idx) n)
    doubly_found mode idx doubly (set_entry indir (inner idx) n) (counted w))

-- From the read of the inner table on.
unfoldable pub doubly_leaf : ℕ → ℕ → Bool → Bool → Bytes → Walk → M (MapStatus × Walk)
doubly_leaf mode idx doubly_minted singly_minted doubly w = do
  indir ← read_block (entry doubly (outer idx))
  if entry indir (inner idx) == 0
      then (if mode == alloc_mode
          then doubly_mint mode idx doubly_minted singly_minted doubly indir w
          else pure (missing mode, w))
      else doubly_found mode idx doubly indir w

-- The inner table is missing, and the mode allocates.
unfoldable pub doubly_inner : ℕ → ℕ → Bool → Bytes → Walk → M (MapStatus × Walk)
doubly_inner mode idx doubly_minted doubly w = do
  n ← alloc_block
  if n == 0
      then (if doubly_minted
          then (do
            free_block (ptr w doubly_at)
            pure (block_error, uncounted (set_ptr w doubly_at 0)))
          else pure (block_error, w))
      else (do
        zero_table n
        write_block (ptr w doubly_at) (set_entry doubly (outer idx) n)
        doubly_leaf mode idx doubly_minted true (set_entry doubly (outer idx) n) (counted w))

-- From the read of the outer table on.
unfoldable pub doubly_table : ℕ → ℕ → Bool → Walk → M (MapStatus × Walk)
doubly_table mode idx doubly_minted w = do
  doubly ← read_block (ptr w doubly_at)
  if entry doubly (outer idx) == 0
      then (if mode == alloc_mode
          then doubly_inner mode idx doubly_minted doubly w
          else pure (missing mode, w))
      else doubly_leaf mode idx doubly_minted false doubly w

unfoldable pub doubly_new : ℕ → ℕ → Walk → M (MapStatus × Walk)
doubly_new mode idx w = do
  n ← alloc_block
  if n == 0
      then pure (block_error, set_ptr w doubly_at n)
      else (do zero_table n; doubly_table mode idx true (counted (set_ptr w doubly_at n)))

unfoldable pub map_doubly : ℕ → ℕ → Walk → M (MapStatus × Walk)
map_doubly mode idx w =
    if ptr w doubly_at == 0
    then if mode == alloc_mode then doubly_new mode idx w else pure (missing mode, w)
    else doubly_table mode idx false w
