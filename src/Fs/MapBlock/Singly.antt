-- ===== src/Fs/MapBlock/Singly.antt =====
-- One table.
use deprecat_os.Prelude.{ℕ, Bool, true, false, ◌==◌, if◌then◌else◌}
use deprecat_os.Fs.Bytes.{Bytes}
use deprecat_os.Fs.Volume.{M, pure, ◌>>=◌, ◌>>◌, read_block, write_block}
use deprecat_os.Fs.Bitmap.{alloc_block, free_block}
use deprecat_os.Fs.Inode.{singly_at}
use deprecat_os.Fs.MapBlock.Shared.{
  MapStatus, success, block_error, Walk, bit_32_per_blk, alloc_mode, free_mode, missing, counted,
  uncounted, ptr, set_ptr, entry, set_entry, zero_table, elements_inside,
}

-- FREE_MODE: the entry is cleared, and the table given back if that was its last one.
unfoldable pub singly_clear : ℕ → Bytes → Walk → M (MapStatus × Walk)
singly_clear idx indir w =
    let indir' = set_entry indir idx 0 in
    if elements_inside indir' bit_32_per_blk 0
    then (do write_block (ptr w singly_at) indir'; pure (success, counted w))
    else (do
      free_block (ptr w singly_at)
      pure (success, counted (set_ptr (counted w) singly_at 0)))

-- The entry is there: `disk_blk_out` is written.
unfoldable pub singly_found : ℕ → ℕ → Bytes → Walk → M (MapStatus × Walk)
singly_found mode idx indir w =
    let found : Walk = record w { out = entry indir idx } in
    if mode == free_mode then singly_clear idx indir found else pure (success, found)

-- The entry is 0, and the mode allocates; `minted` says that this call made the table.
unfoldable pub singly_mint : ℕ → ℕ → Bool → Bytes → Walk → M (MapStatus × Walk)
singly_mint mode idx minted indir w = do
  n ← alloc_block
  if n == 0
      then (if minted
          then (do
            free_block (ptr w singly_at)
            pure (block_error, uncounted (set_ptr w singly_at 0)))
          else pure (block_error, w))
      else (do
        write_block (ptr w singly_at) (set_entry indir idx n)
        singly_found mode idx (set_entry indir idx n) (counted w))

-- From the read of the table on.
unfoldable pub singly_table : ℕ → ℕ → Bool → Walk → M (MapStatus × Walk)
singly_table mode idx minted w = do
  indir ← read_block (ptr w singly_at)
  if entry indir idx == 0
      then (if mode == alloc_mode
          then singly_mint mode idx minted indir w
          else pure (missing mode, w))
      else singly_found mode idx indir w

-- The table is missing, and the mode allocates.
unfoldable pub singly_new : ℕ → ℕ → Walk → M (MapStatus × Walk)
singly_new mode idx w = do
  n ← alloc_block
  if n == 0
      then pure (block_error, set_ptr w singly_at n)
      else (do zero_table n; singly_table mode idx true (counted (set_ptr w singly_at n)))

unfoldable pub map_singly : ℕ → ℕ → Walk → M (MapStatus × Walk)
map_singly mode idx w =
    if ptr w singly_at == 0
    then if mode == alloc_mode then singly_new mode idx w else pure (missing mode, w)
    else singly_table mode idx false w
