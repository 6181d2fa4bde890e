-- ===== src/Fs/MapBlock/Direct.antt =====
-- The twelve pointers in the inode.
use deprecat_os.Prelude.{ℕ, ◌==◌, if◌then◌else◌}
use deprecat_os.Fs.Volume.{M, pure, ◌>>=◌}
use deprecat_os.Fs.Bitmap.{alloc_block}
use deprecat_os.Fs.Inode.{dir_at}
use deprecat_os.Fs.MapBlock.Shared.{
  MapStatus, success, block_error, Walk, alloc_mode, free_mode, missing, counted, ptr, set_ptr,
}

unfoldable pub direct_found : ℕ → ℕ → Walk → MapStatus × Walk
direct_found mode idx w =
    let found : Walk = record w { out = ptr w (dir_at idx) } in
    if mode == free_mode
    then (success, set_ptr (counted found) (dir_at idx) 0)
    else (success, found)

-- The pointer is 0, and the mode allocates.
unfoldable pub direct_mint : ℕ → ℕ → Walk → M (MapStatus × Walk)
direct_mint mode idx w = do
  n ← alloc_block
  let w' = set_ptr w (dir_at idx) n
  if n == 0 then pure (block_error, w') else pure (direct_found mode idx (counted w'))

unfoldable pub map_direct : ℕ → ℕ → Walk → M (MapStatus × Walk)
map_direct mode idx w =
    if ptr w (dir_at idx) == 0
    then if mode == alloc_mode then direct_mint mode idx w else pure (missing mode, w)
    else pure (direct_found mode idx w)
