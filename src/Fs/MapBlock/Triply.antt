-- ===== src/Fs/MapBlock/Triply.antt =====
-- Three tables.
use deprecat_os.Prelude.{ℕ, ◌*◌, ◌/◌, ◌%◌, Bool, true, false, ◌==◌, if◌then◌else◌}
use deprecat_os.Fs.Bytes.{Bytes}
use deprecat_os.Fs.Volume.{M, pure, ◌>>=◌, ◌>>◌, read_block, write_block}
use deprecat_os.Fs.Bitmap.{alloc_block, free_block}
use deprecat_os.Fs.Inode.{triply_at}
use deprecat_os.Fs.MapBlock.Shared.{
  MapStatus, success, block_error, Walk, bit_32_per_blk, alloc_mode, free_mode, missing, counted,
  uncounted, ptr, set_ptr, entry, set_entry, zero_table, elements_inside,
}

-- The places in the three tables.
abbrev pub first : ℕ → ℕ
first idx = idx / (bit_32_per_blk * bit_32_per_blk)

abbrev pub second : ℕ → ℕ
second idx = idx / bit_32_per_blk % bit_32_per_blk

abbrev pub third : ℕ → ℕ
third idx = idx % bit_32_per_blk

-- FREE_MODE: the middle table had no other entry, and goes back.
unfoldable pub triply_drop_doubly : ℕ → Bytes → Walk → M (MapStatus × Walk)
triply_drop_doubly idx triply w = do
  free_block (entry triply (first idx))
  let triply' = set_entry triply (first idx) 0
  if elements_inside triply' bit_32_per_blk 0
      then (do write_block (ptr w triply_at) triply'; pure (success, counted w))
      else (do
        free_block (ptr w triply_at)
        pure (success, counted (set_ptr (counted w) triply_at 0)))

-- FREE_MODE: the last table had no other entry, and goes back.
unfoldable pub triply_drop : ℕ → Bytes → Bytes → Walk → M (MapStatus × Walk)
triply_drop idx triply doubly w = do
  free_block (entry doubly (second idx))
  let doubly' = set_entry doubly (second idx) 0
  if elements_inside doubly' bit_32_per_blk 0
      then (do write_block (entry triply (first idx)) doubly'; pure (success, counted w))
      else triply_drop_doubly idx triply (counted w)

unfoldable pub triply_clear : ℕ → Bytes → Bytes → Bytes → Walk → M (MapStatus × Walk)
triply_clear idx triply doubly indir w =
    let indir' = set_entry indir (third idx) 0 in
    if elements_inside indir' bit_32_per_blk 0
    then (do write_block (entry doubly (second idx)) indir'; pure (success, counted w))
    else triply_drop idx triply doubly (counted w)

unfoldable pub triply_found : ℕ → ℕ → Bytes → Bytes → Bytes → Walk → M (MapStatus × Walk)
triply_found mode idx triply doubly indir w =
    let found : Walk = record w { out = entry indir (third idx) } in
    if mode == free_mode then triply_clear idx triply doubly indir found else pure (success, found)

-- The middle table, which this call made, goes back, and with it the first one if it is new.
unfoldable pub triply_undo_doubly : ℕ → Bool → Bytes → Walk → M (MapStatus × Walk)
triply_undo_doubly idx triply_minted triply w = do
  free_block (entry triply (first idx))
  if triply_minted
      then (do
        free_block (ptr w triply_at)
        pure (block_error, uncounted (set_ptr (uncounted w) triply_at 0)))
      else (do
        write_block (ptr w triply_at) (set_entry triply (first idx) 0)
        pure (block_error, uncounted w))

-- No block is left for the entry: the tables this call made go back.
unfoldable pub triply_undo : ℕ → Bool → Bool → Bool → Bytes → Bytes → Walk → M (MapStatus × Walk)
triply_undo idx triply_minted doubly_minted singly_minted triply doubly w =
    if singly_minted
    then (do
      free_block (entry doubly (second idx))
      if doubly_minted then triply_undo_doubly idx triply_minted triply (uncounted w) else (do
        write_block (entry triply (first idx)) (set_entry doubly (second idx) 0)
        pure (block_error, uncounted w)))
    else pure (block_error, w)

unfoldable pub triply_mint :
    ℕ → ℕ → Bool → Bool → Bool → Bytes → Bytes → Bytes → Walk → M (MapStatus × Walk)
triply_mint mode idx triply_minted doubly_minted singly_minted triply doubly indir w = do
  n ← alloc_block
  if n == 0 then triply_undo idx triply_minted doubly_minted singly_minted triply doubly w else (do
    write_block (entry doubly (second idx)) (set_entry indir (third idx) n)
    triply_found mode idx triply doubly (set_entry indir (third idx) n) (counted w))

-- From the read of the last table on.
unfoldable pub triply_leaf :
    ℕ → ℕ → Bool → Bool → Bool → Bytes → Bytes → Walk → M (MapStatus × Walk)
triply_leaf mode idx triply_minted doubly_minted singly_minted triply doubly w = do
  indir ← read_block (entry doubly (second idx))
  if entry indir (third idx) == 0
      then (if mode == alloc_mode
          then triply_mint mode idx triply_minted doubly_minted singly_minted triply doubly indir w
          else pure (missing mode, w))
      else triply_found mode idx triply doubly indir w

-- The last table is missing, and the mode allocates.
unfoldable pub triply_inner : ℕ → ℕ → Bool → Bool → Bytes → Bytes → Walk → M (MapStatus × Walk)
triply_inner mode idx triply_minted doubly_minted triply doubly w = do
  n ← alloc_block
  if n == 0
      then (if doubly_minted
          then triply_undo_doubly idx triply_minted triply w
          else pure (block_error, w))
      else (do
        zero_table n
        write_block (entry triply (first idx)) (set_entry doubly (second idx) n)
        triply_leaf mode idx triply_minted doubly_minted true triply
            (set_entry doubly (second idx) n) (counted w))

-- From the read of the middle table on.
unfoldable pub triply_doubly : ℕ → ℕ → Bool → Bool → Bytes → Walk → M (MapStatus × Walk)
triply_doubly mode idx triply_minted doubly_minted triply w = do
  doubly ← read_block (entry triply (first idx))
  if entry doubly (second idx) == 0
      then (if mode == alloc_mode
          then triply_inner mode idx triply_minted doubly_minted triply doubly w
          else pure (missing mode, w))
      else triply_leaf mode idx triply_minted doubly_minted false triply doubly w

-- The middle table is missing, and the mode allocates.
unfoldable pub triply_middle : ℕ → ℕ → Bool → Bytes → Walk → M (MapStatus × Walk)
triply_middle mode idx triply_minted triply w = do
  n ← alloc_block
  if n == 0
      then (if triply_minted
          then (do
            free_block (ptr w triply_at)
            pure (block_error, uncounted (set_ptr w triply_at 0)))
          else pure (block_error, w))
      else (do
        zero_table n
        write_block (ptr w triply_at) (set_entry triply (first idx) n)
        triply_doubly mode idx triply_minted true (set_entry triply (first idx) n) (counted w))

-- From the read of the first table on.
unfoldable pub triply_table : ℕ → ℕ → Bool → Walk → M (MapStatus × Walk)
triply_table mode idx triply_minted w = do
  triply ← read_block (ptr w triply_at)
  if entry triply (first idx) == 0
      then (if mode == alloc_mode
          then triply_middle mode idx triply_minted triply w
          else pure (missing mode, w))
      else triply_doubly mode idx triply_minted false triply w

unfoldable pub triply_new : ℕ → ℕ → Walk → M (MapStatus × Walk)
triply_new mode idx w = do
  n ← alloc_block
  if n == 0
      then pure (block_error, set_ptr w triply_at n)
      else (do zero_table n; triply_table mode idx true (counted (set_ptr w triply_at n)))

unfoldable pub map_triply : ℕ → ℕ → Walk → M (MapStatus × Walk)
map_triply mode idx w =
    if ptr w triply_at == 0
    then if mode == alloc_mode then triply_new mode idx w else pure (missing mode, w)
    else triply_table mode idx false w
