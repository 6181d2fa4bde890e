-- ===== src/Fs/MapBlock/Mint.antt =====
-- `map_file_block` on a direct block that it makes and that it takes away again.
use deprecat_os.Prelude.{ℕ, ◌<◌, ◌^◌, ◌≡◌, ◌≢◌, true, false, some, ◌==◌, ltb, arith}
use deprecat_os.Fs.Bytes.{get32-set32, get32-set32-Apart}
use deprecat_os.Fs.Volume.{Volume}
use deprecat_os.Fs.Volume.Laws.{bind_ok}
use deprecat_os.Fs.Bitmap.{alloc_block}
use deprecat_os.Fs.Inode.{dir_at}
use deprecat_os.Fs.MapBlock.{map_file_block}
use deprecat_os.Fs.MapBlock.Shared.{
  success, Walk, lookup_mode, alloc_mode, free_mode, ptr, set_ptr, counted,
}
use deprecat_os.Fs.MapBlock.Direct.{map_direct, direct_found, direct_mint}

-- The state after block `n` became block `idx`, with `out` written.
abbrev pub minted : ℕ → ℕ → Walk → Walk
minted idx n w = record (counted (set_ptr w (dir_at idx) n)) { out = n }

module _ (idx n : ℕ) (w : Walk) where
  map_file_block-mint :
      (v : Volume) {v' : Volume}
      → idx < 12
      → ptr w (dir_at idx) ≡ 0
      → alloc_block v ≡ some (n, v')
      → 0 < n
      → n < 2 ^ 32
      → map_file_block alloc_mode idx w v ≡ some ((success, minted idx n w), v')
  unfolding map_file_block map_direct direct_mint direct_found
  map_file_block-mint v h e a p b =
      let s : ltb idx 12 ≡ true = ground arith in
      let z : (ptr w (dir_at idx) == 0) ≡ true = ground arith in
      let nz : (n == 0) ≡ false = ground arith in
      rw (s, z, bind_ok alloc_block _ _ a, nz, get32-set32 w.inode (dir_at idx) n b)

  mint-lookup :
      (v : Volume)
      → idx < 12
      → 0 < n
      → n < 2 ^ 32
      → map_file_block lookup_mode idx (minted idx n w) v ≡ some ((success, minted idx n w), v)
  unfolding map_file_block map_direct direct_found
  mint-lookup v h p b =
      let s : ltb idx 12 ≡ true = ground arith in
      let nz : (n == 0) ≡ false = ground arith in rw (s, get32-set32 w.inode (dir_at idx) n b, nz)

  mint-apart : (j : ℕ) → j ≢ idx → ptr (minted idx n w) (dir_at j) ≡ ptr w (dir_at j)
  mint-apart j ne = get32-set32-Apart w.inode (dir_at idx) n (dir_at j) (ground arith)

  mint-free :
      (v : Volume)
      → idx < 12
      → 0 < n
      → n < 2 ^ 32
      → map_file_block free_mode idx (minted idx n w) v
        ≡ some ((success, set_ptr (counted (minted idx n w)) (dir_at idx) 0), v)
  unfolding map_file_block map_direct direct_found
  mint-free v h p b =
      let s : ltb idx 12 ≡ true = ground arith in
      let nz : (n == 0) ≡ false = ground arith in rw (s, get32-set32 w.inode (dir_at idx) n b, nz)

  -- For a direct block that is missing, if `alloc_block` returns a block n other than 0 then
  -- `map_file_block` in ALLOC_MODE succeeds with n in the inode and in its output; afterwards
  -- LOOKUP_MODE returns n and changes nothing, FREE_MODE returns n and clears the pointer, and no
  -- other direct pointer has changed.
  pub alloc_mode-lookup_mode :
      (v : Volume) {v' : Volume}
      → idx < 12
      → ptr w (dir_at idx) ≡ 0
      → alloc_block v ≡ some (n, v')
      → 0 < n
      → n < 2 ^ 32
      → (map_file_block alloc_mode idx w v ≡ some ((success, minted idx n w), v'))
        × (map_file_block lookup_mode idx (minted idx n w) v'
            ≡ some ((success, minted idx n w), v'))
        × (map_file_block free_mode idx (minted idx n w) v'
            ≡ some ((success, set_ptr (counted (minted idx n w)) (dir_at idx) 0), v'))
        × ((j : ℕ) → j ≢ idx → ptr (minted idx n w) (dir_at j) ≡ ptr w (dir_at j))
  alloc_mode-lookup_mode v {v'} h e a p b =
      (map_file_block-mint v h e a p b, mint-lookup v' h p b, mint-free v' h p b, mint-apart)
