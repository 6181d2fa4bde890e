-- ===== src/Fs/File/Read.antt =====
-- `indir_read_block` and `read_inode` of kernel/fs/block/blockController.c. The cursor moves by
-- whole blocks, so the output is a buffer of blocks.
pub mod Laws
pub mod Whole
use deprecat_os.Prelude.{
  ℕ, zero, suc, ◌+◌, ◌-◌, ◌*◌, ◌%◌, ◌^◌, min, Bool, true, false, ◌&&◌, ◌==◌, ltb, leb,
  if◌then◌else◌,
}
use deprecat_os.Fs.Bytes.{Bytes, get32}
use deprecat_os.Fs.Volume.{M, pure, ◌>>=◌, read_block}
use deprecat_os.Fs.Inode.{Inode, size_lo, dir_at, singly_at, doubly_at, triply_at}
use deprecat_os.Fs.MapBlock.Shared.{entry, bit_32_per_blk}
use deprecat_os.Fs.File.Fields.{blocks_for}

-- The output buffer, the block of it that `*out_cursor` points to, and `*blocks_left`.
pub record Reader : Type 0 where
  pub out : ℕ → Bytes
  pub at : ℕ
  pub left : ℕ

abbrev pub no_data : Bytes
no_data k = 0

-- `n` blocks, given by `f`, stored at the cursor.
unfoldable pub filled : Reader → ℕ → (ℕ → Bytes) → Reader
filled r n f = record {
  out = λ k. if leb r.at k && ltb k (r.at + n) then f (k - r.at) else r.out k;
  at = r.at + n;
  left = r.left - n;
}

-- The loop over the entries of a table, `n` of them from `i` on.
unfoldable pub read_entries : (ℕ → Reader → M Reader) → Bytes → ℕ → ℕ → Reader → M Reader
read_entries f t zero i r = pure r
read_entries f t (suc n) i r = elim (ltb 0 r.left) [
  | true ↦ f (entry t i) r >>= λ r'. read_entries f t n (i + 1) r'
  | false ↦ pure r
]

-- What a pointer of 0 on a layer spans.
abbrev pub span_of : ℕ → ℕ
span_of layer = bit_32_per_blk ^ layer % 2 ^ 32

unfoldable pub indir_read_block : ℕ → ℕ → Reader → M Reader
indir_read_block zero block_n r =
    if block_n == 0
    then pure (filled r (min (span_of zero) r.left) (λ _. no_data))
    else do buf ← read_block block_n; pure (filled r 1 (λ _. buf))
indir_read_block (suc layer) block_n r =
    if block_n == 0
    then pure (filled r (min (span_of (suc layer)) r.left) (λ _. no_data))
    else do t ← read_block block_n; read_entries (indir_read_block layer) t bit_32_per_blk 0 r

-- `if (blocks_left > 0) indir_read_block(...)`
unfoldable pub read_layer : Inode → ℕ → ℕ → Reader → M Reader
read_layer inode layer at r =
    if ltb 0 r.left then indir_read_block layer (get32 inode at) r else pure r

-- The loop over the direct pointers, `n` of them from `i` on.
unfoldable pub read_direct : Inode → ℕ → ℕ → Reader → M Reader
unfolding read_layer
read_direct inode zero i r = pure r
read_direct inode (suc n) i r = elim (ltb 0 r.left) [
  | true ↦ indir_read_block 0 (get32 inode (dir_at i)) r >>= λ r'. read_direct inode n (i + 1) r'
  | false ↦ pure r
]

unfoldable pub read_inode : Inode → (ℕ → Bytes) → M Reader
unfolding read_direct read_layer
read_inode inode out = do
  r ← read_direct inode 12 0 (record { out = out; at = 0; left = blocks_for (size_lo inode) })
  r ← read_layer inode 1 singly_at r
  r ← read_layer inode 2 doubly_at r
  read_layer inode 3 triply_at r
