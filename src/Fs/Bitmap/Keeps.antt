-- ===== src/Fs/Bitmap/Keeps.antt =====
-- The bitmap operations stay within the volume.
use deprecat_os.Prelude.{ℕ, ◌^◌, bit_or, write, some, none, Option}
use deprecat_os.Fs.Bytes.{Bytes}
use deprecat_os.Fs.Volume.{FsInfo, M, pure, panic, ◌>>◌, read_block}
use deprecat_os.Fs.Volume.Keeps.{
  Keeps, Keeps-elim, Like, Like-with_buffers, Keeps-bind, Keeps-if, Keeps-pure, Keeps-panic,
  Keeps-get_fs, Keeps-read_block, Keeps-write_block, Keeps-write_super, Keeps-set_fs, keeps_rules,
}
use deprecat_os.Fs.Bitmap.{
  Kind, bitmap_addr, flush, count_down, count_up, take_in, give_in, alloc_block, free_block,
  alloc_inode, free_inode, inode_from, block_from, scan_bytes,
}

Keeps-flush :
    {g : FsInfo} (fs : FsInfo) (addr : ℕ) (bitmap : Bytes)
    → Like g fs
    → Keeps g (flush fs addr bitmap)
unfolding flush
Keeps-flush fs addr bitmap l = search keeps_rules

Like-count_down :
    {g : FsInfo} (k : Kind) (fs : FsInfo) (n : ℕ) → Like g fs → Like g (count_down k fs n)
unfolding count_down
Like-count_down k fs n l = Like-with_buffers fs (count_down k fs n) l

Like-count_up : {g : FsInfo} (k : Kind) (fs : FsInfo) (n : ℕ) → Like g fs → Like g (count_up k fs n)
unfolding count_up
Like-count_up k fs n l = Like-with_buffers fs (count_up k fs n) l

-- The rest of `take_in` once an item is found.
abbrev take_found : Kind → ℕ → FsInfo → Bytes → ℕ × ℕ × ℕ → M (ℕ × ℕ)
take_found k n fs bitmap (byte_idx, bit, idx) = do
  flush (count_down k fs n) (bitmap_addr k fs n)
      (write bitmap byte_idx (bit_or (bitmap byte_idx) (2 ^ bit)))
  pure (n, idx)

Keeps-take_found :
    {g : FsInfo} (k : Kind) (n : ℕ) (fs : FsInfo) (bitmap : Bytes) (r : ℕ × ℕ × ℕ)
    → Like g fs
    → Keeps g (take_found k n fs bitmap r)
Keeps-take_found k n fs bitmap (byte_idx, bit, idx) l =
    search (keeps_rules, Keeps-flush, Like-count_down)

Keeps-take_in : {g : FsInfo} (k : Kind) (limit n : ℕ) → Keeps g (take_in k limit n)
unfolding take_in
Keeps-take_in k limit n = Keeps-get_fs _ (λ fs l.
    Keeps-bind (read_block (bitmap_addr k fs n)) _ (Keeps-read_block (bitmap_addr k fs n))
      (λ bitmap.
        Keeps-elim (scan_bytes bitmap limit 0 0) panic (take_found k n fs bitmap) Keeps-panic
          (λ r. Keeps-take_found k n fs bitmap r l)))

Keeps-give_in : {g : FsInfo} (k : Kind) (n idx : ℕ) → Keeps g (give_in k n idx)
unfolding give_in
Keeps-give_in k n idx = search (keeps_rules, Keeps-flush, Like-count_up) depth 9

Keeps-inode_from : {g : FsInfo} (fs : FsInfo) (o : Option ℕ) → Keeps g (inode_from fs o)
unfolding inode_from
Keeps-inode_from fs none = search keeps_rules
Keeps-inode_from fs (some n) = search (keeps_rules, Keeps-take_in)

Keeps-block_from : {g : FsInfo} (fs : FsInfo) (o : Option ℕ) → Keeps g (block_from fs o)
unfolding block_from
Keeps-block_from fs none = search keeps_rules
Keeps-block_from fs (some n) = search (keeps_rules, Keeps-take_in)

pub Keeps-alloc_block : {g : FsInfo} → Keeps g alloc_block
unfolding alloc_block
Keeps-alloc_block = search (keeps_rules, Keeps-block_from)

pub Keeps-alloc_inode : {g : FsInfo} → Keeps g alloc_inode
unfolding alloc_inode
Keeps-alloc_inode = search (keeps_rules, Keeps-inode_from)

pub Keeps-free_block : {g : FsInfo} (n : ℕ) → Keeps g (free_block n)
unfolding free_block
Keeps-free_block n = search (keeps_rules, Keeps-give_in) depth 9

pub Keeps-free_inode : {g : FsInfo} (n : ℕ) → Keeps g (free_inode n)
unfolding free_inode
Keeps-free_inode n = search (keeps_rules, Keeps-give_in) depth 9

pub ruleset keeps_bitmaps =
    (keeps_rules, Keeps-alloc_block, Keeps-alloc_inode, Keeps-free_block, Keeps-free_inode)
