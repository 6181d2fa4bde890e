-- ===== src/Fs/Inode/Laws.antt =====
-- `get_inode` and `set_inode` on a mounted volume.
use deprecat_os.Prelude.{ℕ, ◌+◌, ◌-◌, ◌≤◌, ◌<◌, ◌≡◌, ◌∙◌, ◌⊎◌, ap, true, some, arith}
use deprecat_os.Fs.Bytes.{Bytes}
use deprecat_os.Fs.Volume.{Volume, inode_cnt}
use deprecat_os.Fs.Volume.Laws.{
  IsMounted, Fits, block, put, read_block-ok, write_block-ok, put-IsMounted, block-put_same,
}
use deprecat_os.Fs.Inode.{Inode, inode_blk, inode_off, get_inode, set_inode, store_inode}

-- The number of an inode whose slot lies in one block of the partition.
pub record HasSlot (v : Volume) (n : ℕ) : Type 0 where
  pub per_group : 0 < v.fs.inodes_per_grp
  pub numbered : (0 < n) × (n ≤ inode_cnt v.fs)
  pub fits : Fits v (inode_blk v.fs n)
  pub whole : inode_off v.fs n + 128 ≤ 4096

-- What `set_inode` leaves on the disk.
abbrev pub with_inode : Volume → ℕ → Inode → Volume
with_inode v n inode =
    put v (inode_blk v.fs n) (store_inode (block v (inode_blk v.fs n)) (inode_off v.fs n) inode)

module _ {v : Volume} (m : IsMounted v) where
  pub get_inode-ok :
      (n : ℕ)
      → HasSlot v n
      → get_inode n v ≡ some (some (λ k. block v (inode_blk v.fs n) (inode_off v.fs n + k)), v)
  unfolding get_inode
  get_inode-ok n h =
      let e = read_block-ok m (inode_blk v.fs n) h.fits in ground (arith, h.per_group)

  pub set_inode-ok :
      (n : ℕ) (inode : Inode)
      → HasSlot v n
      → set_inode n inode v ≡ some (true, with_inode v n inode)
  unfolding set_inode
  set_inode-ok n inode h =
      let e = read_block-ok m (inode_blk v.fs n) h.fits in
      let w =
        write_block-ok m (inode_blk v.fs n)
          (store_inode (block v (inode_blk v.fs n)) (inode_off v.fs n) inode) h.fits in
      ground arith

stored_byte :
    (buf : Bytes) (off : ℕ) (inode : Inode) (k : ℕ)
    → k < 128
    → store_inode buf off inode (off + k) ≡ inode k
unfolding store_inode
stored_byte buf off inode k h =
    let e : off + k - off ≡ k = omega arith in ground (arith, ap inode e)

other_byte :
    (buf : Bytes) (off : ℕ) (inode : Inode) (k : ℕ)
    → (k < off) ⊎ (off + 128 ≤ k)
    → store_inode buf off inode k ≡ buf k
unfolding store_inode
other_byte buf off inode k h = ground arith

-- On a mounted volume, with inodes in its groups, for the number of an inode whose slot lies in
-- one block of the partition, `set_inode` succeeds, `get_inode` then gives the 128 bytes back, and
-- every other byte of the inode's block is as it was.
pub get_inode-set_inode :
    (v : Volume) (n : ℕ) (inode : Inode)
    → IsMounted v
    → HasSlot v n
    → (w : Volume) × (read : Inode) × (set_inode n inode v ≡ some (true, w))
      × (get_inode n w ≡ some (some read, w))
      × ((k : ℕ) → k < 128 → read k ≡ inode k)
      × ((k : ℕ)
          → k < 4096
          → (k < inode_off v.fs n) ⊎ (inode_off v.fs n + 128 ≤ k)
          → block w (inode_blk v.fs n) k ≡ block v (inode_blk v.fs n) k)
get_inode-set_inode v n inode m h = (
  with_inode v n inode,
  λ k. block (with_inode v n inode) (inode_blk v.fs n) (inode_off v.fs n + k),
  set_inode-ok m n inode h,
  get_inode-ok (put-IsMounted m (inode_blk v.fs n) _) n
      (record { per_group = h.per_group; numbered = h.numbered; fits = h.fits; whole = h.whole }),
  λ k p.
      block-put_same v (inode_blk v.fs n) _ (inode_off v.fs n + k) (omega (arith, h.whole))
      ∙ stored_byte (block v (inode_blk v.fs n)) (inode_off v.fs n) inode k p,
  λ k p q.
      block-put_same v (inode_blk v.fs n) _ k p
      ∙ other_byte (block v (inode_blk v.fs n)) (inode_off v.fs n) inode k q,
)
