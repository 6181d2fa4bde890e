-- ===== src/Fs/Bitmap/Blocks.antt =====
-- `alloc_block`, `free_block`, and `alloc_inode` by the numbers that they hand out.
use deprecat_os.Prelude.{
  ℕ, ◌+◌, ◌*◌, ◌/◌, ◌%◌, ◌^◌, ◌≤◌, ◌<◌, ◌≡◌, ◌≢◌, ◌∙◌, refl, sym, ap, subst, ◌⊎◌, inl, inr, Bool,
  true, false, Option, none, some, arith,
}
use deprecat_os.Fs.Volume.{FsInfo, Volume, super_block_num, block_cnt}
use deprecat_os.Fs.Volume.Laws.{bind_ok}
use deprecat_os.Fs.Bitmap.{
  Kind, block_kind, inode_kind, block_error, inode_error, unalloc_cnt, unalloc_total, find_group,
  take_in, give_in, block_from, inode_from, alloc_block, alloc_inode, free_block, block_offset,
}
use deprecat_os.Fs.Bitmap.Bit.{used, bit-cases}
use deprecat_os.Fs.Bitmap.Search.{find_group_lem, FindGroup}
use deprecat_os.Fs.Bitmap.Change.{InDescriptor, bitmap, IsSound, Changed}
use deprecat_os.Fs.Bitmap.Alloc.{Taken, take_in_lem, give_in_free, give_in_taken}

-- No group has an item left.
abbrev pub Exhausted : Kind → Volume → Type 0
Exhausted k v = (g : ℕ) → g < v.fs.ngroups → unalloc_cnt k v.fs g ≡ 0

-- The first group with an item left gave its first free one.
pub record FirstTaken (k : Kind) (limit : ℕ) (v : Volume) (g i : ℕ) (w : Volume) : Type 0 where
  pub group : g < v.fs.ngroups
  pub some_left : 0 < unalloc_cnt k v.fs g
  pub earlier : (h : ℕ) → h < g → unalloc_cnt k v.fs h ≡ 0
  pub taken : Taken k limit v g i w

abbrev pub block_number : FsInfo → ℕ → ℕ → ℕ
block_number fs g i = (g * fs.blks_per_grp + i + super_block_num fs) % 2 ^ 32

abbrev pub inode_number : FsInfo → ℕ → ℕ → ℕ
inode_number fs g i = (g * fs.inodes_per_grp + i + 1) % 2 ^ 32

pub block_layout : InDescriptor block_kind
block_layout = omega arith

pub inode_layout : InDescriptor inode_kind
inode_layout = omega arith

-- On a sound volume `alloc_block` either finds that no group has a block left, and returns the
-- error with the volume as it was, or takes the first free block of the first group that has one:
-- its bit is set, the counters go down by one, and its number is returned.
pub alloc_block_lem :
    (v : Volume)
    → IsSound block_kind 4096 v
    → (Exhausted block_kind v × (alloc_block v ≡ some (block_error, v)))
      ⊎ ((g i : ℕ) × (w : Volume) × FirstTaken block_kind 4096 v g i w
          × (alloc_block v ≡ some (block_number v.fs g i, w)))
unfolding alloc_block
alloc_block_lem v s =
    go (find_group block_kind v.fs v.fs.ngroups 0) refl
      (find_group_lem block_kind v.fs v.fs.ngroups 0)
  where
    go :
        (o : Option ℕ)
        → find_group block_kind v.fs v.fs.ngroups 0 ≡ o
        → FindGroup block_kind v.fs v.fs.ngroups 0 o
        → (Exhausted block_kind v × (alloc_block v ≡ some (block_error, v)))
          ⊎ ((g i : ℕ) × (w : Volume) × FirstTaken block_kind 4096 v g i w
              × (alloc_block v ≡ some (block_number v.fs g i, w)))
    go none e all = inl (λ g p. all g (omega arith) (omega arith), ap (λ o. block_from v.fs o v) e)
    go (some g) e h =
        let group : g < v.fs.ngroups = omega arith in
        let t = take_in_lem block_kind block_layout 4096 (omega arith) v s g group h.2 in
        inr (
          g,
          t.0,
          t.1,
          record {
            group = group;
            some_left = h.2;
            earlier = λ j p. h.3 j (omega arith) p;
            taken = t.3;
          },
          ap (λ o. block_from v.fs o v) e ∙ (bind_ok (take_in block_kind 4096 g) _ v t.2),
        )

-- On a volume that is sound for inodes, with at most 32768 of them in a group, `alloc_inode`
-- either finds that no group has an inode left, and returns the error with the volume as it was,
-- or takes the first free inode of the first group that has one and returns its number.
pub alloc_inode_lem :
    (v : Volume)
    → v.fs.inodes_per_grp ≤ 32768
    → IsSound inode_kind (v.fs.inodes_per_grp / 8) v
    → (Exhausted inode_kind v × (alloc_inode v ≡ some (inode_error, v)))
      ⊎ ((g i : ℕ) × (w : Volume) × FirstTaken inode_kind (v.fs.inodes_per_grp / 8) v g i w
          × (alloc_inode v ≡ some (inode_number v.fs g i, w)))
unfolding alloc_inode
alloc_inode_lem v few s =
    go (find_group inode_kind v.fs v.fs.ngroups 0) refl
      (find_group_lem inode_kind v.fs v.fs.ngroups 0)
  where
    go :
        (o : Option ℕ)
        → find_group inode_kind v.fs v.fs.ngroups 0 ≡ o
        → FindGroup inode_kind v.fs v.fs.ngroups 0 o
        → (Exhausted inode_kind v × (alloc_inode v ≡ some (inode_error, v)))
          ⊎ ((g i : ℕ) × (w : Volume) × FirstTaken inode_kind (v.fs.inodes_per_grp / 8) v g i w
              × (alloc_inode v ≡ some (inode_number v.fs g i, w)))
    go none e all = inl (λ g p. all g (omega arith) (omega arith), ap (λ o. inode_from v.fs o v) e)
    go (some g) e h =
        let group : g < v.fs.ngroups = omega arith in
        let t =
          take_in_lem inode_kind inode_layout (v.fs.inodes_per_grp / 8) (omega arith) v s g group
            h.2 in
        inr (
          g,
          t.0,
          t.1,
          record {
            group = group;
            some_left = h.2;
            earlier = λ j p. h.3 j (omega arith) p;
            taken = t.3;
          },
          ap (λ o. inode_from v.fs o v) e
              ∙ (bind_ok (take_in inode_kind (v.fs.inodes_per_grp / 8) g) _ v t.2),
        )

-- The group of a block number, and its place there.
abbrev pub group_of_block : FsInfo → ℕ → ℕ
group_of_block fs n = block_offset fs n / fs.blks_per_grp

abbrev pub index_of_block : FsInfo → ℕ → ℕ
index_of_block fs n = block_offset fs n % fs.blks_per_grp

-- The guards of `free_block`.
abbrev pub BlockRefused : FsInfo → ℕ → Type 0
BlockRefused fs n = (n ≡ 0) ⊎ ((fs.ngroups ≤ group_of_block fs n) ⊎ (block_cnt fs ≤ n))

abbrev pub BlockAccepted : FsInfo → ℕ → Type 0
BlockAccepted fs n = (n ≢ 0) × (group_of_block fs n < fs.ngroups) × (n < block_cnt fs)

free_block_refused : (v : Volume) (n : ℕ) → BlockRefused v.fs n → free_block n v ≡ some (false, v)
unfolding free_block
free_block_refused v n r = ground arith

pub free_block_accepted :
    (v w : Volume) (n : ℕ)
    → BlockAccepted v.fs n
    → give_in block_kind (group_of_block v.fs n) (index_of_block v.fs n) v ≡ some (tt, w)
    → free_block n v ≡ some (true, w)
unfolding free_block
free_block_accepted v w n a e = ground arith

-- What `free_block` does: a number that its guards refuse changes nothing and is reported; a free
-- block changes nothing either; a taken block is given back, with the counters.
pub data BlockFreed (v : Volume) (n : ℕ) : Option (Bool × Volume) → Type 0 where
  refused : BlockRefused v.fs n → BlockFreed v n (some (false, v))
  already :
      BlockAccepted v.fs n
      → used (bitmap block_kind v (group_of_block v.fs n)) (index_of_block v.fs n) ≡ 0
      → BlockFreed v n (some (true, v))
  freed :
      {w : Volume}
      → BlockAccepted v.fs n
      → used (bitmap block_kind v (group_of_block v.fs n)) (index_of_block v.fs n) ≡ 1
      → Changed block_kind 4096 v
          (group_of_block v.fs n)
          (index_of_block v.fs n)
          0
          (unalloc_cnt block_kind v.fs (group_of_block v.fs n) + 1)
          ((unalloc_total block_kind v.fs + 1) % 2 ^ 32)
          w
      → BlockFreed v n (some (true, w))

block_guard : (fs : FsInfo) (n : ℕ) → BlockRefused fs n ⊎ BlockAccepted fs n
block_guard fs n = ground arith

-- On a sound volume with groups of 1 to 32768 blocks `free_block` reports a number that its guards
-- refuse and changes nothing, accepts a block that is free already and changes nothing, and else
-- clears the block's bit and adds one to the counters.
pub free_block_lem :
    (v : Volume) (n : ℕ)
    → IsSound block_kind 4096 v
    → 0 < v.fs.blks_per_grp
    → v.fs.blks_per_grp ≤ 32768
    → BlockFreed v n (free_block n v)
free_block_lem v n s pos few = elim (block_guard v.fs n) [
  | inl r ↦ subst (BlockFreed v n) (sym (free_block_refused v n r)) (refused r)
  | inr a ↦
      elim (bit-cases (bitmap block_kind v (group_of_block v.fs n) (index_of_block v.fs n / 8))
        (index_of_block v.fs n % 8)) [
          | inl free ↦
              subst (BlockFreed v n)
                (sym (
                  free_block_accepted v v n a (
                    give_in_free block_kind block_layout 4096 (omega arith) v s
                      (group_of_block v.fs n) a.1 (index_of_block v.fs n) free)))
                (already a free)
          | inr taken ↦
              let t =
                give_in_taken block_kind block_layout 4096 (omega arith) v s (group_of_block v.fs n)
                  a.1 (index_of_block v.fs n) (omega arith) taken in
              subst (BlockFreed v n) (sym (free_block_accepted v t.0 n a t.1)) (freed a taken t.2)
        ]
]
