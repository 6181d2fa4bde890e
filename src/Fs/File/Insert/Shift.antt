-- ===== src/Fs/File/Insert/Shift.antt =====
-- The first loop of `insert_in_inode` of kernel/fs/block/blockController.c: the blocks behind the
-- new bytes move up, and holes stay holes. What was allocated is noted, for `unwind_insert`.
use deprecat_os.Prelude.{
  ℕ, zero, suc, ◌+◌, ◌-◌, ◌/◌, ◌%◌, ◌^◌, Bool, true, false, not, ◌&&◌, ◌||◌, List, [], ◌∷◌, ◌++◌,
  ◌==◌, ltb, if◌then◌else◌,
}
use deprecat_os.Fs.Bytes.{Bytes}
use deprecat_os.Fs.Volume.{M, pure, ◌>>=◌, ◌>>◌, read_block, write_block}
use deprecat_os.Fs.Bitmap.{free_block}
use deprecat_os.Fs.Inode.{Inode}
use deprecat_os.Fs.MapBlock.{map_file_block}
use deprecat_os.Fs.MapBlock.Shared.{
  MapStatus, success, case_status, Walk, lookup_mode, alloc_mode, free_mode,
}
use deprecat_os.Fs.File.Change.{uncounted_walk, counted_walk, count_of, unwind_insert}

-- The arguments, and the size before.
pub record Place : Type 0 where
  pub inode_n : ℕ
  pub f_size : ℕ
  pub offset : ℕ
  pub old_size : ℕ

abbrev pub end_of : Place → ℕ
end_of p = (p.offset + p.f_size) % 2 ^ 32

-- `bottom`, `rem`, `shift_blks` and `split`
abbrev pub bottom_of : Place → ℕ
bottom_of p = end_of p / 4096

abbrev pub rem_of : Place → ℕ
rem_of p = p.f_size % 4096

abbrev pub shift_of : Place → ℕ
shift_of p = p.f_size / 4096

abbrev pub split_of : Place → ℕ
split_of p = end_of p % 4096

-- `unwind_buf` is the part of it that is filled.
pub record Inserter : Type 0 where
  pub inode : Inode
  pub alloc_cnt : ℕ
  pub free_cnt : ℕ
  pub unwind_buf : List ℕ
  pub minted_cnt : ℕ

-- After an allocation for the block `idx` of the file.
abbrev pub noted : ℕ → Walk → Inserter → Inserter
noted idx w s =
    let cnt = count_of w in
    if cnt == s.alloc_cnt then record s { inode = w.inode } else record s {
      inode = w.inode;
      alloc_cnt = cnt;
      unwind_buf = s.unwind_buf ++ idx ∷ [];
      minted_cnt = (s.minted_cnt + (cnt + 2 ^ 32 - s.alloc_cnt) % 2 ^ 32 + 4294967295) % 2 ^ 32;
    }

-- The recovery, and the status that is returned.
unfoldable pub undo : Place → MapStatus → Inserter → M (MapStatus × Inserter)
undo p status s = do
  inode ← unwind_insert p.inode_n s.inode s.unwind_buf s.free_cnt s.minted_cnt
  pure (status, record s { inode = inode })

-- The next part, unless this one has failed.
abbrev pub and_then :
    M (MapStatus × Inserter) → (Inserter → M (MapStatus × Inserter)) → M (MapStatus × Inserter)
and_then m f = m >>= λ r. case_status r.0 (f r.1) (pure r) (pure r)

-- The last `rem` bytes of the lower block, then the first of the upper one.
unfoldable pub merged : ℕ → Bytes → Bytes → Bytes
merged rem lo hi k = if ltb k rem then lo (4096 - rem + k) else hi (k - rem)

abbrev pub read_unless : Bool → ℕ → M Bytes
read_unless hole n = if hole then pure (λ _. 0) else read_block n

-- A hole moves: what the file had at `dest` is freed.
unfoldable pub move_hole :
    ℕ → (Inserter → M (MapStatus × Inserter)) → Inserter → M (MapStatus × Inserter)
move_hole dest next s = do
  (status, w) ← map_file_block free_mode dest (counted_walk s.inode s.free_cnt)
  let s' : Inserter = record s { inode = w.inode; free_cnt = count_of w }
  case_status status (free_block w.out >>= λ _. next s') (next s') (next s')

-- A block moves; `lo` and `hi` are where its bytes lie, each with whether it is a hole.
unfoldable pub move_block :
    Place
    → ℕ
    → Bool × ℕ
    → Bool × ℕ
    → (Inserter → M (MapStatus × Inserter))
    → Inserter
    → M (MapStatus × Inserter)
unfolding merged undo
move_block p dest lo hi next s = do
  (status, w) ← map_file_block alloc_mode dest (counted_walk s.inode s.alloc_cnt)
  let fail = undo p status (record s { inode = w.inode })
  case_status status
      (do
        blk_lo ← read_unless lo.0 lo.1
        blk_hi ← read_unless hi.0 hi.1
        write_block w.out (merged (rem_of p) blk_lo blk_hi)
        next (noted dest w s))
      fail fail

unfoldable pub move_to :
    Place
    → ℕ
    → Bool × ℕ
    → Bool × ℕ
    → (Inserter → M (MapStatus × Inserter))
    → Inserter
    → M (MapStatus × Inserter)
unfolding move_hole move_block
move_to p dest lo hi next s =
    if lo.0 && hi.0 then move_hole dest next s else move_block p dest lo hi next s

-- The block whose end comes before, looked up if it is needed.
unfoldable pub with_lower :
    Place
    → ℕ
    → (Bool × ℕ → Inserter → M (MapStatus × Inserter))
    → Inserter
    → M (MapStatus × Inserter)
unfolding undo
with_lower p src next s = if rem_of p == 0 then next (true, 0) s else do
  (status, w) ← map_file_block lookup_mode ((src + 4294967295) % 2 ^ 32) (uncounted_walk s.inode)
  let s' : Inserter = record s { inode = w.inode }
  case_status status (next (false, w.out) s') (next (true, 0) s') (undo p status s')

-- A round of the loop at the block `dest`, with the rest of the loop.
unfoldable pub shift_round :
    Place → ℕ → (Inserter → M (MapStatus × Inserter)) → Inserter → M (MapStatus × Inserter)
unfolding with_lower move_to undo
shift_round p dest next s =
    if ltb dest (bottom_of p) || (dest == bottom_of p && not (split_of p == 0))
    then pure (success, s)
    else do
      let src = (dest + 2 ^ 32 - shift_of p) % 2 ^ 32
      (status, w) ← map_file_block lookup_mode src (uncounted_walk s.inode)
      let s' : Inserter = record s { inode = w.inode }
      let below = λ (hi : Bool × ℕ). with_lower p src (λ lo t. move_to p dest lo hi next t) s'
      case_status status (below (false, w.out)) (below (true, 0)) (undo p status s')

-- The loop, `n` blocks from `dest` down. It has stopped at the latest below `bottom`.
unfoldable pub shift_blocks : Place → ℕ → ℕ → Inserter → M (MapStatus × Inserter)
unfolding shift_round
shift_blocks p zero dest s = pure (success, s)
shift_blocks p (suc n) dest s = shift_round p dest (λ s'. shift_blocks p n (dest - 1) s') s
