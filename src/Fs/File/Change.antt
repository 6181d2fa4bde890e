-- ===== src/Fs/File/Change.antt =====
-- `truncate_inode`, `append_to_inode` and `unwind_insert` of kernel/fs/block/blockController.c.
-- An inode that the code writes through `out` is returned; `none` is INODE_ERROR.
use deprecat_os.Prelude.{
  ℕ, zero, suc, ◌+◌, ◌-◌, ◌/◌, ◌%◌, ◌^◌, min, Bool, true, false, not, ◌&&◌, Option, none, some,
  List, [], ◌∷◌, length, ◌==◌, ltb, leb, if◌then◌else◌, case_option,
}
use mathlib.Core.Option
use deprecat_os.Fs.Bytes.{Bytes}
use deprecat_os.Fs.Volume.{M, pure, panic, ◌>>=◌, ◌>>◌, read_block, write_block}
use deprecat_os.Fs.Bitmap.{free_block}
use deprecat_os.Fs.Inode.{Inode, size_lo, get_inode, set_inode}
use deprecat_os.Fs.MapBlock.{map_file_block}
use deprecat_os.Fs.MapBlock.Shared.{case_status, Walk, lookup_mode, alloc_mode, free_mode}
use deprecat_os.Fs.File.Fields.{
  blocks_for, more_sectors, fewer_sectors, set_size, set_last_access, set_last_mod,
}

-- A call of `map_file_block` with the null pointer for `alloc_cnt`.
abbrev pub uncounted_walk : Inode → Walk
uncounted_walk inode = record { inode = inode; out = 0; cnt = none }

abbrev pub counted_walk : Inode → ℕ → Walk
counted_walk inode cnt = record { inode = inode; out = 0; cnt = some cnt }

abbrev pub count_of : Walk → ℕ
count_of w = Option.get_or w.cnt 0

-- The loop of `truncate_inode` over the blocks behind the new end, `n` of them from `blk` on;
-- `none` is a status other than success and empty.
unfoldable pub tail_round : ℕ → (Walk → M (Option Walk)) → Walk → M (Option Walk)
tail_round blk next w = do
  (status, w') ← map_file_block free_mode blk w
  case_status status (free_block w'.out >>= λ _. next w') (next w') (pure none)

unfoldable pub free_tail : ℕ → ℕ → Walk → M (Option Walk)
unfolding tail_round
free_tail zero blk w = pure (some w)
free_tail (suc n) blk w = tail_round blk (λ w'. free_tail n (blk + 1) w') w

-- The bytes from `start` on set to 0.
unfoldable pub cut : Bytes → ℕ → Bytes
cut buf start k = if leb start k && ltb k 4096 then 0 else buf k

-- The rest of the last block is cleared, if the new size ends inside it.
unfoldable pub clear_rest : ℕ → Inode → M Bool
unfolding cut
clear_rest new_size inode = if new_size % 4096 == 0 then pure true else do
  (status, w) ← map_file_block lookup_mode (new_size / 4096) (uncounted_walk inode)
  case_status status
      (do buf ← read_block w.out; write_block w.out (cut buf (new_size % 4096)); pure true)
      (pure true) (pure false)

-- What `truncate_inode` does once the blocks behind the new end are free.
unfoldable pub truncate_freed : ℕ → ℕ → ℕ → Walk → M (Option Inode)
unfolding clear_rest
truncate_freed now inode_n new_size w = do
  cleared ← clear_rest new_size w.inode
  if not cleared then pure none else do
    let inode' =
        set_last_access now
          (set_last_mod now (set_size new_size (fewer_sectors (count_of w) w.inode)))
    stored ← set_inode inode_n inode'
    pure (if stored then some inode' else none)

unfoldable pub truncate_found : ℕ → ℕ → ℕ → Inode → M (Option Inode)
unfolding free_tail truncate_freed
truncate_found now inode_n new_size inode = if ltb (size_lo inode) new_size then pure none else do
  let from = blocks_for new_size
  freed ← free_tail (blocks_for (size_lo inode) - from) from (counted_walk inode 0)
  case_option freed (pure none) (truncate_freed now inode_n new_size)

unfoldable pub truncate_inode : ℕ → ℕ → ℕ → M (Option Inode)
unfolding truncate_found
truncate_inode now inode_n new_size = do
  found ← get_inode inode_n
  case_option found (pure none) (truncate_found now inode_n new_size)

-- `len` bytes of `src`, from `from` on, stored at `at`.
unfoldable pub spliced : Bytes → ℕ → Bytes → ℕ → ℕ → Bytes
spliced buf at src from len k =
    if leb at k && ltb k (at + len) then src (from + (k - at)) else buf k

-- `alloc_cnt` with the inode, `buf_byte_cursor`, `bytes_left` and `alloced_backward`.
pub record Appender : Type 0 where
  pub inode : Inode
  pub cnt : ℕ
  pub cursor : ℕ
  pub left : ℕ
  pub backward : Bool

-- The bytes that fit behind the end of the last block, written into `slack`.
unfoldable pub fill_tail : Bytes → ℕ → ℕ → Bytes → Appender → M Appender
unfolding spliced
fill_tail buf old_size tail_blk_n slack a = do
  let tail_off = old_size % 4096
  let len = min a.left (4096 - tail_off)
  write_block tail_blk_n (spliced slack tail_off buf a.cursor len)
  pure (record a { cursor = a.cursor + len; left = a.left - len })

-- The block of the old end is a hole: it is made, and filled with zeros before the new bytes.
unfoldable pub append_hole : Bytes → ℕ → Walk → Appender → M (Option Appender)
unfolding fill_tail
append_hole buf old_size w a = do
  (status, w') ← map_file_block alloc_mode (blocks_for old_size - 1) (counted_walk w.inode a.cnt)
  case_status status
      (do
        a' ←
            fill_tail buf old_size w'.out (λ _. 0)
              (record a { inode = w'.inode; cnt = count_of w'; backward = true })
        pure (some a'))
      (pure none) (pure none)

unfoldable pub append_tail : Bytes → ℕ → Appender → M (Option Appender)
unfolding fill_tail append_hole
append_tail buf old_size a = if old_size % 4096 == 0 then pure (some a) else do
  (status, w) ← map_file_block lookup_mode (blocks_for old_size - 1) (uncounted_walk a.inode)
  case_status status
      (do
        slack ← read_block w.out
        a' ← fill_tail buf old_size w.out slack (record a { inode = w.inode })
        pure (some a'))
      (append_hole buf old_size w a) (pure none)

-- Blocks that were mapped given back, `n` of them from `i` on.
unfoldable pub unmap_round : ℕ → (Walk → M Walk) → Walk → M Walk
unmap_round i next w = do
  (status, w') ← map_file_block free_mode i w
  case_status status (free_block w'.out >>= λ _. next w') panic panic

unfoldable pub unappend : ℕ → ℕ → Walk → M Walk
unfolding unmap_round
unappend zero i w = pure w
unappend (suc n) i w = unmap_round i (λ w'. unappend n (i + 1) w') w

unfoldable pub undo_append : ℕ → ℕ → Bool → Inode → M (Unit {0})
unfolding unappend
undo_append old_blk_cnt blk_idx backward inode = do
  w ← unappend blk_idx old_blk_cnt (uncounted_walk inode)
  _ ← (if backward then unappend 1 (old_blk_cnt - 1) w else pure w)
  pure tt

-- A round of the loop over the new blocks; `junk` is what `kmalloc` left in a block's buffer.
unfoldable pub append_round :
    Bytes → Bytes → ℕ → ℕ → (Appender → M (Option Appender)) → Appender → M (Option Appender)
unfolding undo_append spliced
append_round junk buf old_blk_cnt blk_idx next a =
    if ltb 0 a.left
    then (do
      (status, w) ← map_file_block alloc_mode (old_blk_cnt + blk_idx) (counted_walk a.inode a.cnt)
      let fail : M (Option Appender) =
          undo_append old_blk_cnt blk_idx a.backward w.inode >> pure none
      let add = min a.left 4096
      case_status status
          (do
            write_block w.out (spliced junk 0 buf a.cursor add)
            next (record a {
              inode = w.inode;
              cnt = count_of w;
              cursor = a.cursor + add;
              left = a.left - add;
            }))
          fail fail)
    else pure (some a)

-- The loop, on fuel; `none` is INODE_ERROR.
unfoldable pub append_blocks : ℕ → Bytes → Bytes → ℕ → ℕ → Appender → M (Option Appender)
unfolding append_round
append_blocks zero junk buf old_blk_cnt blk_idx a = pure (some a)
append_blocks (suc fuel) junk buf old_blk_cnt blk_idx a =
    append_round junk buf old_blk_cnt blk_idx
      (λ a'. append_blocks fuel junk buf old_blk_cnt (blk_idx + 1) a') a

-- What `append_to_inode` does once the data is written.
unfoldable pub append_done : ℕ → ℕ → ℕ → Appender → M (Option Inode)
append_done now inode_n new_size a = do
  let inode' = set_last_mod now (more_sectors a.cnt (set_size new_size a.inode))
  stored ← set_inode inode_n inode'
  pure (if stored then some inode' else none)

unfoldable pub append_rest : ℕ → Bytes → ℕ → Bytes → ℕ → ℕ → Appender → M (Option Inode)
unfolding append_blocks append_done
append_rest now junk inode_n buf old_size new_size a = do
  done ← append_blocks a.left junk buf (blocks_for old_size) 0 a
  case_option done (pure none) (append_done now inode_n new_size)

unfoldable pub append_found : ℕ → Bytes → ℕ → Bytes → ℕ → Inode → M (Option Inode)
unfolding append_tail append_rest
append_found now junk inode_n buf f_size inode = do
  let old_size = size_lo inode
  let new_size = (old_size + f_size) % 2 ^ 32
  let start : Appender = record {
    inode = inode;
    cnt = 0;
    cursor = 0;
    left = f_size;
    backward = false;
  }
  if ltb new_size old_size then pure none else do
    tail ← append_tail buf old_size start
    case_option tail (pure none) (append_rest now junk inode_n buf old_size new_size)

unfoldable pub append_to_inode : ℕ → Bytes → ℕ → Bytes → ℕ → M (Option Inode)
unfolding append_found
append_to_inode now junk inode_n buf f_size = do
  found ← get_inode inode_n
  case_option found (pure none) (append_found now junk inode_n buf f_size)

-- The loop of `unwind_insert` over the indices in `unwind_buf`.
unfoldable pub unwind : List ℕ → Walk → M Walk
unfolding unmap_round
unwind [] w = pure w
unwind (i ∷ is) w = unmap_round i (λ w'. unwind is w') w

unfoldable pub unwind_insert : ℕ → Inode → List ℕ → ℕ → ℕ → M Inode
unfolding unwind
unwind_insert inode_n inode unwind_buf free_cnt minted_cnt = do
  w ← unwind unwind_buf (counted_walk inode 0)
  let extra = count_of w + 2 ^ 33 - length unwind_buf - minted_cnt
  let inode' = fewer_sectors ((free_cnt + extra) % 2 ^ 32) w.inode
  stored ← set_inode inode_n inode'
  if stored then pure inode' else panic
