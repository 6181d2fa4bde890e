-- ===== src/Fs/File/Insert.antt =====
-- `insert_in_inode` of kernel/fs/block/blockController.c: bytes put into the middle of a file. The
-- blocks behind them move up, from the last one down; then the block in which the new bytes end is
-- put together; then the new bytes are written.
pub mod Shift
pub mod Partial
pub mod Rounds
use deprecat_os.Prelude.{
  ℕ, zero, suc, ◌+◌, ◌-◌, ◌*◌, ◌/◌, ◌%◌, ◌^◌, min, max, Bool, true, false, not, ◌&&◌, ◌||◌, Option,
  none, some, List, [], ◌∷◌, ◌==◌, ltb, leb, if◌then◌else◌, case_option,
}
use deprecat_os.Fs.Bytes.{Bytes}
use deprecat_os.Fs.Volume.{M, pure, ◌>>=◌, ◌>>◌, read_block, write_block}
use deprecat_os.Fs.Inode.{Inode, size_lo, get_inode, set_inode}
use deprecat_os.Fs.MapBlock.{map_file_block}
use deprecat_os.Fs.MapBlock.Shared.{MapStatus, success, inode_error, case_status, alloc_mode}
use deprecat_os.Fs.File.Fields.{
  more_sectors, fewer_sectors, set_size, set_last_access, set_last_mod, blocks_for,
}
use deprecat_os.Fs.File.Change.{counted_walk, spliced}
use deprecat_os.Fs.File.Insert.Shift.{
  Place, Inserter, end_of, bottom_of, noted, undo, and_then, shift_blocks,
}
use deprecat_os.Fs.File.Insert.Partial.{join_partial}

-- `buf_idx`, `remaining` and `dest_byte`
pub record Cursor : Type 0 where
  pub done : ℕ
  pub left : ℕ
  pub at : ℕ

-- The buffer of a block that is written over whole keeps nothing of what it held.
abbrev pub no_bytes : Bytes
no_bytes k = 0

abbrev pub chunk_of : Cursor → ℕ
chunk_of c = min c.left (4096 - c.at % 4096)

-- The bytes of the block before the new ones, when the block starts behind the old end.
unfoldable pub cleared : Place → Cursor → Bytes → Bytes
cleared p c blk k =
    let start = c.at - c.at % 4096 in
    let zero_from = if ltb start p.old_size then p.old_size - start else 0 in
    if c.at == p.offset && leb p.old_size start && leb zero_from k && ltb k (c.at % 4096)
    then 0
    else blk k

-- What is written once the block is there.
unfoldable pub write_chunk : Place → Bytes → Cursor → ℕ → M (Unit {0})
unfolding cleared spliced
write_chunk p buf c blk_n = do
  let off = c.at % 4096
  blk ← (if not (off == 0) || not (chunk_of c == 4096) then read_block blk_n else pure no_bytes)
  write_block blk_n (spliced (cleared p c blk) off buf c.done (chunk_of c))

-- A round of the loop over the new bytes, with the rest of the loop.
unfoldable pub data_round :
    Place
    → Bytes
    → (Cursor → Inserter → M (MapStatus × Inserter))
    → Cursor
    → Inserter
    → M (MapStatus × Inserter)
unfolding write_chunk
data_round p buf next c s =
    if ltb 0 c.left
    then (do
      let idx = c.at / 4096
      (status, w) ← map_file_block alloc_mode idx (counted_walk s.inode s.alloc_cnt)
      let fail = undo p status (record s { inode = w.inode })
      case_status status
          (do
            write_chunk p buf c w.out
            next
                (record {
                  done = c.done + chunk_of c;
                  left = c.left - chunk_of c;
                  at = (c.at + chunk_of c) % 2 ^ 32;
                })
                (noted idx w s))
          fail fail)
    else pure (success, s)

-- The loop, on fuel.
unfoldable pub write_bytes : ℕ → Place → Bytes → Cursor → Inserter → M (MapStatus × Inserter)
unfolding data_round
write_bytes zero p buf c s = pure (success, s)
write_bytes (suc fuel) p buf c s = data_round p buf (λ c' s'. write_bytes fuel p buf c' s') c s

-- `new_size` and `top`
abbrev pub new_size_of : Place → ℕ
new_size_of p = max (end_of p) ((p.old_size + p.f_size) % 2 ^ 32)

abbrev pub top_of : Place → ℕ
top_of p = (blocks_for (new_size_of p) + 4294967295) % 2 ^ 32

-- The inode after an insertion.
unfoldable pub inserted_inode : ℕ → Place → Inserter → Inode
inserted_inode now p s =
    let sized = set_size (new_size_of p) s.inode in
    set_last_access now (
      set_last_mod now (
        if leb s.free_cnt s.alloc_cnt
        then more_sectors (s.alloc_cnt - s.free_cnt) sized
        else fewer_sectors (s.free_cnt - s.alloc_cnt) sized))

-- The end of an insertion; the inode that is written through `out`.
unfoldable pub insert_done : ℕ → Place → Inserter → M (MapStatus × Option Inode)
unfolding inserted_inode
insert_done now p s = do
  let inode = inserted_inode now p s
  stored ← set_inode p.inode_n inode
  pure (if stored then (success, some inode) else (inode_error, none))

unfoldable pub insert_parts : Place → Bytes → Inserter → M (MapStatus × Inserter)
unfolding shift_blocks join_partial write_bytes
insert_parts p buf s = and_then (shift_blocks p (top_of p + 1 - bottom_of p) (top_of p) s) (λ s'.
    and_then (join_partial p s')
      (λ s''. write_bytes p.f_size p buf (record { done = 0; left = p.f_size; at = p.offset }) s''))

unfoldable pub insert_found : ℕ → ℕ → Bytes → ℕ → ℕ → Inode → M (MapStatus × Option Inode)
unfolding insert_parts insert_done
insert_found now inode_n buf f_size offset inode =
    let p : Place = record {
      inode_n = inode_n;
      f_size = f_size;
      offset = offset;
      old_size = size_lo inode;
    } in
    if ltb (end_of p) offset || ltb ((p.old_size + f_size) % 2 ^ 32) p.old_size
    then pure (inode_error, none)
    else do
      (status, s) ←
          insert_parts p buf
            (record { inode = inode; alloc_cnt = 0; free_cnt = 0; unwind_buf = []; minted_cnt = 0 })
      case_status status (insert_done now p s) (pure (status, none)) (pure (status, none))

-- The status, and the inode if it is written through `out`.
unfoldable pub insert_in_inode : ℕ → ℕ → Bytes → ℕ → ℕ → M (MapStatus × Option Inode)
unfolding insert_found
insert_in_inode now inode_n buf f_size offset = if f_size == 0 then pure (success, none) else do
  found ← get_inode inode_n
  case_option found (pure (inode_error, none)) (insert_found now inode_n buf f_size offset)
