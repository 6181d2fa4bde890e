-- ===== src/Fs/File/Keeps/Change.antt =====
-- The operations that shorten and lengthen a file stay within the volume.
use deprecat_os.Prelude.{ℕ, zero, suc, ◌+◌, Bool, Option, some, List, [], ◌∷◌}
use deprecat_os.Fs.Bytes.{Bytes}
use deprecat_os.Fs.Volume.{FsInfo, M}
use deprecat_os.Fs.Volume.Keeps.{Keeps, Keeps-pure, keeps_rules}
use deprecat_os.Fs.Bitmap.Keeps.{keeps_bitmaps}
use deprecat_os.Fs.Inode.{Inode}
use deprecat_os.Fs.Inode.Keeps.{Keeps-get_inode, Keeps-set_inode}
use deprecat_os.Fs.MapBlock.Shared.{Walk}
use deprecat_os.Fs.MapBlock.Keeps.{Keeps-map_file_block, Keeps-status}
use deprecat_os.Fs.File.Change.{
  Appender, tail_round, free_tail, clear_rest, truncate_freed, truncate_found, truncate_inode,
  fill_tail, append_hole, append_tail, unmap_round, unappend, undo_append, append_round,
  append_blocks, append_done, append_rest, append_found, append_to_inode, unwind, unwind_insert,
}

pub ruleset keeps_files =
    (keeps_bitmaps, Keeps-map_file_block, Keeps-status, Keeps-get_inode, Keeps-set_inode)

Keeps-tail_round :
    {g : FsInfo} (blk : ℕ) (next : Walk → M (Option Walk)) (w : Walk)
    → ((w' : Walk) → Keeps g (next w'))
    → Keeps g (tail_round blk next w)
unfolding tail_round
Keeps-tail_round blk next w q = search (keeps_files, q) depth 9

Keeps-free_tail : {g : FsInfo} (n blk : ℕ) (w : Walk) → Keeps g (free_tail n blk w)
unfolding free_tail
Keeps-free_tail zero blk w = Keeps-pure (some w)
Keeps-free_tail (suc n) blk w = Keeps-tail_round blk _ w (λ w'. Keeps-free_tail n (blk + 1) w')

Keeps-clear_rest : {g : FsInfo} (new_size : ℕ) (inode : Inode) → Keeps g (clear_rest new_size inode)
unfolding clear_rest
Keeps-clear_rest new_size inode = search keeps_files depth 9

Keeps-truncate_freed :
    {g : FsInfo} (now inode_n new_size : ℕ) (w : Walk)
    → Keeps g (truncate_freed now inode_n new_size w)
unfolding truncate_freed
Keeps-truncate_freed now inode_n new_size w = search (keeps_files, Keeps-clear_rest) depth 9

Keeps-truncate_found :
    {g : FsInfo} (now inode_n new_size : ℕ) (inode : Inode)
    → Keeps g (truncate_found now inode_n new_size inode)
unfolding truncate_found
Keeps-truncate_found now inode_n new_size inode =
    search (keeps_rules, Keeps-free_tail, Keeps-truncate_freed) depth 9

pub Keeps-truncate_inode :
    {g : FsInfo} (now inode_n new_size : ℕ) → Keeps g (truncate_inode now inode_n new_size)
unfolding truncate_inode
Keeps-truncate_inode now inode_n new_size = search (keeps_files, Keeps-truncate_found)

Keeps-fill_tail :
    {g : FsInfo} (buf : Bytes) (old_size tail_blk_n : ℕ) (slack : Bytes) (a : Appender)
    → Keeps g (fill_tail buf old_size tail_blk_n slack a)
unfolding fill_tail
Keeps-fill_tail buf old_size tail_blk_n slack a = search keeps_rules

Keeps-append_hole :
    {g : FsInfo} (buf : Bytes) (old_size : ℕ) (w : Walk) (a : Appender)
    → Keeps g (append_hole buf old_size w a)
unfolding append_hole
Keeps-append_hole buf old_size w a = search (keeps_files, Keeps-fill_tail) depth 9

Keeps-append_tail :
    {g : FsInfo} (buf : Bytes) (old_size : ℕ) (a : Appender) → Keeps g (append_tail buf old_size a)
unfolding append_tail
Keeps-append_tail buf old_size a = search (keeps_files, Keeps-fill_tail, Keeps-append_hole) depth 9

Keeps-unmap_round :
    {g : FsInfo} (i : ℕ) (next : Walk → M Walk) (w : Walk)
    → ((w' : Walk) → Keeps g (next w'))
    → Keeps g (unmap_round i next w)
unfolding unmap_round
Keeps-unmap_round i next w q = search (keeps_files, q) depth 9

Keeps-unappend : {g : FsInfo} (n i : ℕ) (w : Walk) → Keeps g (unappend n i w)
unfolding unappend
Keeps-unappend zero i w = Keeps-pure w
Keeps-unappend (suc n) i w = Keeps-unmap_round i _ w (λ w'. Keeps-unappend n (i + 1) w')

Keeps-undo_append :
    {g : FsInfo} (cnt idx : ℕ) (backward : Bool) (inode : Inode)
    → Keeps g (undo_append cnt idx backward inode)
unfolding undo_append
Keeps-undo_append cnt idx backward inode = search (keeps_rules, Keeps-unappend) depth 9

Keeps-append_round :
    {g : FsInfo} (junk buf : Bytes) (cnt idx : ℕ) (next : Appender → M (Option Appender))
    (a : Appender)
    → ((a' : Appender) → Keeps g (next a'))
    → Keeps g (append_round junk buf cnt idx next a)
unfolding append_round
Keeps-append_round junk buf cnt idx next a q = search (keeps_files, Keeps-undo_append, q) depth 9

Keeps-append_blocks :
    {g : FsInfo} (fuel : ℕ) (junk buf : Bytes) (cnt idx : ℕ) (a : Appender)
    → Keeps g (append_blocks fuel junk buf cnt idx a)
unfolding append_blocks
Keeps-append_blocks zero junk buf cnt idx a = Keeps-pure (some a)
Keeps-append_blocks (suc fuel) junk buf cnt idx a =
    Keeps-append_round junk buf cnt idx _ a
      (λ a'. Keeps-append_blocks fuel junk buf cnt (idx + 1) a')

Keeps-append_done :
    {g : FsInfo} (now inode_n new_size : ℕ) (a : Appender)
    → Keeps g (append_done now inode_n new_size a)
unfolding append_done
Keeps-append_done now inode_n new_size a = search keeps_files

Keeps-append_rest :
    {g : FsInfo} (now : ℕ) (junk : Bytes) (inode_n : ℕ) (buf : Bytes) (old_size new_size : ℕ)
    (a : Appender)
    → Keeps g (append_rest now junk inode_n buf old_size new_size a)
unfolding append_rest
Keeps-append_rest now junk inode_n buf old_size new_size a =
    search (keeps_rules, Keeps-append_blocks, Keeps-append_done) depth 9

Keeps-append_found :
    {g : FsInfo} (now : ℕ) (junk : Bytes) (inode_n : ℕ) (buf : Bytes) (f_size : ℕ) (inode : Inode)
    → Keeps g (append_found now junk inode_n buf f_size inode)
unfolding append_found
Keeps-append_found now junk inode_n buf f_size inode =
    search (keeps_rules, Keeps-append_tail, Keeps-append_rest) depth 9

pub Keeps-append_to_inode :
    {g : FsInfo} (now : ℕ) (junk : Bytes) (inode_n : ℕ) (buf : Bytes) (f_size : ℕ)
    → Keeps g (append_to_inode now junk inode_n buf f_size)
unfolding append_to_inode
Keeps-append_to_inode now junk inode_n buf f_size = search (keeps_files, Keeps-append_found)

Keeps-unwind : {g : FsInfo} (is : List ℕ) (w : Walk) → Keeps g (unwind is w)
unfolding unwind
Keeps-unwind [] w = Keeps-pure w
Keeps-unwind (i ∷ is) w = Keeps-unmap_round i _ w (λ w'. Keeps-unwind is w')

pub Keeps-unwind_insert :
    {g : FsInfo} (inode_n : ℕ) (inode : Inode) (is : List ℕ) (free_cnt minted_cnt : ℕ)
    → Keeps g (unwind_insert inode_n inode is free_cnt minted_cnt)
unfolding unwind_insert
Keeps-unwind_insert inode_n inode is free_cnt minted_cnt =
    search (keeps_files, Keeps-unwind) depth 9
