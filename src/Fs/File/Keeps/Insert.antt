-- ===== src/Fs/File/Keeps/Insert.antt =====
-- `insert_in_inode` stays within the volume.
use deprecat_os.Prelude.{ℕ, zero, suc, ◌-◌, Bool}
use deprecat_os.Fs.Bytes.{Bytes}
use deprecat_os.Fs.Volume.{FsInfo, M}
use deprecat_os.Fs.Volume.Keeps.{Keeps, Keeps-pure, Keeps-bind, Keeps-if, keeps_rules}
use deprecat_os.Fs.Inode.{Inode}
use deprecat_os.Fs.MapBlock.Shared.{MapStatus, success}
use deprecat_os.Fs.MapBlock.Keeps.{Keeps-status}
use deprecat_os.Fs.File.Keeps.Change.{keeps_files, Keeps-unwind_insert}
use deprecat_os.Fs.File.Insert.{
  Cursor, write_chunk, data_round, write_bytes, insert_done, insert_parts, insert_found,
  insert_in_inode,
}
use deprecat_os.Fs.File.Insert.Shift.{
  Place, Inserter, undo, and_then, read_unless, move_hole, move_block, move_to, with_lower,
  shift_round, shift_blocks,
}
use deprecat_os.Fs.File.Insert.Partial.{
  Filler, filled_by, with_source, fill_round, fill_partial, join_partial,
}

Keeps-undo :
    {g : FsInfo} (p : Place) (status : MapStatus) (s : Inserter) → Keeps g (undo p status s)
unfolding undo
Keeps-undo p status s = search (keeps_files, Keeps-unwind_insert) depth 9

Keeps-read_unless : {g : FsInfo} (hole : Bool) (n : ℕ) → Keeps g (read_unless hole n)
Keeps-read_unless hole n = search keeps_rules

ruleset keeps_inserts = (keeps_files, Keeps-undo, Keeps-read_unless)

Keeps-move_hole :
    {g : FsInfo} (dest : ℕ) (next : Inserter → M (MapStatus × Inserter)) (s : Inserter)
    → ((s' : Inserter) → Keeps g (next s'))
    → Keeps g (move_hole dest next s)
unfolding move_hole
Keeps-move_hole dest next s q = search (keeps_inserts, q) depth 9

Keeps-move_block :
    {g : FsInfo} (p : Place) (dest : ℕ) (lo hi : Bool × ℕ)
    (next : Inserter → M (MapStatus × Inserter)) (s : Inserter)
    → ((s' : Inserter) → Keeps g (next s'))
    → Keeps g (move_block p dest lo hi next s)
unfolding move_block
Keeps-move_block p dest lo hi next s q = search (keeps_inserts, q) depth 12

Keeps-move_to :
    {g : FsInfo} (p : Place) (dest : ℕ) (lo hi : Bool × ℕ)
    (next : Inserter → M (MapStatus × Inserter)) (s : Inserter)
    → ((s' : Inserter) → Keeps g (next s'))
    → Keeps g (move_to p dest lo hi next s)
unfolding move_to
Keeps-move_to p dest lo hi next s q =
    Keeps-if _ _ _ (Keeps-move_hole dest next s q) (Keeps-move_block p dest lo hi next s q)

Keeps-with_lower :
    {g : FsInfo} (p : Place) (src : ℕ) (next : Bool × ℕ → Inserter → M (MapStatus × Inserter))
    (s : Inserter)
    → ((lo : Bool × ℕ) (s' : Inserter) → Keeps g (next lo s'))
    → Keeps g (with_lower p src next s)
unfolding with_lower
Keeps-with_lower p src next s q = search (keeps_inserts, q) depth 9

Keeps-below :
    {g : FsInfo} (p : Place) (src dest : ℕ) (hi : Bool × ℕ)
    (next : Inserter → M (MapStatus × Inserter)) (s : Inserter)
    → ((s' : Inserter) → Keeps g (next s'))
    → Keeps g (with_lower p src (λ lo t. move_to p dest lo hi next t) s)
Keeps-below p src dest hi next s q =
    Keeps-with_lower p src _ s (λ lo t. Keeps-move_to p dest lo hi next t q)

Keeps-shift_round :
    {g : FsInfo} (p : Place) (dest : ℕ) (next : Inserter → M (MapStatus × Inserter)) (s : Inserter)
    → ((s' : Inserter) → Keeps g (next s'))
    → Keeps g (shift_round p dest next s)
unfolding shift_round
Keeps-shift_round p dest next s q = search (keeps_inserts, Keeps-below, q) depth 9

Keeps-shift_blocks :
    {g : FsInfo} (p : Place) (n dest : ℕ) (s : Inserter) → Keeps g (shift_blocks p n dest s)
unfolding shift_blocks
Keeps-shift_blocks p zero dest s = Keeps-pure (success, s)
Keeps-shift_blocks p (suc n) dest s =
    Keeps-shift_round p dest _ s (λ s'. Keeps-shift_blocks p n (dest - 1) s')

Keeps-with_source :
    {g : FsInfo} (p : Place) (f : Filler) (s : Inserter)
    (next : Bytes → Inserter → M (MapStatus × Bytes × Inserter))
    → ((src : Bytes) (s' : Inserter) → Keeps g (next src s'))
    → Keeps g (with_source p f s next)
unfolding with_source
Keeps-with_source p f s next q = search (keeps_inserts, q) depth 9

Keeps-fill_round :
    {g : FsInfo} (p : Place) (next : Filler → Inserter → M (MapStatus × Bytes × Inserter))
    (f : Filler) (s : Inserter)
    → ((f' : Filler) (s' : Inserter) → Keeps g (next f' s'))
    → Keeps g (fill_round p next f s)
unfolding fill_round
Keeps-fill_round p next f s q =
    Keeps-if _ _ _ (Keeps-with_source p f s _ (λ src s'. q (filled_by src f) s')) (Keeps-pure _)

Keeps-fill_partial :
    {g : FsInfo} (fuel : ℕ) (p : Place) (f : Filler) (s : Inserter)
    → Keeps g (fill_partial fuel p f s)
unfolding fill_partial
Keeps-fill_partial zero p f s = Keeps-pure (success, f.blk, s)
Keeps-fill_partial (suc fuel) p f s =
    Keeps-fill_round p _ f s (λ f' s'. Keeps-fill_partial fuel p f' s')

Keeps-join_partial : {g : FsInfo} (p : Place) (s : Inserter) → Keeps g (join_partial p s)
unfolding join_partial
Keeps-join_partial p s = search (keeps_inserts, Keeps-fill_partial) depth 12

Keeps-write_chunk :
    {g : FsInfo} (p : Place) (buf : Bytes) (c : Cursor) (n : ℕ) → Keeps g (write_chunk p buf c n)
unfolding write_chunk
Keeps-write_chunk p buf c n = search keeps_rules depth 9

Keeps-data_round :
    {g : FsInfo} (p : Place) (buf : Bytes) (next : Cursor → Inserter → M (MapStatus × Inserter))
    (c : Cursor) (s : Inserter)
    → ((c' : Cursor) (s' : Inserter) → Keeps g (next c' s'))
    → Keeps g (data_round p buf next c s)
unfolding data_round
Keeps-data_round p buf next c s q = search (keeps_inserts, Keeps-write_chunk, q) depth 9

Keeps-write_bytes :
    {g : FsInfo} (fuel : ℕ) (p : Place) (buf : Bytes) (c : Cursor) (s : Inserter)
    → Keeps g (write_bytes fuel p buf c s)
unfolding write_bytes
Keeps-write_bytes zero p buf c s = Keeps-pure (success, s)
Keeps-write_bytes (suc fuel) p buf c s =
    Keeps-data_round p buf _ c s (λ c' s'. Keeps-write_bytes fuel p buf c' s')

Keeps-and_then :
    {g : FsInfo} (m : M (MapStatus × Inserter)) (f : Inserter → M (MapStatus × Inserter))
    → Keeps g m
    → ((s : Inserter) → Keeps g (f s))
    → Keeps g (and_then m f)
Keeps-and_then m f k q =
    Keeps-bind m _ k (λ r. Keeps-status r.0 _ _ _ (q r.1) (Keeps-pure r) (Keeps-pure r))

Keeps-insert_parts :
    {g : FsInfo} (p : Place) (buf : Bytes) (s : Inserter) → Keeps g (insert_parts p buf s)
unfolding insert_parts
Keeps-insert_parts p buf s = Keeps-and_then _ _ (Keeps-shift_blocks p _ _ s) (λ s'.
    Keeps-and_then _ _ (Keeps-join_partial p s') (λ s''. Keeps-write_bytes p.f_size p buf _ s''))

Keeps-insert_done :
    {g : FsInfo} (now : ℕ) (p : Place) (s : Inserter) → Keeps g (insert_done now p s)
unfolding insert_done
Keeps-insert_done now p s = search keeps_files depth 9

Keeps-insert_found :
    {g : FsInfo} (now inode_n : ℕ) (buf : Bytes) (f_size offset : ℕ) (inode : Inode)
    → Keeps g (insert_found now inode_n buf f_size offset inode)
unfolding insert_found
Keeps-insert_found now inode_n buf f_size offset inode =
    search (keeps_files, Keeps-insert_parts, Keeps-insert_done) depth 9

pub Keeps-insert_in_inode :
    {g : FsInfo} (now inode_n : ℕ) (buf : Bytes) (f_size offset : ℕ)
    → Keeps g (insert_in_inode now inode_n buf f_size offset)
unfolding insert_in_inode
Keeps-insert_in_inode now inode_n buf f_size offset =
    search (keeps_files, Keeps-insert_found) depth 9
