-- ===== src/Fs/File/Keeps.antt =====
-- The operations that free and write whole files stay within the volume.
pub mod Change
pub mod Insert
use deprecat_os.Prelude.{ℕ, zero, suc, ◌+◌, Bool, true, false, ltb, ◌==◌, Option, none, some}
use deprecat_os.Fs.Bytes.{Bytes}
use deprecat_os.Fs.Volume.{FsInfo, M, ◌>>◌, pure}
use deprecat_os.Fs.Volume.Keeps.{Keeps, Like-bgdt, Keeps-bind, Keeps-pure, keeps_rules}
use deprecat_os.Fs.Bitmap.Keeps.{keeps_bitmaps}
use deprecat_os.Fs.Inode.{Inode, dir_at}
use deprecat_os.Fs.Inode.Keeps.{Keeps-get_inode, Keeps-set_inode}
use deprecat_os.Fs.MapBlock.Shared.{entry}
use deprecat_os.Fs.File.Free.{
  free_entries, indir_free_block, free_direct, free_blocks, set_dir_cnt, uncount_dir, delete_found,
  delete_inode,
}
use deprecat_os.Fs.File.Write.{clear_direct, clear_pointers, write_tables, write_inode}
use deprecat_os.Fs.File.Write.Data.{
  Writer, no_table, copy_bytes, copied, write_data, set_field, sectors_up, free_table, undo_inode,
  direct_round, write_direct,
}
use deprecat_os.Fs.File.Write.Indirect.{
  Tables, undo_leaf, leaf_round, write_leaf, Flags, undo_doubly, link_leaf, doubly_round,
  write_doubly, undo_triply, link_doubly, triply_round, write_triply,
}
use deprecat_os.Fs.File.Make.{
  mint_inode, count_dir, link_inode, put_minted, put_inode, replace_found, replace_inode,
}

Keeps-free_entries :
    {g : FsInfo} (f : ℕ → M (Unit {0})) (t : Bytes) (n i : ℕ)
    → ((p : ℕ) → Keeps g (f p))
    → Keeps g (free_entries f t n i)
unfolding free_entries
Keeps-free_entries f t zero i q = Keeps-pure tt
Keeps-free_entries f t (suc n) i q =
    Keeps-bind (f (entry t i)) _ (q (entry t i)) (λ _. Keeps-free_entries f t n (i + 1) q)

pub Keeps-indir_free_block : {g : FsInfo} (layer p : ℕ) → Keeps g (indir_free_block layer p)
unfolding indir_free_block
Keeps-indir_free_block zero p = search keeps_bitmaps depth 9
Keeps-indir_free_block {g} (suc layer) p =
    search (keeps_bitmaps, Keeps-free_entries, Keeps-indir_free_block {g = g} layer) depth 9

Keeps-free_direct : {g : FsInfo} (inode : Inode) (n i : ℕ) → Keeps g (free_direct inode n i)
unfolding free_direct
Keeps-free_direct inode zero i = Keeps-pure tt
Keeps-free_direct inode (suc n) i =
    Keeps-bind (indir_free_block 0 _) _ (Keeps-indir_free_block 0 _)
      (λ _. Keeps-free_direct inode n (i + 1))

Keeps-free_blocks : {g : FsInfo} (inode : Inode) → Keeps g (free_blocks inode)
unfolding free_blocks
Keeps-free_blocks inode = search (keeps_rules, Keeps-free_direct, Keeps-indir_free_block) depth 9

Keeps-set_dir_cnt : {g : FsInfo} (group_n cnt : ℕ) → Keeps g (set_dir_cnt group_n cnt)
unfolding set_dir_cnt
Keeps-set_dir_cnt group_n cnt = search (keeps_rules, Like-bgdt) depth 9

Keeps-uncount_dir : {g : FsInfo} (inode_n : ℕ) (inode : Inode) → Keeps g (uncount_dir inode_n inode)
unfolding uncount_dir
Keeps-uncount_dir inode_n inode = search (keeps_rules, Keeps-set_dir_cnt) depth 9

Keeps-delete_found :
    {g : FsInfo} (now inode_n : ℕ) (inode : Inode) → Keeps g (delete_found now inode_n inode)
unfolding delete_found
Keeps-delete_found now inode_n inode =
    search (keeps_bitmaps, Keeps-set_inode, Keeps-free_blocks, Keeps-uncount_dir) depth 9

pub Keeps-delete_inode : {g : FsInfo} (now inode_n : ℕ) → Keeps g (delete_inode now inode_n)
unfolding delete_inode
Keeps-delete_inode now inode_n = search (keeps_rules, Keeps-get_inode, Keeps-delete_found)

Keeps-write_data :
    {g : FsInfo} (buf : Bytes) (block_n : ℕ) (w : Writer) → Keeps g (write_data buf block_n w)
unfolding write_data
Keeps-write_data buf block_n w = search keeps_rules

Keeps-undo_inode : {g : FsInfo} (inode : Inode) → Keeps g (undo_inode inode)
unfolding undo_inode
Keeps-undo_inode inode = search (keeps_rules, Keeps-free_direct, Keeps-indir_free_block) depth 9

ruleset keeps_writes = (
  keeps_bitmaps, Keeps-free_entries, Keeps-indir_free_block, Keeps-free_direct, Keeps-write_data,
  Keeps-undo_inode,
)

Keeps-direct_round :
    {g : FsInfo} (buf : Bytes) (i : ℕ) (next : Writer → M (Bool × Writer)) (w : Writer)
    → ((w' : Writer) → Keeps g (next w'))
    → Keeps g (direct_round buf i next w)
unfolding direct_round
Keeps-direct_round buf i next w q = search (keeps_writes, q) depth 9

Keeps-write_direct :
    {g : FsInfo} (buf : Bytes) (n i : ℕ) (w : Writer) → Keeps g (write_direct buf n i w)
unfolding write_direct
Keeps-write_direct buf zero i w = Keeps-pure (true, w)
Keeps-write_direct buf (suc n) i w =
    Keeps-direct_round buf i _ w (λ w'. Keeps-write_direct buf n (i + 1) w')

Keeps-undo_leaf :
    {g : FsInfo} (t : Tables) (indir : Bytes) (inode : Inode) → Keeps g (undo_leaf t indir inode)
unfolding undo_leaf
Keeps-undo_leaf t indir inode = search keeps_writes depth 12

Keeps-leaf_round :
    {g : FsInfo} (buf : Bytes) (t : Tables) (i : ℕ)
    (next : Bytes → Writer → M (Bool × Bytes × Writer)) (indir : Bytes) (w : Writer)
    → ((indir' : Bytes) (w' : Writer) → Keeps g (next indir' w'))
    → Keeps g (leaf_round buf t i next indir w)
unfolding leaf_round
Keeps-leaf_round buf t i next indir w q = search (keeps_writes, Keeps-undo_leaf, q) depth 9

Keeps-write_leaf :
    {g : FsInfo} (buf : Bytes) (t : Tables) (n i : ℕ) (indir : Bytes) (w : Writer)
    → Keeps g (write_leaf buf t n i indir w)
unfolding write_leaf
Keeps-write_leaf buf t zero i indir w = Keeps-pure (true, indir, w)
Keeps-write_leaf buf t (suc n) i indir w =
    Keeps-leaf_round buf t i _ indir w (λ indir' w'. Keeps-write_leaf buf t n (i + 1) indir' w')

Keeps-undo_doubly : {g : FsInfo} (t : Tables) (inode : Inode) → Keeps g (undo_doubly t inode)
unfolding undo_doubly
Keeps-undo_doubly t inode = search keeps_writes depth 12

Keeps-link_leaf :
    {g : FsInfo} (i indir_ptr : ℕ) (indir : Bytes) (t : Tables) (f : Flags) (w : Writer)
    → Keeps g (link_leaf i indir_ptr indir t f w)
unfolding link_leaf
Keeps-link_leaf i indir_ptr indir t f w = search keeps_rules depth 9

Keeps-doubly_round :
    {g : FsInfo} (buf : Bytes) (i : ℕ)
    (next : Tables → Flags → Writer → M (Bool × Tables × Flags × Writer)) (t : Tables) (f : Flags)
    (w : Writer)
    → ((t' : Tables) (f' : Flags) (w' : Writer) → Keeps g (next t' f' w'))
    → Keeps g (doubly_round buf i next t f w)
unfolding doubly_round
Keeps-doubly_round buf i next t f w q =
    search (keeps_writes, Keeps-write_leaf, Keeps-undo_doubly, Keeps-link_leaf, q) depth 12

Keeps-write_doubly :
    {g : FsInfo} (buf : Bytes) (n i : ℕ) (t : Tables) (f : Flags) (w : Writer)
    → Keeps g (write_doubly buf n i t f w)
unfolding write_doubly
Keeps-write_doubly buf zero i t f w = Keeps-pure (true, t, f, w)
Keeps-write_doubly buf (suc n) i t f w =
    Keeps-doubly_round buf i _ t f w (λ t' f' w'. Keeps-write_doubly buf n (i + 1) t' f' w')

Keeps-undo_triply : {g : FsInfo} (t : Tables) (inode : Inode) → Keeps g (undo_triply t inode)
unfolding undo_triply
Keeps-undo_triply t inode = search keeps_writes depth 12

Keeps-link_doubly :
    {g : FsInfo} (i : ℕ) (t : Tables) (f : Flags) (h : Bool) (w : Writer)
    → Keeps g (link_doubly i t f h w)
unfolding link_doubly
Keeps-link_doubly i t f h w = search keeps_bitmaps depth 9

Keeps-triply_round :
    {g : FsInfo} (buf : Bytes) (i : ℕ)
    (next : Tables → Bool → Bool → Writer → M (Bool × Tables × Bool × Writer)) (t : Tables)
    (flushed h : Bool) (w : Writer)
    → ((t' : Tables) (f' h' : Bool) (w' : Writer) → Keeps g (next t' f' h' w'))
    → Keeps g (triply_round buf i next t flushed h w)
unfolding triply_round
Keeps-triply_round buf i next t flushed h w q =
    search (keeps_writes, Keeps-write_doubly, Keeps-undo_triply, Keeps-link_doubly, q) depth 12

Keeps-write_triply :
    {g : FsInfo} (buf : Bytes) (n i : ℕ) (t : Tables) (flushed h : Bool) (w : Writer)
    → Keeps g (write_triply buf n i t flushed h w)
unfolding write_triply
Keeps-write_triply buf zero i t flushed h w = Keeps-pure (true, t, h, w)
Keeps-write_triply buf (suc n) i t flushed h w =
    Keeps-triply_round buf i _ t flushed h w
      (λ t' f' h' w'. Keeps-write_triply buf n (i + 1) t' f' h' w')

Keeps-write_tables : {g : FsInfo} (buf : Bytes) (w : Writer) → Keeps g (write_tables buf w)
unfolding write_tables
Keeps-write_tables buf w = search (keeps_writes, Keeps-write_triply) depth 12

pub Keeps-write_inode : {g : FsInfo} (buf : Bytes) (inode : Inode) → Keeps g (write_inode buf inode)
unfolding write_inode
Keeps-write_inode buf inode = search (keeps_rules, Keeps-write_direct, Keeps-write_tables)

pub Keeps-mint_inode : {g : FsInfo} (now f_size type : ℕ) → Keeps g (mint_inode now f_size type)
unfolding mint_inode
Keeps-mint_inode now f_size type = search keeps_bitmaps

Keeps-count_dir : {g : FsInfo} (group_n : ℕ) → Keeps g (count_dir group_n)
unfolding count_dir
Keeps-count_dir group_n = search (keeps_rules, Keeps-set_dir_cnt)

Keeps-link_inode :
    {g : FsInfo} (inode_n : ℕ) (is_dir : Bool) (inode : Inode)
    → Keeps g (link_inode inode_n is_dir inode)
unfolding link_inode
Keeps-link_inode inode_n is_dir inode =
    search (keeps_rules, Keeps-set_inode, Keeps-count_dir) depth 9

Keeps-put_minted :
    {g : FsInfo} (buf : Bytes) (is_dir : Bool) (m : ℕ × Inode) → Keeps g (put_minted buf is_dir m)
unfolding put_minted
Keeps-put_minted buf is_dir (inode_n, inode) =
    search (keeps_bitmaps, Keeps-write_inode, Keeps-link_inode) depth 9

pub Keeps-put_inode :
    {g : FsInfo} (now : ℕ) (buf : Bytes) (f_size : ℕ) (is_dir : Bool)
    → Keeps g (put_inode now buf f_size is_dir)
unfolding put_inode
Keeps-put_inode now buf f_size is_dir = search (keeps_rules, Keeps-mint_inode, Keeps-put_minted)

Keeps-replace_found :
    {g : FsInfo} (now inode_n : ℕ) (buf : Bytes) (f_size : ℕ) (inode : Inode)
    → Keeps g (replace_found now inode_n buf f_size inode)
unfolding replace_found
Keeps-replace_found now inode_n buf f_size inode =
    search (keeps_rules, Keeps-free_blocks, Keeps-write_inode, Keeps-set_inode) depth 9

pub Keeps-replace_inode :
    {g : FsInfo} (now inode_n : ℕ) (buf : Bytes) (f_size : ℕ)
    → Keeps g (replace_inode now inode_n buf f_size)
unfolding replace_inode
Keeps-replace_inode now inode_n buf f_size =
    search (keeps_rules, Keeps-get_inode, Keeps-replace_found)
