-- ===== src/Fs/MapBlock/Keeps.antt =====
-- `map_file_block` stays within the volume.
use deprecat_os.Prelude.{ℕ, Bool}
use deprecat_os.Fs.Bytes.{Bytes}
use deprecat_os.Fs.Volume.{FsInfo, M}
use deprecat_os.Fs.Volume.Keeps.{Keeps, keeps_rules}
use deprecat_os.Fs.Bitmap.Keeps.{keeps_bitmaps}
use deprecat_os.Fs.MapBlock.{map_file_block}
use deprecat_os.Fs.MapBlock.Shared.{
  MapStatus, success, empty, block_error, inode_error, case_status, Walk, zero_table,
}
use deprecat_os.Fs.MapBlock.Direct.{direct_mint, map_direct}
use deprecat_os.Fs.MapBlock.Singly.{
  singly_clear, singly_found, singly_mint, singly_table, singly_new, map_singly,
}
use deprecat_os.Fs.MapBlock.Doubly.{
  doubly_drop, doubly_clear, doubly_found, doubly_undo, doubly_mint, doubly_leaf, doubly_inner,
  doubly_table, doubly_new, map_doubly,
}
use deprecat_os.Fs.MapBlock.Triply.{
  triply_drop_doubly, triply_drop, triply_clear, triply_found, triply_undo_doubly, triply_undo,
  triply_mint, triply_leaf, triply_inner, triply_doubly, triply_middle, triply_table, triply_new,
  map_triply,
}

Keeps-zero_table : {g : FsInfo} (n : ℕ) → Keeps g (zero_table n)
unfolding zero_table
Keeps-zero_table n = search keeps_bitmaps depth 9

Keeps-direct_mint : {g : FsInfo} (mode : ℕ) (idx : ℕ) (w : Walk) → Keeps g (direct_mint mode idx w)
unfolding direct_mint
Keeps-direct_mint mode idx w = search keeps_bitmaps depth 9

Keeps-map_direct : {g : FsInfo} (mode : ℕ) (idx : ℕ) (w : Walk) → Keeps g (map_direct mode idx w)
unfolding map_direct
Keeps-map_direct mode idx w = search (keeps_bitmaps, Keeps-direct_mint) depth 9

Keeps-singly_clear :
    {g : FsInfo} (idx : ℕ) (indir : Bytes) (w : Walk) → Keeps g (singly_clear idx indir w)
unfolding singly_clear
Keeps-singly_clear idx indir w = search keeps_bitmaps depth 9

Keeps-singly_found :
    {g : FsInfo} (mode : ℕ) (idx : ℕ) (indir : Bytes) (w : Walk)
    → Keeps g (singly_found mode idx indir w)
unfolding singly_found
Keeps-singly_found mode idx indir w = search (keeps_bitmaps, Keeps-singly_clear) depth 9

Keeps-singly_mint :
    {g : FsInfo} (mode : ℕ) (idx : ℕ) (minted : Bool) (indir : Bytes) (w : Walk)
    → Keeps g (singly_mint mode idx minted indir w)
unfolding singly_mint
Keeps-singly_mint mode idx minted indir w = search (keeps_bitmaps, Keeps-singly_found) depth 9

Keeps-singly_table :
    {g : FsInfo} (mode : ℕ) (idx : ℕ) (minted : Bool) (w : Walk)
    → Keeps g (singly_table mode idx minted w)
unfolding singly_table
Keeps-singly_table mode idx minted w =
    search (keeps_bitmaps, Keeps-singly_found, Keeps-singly_mint) depth 9

Keeps-singly_new : {g : FsInfo} (mode : ℕ) (idx : ℕ) (w : Walk) → Keeps g (singly_new mode idx w)
unfolding singly_new
Keeps-singly_new mode idx w = search (keeps_bitmaps, Keeps-singly_table, Keeps-zero_table) depth 9

Keeps-map_singly : {g : FsInfo} (mode : ℕ) (idx : ℕ) (w : Walk) → Keeps g (map_singly mode idx w)
unfolding map_singly
Keeps-map_singly mode idx w = search (keeps_bitmaps, Keeps-singly_table, Keeps-singly_new) depth 9

Keeps-doubly_drop :
    {g : FsInfo} (idx : ℕ) (doubly : Bytes) (w : Walk) → Keeps g (doubly_drop idx doubly w)
unfolding doubly_drop
Keeps-doubly_drop idx doubly w = search keeps_bitmaps depth 9

Keeps-doubly_clear :
    {g : FsInfo} (idx : ℕ) (doubly : Bytes) (indir : Bytes) (w : Walk)
    → Keeps g (doubly_clear idx doubly indir w)
unfolding doubly_clear
Keeps-doubly_clear idx doubly indir w = search (keeps_bitmaps, Keeps-doubly_drop) depth 9

Keeps-doubly_found :
    {g : FsInfo} (mode : ℕ) (idx : ℕ) (doubly : Bytes) (indir : Bytes) (w : Walk)
    → Keeps g (doubly_found mode idx doubly indir w)
unfolding doubly_found
Keeps-doubly_found mode idx doubly indir w = search (keeps_bitmaps, Keeps-doubly_clear) depth 9

Keeps-doubly_undo :
    {g : FsInfo} (idx : ℕ) (doubly_minted : Bool) (singly_minted : Bool) (doubly : Bytes) (w : Walk)
    → Keeps g (doubly_undo idx doubly_minted singly_minted doubly w)
unfolding doubly_undo
Keeps-doubly_undo idx doubly_minted singly_minted doubly w = search keeps_bitmaps depth 9

Keeps-doubly_mint :
    {g : FsInfo} (mode : ℕ) (idx : ℕ) (doubly_minted : Bool) (singly_minted : Bool) (doubly : Bytes)
    (indir : Bytes) (w : Walk)
    → Keeps g (doubly_mint mode idx doubly_minted singly_minted doubly indir w)
unfolding doubly_mint
Keeps-doubly_mint mode idx doubly_minted singly_minted doubly indir w =
    search (keeps_bitmaps, Keeps-doubly_found, Keeps-doubly_undo) depth 9

Keeps-doubly_leaf :
    {g : FsInfo} (mode : ℕ) (idx : ℕ) (doubly_minted : Bool) (singly_minted : Bool) (doubly : Bytes)
    (w : Walk)
    → Keeps g (doubly_leaf mode idx doubly_minted singly_minted doubly w)
unfolding doubly_leaf
Keeps-doubly_leaf mode idx doubly_minted singly_minted doubly w =
    search (keeps_bitmaps, Keeps-doubly_found, Keeps-doubly_mint) depth 9

Keeps-doubly_inner :
    {g : FsInfo} (mode : ℕ) (idx : ℕ) (doubly_minted : Bool) (doubly : Bytes) (w : Walk)
    → Keeps g (doubly_inner mode idx doubly_minted doubly w)
unfolding doubly_inner
Keeps-doubly_inner mode idx doubly_minted doubly w =
    search (keeps_bitmaps, Keeps-doubly_leaf, Keeps-zero_table) depth 9

Keeps-doubly_table :
    {g : FsInfo} (mode : ℕ) (idx : ℕ) (doubly_minted : Bool) (w : Walk)
    → Keeps g (doubly_table mode idx doubly_minted w)
unfolding doubly_table
Keeps-doubly_table mode idx doubly_minted w =
    search (keeps_bitmaps, Keeps-doubly_leaf, Keeps-doubly_inner) depth 9

Keeps-doubly_new : {g : FsInfo} (mode : ℕ) (idx : ℕ) (w : Walk) → Keeps g (doubly_new mode idx w)
unfolding doubly_new
Keeps-doubly_new mode idx w = search (keeps_bitmaps, Keeps-doubly_table, Keeps-zero_table) depth 9

Keeps-map_doubly : {g : FsInfo} (mode : ℕ) (idx : ℕ) (w : Walk) → Keeps g (map_doubly mode idx w)
unfolding map_doubly
Keeps-map_doubly mode idx w = search (keeps_bitmaps, Keeps-doubly_table, Keeps-doubly_new) depth 9

Keeps-triply_drop_doubly :
    {g : FsInfo} (idx : ℕ) (triply : Bytes) (w : Walk) → Keeps g (triply_drop_doubly idx triply w)
unfolding triply_drop_doubly
Keeps-triply_drop_doubly idx triply w = search keeps_bitmaps depth 9

Keeps-triply_drop :
    {g : FsInfo} (idx : ℕ) (triply : Bytes) (doubly : Bytes) (w : Walk)
    → Keeps g (triply_drop idx triply doubly w)
unfolding triply_drop
Keeps-triply_drop idx triply doubly w = search (keeps_bitmaps, Keeps-triply_drop_doubly) depth 9

Keeps-triply_clear :
    {g : FsInfo} (idx : ℕ) (triply : Bytes) (doubly : Bytes) (indir : Bytes) (w : Walk)
    → Keeps g (triply_clear idx triply doubly indir w)
unfolding triply_clear
Keeps-triply_clear idx triply doubly indir w = search (keeps_bitmaps, Keeps-triply_drop) depth 9

Keeps-triply_found :
    {g : FsInfo} (mode : ℕ) (idx : ℕ) (triply : Bytes) (doubly : Bytes) (indir : Bytes) (w : Walk)
    → Keeps g (triply_found mode idx triply doubly indir w)
unfolding triply_found
Keeps-triply_found mode idx triply doubly indir w =
    search (keeps_bitmaps, Keeps-triply_clear) depth 9

Keeps-triply_undo_doubly :
    {g : FsInfo} (idx : ℕ) (triply_minted : Bool) (triply : Bytes) (w : Walk)
    → Keeps g (triply_undo_doubly idx triply_minted triply w)
unfolding triply_undo_doubly
Keeps-triply_undo_doubly idx triply_minted triply w = search keeps_bitmaps depth 9

Keeps-triply_undo :
    {g : FsInfo} (idx : ℕ) (triply_minted : Bool) (doubly_minted : Bool) (singly_minted : Bool)
    (triply : Bytes) (doubly : Bytes) (w : Walk)
    → Keeps g (triply_undo idx triply_minted doubly_minted singly_minted triply doubly w)
unfolding triply_undo
Keeps-triply_undo idx triply_minted doubly_minted singly_minted triply doubly w =
    search (keeps_bitmaps, Keeps-triply_undo_doubly) depth 9

Keeps-triply_mint :
    {g : FsInfo} (mode : ℕ) (idx : ℕ) (triply_minted : Bool) (doubly_minted : Bool)
    (singly_minted : Bool) (triply : Bytes) (doubly : Bytes) (indir : Bytes) (w : Walk)
    → Keeps g (triply_mint mode idx triply_minted doubly_minted singly_minted triply doubly indir w)
unfolding triply_mint
Keeps-triply_mint mode idx triply_minted doubly_minted singly_minted triply doubly indir w =
    search (keeps_bitmaps, Keeps-triply_found, Keeps-triply_undo) depth 9

Keeps-triply_leaf :
    {g : FsInfo} (mode : ℕ) (idx : ℕ) (triply_minted : Bool) (doubly_minted : Bool)
    (singly_minted : Bool) (triply : Bytes) (doubly : Bytes) (w : Walk)
    → Keeps g (triply_leaf mode idx triply_minted doubly_minted singly_minted triply doubly w)
unfolding triply_leaf
Keeps-triply_leaf mode idx triply_minted doubly_minted singly_minted triply doubly w =
    search (keeps_bitmaps, Keeps-triply_found, Keeps-triply_mint) depth 9

Keeps-triply_inner :
    {g : FsInfo} (mode : ℕ) (idx : ℕ) (triply_minted : Bool) (doubly_minted : Bool) (triply : Bytes)
    (doubly : Bytes) (w : Walk)
    → Keeps g (triply_inner mode idx triply_minted doubly_minted triply doubly w)
unfolding triply_inner
Keeps-triply_inner mode idx triply_minted doubly_minted triply doubly w =
    search (keeps_bitmaps, Keeps-triply_undo_doubly, Keeps-triply_leaf, Keeps-zero_table) depth 9

Keeps-triply_doubly :
    {g : FsInfo} (mode : ℕ) (idx : ℕ) (triply_minted : Bool) (doubly_minted : Bool) (triply : Bytes)
    (w : Walk)
    → Keeps g (triply_doubly mode idx triply_minted doubly_minted triply w)
unfolding triply_doubly
Keeps-triply_doubly mode idx triply_minted doubly_minted triply w =
    search (keeps_bitmaps, Keeps-triply_leaf, Keeps-triply_inner) depth 9

Keeps-triply_middle :
    {g : FsInfo} (mode : ℕ) (idx : ℕ) (triply_minted : Bool) (triply : Bytes) (w : Walk)
    → Keeps g (triply_middle mode idx triply_minted triply w)
unfolding triply_middle
Keeps-triply_middle mode idx triply_minted triply w =
    search (keeps_bitmaps, Keeps-triply_doubly, Keeps-zero_table) depth 9

Keeps-triply_table :
    {g : FsInfo} (mode : ℕ) (idx : ℕ) (triply_minted : Bool) (w : Walk)
    → Keeps g (triply_table mode idx triply_minted w)
unfolding triply_table
Keeps-triply_table mode idx triply_minted w =
    search (keeps_bitmaps, Keeps-triply_doubly, Keeps-triply_middle) depth 9

Keeps-triply_new : {g : FsInfo} (mode : ℕ) (idx : ℕ) (w : Walk) → Keeps g (triply_new mode idx w)
unfolding triply_new
Keeps-triply_new mode idx w = search (keeps_bitmaps, Keeps-triply_table, Keeps-zero_table) depth 9

Keeps-map_triply : {g : FsInfo} (mode : ℕ) (idx : ℕ) (w : Walk) → Keeps g (map_triply mode idx w)
unfolding map_triply
Keeps-map_triply mode idx w = search (keeps_bitmaps, Keeps-triply_table, Keeps-triply_new) depth 9

pub Keeps-map_file_block :
    {g : FsInfo} (mode idx : ℕ) (w : Walk) → Keeps g (map_file_block mode idx w)
unfolding map_file_block
Keeps-map_file_block mode idx w =
    search (keeps_rules, Keeps-map_direct, Keeps-map_singly, Keeps-map_doubly, Keeps-map_triply)

-- A split on the status of a call.
pub Keeps-status :
    {g : FsInfo} {A : Type 0} (status : MapStatus) (a b c : M A)
    → Keeps g a
    → Keeps g b
    → Keeps g c
    → Keeps g (case_status status a b c)
Keeps-status success a b c p q r = p
Keeps-status empty a b c p q r = q
Keeps-status block_error a b c p q r = r
Keeps-status inode_error a b c p q r = r
