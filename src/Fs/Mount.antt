-- ===== src/Fs/Mount.antt =====
-- kernel/fs/mount/mount.c and the table `fs_entries` of kernel/fs/block/blockController.c. A
-- `struct fs_info *` is the place of its entry in the table.
pub mod Table
pub mod Laws
mod Tests
use deprecat_os.Prelude.{
  ℕ, zero, suc, ◌+◌, ◌-◌, ◌/◌, ◌%◌, ◌*◌, Bool, true, false, not, ◌||◌, Option, none, some, ◌==◌,
  ltb, if◌then◌else◌, case_option,
}
use deprecat_os.Fs.Bytes.{Bytes, get16, set16}
use deprecat_os.Fs.Volume.{Volume, FsInfo, write_super}
use deprecat_os.Fs.Directory.Scan.{root_inode_n}
use Table.{Mounted, System, S, pure, panic, ◌>>=◌, ◌>>◌, get_system, set_system, with_entry, on}

-- MAX_MOUNTS
abbrev pub max_mounts : ℕ
max_mounts = 8

-- The loop of `return_mnt_root` over the entries, `left` of them from `part` on.
unfoldable pub mounted_at : (ℕ → Mounted) → ℕ → ℕ → ℕ → Option ℕ
mounted_at entries inode_n zero part = none
mounted_at entries inode_n (suc left) part =
    let rest = mounted_at entries inode_n left (part + 1) in
    if (entries part).mountpoint == inode_n then some part else rest

-- The answer with `*out_fs` and `*out_inode_n`.
unfoldable pub return_mnt_root : System → ℕ → ℕ → Bool × ℕ × ℕ
unfolding mounted_at
return_mnt_root s fs inode_n =
    if fs == s.root_fs
    then case_option (mounted_at s.entries inode_n max_mounts 0) (false, fs, inode_n)
        (λ part. (true, part, root_inode_n))
    else (false, fs, inode_n)

unfoldable pub return_mnt_mountpoint : System → ℕ → ℕ → Bool × ℕ × ℕ
return_mnt_mountpoint s fs inode_n =
    if fs == s.root_fs
    then (false, fs, inode_n)
    else if inode_n == root_inode_n
    then (true, s.root_fs, (s.entries fs).mountpoint)
    else (false, fs, inode_n)

-- `fs_state` with FS_STATE_VALID_BIT set or cleared, in the superblock.
unfoldable pub marked : Bool → FsInfo → FsInfo
marked set_valid fs =
    let state = get16 fs.sprblk_buf 58 in
    let even = state / 2 * 2 in
    record fs { sprblk_buf = set16 fs.sprblk_buf 58 (if set_valid then even + 1 else even) }

unfoldable pub mark_fs_state : ℕ → Bool → S (Unit {0})
unfolding marked
mark_fs_state fs set_valid = on fs (λ v. write_super (record v { fs = marked set_valid v.fs }))

-- The root is marked as in use.
unfoldable pub mount_init : S (Unit {0})
unfolding mark_fs_state
mount_init = do s ← get_system; mark_fs_state s.root_fs false

-- `streq` on a label and a name, through the bytes that `label` has room for.
unfoldable pub same_label : ℕ → Bytes → Bytes → ℕ → Bool
same_label zero a b i = true
same_label (suc left) a b i =
    let rest = same_label left a b (i + 1) in
    if a i == b i then if a i == 0 then true else rest else false

-- FS_INFO_LABEL_LEN
abbrev pub fs_info_label_len : ℕ
fs_info_label_len = 17

-- The loop of `umount_fs`, `left` entries from `i` on.
unfoldable pub umount_loop : Bytes → ℕ → ℕ → S Bool
unfolding same_label mark_fs_state
umount_loop label zero i = pure false
umount_loop label (suc left) i = do
  s ← get_system
  let entry : Mounted = s.entries i
  let rest = umount_loop label left (i + 1)
  if entry.info.sector_count == 0 || not (same_label fs_info_label_len entry.label label 0)
      then rest
      else if entry.mountpoint == 0
      then pure false
      else do
        mark_fs_state i true
        t ← get_system
        set_system (with_entry t i (record (t.entries i) { mountpoint = 0 }))
        pure true

-- The entries behind the root's are looked through.
unfoldable pub umount_fs : Bytes → S Bool
unfolding umount_loop
umount_fs label = do
  s ← get_system
  umount_loop label (max_mounts - (s.root_fs + 1)) (s.root_fs + 1)
