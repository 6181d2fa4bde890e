-- ===== src/Fs/Mounting.antt =====
-- `mount_fs` of kernel/fs/mount/mount.c: a partition is mounted on the directory of /mnt that has
-- its name.
use deprecat_os.Prelude.{
  ℕ, zero, suc, ◌+◌, ◌-◌, Bool, true, false, not, ◌||◌, [], ◌∷◌, write, ◌==◌, ltb, if◌then◌else◌,
  case_option,
}
use deprecat_os.Fs.Bytes.{Bytes}
use deprecat_os.Fs.Inode.{get_inode}
use deprecat_os.Fs.File.Fields.{has_type, inode_dir_type}
use deprecat_os.Fs.Mount.{max_mounts, mark_fs_state, same_label, fs_info_label_len}
use deprecat_os.Fs.Mount.Table.{
  Mounted, S, pure, ◌>>=◌, ◌>>◌, get_system, set_system, with_entry, on,
}
use deprecat_os.Fs.Names.{is_dots}
use deprecat_os.Fs.Path.{lookup_path}
use deprecat_os.Fs.Path.Spell.{text}

-- `part_superblk->vol_name`
abbrev pub vol_name : Mounted → Bytes
vol_name e k = e.info.sprblk_buf (120 + k)

-- The loop that copies the name of the volume, `left` characters from `j` on: was there no '/', was
-- there a character, and the label as it is then.
unfoldable pub copy_label : Bytes → ℕ → ℕ → Bool → Bytes → Bool × Bool × Bytes
copy_label name zero j found label = (true, found, label)
copy_label name (suc left) j found label =
    let rest = copy_label name left (j + 1) (found || not (name j == 0)) (write label j (name j)) in
    if name j == 47 then (false, found, write label 0 0) else rest

-- The loop that looks for another partition with the label, `left` entries from `j` on.
unfoldable pub has_duplicate : (ℕ → Mounted) → ℕ → ℕ → ℕ → Bool
unfolding same_label
has_duplicate entries i zero j = false
has_duplicate entries i (suc left) j =
    let rest = has_duplicate entries i left (j + 1) in
    let label = (entries i).label in
    if j == i || (entries j).info.sector_count == 0
    then rest
    else if same_label fs_info_label_len label (entries j).label 0
    then true
    else rest

-- MOUNT_PATH_SEED, and `mount_path`
abbrev pub mount_path_seed : Bytes
mount_path_seed = text (47 ∷ 109 ∷ 110 ∷ 116 ∷ 47 ∷ [])

abbrev pub mount_path : Bytes → Bytes
mount_path label k =
    if ltb k 5
    then mount_path_seed k
    else if ltb k (5 + fs_info_label_len)
    then label (k - 5)
    else 0

abbrev pub set_label : ℕ → Bytes → S (Unit {0})
set_label i label = do
  s ← get_system
  set_system (with_entry s i (record (s.entries i) { label = label }))

-- The directory is found, and is one of the root file system.
unfoldable pub mount_at : ℕ → ℕ → ℕ → S Bool
unfolding mark_fs_state
mount_at i fs n = do
  s ← get_system
  if not (fs == s.root_fs) then pure false else do
    found ← on s.root_fs (get_inode n)
    case_option found (pure false) (λ inode.
        if not (has_type inode inode_dir_type) then pure false else do
          t ← get_system
          set_system (with_entry t i (record (t.entries i) { mountpoint = n }))
          mark_fs_state i false
          pure true)

unfoldable pub mount_labelled : ℕ → S Bool
unfolding has_duplicate lookup_path mount_at
mount_labelled i = do
  s ← get_system
  let from = s.root_fs + 1
  if has_duplicate s.entries i (max_mounts - from) from then pure false else do
    found ← lookup_path (mount_path (s.entries i).label) false
    case_option found (pure false) (λ (fs, n). mount_at i fs n)

-- The entry with the label is mounted, unless it is already; its label is taken from the volume.
unfoldable pub mount_entry : Bytes → ℕ → S Bool
unfolding copy_label mount_labelled
mount_entry label i = do
  s ← get_system
  let e : Mounted = s.entries i
  if not (e.mountpoint == 0) || is_dots label then pure false else do
    let (clean, found, copy) = copy_label (vol_name e) 16 0 false e.label
    set_label i copy
    if not clean || not found
        then pure false
        else do set_label i (write copy (fs_info_label_len - 1) 0); mount_labelled i

-- The loop of `mount_fs`, `left` entries from `i` on.
unfoldable pub mount_loop : Bytes → ℕ → ℕ → S Bool
unfolding mount_entry
mount_loop label zero i = pure false
mount_loop label (suc left) i = do
  s ← get_system
  let e : Mounted = s.entries i
  if e.info.sector_count == 0 || not (same_label fs_info_label_len e.label label 0)
      then mount_loop label left (i + 1)
      else mount_entry label i

unfoldable pub mount_fs : Bytes → S Bool
unfolding mount_loop
mount_fs label = do s ← get_system; mount_loop label (max_mounts - (s.root_fs + 1)) (s.root_fs + 1)
