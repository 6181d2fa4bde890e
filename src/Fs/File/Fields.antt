-- ===== src/Fs/File/Fields.antt =====
-- The fields of `struct ext2_inode` in kernel/fs/ext2/inode.h that the operations on files and
-- directories write, by their offsets, and the types in the upper bits of `type_and_perms_lo`.
use deprecat_os.Prelude.{ℕ, ◌+◌, ◌-◌, ◌*◌, ◌/◌, ◌%◌, ◌^◌, Bool, ◌==◌, bit_and}
use deprecat_os.Fs.Bytes.{get16, get32, set16, set32}
use deprecat_os.Fs.Inode.{Inode, disk_sectors}

-- NO_PERMISSION_MASK, INODE_FILE_TYPE, INODE_DIR_TYPE and INODE_SYMLINK_TYPE
abbrev pub no_permission_mask : ℕ
no_permission_mask = 61440

abbrev pub inode_file_type : ℕ
inode_file_type = 32768

abbrev pub inode_dir_type : ℕ
inode_dir_type = 16384

abbrev pub inode_symlink_type : ℕ
inode_symlink_type = 40960

abbrev pub type_and_perms_lo : Inode → ℕ
type_and_perms_lo i = get16 i 0

-- `(inode.type_and_perms_lo & NO_PERMISSION_MASK) == type`
abbrev pub has_type : Inode → ℕ → Bool
has_type i type = bit_and (type_and_perms_lo i) no_permission_mask == type

abbrev pub hard_link_cnt : Inode → ℕ
hard_link_cnt i = get16 i 26

abbrev pub last_mod_time : Inode → ℕ
last_mod_time i = get32 i 16

abbrev pub set_type : ℕ → Inode → Inode
set_type v i = set16 i 0 v

abbrev pub set_size : ℕ → Inode → Inode
set_size v i = set32 i 4 v

abbrev pub set_last_access : ℕ → Inode → Inode
set_last_access v i = set32 i 8 v

abbrev pub set_creation : ℕ → Inode → Inode
set_creation v i = set32 i 12 v

abbrev pub set_last_mod : ℕ → Inode → Inode
set_last_mod v i = set32 i 16 v

abbrev pub set_deletion : ℕ → Inode → Inode
set_deletion v i = set32 i 20 v

abbrev pub set_hard_link_cnt : ℕ → Inode → Inode
set_hard_link_cnt v i = set16 i 26 v

abbrev pub set_disk_sectors : ℕ → Inode → Inode
set_disk_sectors v i = set32 i 28 v

-- `(size + BLOCK_SIZE - 1) / BLOCK_SIZE` in 32 bits
abbrev pub blocks_for : ℕ → ℕ
blocks_for size = (size + 4095) % 2 ^ 32 / 4096

-- `disk_sectors += cnt * sectors_per_blk` and `-=`, in 32 bits
abbrev pub more_sectors : ℕ → Inode → Inode
more_sectors cnt i = set_disk_sectors ((disk_sectors i + cnt * 8) % 2 ^ 32) i

abbrev pub fewer_sectors : ℕ → Inode → Inode
fewer_sectors cnt i = set_disk_sectors ((disk_sectors i + 2 ^ 32 - cnt * 8 % 2 ^ 32) % 2 ^ 32) i
