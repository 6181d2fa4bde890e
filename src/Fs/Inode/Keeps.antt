-- ===== src/Fs/Inode/Keeps.antt =====
-- `get_inode` and `set_inode` stay within the volume.
use deprecat_os.Prelude.{ℕ}
use deprecat_os.Fs.Volume.{FsInfo}
use deprecat_os.Fs.Volume.Keeps.{Keeps, keeps_rules}
use deprecat_os.Fs.Inode.{Inode, get_inode, set_inode}

pub Keeps-get_inode : {g : FsInfo} (inode_n : ℕ) → Keeps g (get_inode inode_n)
unfolding get_inode
Keeps-get_inode inode_n = search keeps_rules depth 9

pub Keeps-set_inode : {g : FsInfo} (inode_n : ℕ) (inode : Inode) → Keeps g (set_inode inode_n inode)
unfolding set_inode
Keeps-set_inode inode_n inode = search keeps_rules depth 9
