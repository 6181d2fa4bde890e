-- ===== src/Fs/Path/Step.antt =====
-- One component of a path in `lookup_path` of kernel/fs/ext2/directoryController.c.
use deprecat_os.Prelude.{ℕ, zero, suc, ◌+◌, Option, none, some, ◌==◌, if◌then◌else◌, case_option}
use mathlib.Core.Option
use deprecat_os.Fs.Bytes.{Bytes, get32}
use deprecat_os.Fs.Volume
use deprecat_os.Fs.Volume.{read_block}
use deprecat_os.Fs.Inode.{Inode, size_lo, disk_sectors, dir_at, get_inode}
use deprecat_os.Fs.MapBlock.{map_file_block}
use deprecat_os.Fs.MapBlock.Shared.{case_status, lookup_mode}
use deprecat_os.Fs.File.Fields.{has_type, inode_dir_type, blocks_for}
use deprecat_os.Fs.File.Change.{uncounted_walk}
use deprecat_os.Fs.Directory.Block.{Name, lookup}
use deprecat_os.Fs.Mount.{return_mnt_root, return_mnt_mountpoint}
use deprecat_os.Fs.Mount.Table.{S, pure, ◌>>=◌, get_system, on}

-- `curr_fs`, `curr_inode_num` and `ino`
pub record Node : Type 0 where
  pub fs : ℕ
  pub n : ℕ
  pub inode : Inode

-- A round of the loop over the blocks of a directory, with the rest of the loop.
unfoldable pub scan_round : Name → ℕ → (Inode → Volume.M (Option ℕ)) → Inode → Volume.M (Option ℕ)
scan_round name i next inode =
    Volume.◌>>=◌ (map_file_block lookup_mode i (uncounted_walk inode)) (λ r.
      case_status r.0
        (Volume.◌>>=◌ (read_block r.1.out) (λ blk.
          case_option (lookup 4096 blk name 4096 0) (next r.1.inode) (λ n. Volume.pure (some n))))
        (Volume.pure none) (Volume.pure none))

-- The loop, `n` blocks from `i` on.
unfoldable pub scan_blocks : Name → ℕ → ℕ → Inode → Volume.M (Option ℕ)
unfolding scan_round
scan_blocks name zero i inode = Volume.pure none
scan_blocks name (suc n) i inode =
    scan_round name i (λ inode'. scan_blocks name n (i + 1) inode') inode

-- The inode of a name in a directory, with its number.
unfoldable pub child_of : ℕ → Name → Volume.M (Option (ℕ × Inode))
unfolding scan_blocks
child_of parent_n name = Volume.◌>>=◌ (get_inode parent_n) (λ found.
    case_option found (Volume.pure none) (λ parent.
      if has_type parent inode_dir_type
      then Volume.◌>>=◌ (scan_blocks name (blocks_for (size_lo parent)) 0 parent) (λ child.
        case_option child (Volume.pure none)
          (λ n. Volume.◌>>=◌ (get_inode n) (λ inode. Volume.pure (Option.map (λ i. (n, i)) inode))))
      else Volume.pure none))

-- From a directory to a name in it, across mount points before and behind.
unfoldable pub enter : ℕ → ℕ → Name → S (Option Node)
enter fs n name = do
  s ← get_system
  let (_, fs', n') = return_mnt_root s fs n
  child ← on fs' (child_of n' name)
  t ← get_system
  pure (
      Option.map
        (λ (m, inode).
          let (_, fs'', m') = return_mnt_mountpoint t fs' m in
          record { fs = fs''; n = m'; inode = inode })
        child)

-- The target of a link: in the inode, or in its first block.
unfoldable pub target_of : Inode → Volume.M Bytes
target_of inode =
    if disk_sectors inode == 0
    then Volume.pure (λ k. inode (dir_at 0 + k))
    else read_block (get32 inode (dir_at 0))
