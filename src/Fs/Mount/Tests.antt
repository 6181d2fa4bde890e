-- ===== src/Fs/Mount/Tests.antt =====
-- The theorem on mount points at a table with one mounted file system.
use deprecat_os.Prelude.{ℕ, ◌≡◌, refl, true, arith, ◌==◌, if◌then◌else◌}
use deprecat_os.Fs.Sample.{volume}
use deprecat_os.Fs.Directory.Scan.{root_inode_n}
use deprecat_os.Fs.Mount.{return_mnt_root, return_mnt_mountpoint}
use deprecat_os.Fs.Mount.Table.{System}
use deprecat_os.Fs.Mount.Laws.{IsTable, return_mnt_root-return_mnt_mountpoint}

-- The file system 1 is mounted on inode 12 of the root, the file system 0.
abbrev system : System
system = record {
  entries = λ i. record { info = volume.fs; mountpoint = if i == 1 then 12 else 0; label = λ _. 0 };
  root_fs = 0;
  drives = volume.drives;
}

system-IsTable : IsTable system
system-IsTable = record { distinct = λ i j p q e ne. ground (arith, e, ne); root_unmounted = refl }

return_mnt_root-return_mnt_mountpoint_example :
    (n : ℕ) × (return_mnt_mountpoint system 1 root_inode_n ≡ (true, 0, n))
    × (return_mnt_root system 0 n ≡ (true, 1, root_inode_n))
return_mnt_root-return_mnt_mountpoint_example =
    return_mnt_root-return_mnt_mountpoint system 1 system-IsTable (omega arith)
      (λ e. absurd (omega (arith, e)))
