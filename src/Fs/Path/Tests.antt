-- ===== src/Fs/Path/Tests.antt =====
-- The theorem on paths at "/.." on two file systems, of which one is mounted on the root directory of
-- the other.
use deprecat_os.Prelude.{
  ℕ, zero, suc, ◌+◌, ◌<◌, ◌≡◌, refl, true, false, inr, some, List, [], ◌∷◌, arith, ◌==◌,
  if◌then◌else◌,
}
use deprecat_os.Fs.Bytes.{Bytes, get16, get32}
use deprecat_os.Fs.Disk.Laws.{span}
use deprecat_os.Fs.Volume.{Volume}
use deprecat_os.Fs.Volume.Laws.{IsMounted, block}
use deprecat_os.Fs.Inode.{Inode, size_lo, get_inode, inode_blk, inode_off}
use deprecat_os.Fs.Inode.Laws.{HasSlot, get_inode-ok}
use deprecat_os.Fs.MapBlock.Lookup.{root, route, TablesFit, chase}
use deprecat_os.Fs.File.Fields.{has_type, inode_symlink_type, blocks_for}
use deprecat_os.Fs.Sample.{volume}
use deprecat_os.Fs.Directory.Block.{is_named, comp_name, comp_chars}
use deprecat_os.Fs.Directory.Block.View.{Laid, inodes_of}
use deprecat_os.Fs.Directory.Block.Find.{first}
use deprecat_os.Fs.Directory.Lookup.{IsBlock, entries_of}
use deprecat_os.Fs.Directory.Sample.{two_entries, two_sizes}
use deprecat_os.Fs.Mount.Table.{System}
use deprecat_os.Fs.Path.{lookup_path}
use deprecat_os.Fs.Path.Child.{IsDirectory, inodes_in}
use deprecat_os.Fs.Path.Spell.{text, path_text, NoSlash, AreComponents}
use deprecat_os.Fs.Path.Route.{arrives, goes_on, Leads, mounted_on, at_top, lookup_path-Route}

-- The table of inodes: inode 2 is a directory of one block, block 9.
abbrev table : Bytes
table k = if k == 129 then 64 else if k == 133 then 16 else if k == 168 then 9 else 0

-- Blocks 4 and 9 of the partition start at these sectors.
abbrev disk : Volume
disk = record volume {
  drives = record {
    master_drive = record { lba_sector_count = 0; sector = λ _ _. 0 };
    slave_drive = record {
      lba_sector_count = 320;
      sector = λ l k. if l == 96 then table k else if l == 136 then two_entries k else 0;
    };
  };
}

abbrev system : System
system = record {
  entries = λ i. record { info = disk.fs; mountpoint = if i == 1 then 2 else 0; label = λ _. 0 };
  root_fs = 0;
  drives = disk.drives;
}

abbrev dots : List ℕ
dots = 46 ∷ 46 ∷ []

abbrev home : Inode
home k = block disk (inode_blk disk.fs 2) (inode_off disk.fs 2 + k)

disk-IsMounted : IsMounted disk
disk-IsMounted = record {
  on_drive = record { named = inr refl; inside = omega arith; small = omega arith };
  short = omega arith;
}

home-HasSlot : HasSlot disk 2
unfolding inode_blk inode_off get32
home-HasSlot = record {
  per_group = omega arith;
  numbered = (omega arith, omega arith);
  fits = omega arith;
  whole = omega arith;
}

home_stored : get_inode 2 disk ≡ some (some home, disk)
home_stored = get_inode-ok disk-IsMounted 2 home-HasSlot

home_size : blocks_for (size_lo home) ≡ 1
unfolding inode_blk inode_off get32 span
home_size = refl

home_blocks : (k : ℕ) → k < 1 → IsBlock disk home k two_sizes
unfolding inode_blk inode_off root route chase TablesFit Laid get16 get32 span
home_blocks zero h = record {
  tables = tt;
  present = λ e. absurd (omega (arith, e));
  fits = omega arith;
  laid = (refl, omega arith, omega arith, (refl, omega arith, omega arith, refl));
}
home_blocks (suc k) h = absurd (omega (arith, h))

home-IsDirectory : IsDirectory disk 2 home (λ _. two_sizes)
unfolding inode_blk inode_off get16 get32 span
home-IsDirectory = record {
  mounted = disk-IsMounted;
  stored = home_stored;
  directory = refl;
  blocks = λ k h. home_blocks k (omega (arith, h, home_size));
}

dots_found : first (inodes_in disk home (λ _. two_sizes) (text dots)) ≡ some 2
unfolding inode_blk inode_off get16 get32 span entries_of inodes_of first is_named comp_name
    comp_chars text root route chase
dots_found = refl

dots-Leads : Leads system 0 2 (text dots) (record { fs = 0; n = 2; inode = home })
dots-Leads = record {
  d = 1;
  m = 2;
  into = mounted_on 1 refl (omega arith) refl (λ j h e. absurd (ground (arith, h, e)));
  parent = home;
  sizes = λ _. two_sizes;
  directory = home-IsDirectory;
  c = 2;
  found = dots_found;
  stored = home_stored;
  out_of = at_top (λ e. absurd (omega (arith, e))) refl;
}

not_a_link : has_type home inode_symlink_type ≡ false
unfolding inode_blk inode_off get16 get32 span
not_a_link = refl

dots-AreComponents : AreComponents (dots ∷ [])
unfolding AreComponents NoSlash
dots-AreComponents = (
  record {
    chars = (omega arith, omega arith, (omega arith, omega arith, tt));
    some_char = omega arith;
    short = omega arith;
  },
  tt,
)

lookup_path-Route_example :
    lookup_path (text (path_text (dots ∷ []))) true system ≡ some (some (0, 2), system)
unfolding path_text
lookup_path-Route_example =
    lookup_path-Route system dots [] true (some (0, 2)) dots-AreComponents (omega arith) (
      goes_on dots [] 0 2 (record { fs = 0; n = 2; inode = home }) (some (0, 2)) dots-Leads
        not_a_link (arrives 0 2))
