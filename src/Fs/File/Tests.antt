-- ===== src/Fs/File/Tests.antt =====
-- The theorems on whole files and on runs of operations at concrete inputs.
use deprecat_os.Prelude.{ℕ, zero, suc, ◌<◌, ◌≡◌, refl, some, false, arith, ◌==◌, ltb, if◌then◌else◌}
use deprecat_os.Fs.Bytes.{get32}
use deprecat_os.Fs.Volume.{Volume}
use deprecat_os.Fs.Volume.Laws.{IsMounted, block, put, put-IsMounted, block-put_same}
use deprecat_os.Fs.Inode.{Inode, size_lo, dir_at}
use deprecat_os.Fs.MapBlock.Shared.{Walk}
use deprecat_os.Fs.MapBlock.Lookup.{root, route, TablesFit, block_of, chase}
use deprecat_os.Fs.Sample.{volume, mounted}
use deprecat_os.Fs.File.Fields.{blocks_for}
use deprecat_os.Fs.File.Read.{Reader, read_inode}
use deprecat_os.Fs.File.Read.Laws.{AllFit, content}
use deprecat_os.Fs.File.Read.Whole.{FileFits, read_inode-block_of}
use deprecat_os.Fs.File.Change.{Appender, append_blocks, uncounted_walk}
use deprecat_os.Fs.File.Append.{append_blocks_end}
use deprecat_os.Fs.Directory.Block.{dot_dot}
use deprecat_os.Fs.Directory.Block.View.{Laid-Agree}
use deprecat_os.Fs.Directory.Block.Find.{first}
use deprecat_os.Fs.Directory.Sample.{two_entries, two_sizes, two_entries-Laid}
use deprecat_os.Fs.Directory.Scan.{name_in}
use deprecat_os.Fs.Directory.Lookup.{IsBlock, entries_of, name_in-entries_of}

-- A file of one block, block 9 of the volume.
abbrev one_block : Inode
one_block k = if k == 5 then 16 else if k == 40 then 9 else 0

abbrev walk : Walk
walk = uncounted_walk one_block

direct_fits : (i : ℕ) → i < 12 → AllFit volume 0 (get32 one_block (dir_at i))
unfolding AllFit get32
direct_fits zero h = λ _. omega arith
direct_fits (suc i) h = λ ne. absurd (ground arith)

one_block-FileFits : FileFits volume one_block
unfolding AllFit get32
one_block-FileFits = record {
  direct = λ i h. direct_fits i h;
  singly = λ ne. absurd (ne refl);
  doubly = λ ne. absurd (ne refl);
}

read_inode-block_of_example :
    (r : Reader) × (read_inode one_block (λ _ _. 1) volume ≡ some (r, volume))
    × (r.left ≡ 0)
    × ((k : ℕ)
        → r.out k ≡ (
            if ltb k (blocks_for (size_lo one_block))
            then content volume (block_of volume walk k)
            else λ _. 1))
read_inode-block_of_example = read_inode-block_of volume walk (λ _ _. 1) mounted one_block-FileFits

-- Five thousand bytes to append.
abbrev appender : Appender
appender = record { inode = one_block; cnt = 8; cursor = 0; left = 5000; backward = false }

append_blocks_end_example :
    append_blocks 9000 (λ _. 0) (λ k. k) 1 0 appender
    ≡ append_blocks 5000 (λ _. 0) (λ k. k) 1 0 appender
append_blocks_end_example = append_blocks_end (λ _. 0) (λ k. k) 9000 1 0 appender (omega arith)

-- The volume with the block of a new directory in it.
abbrev home : Volume
home = put volume 9 two_entries

home-IsMounted : IsMounted home
home-IsMounted = put-IsMounted mounted 9 two_entries

home_blocks : (k : ℕ) → k < 1 → IsBlock home one_block k two_sizes
unfolding root route chase TablesFit get32
home_blocks zero h = record {
  tables = tt;
  present = λ e. absurd (omega (arith, e));
  fits = omega arith;
  laid =
      Laid-Agree two_entries (block home 9) 0 two_sizes
        (λ k p q. block-put_same volume 9 two_entries k q) two_entries-Laid;
}
home_blocks (suc k) h = absurd (omega (arith, h))

name_in-entries_of_example :
    name_in one_block dot_dot home
    ≡ some (first (entries_of home one_block (λ _. two_sizes) dot_dot 1 0), home)
unfolding get32
name_in-entries_of_example =
    name_in-entries_of home-IsMounted one_block (λ _. two_sizes) dot_dot home_blocks
