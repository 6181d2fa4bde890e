-- ===== src/Fs/Path/Child.antt =====
-- A name looked up in a directory by `lookup_path`, where the blocks of the directory are all there
-- and laid out.
use deprecat_os.Prelude.{
  ℕ, zero, suc, ◌+◌, ◌≤◌, ◌<◌, ◌≡◌, ◌∙◌, ap, refl, sym, true, false, Option, none, some, List,
  arith, case_option,
}
use deprecat_os.Fs.Volume
use deprecat_os.Fs.Volume.{Volume}
use deprecat_os.Fs.Volume.Laws.{IsMounted, block, read_block-ok}
use deprecat_os.Fs.Inode.{Inode, size_lo, get_inode}
use deprecat_os.Fs.MapBlock.Lookup.{block_of, map_file_block-present}
use deprecat_os.Fs.File.Fields.{has_type, inode_dir_type, blocks_for}
use deprecat_os.Fs.File.Change.{uncounted_walk}
use deprecat_os.Fs.Directory.Block.{Name}
use deprecat_os.Fs.Directory.Block.View.{inodes_of}
use deprecat_os.Fs.Directory.Block.Find.{first, find_entry-lookup}
use deprecat_os.Fs.Directory.Lookup.{IsBlock, entries_of, first-append}
use deprecat_os.Fs.Path.Step.{scan_round, scan_blocks, child_of}

then_found :
    (v : Volume) (o : Option ℕ) (rest : Volume.M (Option ℕ)) (r : Option ℕ)
    → rest v ≡ some (r, v)
    → case_option o rest (λ n. Volume.pure (some n)) v ≡ some (case_option o r (λ x. some x), v)
then_found v none rest r e = e
then_found v (some n) rest r e = refl

module _ {v : Volume} (m : IsMounted v) (inode : Inode) (sizes : ℕ → List ℕ) (name : Name) where
  scan_round-ok :
      (i : ℕ) (next : Inode → Volume.M (Option ℕ)) (r : Option ℕ)
      → IsBlock v inode i (sizes i)
      → next inode v ≡ some (r, v)
      → scan_round name i next inode v
        ≡ some (
          case_option
              (first (inodes_of (block v (block_of v (uncounted_walk inode) i)) 0 (sizes i) name))
              r
              (λ x. some x),
          v,
        )
  unfolding scan_round
  scan_round-ok i next r b e =
      let w = uncounted_walk inode in
      let p = block_of v w i in
      let mapped = map_file_block-present m 0 i w b.tables refl b.present in
      let found = (find_entry-lookup (block v p) (sizes i) name b.laid).1 in
      rw (scan_round, Volume.◌>>=◌, mapped, read_block-ok m p b.fits, found)
        (then_found v _ (next inode) r e)

  scan_blocks-ok :
      (n i : ℕ)
      → ((k : ℕ) → i ≤ k → k < i + n → IsBlock v inode k (sizes k))
      → scan_blocks name n i inode v ≡ some (first (entries_of v inode sizes name n i), v)
  unfolding scan_blocks entries_of first
  scan_blocks-ok zero i b = refl
  scan_blocks-ok (suc n) i b =
      scan_round-ok i _ _ (b i (omega arith) (omega arith))
        (scan_blocks-ok n (i + 1) (λ k p q. b k (omega arith) (omega arith)))
      ∙ ap (λ r. some (r, v)) (sym (first-append _ (entries_of v inode sizes name n (i + 1))))

-- A directory of a mounted volume, with its blocks all there, inside the partition and laid out.
pub record IsDirectory (v : Volume) (n : ℕ) (inode : Inode) (sizes : ℕ → List ℕ) : Type 0 where
  pub mounted : IsMounted v
  pub stored : get_inode n v ≡ some (some inode, v)
  pub directory : has_type inode inode_dir_type ≡ true
  pub blocks : (k : ℕ) → k < blocks_for (size_lo inode) → IsBlock v inode k (sizes k)

-- The inodes that the name stands for, in the order of the blocks and of the entries in them.
abbrev pub inodes_in : Volume → Inode → (ℕ → List ℕ) → Name → List ℕ
inodes_in v inode sizes name = entries_of v inode sizes name (blocks_for (size_lo inode)) 0

pub child_of-none :
    {v : Volume} {n : ℕ} {inode : Inode} {sizes : ℕ → List ℕ} (name : Name)
    → IsDirectory v n inode sizes
    → first (inodes_in v inode sizes name) ≡ none
    → child_of n name v ≡ some (none, v)
unfolding child_of
child_of-none {v} {n} {inode} {sizes} name d e =
    let scanned =
      scan_blocks-ok d.mounted inode sizes name (blocks_for (size_lo inode)) 0
        (λ k p q. d.blocks k (omega arith)) in
    rw (child_of, Volume.◌>>=◌, d.stored, d.directory, scanned, e) refl

pub child_of-some :
    {v : Volume} {n : ℕ} {inode : Inode} {sizes : ℕ → List ℕ} (name : Name) (c : ℕ) (child : Inode)
    → IsDirectory v n inode sizes
    → first (inodes_in v inode sizes name) ≡ some c
    → get_inode c v ≡ some (some child, v)
    → child_of n name v ≡ some (some (c, child), v)
unfolding child_of
child_of-some {v} {n} {inode} {sizes} name c child d e stored =
    let scanned =
      scan_blocks-ok d.mounted inode sizes name (blocks_for (size_lo inode)) 0
        (λ k p q. d.blocks k (omega arith)) in
    rw (child_of, Volume.◌>>=◌, d.stored, d.directory, scanned, e, stored) refl

pub child_of-file :
    {v : Volume} (n : ℕ) {inode : Inode} (name : Name)
    → get_inode n v ≡ some (some inode, v)
    → has_type inode inode_dir_type ≡ false
    → child_of n name v ≡ some (none, v)
unfolding child_of
child_of-file n name stored file = rw (child_of, Volume.◌>>=◌, stored, file) refl
