-- ===== src/Fs/Directory/Lookup.antt =====
-- `name_in` on a directory whose blocks are all there and laid out.
use deprecat_os.Prelude.{
  ℕ, zero, suc, ◌+◌, ◌/◌, ◌≤◌, ◌<◌, ◌≡◌, ◌≢◌, ◌∙◌, ap, refl, sym, Option, none, some, List, [], ◌∷◌,
  ◌++◌, arith, case_option,
}
use deprecat_os.Fs.Volume.{Volume, M, pure, ◌>>=◌}
use deprecat_os.Fs.Volume.Laws.{IsMounted, Fits, block, read_block-ok}
use deprecat_os.Fs.Inode.{Inode, size_lo}
use deprecat_os.Fs.MapBlock.Shared.{ptr}
use deprecat_os.Fs.MapBlock.Lookup.{root, route, TablesFit, block_of, map_file_block-present}
use deprecat_os.Fs.File.Change.{uncounted_walk}
use deprecat_os.Fs.Directory.Block.{Name}
use deprecat_os.Fs.Directory.Block.View.{Laid, inodes_of}
use deprecat_os.Fs.Directory.Block.Find.{first, find_entry-lookup}
use deprecat_os.Fs.Directory.Scan.{name_round, name_blocks, name_in}

-- Block `i` of the directory is there, inside the partition, and laid out with these sizes.
pub record IsBlock (v : Volume) (inode : Inode) (i : ℕ) (ns : List ℕ) : Type 0 where
  pub tables : TablesFit v (ptr (uncounted_walk inode) (root i)) (route i)
  pub present : block_of v (uncounted_walk inode) i ≢ 0
  pub fits : Fits v (block_of v (uncounted_walk inode) i)
  pub laid : Laid (block v (block_of v (uncounted_walk inode) i)) 0 ns

-- The inodes of a name in the `n` blocks from `i` on, block by block.
unfoldable pub entries_of : Volume → Inode → (ℕ → List ℕ) → Name → ℕ → ℕ → List ℕ
entries_of v inode sizes name zero i = []
entries_of v inode sizes name (suc n) i =
    inodes_of (block v (block_of v (uncounted_walk inode) i)) 0 (sizes i) name
    ++ entries_of v inode sizes name n (i + 1)

pub first-append :
    (xs ys : List ℕ) → first (xs ++ ys) ≡ case_option (first xs) (first ys) (λ x. some x)
unfolding first
first-append [] ys = refl
first-append (x ∷ xs) ys = refl

then_found :
    (v : Volume) (o : Option ℕ) (rest : M (Option ℕ)) (r : Option ℕ)
    → rest v ≡ some (r, v)
    → case_option o rest (λ n. pure (some n)) v ≡ some (case_option o r (λ x. some x), v)
then_found v none rest r e = e
then_found v (some n) rest r e = refl

module _ {v : Volume} (m : IsMounted v) (inode : Inode) (sizes : ℕ → List ℕ) (name : Name) where
  name_round-ok :
      (i : ℕ) (next : Inode → M (Option ℕ)) (r : Option ℕ)
      → IsBlock v inode i (sizes i)
      → next inode v ≡ some (r, v)
      → name_round name i next inode v
        ≡ some (
          case_option
              (first (inodes_of (block v (block_of v (uncounted_walk inode) i)) 0 (sizes i) name))
              r
              (λ x. some x),
          v,
        )
  unfolding name_round
  name_round-ok i next r b e =
      let w = uncounted_walk inode in
      let p = block_of v w i in
      let mapped = map_file_block-present m 0 i w b.tables refl b.present in
      let found = (find_entry-lookup (block v p) (sizes i) name b.laid).0 in
      rw (name_round, ◌>>=◌, mapped, read_block-ok m p b.fits, found)
        (then_found v _ (next inode) r e)

  name_blocks-ok :
      (n i : ℕ)
      → ((k : ℕ) → i ≤ k → k < i + n → IsBlock v inode k (sizes k))
      → name_blocks name n i inode v ≡ some (first (entries_of v inode sizes name n i), v)
  unfolding name_blocks entries_of first
  name_blocks-ok zero i b = refl
  name_blocks-ok (suc n) i b =
      name_round-ok i _ _ (b i (omega arith) (omega arith))
        (name_blocks-ok n (i + 1) (λ k p q. b k (omega arith) (omega arith)))
      ∙ ap (λ r. some (r, v)) (sym (first-append _ (entries_of v inode sizes name n (i + 1))))

  -- On a mounted volume, in a directory whose blocks are all there, inside the partition and laid
  -- out, `name_in` returns the inode of the first entry in use with the name, in the order of the
  -- blocks and of the entries in them, or none if there is no such entry, and changes nothing.
  pub name_in-entries_of :
      ((k : ℕ) → k < size_lo inode / 4096 → IsBlock v inode k (sizes k))
      → name_in inode name v
        ≡ some (first (entries_of v inode sizes name (size_lo inode / 4096) 0), v)
  unfolding name_in
  name_in-entries_of b = name_blocks-ok (size_lo inode / 4096) 0 (λ k p q. b k (omega arith))
