-- ===== src/Fs/Directory/Block/Find.antt =====
-- The two scans for a name, of `name_in` and of `lookup_path`, on a block that is laid out.
use deprecat_os.Prelude.{
  ℕ, zero, suc, ◌+◌, ◌≤◌, ◌≡◌, true, false, List, [], ◌∷◌, Option, none, some, refl, arith,
  Bool-cases, inl, inr, ◌==◌, ltb,
}
use deprecat_os.Fs.Bytes.{Bytes}
use deprecat_os.Fs.Directory.Block.{
  Name, curr_entry_size, is_named, lookup, lookup_on, find_entry, find_entry_on,
}
use deprecat_os.Fs.Directory.Block.View.{Laid, Laid-end, inodes_of, is_bad-Laid}

unfoldable pub first : List ℕ → Option ℕ
first [] = none
first (x ∷ xs) = some x

find_from :
    (fuel : ℕ) (b : Bytes) (name : Name) (c : ℕ) (ns : List ℕ)
    → Laid b c ns
    → 4096 ≤ c + fuel
    → find_entry fuel b name c ≡ first (inodes_of b c ns name)
unfolding find_entry_on inodes_of first Laid
find_from zero b name c [] l h = refl
find_from zero b name c (n ∷ ns) l h = absurd (omega (arith, Laid-end b (c + n) ns l.3, l.1))
find_from (suc fuel) b name c [] l h = ground arith
find_from (suc fuel) b name c (n ∷ ns) l h =
    let last = Laid-end b (c + n) ns l.3 in
    let good = is_bad-Laid b c n ns l in
    let inside : ltb c 4096 ≡ true = ground arith in
    let rest = find_from fuel b name (c + n) ns l.3 (omega arith) in
    elim (Bool-cases (is_named b c name)) [
      | inl e ↦ rw (find_entry, inside, good, e) refl
      | inr e ↦ rw (find_entry, inside, good, e, l.0, rest) refl
    ]

lookup_from :
    (fuel : ℕ) (b : Bytes) (name : Name) (c : ℕ) (ns : List ℕ)
    → Laid b c ns
    → 4096 ≤ c + fuel
    → lookup fuel b name 4096 c ≡ first (inodes_of b c ns name)
unfolding lookup_on inodes_of first Laid
lookup_from zero b name c [] l h = refl
lookup_from zero b name c (n ∷ ns) l h = absurd (omega (arith, Laid-end b (c + n) ns l.3, l.1))
lookup_from (suc fuel) b name c [] l h = ground arith
lookup_from (suc fuel) b name c (n ∷ ns) l h =
    let last = Laid-end b (c + n) ns l.3 in
    let long : (curr_entry_size b c == 0) ≡ false = ground arith in
    let inside : ltb c 4096 ≡ true = ground arith in
    let rest = lookup_from fuel b name (c + n) ns l.3 (omega arith) in
    elim (Bool-cases (is_named b c name)) [
      | inl e ↦ rw (lookup, inside, long, e) refl
      | inr e ↦ rw (lookup, inside, long, e, l.0, rest) refl
    ]

-- In a block of entries that is laid out, the scan of `name_in` and the scan of `lookup_path` both
-- end within 4096 rounds with the inode of the first entry in use with the name, and with none
-- exactly when no entry in use has it.
pub find_entry-lookup :
    (b : Bytes) (ns : List ℕ) (name : Name)
    → Laid b 0 ns
    → (find_entry 4096 b name 0 ≡ first (inodes_of b 0 ns name))
      × (lookup 4096 b name 4096 0 ≡ first (inodes_of b 0 ns name))
find_entry-lookup b ns name l =
    (find_from 4096 b name 0 ns l (omega arith), lookup_from 4096 b name 0 ns l (omega arith))
