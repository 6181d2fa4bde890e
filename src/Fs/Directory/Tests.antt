-- ===== src/Fs/Directory/Tests.antt =====
-- The theorems on the blocks of a directory at the two entries of a new directory.
use deprecat_os.Prelude.{some, ℕ, zero, suc, ◌<◌, ◌≡◌, refl, write, [], true, arith}
use deprecat_os.Fs.Bytes.{Bytes, get16, get32, set16}
use deprecat_os.Fs.Directory.Block.{
  corrupt, malformed, lookup_on, find_entry_on, remove_entry_on, insert_entry_on, Name, dot,
  dot_dot, stored, is_bad, is_named, comp_name, comp_chars, lookup, find_entry, has_no_child,
  insert_entry, insert_entry_on, remove_entry, store_entry,
}
use deprecat_os.Fs.Directory.Block.View.{inodes_of, IsName}
use deprecat_os.Fs.Directory.Block.Find.{first, find_entry-lookup}
use deprecat_os.Fs.Directory.Block.Insert.{InsertOk, insert_entry_lem}
use deprecat_os.Fs.Directory.Block.Remove.{
  RemoveOk, Undone, remove_entry_lem, remove_entry-insert_entry,
}
use deprecat_os.Fs.Directory.Block.Empty.{has_no_child_lem}
use deprecat_os.Fs.Directory.Block.Fuel.{scans_end}
use deprecat_os.Fs.Directory.Sample.{two_entries, two_sizes, two_entries-Laid}

-- The name "a".
abbrev name_a : Name
name_a = write (λ _. 0) 0 97

name_a-ascii : (i : ℕ) → i < 1 → name_a i < 128
unfolding write
name_a-ascii zero h = omega arith
name_a-ascii (suc i) h = absurd (omega (arith, h))

name_a-IsName : IsName name_a 1
unfolding write
name_a-IsName = record {
  short = (omega arith, omega arith);
  ascii = λ i h. name_a-ascii i h;
  end = refl;
}

find_entry-lookup_example :
    (find_entry 4096 two_entries dot_dot 0 ≡ first (inodes_of two_entries 0 two_sizes dot_dot))
    × (lookup 4096 two_entries dot_dot 4096 0 ≡ first (inodes_of two_entries 0 two_sizes dot_dot))
find_entry-lookup_example = find_entry-lookup two_entries two_sizes dot_dot two_entries-Laid

insert_entry_lem_example :
    InsertOk two_entries 0 two_sizes name_a 1 5 (insert_entry 4096 two_entries name_a 1 5 1 0)
insert_entry_lem_example =
    insert_entry_lem two_entries two_sizes name_a 1 5 1 two_entries-Laid name_a-IsName
      (λ e. absurd (omega (arith, e))) (omega arith)

remove_entry_lem_example :
    RemoveOk two_entries 0 two_sizes dot_dot (remove_entry 4096 two_entries dot_dot 0 0)
remove_entry_lem_example = remove_entry_lem two_entries two_sizes dot_dot two_entries-Laid

-- The block after "a" has been inserted for inode 5.
abbrev three_entries : Bytes
three_entries = store_entry (set16 (set16 two_entries 16 12) 28 4072) 24 name_a 1 5 1

inserted_a : insert_entry 4096 two_entries name_a 1 5 1 0 ≡ stored three_entries
unfolding insert_entry_on is_bad get16 get32
inserted_a = refl

no_a : inodes_of two_entries 0 two_sizes name_a ≡ []
unfolding inodes_of is_named comp_name comp_chars get32 write
no_a = refl

remove_entry-insert_entry_example : Undone two_entries three_entries two_sizes name_a 5
remove_entry-insert_entry_example =
    remove_entry-insert_entry two_entries three_entries two_sizes name_a 1 5 1 two_entries-Laid
      name_a-IsName (λ e. absurd (omega (arith, e))) (omega arith) no_a inserted_a

only_dots : has_no_child 4096 two_entries 0 ≡ true
unfolding has_no_child is_bad comp_name comp_chars get16 get32 write
only_dots = refl

differs : (len : ℕ) (d : Name) → d 0 ≡ 46 → ((i : ℕ) → i < len → d i ≡ name_a i) → d len ≡ 0 → ⊥
unfolding write
differs zero d e h z = omega (arith, e, z)
differs (suc len) d e h z = omega (arith, e, h 0 (omega arith))

has_no_child_lem_example : inodes_of two_entries 0 two_sizes name_a ≡ []
unfolding write
has_no_child_lem_example =
    has_no_child_lem two_entries two_sizes name_a two_entries-Laid only_dots
      (λ s. differs s.len dot refl s.chars s.end_left)
      (λ s. differs s.len dot_dot refl s.chars s.end_left)

scans_end_example :
    (lookup_on (some 7) 5000 two_entries dot 4096 0 ≡ lookup 4096 two_entries dot 4096 0)
    × (find_entry_on (some 7) 5000 two_entries dot 0 ≡ find_entry 4096 two_entries dot 0)
    × (insert_entry_on corrupt 5000 two_entries dot 1 5 1 0
        ≡ insert_entry 4096 two_entries dot 1 5 1 0)
    × (remove_entry_on malformed 5000 two_entries dot 0 0 ≡ remove_entry 4096 two_entries dot 0 0)
scans_end_example = scans_end two_entries dot 1 5 1 5000 (some 7) corrupt malformed (omega arith)
