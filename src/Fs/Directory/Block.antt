-- ===== src/Fs/Directory/Block.antt =====
-- kernel/fs/ext2/directoryEntry.h, and what kernel/fs/ext2/directoryController.c does with one
-- block of entries. A `struct ext2_directory_entry` is given by its offset in the block. A scan
-- runs on fuel: each entry it passes is at least one byte long, so 4096 rounds reach the end.
pub mod View
pub mod Inodes
pub mod Find
pub mod Insert
pub mod Store
pub mod Remove
pub mod Empty
pub mod Fuel
use deprecat_os.Prelude.{
  ℕ, zero, suc, ◌+◌, ◌-◌, ◌*◌, ◌/◌, ◌%◌, ◌^◌, Bool, true, false, not, ◌&&◌, ◌||◌, Option, none,
  some, ◌==◌, ltb, leb, if◌then◌else◌, write,
}
use deprecat_os.Fs.Bytes.{Bytes, get16, get32, set16, set32}

-- A `const char *`: its bytes up to a NUL.
abbrev pub Name : Type 0
Name = ℕ → ℕ

-- NAME_LEN
abbrev pub name_len : ℕ
name_len = 256

abbrev pub entry_inode : Bytes → ℕ → ℕ
entry_inode b c = get32 b c

abbrev pub curr_entry_size : Bytes → ℕ → ℕ
curr_entry_size b c = get16 b (c + 4)

abbrev pub name_len_lo : Bytes → ℕ → ℕ
name_len_lo b c = b (c + 6)

-- ALIGN4
abbrev pub align4 : ℕ → ℕ
align4 x = (x + 3) / 4 * 4

abbrev pub true_size : Bytes → ℕ → ℕ
true_size b c = align4 (8 + name_len_lo b c)

-- `curr_entry_size < 8 || true_size > curr_entry_size || cursor + curr_entry_size > BLOCK_SIZE`
unfoldable pub is_bad : Bytes → ℕ → Bool
is_bad b c =
    ltb (curr_entry_size b c) 8
    || ltb (curr_entry_size b c) (true_size b c)
    || ltb 4096 (c + curr_entry_size b c)

-- `a[i] == b[i]` for a `uint8_t` and a `char`, which is signed: from 128 on they never agree.
abbrev pub same_char : ℕ → ℕ → Bool
same_char a b = ltb b 128 && a == b

-- The loop of `comp_name`, `left` characters from `i` on.
unfoldable pub comp_chars : Bytes → ℕ → ℕ → ℕ → Name → Bool
comp_chars b at zero i name = true
comp_chars b at (suc left) i name = elim (same_char (b (at + i)) (name i)) [
  | true ↦ comp_chars b at left (i + 1) name
  | false ↦ false
]

unfoldable pub comp_name : Bytes → ℕ → ℕ → Name → Bool
comp_name b at len name = comp_chars b at len 0 name && name len == 0

-- `entry->inode != 0 && comp_name(entry->name, entry->name_len_lo, name)`
unfoldable pub is_named : Bytes → ℕ → Name → Bool
unfolding comp_name
is_named b c name = not (entry_inode b c == 0) && comp_name b (c + 8) (name_len_lo b c) name

-- `lookup`, from `cursor` on. It does not check what it reads. Here and in the scans below `out` is
-- what is returned when the fuel is out.
unfoldable pub lookup_on : Option ℕ → ℕ → Bytes → Name → ℕ → ℕ → Option ℕ
unfolding is_named
lookup_on out zero buf name size cursor = out
lookup_on out (suc fuel) buf name size cursor =
    let rest = lookup_on out fuel buf name size (cursor + curr_entry_size buf cursor) in
    if ltb cursor size
    then if curr_entry_size buf cursor == 0
      then none
      else if is_named buf cursor name
      then some (entry_inode buf cursor)
      else rest
    else none

abbrev pub lookup : ℕ → Bytes → Name → ℕ → ℕ → Option ℕ
lookup = lookup_on none

-- The scan of `name_in`, from `cursor` on.
unfoldable pub find_entry_on : Option ℕ → ℕ → Bytes → Name → ℕ → Option ℕ
unfolding is_bad is_named
find_entry_on out zero scan name cursor = out
find_entry_on out (suc fuel) scan name cursor =
    let rest = find_entry_on out fuel scan name (cursor + curr_entry_size scan cursor) in
    if ltb cursor 4096
    then if is_bad scan cursor
      then none
      else if is_named scan cursor name
      then some (entry_inode scan cursor)
      else rest
    else none

abbrev pub find_entry : ℕ → Bytes → Name → ℕ → Option ℕ
find_entry = find_entry_on none

-- "." and ".."
abbrev pub dot : Name
dot = write (λ _. 0) 0 46

abbrev pub dot_dot : Name
dot_dot = write dot 1 46

-- The scan of `dir_is_empty`, from `cursor` on; `false` is an entry that is in use.
unfoldable pub has_no_child : ℕ → Bytes → ℕ → Bool
unfolding is_bad comp_name
has_no_child zero scan cursor = true
has_no_child (suc fuel) scan cursor =
    let rest = has_no_child fuel scan (cursor + curr_entry_size scan cursor) in
    let len = name_len_lo scan cursor in
    if ltb cursor 4096
    then if is_bad scan cursor
      then true
      else if not (entry_inode scan cursor == 0)
          && not (comp_name scan (cursor + 8) len dot)
          && not (comp_name scan (cursor + 8) len dot_dot)
      then false
      else rest
    else true

-- `entry->name[j] = name[j]` for the `len` characters.
unfoldable pub store_name : Bytes → ℕ → ℕ → Name → Bytes
store_name b at len name k = if leb at k && ltb k (at + len) then name (k - at) else b k

-- A new entry's inode, length, name and type.
unfoldable pub store_entry : Bytes → ℕ → Name → ℕ → ℕ → ℕ → Bytes
unfolding store_name
store_entry b c name len child type =
    write (store_name (write (set32 b c child) (c + 6) len) (c + 8) len name) (c + 7) type

pub data Insertion : Type 0 where
  corrupt full : Insertion
  stored : Bytes → Insertion

-- The scan of `dir_insert`, from `cursor` on: an unused entry, or the slack behind one.
unfoldable pub insert_entry_on : Insertion → ℕ → Bytes → Name → ℕ → ℕ → ℕ → ℕ → Insertion
unfolding is_bad store_entry
insert_entry_on out zero scratch name len child type cursor = out
insert_entry_on out (suc fuel) scratch name len child type cursor =
    let size = curr_entry_size scratch cursor in
    let rest = insert_entry_on out fuel scratch name len child type (cursor + size) in
    let needed = align4 (8 + len) in
    let true_end = true_size scratch cursor in
    let slack = size - true_end in
    if ltb cursor 4096
    then if is_bad scratch cursor
      then corrupt
      else if entry_inode scratch cursor == 0 && leb needed size
      then stored (store_entry scratch cursor name len child type)
      else if leb needed slack
      then stored (
          store_entry (set16 (set16 scratch (cursor + 4) true_end) (cursor + true_end + 4) slack)
            (cursor + true_end) name len child type)
      else rest
    else full

abbrev pub insert_entry : ℕ → Bytes → Name → ℕ → ℕ → ℕ → ℕ → Insertion
insert_entry = insert_entry_on full

pub data Removal : Type 0 where
  malformed absent : Removal
  removed : Bytes → ℕ → Removal

-- The scan of `dir_remove`, from `cursor` on, with the entry before it.
unfoldable pub remove_entry_on : Removal → ℕ → Bytes → Name → ℕ → ℕ → Removal
unfolding is_bad is_named
remove_entry_on out zero scratch name prev cursor = out
remove_entry_on out (suc fuel) scratch name prev cursor =
    let size = curr_entry_size scratch cursor in
    let rest = remove_entry_on out fuel scratch name cursor (cursor + size) in
    let inode_n = entry_inode scratch cursor in
    if ltb cursor 4096
    then if is_bad scratch cursor
      then malformed
      else if is_named scratch cursor name
      then if cursor == 0
        then removed (set32 scratch cursor 0) inode_n
        else removed (set16 scratch (prev + 4) ((curr_entry_size scratch prev + size) % 65536))
            inode_n
      else rest
    else absent

abbrev pub remove_entry : ℕ → Bytes → Name → ℕ → ℕ → Removal
remove_entry = remove_entry_on absent

-- The scan of `dir_set_parent_entry`, from `cursor` on, for the entry "..".
unfoldable pub replace_entry : ℕ → Bytes → Name → ℕ → ℕ → Insertion
unfolding is_bad is_named
replace_entry zero scratch name child cursor = full
replace_entry (suc fuel) scratch name child cursor =
    let rest = replace_entry fuel scratch name child (cursor + curr_entry_size scratch cursor) in
    if ltb cursor 4096
    then if is_bad scratch cursor
      then corrupt
      else if is_named scratch cursor name
      then stored (set32 scratch cursor child)
      else rest
    else full
