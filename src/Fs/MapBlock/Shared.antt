-- ===== src/Fs/MapBlock/Shared.antt =====
-- What the layers of `map_file_block` share: its constants, its parameters that are written
-- through pointers, and the tables of block numbers.
use deprecat_os.Prelude.{
  ℕ, zero, suc, ◌+◌, ◌*◌, ◌%◌, ◌^◌, Bool, true, false, ◌||◌, Option, ◌==◌, if◌then◌else◌,
}
use mathlib.Core.Option
use deprecat_os.Fs.Bytes.{Bytes, get32, set32}
use deprecat_os.Fs.Volume.{M, write_block}
use deprecat_os.Fs.Inode.{Inode}

-- BIT_32_PER_BLK
abbrev pub bit_32_per_blk : ℕ
bit_32_per_blk = 1024

abbrev pub lookup_mode : ℕ
lookup_mode = 0

abbrev pub alloc_mode : ℕ
alloc_mode = 1

abbrev pub free_mode : ℕ
free_mode = 2

-- INODE_WRITE_SUCCESS, EMPTY_BLOCK, BLOCK_ERROR and INODE_ERROR
pub data MapStatus : Type 0 where
  success empty block_error inode_error : MapStatus

-- A split on what a caller tells apart: success, a missing block, and the errors.
abbrev pub case_status {ℓ} : {B : Type ℓ} → MapStatus → B → B → B → B
case_status success a b c = a
case_status empty a b c = b
case_status block_error a b c = c
case_status inode_error a b c = c

-- `inode`, `disk_blk_out` and `alloc_cnt`, the last of which may be the null pointer.
pub record Walk : Type 0 where
  pub inode : Inode
  pub out : ℕ
  pub cnt : Option ℕ

-- What a hole returns in a mode that does not allocate.
abbrev pub missing : ℕ → MapStatus
missing mode =
    if mode == lookup_mode || mode == free_mode then MapStatus.empty else MapStatus.inode_error

-- `if (alloc_cnt) (*alloc_cnt)++`
abbrev pub counted : Walk → Walk
counted w = record w { cnt = Option.map (λ c. (c + 1) % 2 ^ 32) w.cnt }

-- `if (alloc_cnt) (*alloc_cnt)--`
abbrev pub uncounted : Walk → Walk
uncounted w = record w { cnt = Option.map (λ c. (c + 4294967295) % 2 ^ 32) w.cnt }

-- A pointer of the inode, by its offset.
abbrev pub ptr : Walk → ℕ → ℕ
ptr w at = get32 w.inode at

abbrev pub set_ptr : Walk → ℕ → ℕ → Walk
set_ptr w at n = record w { inode = set32 w.inode at n }

-- An entry of a table.
abbrev pub entry : Bytes → ℕ → ℕ
entry t i = get32 t (4 * i)

abbrev pub set_entry : Bytes → ℕ → ℕ → Bytes
set_entry t i n = set32 t (4 * i) n

-- The temporary zeroed buffer, written to a new table.
unfoldable pub zero_table : ℕ → M (Unit {0})
zero_table n = write_block n (λ _. 0)

-- The loop that sets `elements_inside`, `left` entries from `i` on.
unfoldable pub elements_inside : Bytes → ℕ → ℕ → Bool
elements_inside t zero i = false
elements_inside t (suc left) i = elim (entry t i == 0) [
  | true ↦ elements_inside t left (i + 1)
  | false ↦ true
]
