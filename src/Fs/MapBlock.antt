-- ===== src/Fs/MapBlock.antt =====
-- `map_file_block` of kernel/fs/block/blockController.c: from the index of a block of a file to
-- the block of the disk that holds it, through at most three tables of 1024 block numbers. Each
-- layer is a module of its own below; this one has what they share and the choice between them.
pub mod Shared
pub mod Direct
pub mod Singly
pub mod Doubly
pub mod Triply
pub mod Lookup
pub mod Mint
pub mod Keeps
use deprecat_os.Prelude.{ℕ, ◌+◌, ◌-◌, ◌*◌, ◌%◌, ◌^◌, Bool, true, false, ltb, if◌then◌else◌}
use deprecat_os.Fs.Volume.{M}
use Shared.{MapStatus, Walk, bit_32_per_blk}
use Direct.{map_direct}
use Singly.{map_singly}
use Doubly.{map_doubly}
use Triply.{map_triply}

-- `mode`, `file_blk_idx` and the state of the call; the status returned with the new state.
unfoldable pub map_file_block : ℕ → ℕ → Walk → M (MapStatus × Walk)
map_file_block mode idx w =
    if ltb idx 12
    then map_direct mode idx w
    else if ltb (idx - 12) bit_32_per_blk
    then map_singly mode (idx - 12) w
    else if ltb (idx - 12 - bit_32_per_blk) (bit_32_per_blk * bit_32_per_blk)
    then map_doubly mode (idx - 12 - bit_32_per_blk) w
    else map_triply mode (idx - 12 - bit_32_per_blk - bit_32_per_blk * bit_32_per_blk) w
