-- ===== src/Fs/File/Insert/Partial.antt =====
-- The block in which the new bytes of `insert_in_inode` of kernel/fs/block/blockController.c end:
-- behind them it gets the bytes that stood at the offset.
use deprecat_os.Prelude.{ℕ, zero, suc, ◌+◌, ◌-◌, ◌/◌, ◌%◌, ◌^◌, min, ◌==◌, ltb, if◌then◌else◌}
use deprecat_os.Fs.Bytes.{Bytes}
use deprecat_os.Fs.Volume.{M, pure, ◌>>=◌, ◌>>◌, read_block, write_block}
use deprecat_os.Fs.MapBlock.{map_file_block}
use deprecat_os.Fs.MapBlock.Shared.{
  MapStatus, success, inode_error, case_status, lookup_mode, alloc_mode,
}
use deprecat_os.Fs.File.Change.{uncounted_walk, counted_walk, spliced}
use deprecat_os.Fs.File.Insert.Shift.{Place, Inserter, split_of, bottom_of, noted, undo}

-- `blk`, `needed`, `src_byte` and `buf_idx`
pub record Filler : Type 0 where
  pub blk : Bytes
  pub needed : ℕ
  pub src : ℕ
  pub idx : ℕ

abbrev pub part_of : Filler → ℕ
part_of f = min f.needed (4096 - f.src % 4096)

-- The filler after a chunk that comes from `src`.
unfoldable pub filled_by : Bytes → Filler → Filler
unfolding spliced
filled_by src f = record {
  blk = spliced f.blk f.idx src (f.src % 4096) (part_of f);
  needed = f.needed - part_of f;
  src = (f.src + part_of f) % 2 ^ 32;
  idx = f.idx + part_of f;
}

-- The block that holds the next chunk looked up, and what goes on with its bytes.
unfoldable pub with_source :
    Place
    → Filler
    → Inserter
    → (Bytes → Inserter → M (MapStatus × Bytes × Inserter))
    → M (MapStatus × Bytes × Inserter)
unfolding undo
with_source p f s next = do
  (status, w) ← map_file_block lookup_mode (f.src / 4096) (uncounted_walk s.inode)
  let s' : Inserter = record s { inode = w.inode }
  case_status status (read_block w.out >>= λ src. next src s') (next (λ _. 0) s')
      (do (status', t) ← undo p status s'; pure (status', f.blk, t))

-- A round of the loop, with the rest of the loop.
unfoldable pub fill_round :
    Place
    → (Filler → Inserter → M (MapStatus × Bytes × Inserter))
    → Filler
    → Inserter
    → M (MapStatus × Bytes × Inserter)
unfolding filled_by with_source
fill_round p next f s =
    if ltb 0 f.needed
    then with_source p f s (λ src s'. next (filled_by src f) s')
    else pure (success, f.blk, s)

-- The loop, on fuel.
unfoldable pub fill_partial : ℕ → Place → Filler → Inserter → M (MapStatus × Bytes × Inserter)
unfolding fill_round
fill_partial zero p f s = pure (success, f.blk, s)
fill_partial (suc fuel) p f s = fill_round p (λ f' s'. fill_partial fuel p f' s') f s

unfoldable pub join_partial : Place → Inserter → M (MapStatus × Inserter)
unfolding fill_partial undo
join_partial p s = if split_of p == 0 then pure (success, s) else do
  (status, w) ← map_file_block alloc_mode (bottom_of p) (counted_walk s.inode s.alloc_cnt)
  let fail = undo p inode_error (record s { inode = w.inode })
  case_status status
      (do
        blk ← read_block w.out
        let needed = 4096 - split_of p
        (status', blk', t) ←
            fill_partial needed p
              (record { blk = blk; needed = needed; src = p.offset; idx = split_of p })
              (noted (bottom_of p) w s)
        let stop = pure (status', t)
        case_status status' (write_block w.out blk' >> stop) stop stop)
      fail fail
