-- ===== src/Fs/File/Insert/Rounds.antt =====
-- The two loops of `insert_in_inode` that run on fuel end by themselves: every chunk is at least
-- one byte long.
use deprecat_os.Prelude.{
  ℕ, zero, suc, ◌+◌, ◌-◌, ◌/◌, ◌%◌, ◌^◌, ◌≤◌, ◌<◌, ◌≡◌, ap, refl, fun_ext, arith, Bool-cases, inl,
  inr, ltb,
}
use deprecat_os.Fs.Bytes.{Bytes}
use deprecat_os.Fs.Volume.{M, ◌>>=◌}
use deprecat_os.Fs.MapBlock.{map_file_block}
use deprecat_os.Fs.MapBlock.Shared.{MapStatus, alloc_mode}
use deprecat_os.Fs.File.Change.{counted_walk}
use deprecat_os.Fs.File.Insert.{Cursor, data_round, write_bytes, chunk_of}
use deprecat_os.Fs.File.Insert.Shift.{Place, Inserter, noted}
use deprecat_os.Fs.File.Insert.Partial.{Filler, filled_by, with_source, fill_round, fill_partial}

data_same :
    (p : Place) (buf : Bytes) (f h : Cursor → Inserter → M (MapStatus × Inserter)) (c : Cursor)
    (s : Inserter)
    → ((c' : Cursor) (s' : Inserter) → c'.left < c.left → f c' s' ≡ h c' s')
    → data_round p buf f c s ≡ data_round p buf h c s
unfolding data_round
data_same p buf f h c s same = elim (Bool-cases (ltb 0 c.left)) [
  | inr e ↦ rw e refl
  | inl e ↦ rw e (
      ap (λ k. map_file_block alloc_mode (c.at / 4096) (counted_walk s.inode s.alloc_cnt) >>= k)
        (fun_ext λ r.
          let step =
            same
              (record {
                done = c.done + chunk_of c;
                left = c.left - chunk_of c;
                at = (c.at + chunk_of c) % 2 ^ 32;
              })
              (noted (c.at / 4096) r.1 s) (ground arith) in
          rw step refl))
]

bytes_end :
    (p : Place) (buf : Bytes) (m n : ℕ) (c : Cursor) (s : Inserter)
    → c.left ≤ m
    → c.left ≤ n
    → write_bytes m p buf c s ≡ write_bytes n p buf c s
unfolding write_bytes data_round
bytes_end p buf zero zero c s h k = refl
bytes_end p buf zero (suc n) c s h k = ground arith
bytes_end p buf (suc m) zero c s h k = ground arith
bytes_end p buf (suc m) (suc n) c s h k =
    data_same p buf (write_bytes m p buf) (write_bytes n p buf) c s
      (λ c' s' less. bytes_end p buf m n c' s' (omega arith) (omega arith))

-- With any larger number of rounds the loop over the new bytes does the same.
pub write_bytes_end :
    (p : Place) (buf : Bytes) (n : ℕ) (c : Cursor) (s : Inserter)
    → c.left ≤ n
    → write_bytes n p buf c s ≡ write_bytes c.left p buf c s
write_bytes_end p buf n c s h = bytes_end p buf n c.left c s h (omega arith)

fill_same :
    (p : Place) (f h : Filler → Inserter → M (MapStatus × Bytes × Inserter)) (c : Filler)
    (s : Inserter)
    → ((c' : Filler) (s' : Inserter) → c'.needed < c.needed → f c' s' ≡ h c' s')
    → fill_round p f c s ≡ fill_round p h c s
unfolding fill_round filled_by
fill_same p f h c s same = elim (Bool-cases (ltb 0 c.needed)) [
  | inr e ↦ rw e refl
  | inl e ↦ rw e (
      ap (with_source p c s)
        (fun_ext λ src. fun_ext λ s'. same (filled_by src c) s' (ground arith)))
]

partial_end :
    (p : Place) (m n : ℕ) (f : Filler) (s : Inserter)
    → f.needed ≤ m
    → f.needed ≤ n
    → fill_partial m p f s ≡ fill_partial n p f s
unfolding fill_partial fill_round
partial_end p zero zero f s h k = refl
partial_end p zero (suc n) f s h k = ground arith
partial_end p (suc m) zero f s h k = ground arith
partial_end p (suc m) (suc n) f s h k =
    fill_same p (fill_partial m p) (fill_partial n p) f s
      (λ f' s' less. partial_end p m n f' s' (omega arith) (omega arith))

-- With any larger number of rounds the loop over the chunks of the block does the same.
pub fill_partial_end :
    (p : Place) (n : ℕ) (f : Filler) (s : Inserter)
    → f.needed ≤ n
    → fill_partial n p f s ≡ fill_partial f.needed p f s
fill_partial_end p n f s h = partial_end p n f.needed f s h (omega arith)
