-- ===== src/Fs/File/Append.antt =====
-- The loop of `append_to_inode` ends by itself.
use deprecat_os.Prelude.{
  ℕ, zero, suc, ◌+◌, ◌-◌, ◌≤◌, ◌<◌, ◌≡◌, ap, refl, fun_ext, min, Option, arith, Bool-cases, inl,
  inr, ltb,
}
use deprecat_os.Fs.Bytes.{Bytes}
use deprecat_os.Fs.Volume.{M, ◌>>=◌}
use deprecat_os.Fs.MapBlock.{map_file_block}
use deprecat_os.Fs.MapBlock.Shared.{alloc_mode}
use deprecat_os.Fs.File.Change.{Appender, append_round, append_blocks, counted_walk, count_of}

module _ (junk buf : Bytes) (cnt idx : ℕ) where
  round_same :
      (f h : Appender → M (Option Appender)) (a : Appender)
      → ((a' : Appender) → a'.left < a.left → f a' ≡ h a')
      → append_round junk buf cnt idx f a ≡ append_round junk buf cnt idx h a
  unfolding append_round
  round_same f h a same = elim (Bool-cases (ltb 0 a.left)) [
    | inr e ↦ rw e refl
    | inl e ↦ rw e (
        ap (λ k. map_file_block alloc_mode (cnt + idx) (counted_walk a.inode a.cnt) >>= k)
          (fun_ext λ r.
            let step =
              same
                (record {
                  inode = r.1.inode;
                  cnt = count_of r.1;
                  cursor = a.cursor + min a.left 4096;
                  left = a.left - min a.left 4096;
                  backward = a.backward;
                })
                (ground arith) in
            rw step refl))
  ]

blocks_end :
    (junk buf : Bytes) (m n cnt idx : ℕ) (a : Appender)
    → a.left ≤ m
    → a.left ≤ n
    → append_blocks m junk buf cnt idx a ≡ append_blocks n junk buf cnt idx a
unfolding append_blocks append_round
blocks_end junk buf zero zero cnt idx a h k = refl
blocks_end junk buf zero (suc n) cnt idx a h k = ground arith
blocks_end junk buf (suc m) zero cnt idx a h k = ground arith
blocks_end junk buf (suc m) (suc n) cnt idx a h k =
    round_same junk buf cnt idx (append_blocks m junk buf cnt (idx + 1))
      (append_blocks n junk buf cnt (idx + 1)) a
      (λ a' less. blocks_end junk buf m n cnt (idx + 1) a' (omega arith) (omega arith))

-- The loop of `append_to_inode` over the new blocks ends within as many rounds as bytes are left:
-- with any larger number of rounds it does the same, on every volume.
pub append_blocks_end :
    (junk buf : Bytes) (n cnt idx : ℕ) (a : Appender)
    → a.left ≤ n
    → append_blocks n junk buf cnt idx a ≡ append_blocks a.left junk buf cnt idx a
append_blocks_end junk buf n cnt idx a h = blocks_end junk buf n a.left cnt idx a h (omega arith)
