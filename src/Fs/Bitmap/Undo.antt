-- ===== src/Fs/Bitmap/Undo.antt =====
-- A block that is given back right after it was taken.
use native.Mathlib.Nat.{mul-add-div_right, div-eq_of_lt, mul-add-mod_self_right, mod-eq_of_lt}
use mathlib.Core.Option.{some-injective}
use deprecat_os.Prelude.{
  ℕ, ◌+◌, ◌-◌, ◌*◌, ◌%◌, ◌^◌, ◌≤◌, ◌<◌, ◌≡◌, ◌≢◌, ◌∙◌, sym, ap, inl, inr, true, some, arith,
}
use deprecat_os.Fs.Volume.{Volume, super_block_num, block_cnt}
use deprecat_os.Fs.Bitmap.{
  block_kind, block_error, unalloc_cnt, unalloc_total, alloc_block, free_block, block_offset,
}
use deprecat_os.Fs.Bitmap.Bit.{used}
use deprecat_os.Fs.Bitmap.Change.{bitmap, IsSound, Changed}
use deprecat_os.Fs.Bitmap.Alloc.{give_in_taken}
use deprecat_os.Fs.Bitmap.Blocks.{
  FirstTaken, block_number, group_of_block, index_of_block, BlockAccepted, block_layout,
  alloc_block_lem, free_block_accepted,
}

-- The free bits stand for blocks of the volume, which have numbers of 32 bits other than 0.
pub record IsNumbered (v : Volume) : Type 0 where
  pub group_size : (0 < v.fs.blks_per_grp) × (v.fs.blks_per_grp ≤ 32768)
  pub small : (block_cnt v.fs < 2 ^ 32) × (unalloc_total block_kind v.fs < 2 ^ 32)
  pub inside :
      (g i : ℕ)
      → g < v.fs.ngroups
      → i < 32768
      → used (bitmap block_kind v g) i ≡ 0
      → (i < v.fs.blks_per_grp)
        × (0 < g * v.fs.blks_per_grp + i + super_block_num v.fs)
        × (g * v.fs.blks_per_grp + i + super_block_num v.fs < block_cnt v.fs)

pub record Restored (v u : Volume) : Type 0 where
  pub sound : IsSound block_kind 4096 u
  pub bits :
      (h j : ℕ)
      → h < v.fs.ngroups
      → j < 32768
      → used (bitmap block_kind u h) j ≡ used (bitmap block_kind v h) j
  pub count : (h : ℕ) → unalloc_cnt block_kind u.fs h ≡ unalloc_cnt block_kind v.fs h
  pub whole : unalloc_total block_kind u.fs ≡ unalloc_total block_kind v.fs

module _ (v w : Volume) (s : IsSound block_kind 4096 v) (num : IsNumbered v) (g i : ℕ)
    (t : FirstTaken block_kind 4096 v g i w) where
  c :
      Changed block_kind 4096 v g i 1
        (unalloc_cnt block_kind v.fs g - 1)
        ((unalloc_total block_kind v.fs + 4294967295) % 2 ^ 32)
        w
  c = t.taken.change

  place :
      (i < v.fs.blks_per_grp)
      × (0 < g * v.fs.blks_per_grp + i + super_block_num v.fs)
      × (g * v.fs.blks_per_grp + i + super_block_num v.fs < block_cnt v.fs)
  place = num.inside g i t.group (omega (arith, t.taken.item)) t.taken.free

  offset : block_offset w.fs (block_number v.fs g i) ≡ g * v.fs.blks_per_grp + i
  offset = omega (arith, place, num.small, c.super_fields 20 (inl (omega arith)))

  group : group_of_block w.fs (block_number v.fs g i) ≡ g
  group =
      rw (offset, c.blks_per_grp)
        (mul-add-div_right num.group_size.0 g i ∙ omega (arith, div-eq_of_lt place.0))

  index : index_of_block w.fs (block_number v.fs g i) ≡ i
  index =
      rw (offset, c.blks_per_grp)
        (mul-add-mod_self_right g v.fs.blks_per_grp i ∙ mod-eq_of_lt place.0)

  accepted : BlockAccepted w.fs (block_number v.fs g i)
  accepted = (
    omega (arith, place, num.small),
    rw (group, c.ngroups) t.group,
    omega (arith, place, num.small, c.super_fields 4 (inr (omega arith))),
  )

  was_taken : used (bitmap block_kind w g) i ≡ 1
  was_taken = c.bits g i t.group t.taken.item ∙ ground arith

  some_left : 0 < unalloc_cnt block_kind v.fs g
  some_left = t.some_left

  module _ (u : Volume)
      (d : Changed block_kind 4096 w g i 0
        (unalloc_cnt block_kind w.fs g + 1)
        ((unalloc_total block_kind w.fs + 1) % 2 ^ 32)
        u) where
    restored_bits :
        (h j : ℕ)
        → h < v.fs.ngroups
        → j < 32768
        → used (bitmap block_kind u h) j ≡ used (bitmap block_kind v h) j
    restored_bits h j p q =
        let back = d.bits h j (rw c.ngroups p) q in
        let there = c.bits h j p q in ground (arith, t.taken.free)

    restored_count : (h : ℕ) → unalloc_cnt block_kind u.fs h ≡ unalloc_cnt block_kind v.fs h
    restored_count h = ground (arith, d.count h, c.count h, c.count g, some_left)

    restored : Restored v u
    restored = record {
      sound = d.sound;
      bits = restored_bits;
      count = restored_count;
      whole = omega (arith, d.whole, c.whole, num.small);
    }

  pub undo : (u : Volume) × (free_block (block_number v.fs g i) w ≡ some (true, u)) × Restored v u
  undo =
      let r =
        give_in_taken block_kind block_layout 4096 (omega arith) w c.sound g (rw c.ngroups t.group)
          i t.taken.item was_taken in
      (
        r.0,
        free_block_accepted w r.0 (block_number v.fs g i) accepted (rw (group, index) r.1),
        restored r.0 r.2,
      )

-- On a sound volume whose free bits stand for blocks of the volume, a block that `alloc_block`
-- returned can be given back with `free_block`, which succeeds, and then every bit of every block
-- bitmap and every counter of free blocks is what it was before, and the volume is sound.
pub free_block-alloc_block :
    (v w : Volume) (n : ℕ)
    → IsSound block_kind 4096 v
    → IsNumbered v
    → alloc_block v ≡ some (n, w)
    → n ≢ block_error
    → (u : Volume) × (free_block n w ≡ some (true, u)) × Restored v u
free_block-alloc_block v w n s num e ne = elim (alloc_block_lem v s) [
  | inl (_, failed) ↦
      absurd (ne (ap (λ (r : ℕ × Volume). r.0) (some-injective _ _ (sym e ∙ failed))))
  | inr (g, i, w', t, got) ↦
      let same = some-injective _ _ (sym e ∙ got) in
      let number : n ≡ block_number v.fs g i = ap (λ (r : ℕ × Volume). r.0) same in
      let volume : w ≡ w' = ap (λ (r : ℕ × Volume). r.1) same in
      rw (number, volume) (undo v w' s num g i t)
]
