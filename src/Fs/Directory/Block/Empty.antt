-- ===== src/Fs/Directory/Block/Empty.antt =====
-- The scan of `dir_is_empty` on a block of entries that is laid out.
use deprecat_os.Prelude.{
  ℕ, zero, suc, ◌+◌, ◌≤◌, ◌≡◌, ◌∙◌, refl, true, false, not, ◌&&◌, List, [], ◌∷◌, arith, Bool-cases,
  inl, inr, ◌==◌, ltb,
}
use deprecat_os.Fs.Bytes.{Bytes}
use deprecat_os.Fs.Directory.Block.{
  Name, dot, dot_dot, entry_inode, name_len_lo, comp_name, is_named, has_no_child,
}
use deprecat_os.Fs.Directory.Block.View.{
  Laid, Laid-end, inodes_of, Same, is_bad-Laid, is_named-Same,
}
use deprecat_os.Fs.Directory.Block.Inodes.{inodes_skip}

-- An entry that the scan passes has no name but these two.
passed_entry :
    (b : Bytes) (c : ℕ) (x : Name)
    → not (entry_inode b c == 0)
        && not (comp_name b (c + 8) (name_len_lo b c) dot)
        && not (comp_name b (c + 8) (name_len_lo b c) dot_dot)
      ≡ false
    → ¬ (Same dot x)
    → ¬ (Same dot_dot x)
    → is_named b c x ≡ false
unfolding is_named
passed_entry b c x e d dd = elim (Bool-cases (is_named b c x)) [
  | inr f ↦ f
  | inl t ↦ elim (Bool-cases (is_named b c dot)) [
    | inl h ↦ absurd (d (is_named-Same b c dot x h t))
    | inr h ↦ elim (Bool-cases (is_named b c dot_dot)) [
      | inl k ↦ absurd (dd (is_named-Same b c dot_dot x k t))
      | inr k ↦ absurd (ground arith)
    ]
  ]
]

module _ (b : Bytes) (x : Name) (d : ¬ (Same dot x)) (dd : ¬ (Same dot_dot x)) where
  empty_from :
      (fuel c : ℕ) (ns : List ℕ)
      → Laid b c ns
      → 4096 ≤ c + fuel
      → has_no_child fuel b c ≡ true
      → inodes_of b c ns x ≡ []
  unfolding has_no_child Laid inodes_of
  empty_from fuel c [] l h e = refl
  empty_from zero c (n ∷ ns) l h e = absurd (omega (arith, Laid-end b (c + n) ns l.3, l.1))
  empty_from (suc fuel) c (n ∷ ns) l h e =
      let last = Laid-end b (c + n) ns l.3 in
      let good = is_bad-Laid b c n ns l in
      let inside : ltb c 4096 ≡ true = ground arith in
      elim (Bool-cases (
        not (entry_inode b c == 0)
        && not (comp_name b (c + 8) (name_len_lo b c) dot)
        && not (comp_name b (c + 8) (name_len_lo b c) dot_dot))) [
          | inl t ↦ absurd (ground arith)
          | inr f ↦
              let after : has_no_child fuel b (c + n) ≡ true = ground (arith, l.0) in
              inodes_skip b c n ns x (passed_entry b c x f d dd)
              ∙ empty_from fuel (c + n) ns l.3 (omega arith) after
        ]

-- In a block of entries that is laid out, if the scan of `dir_is_empty` finds no entry in use but
-- "." and "..", then no name that differs from these two stands for anything.
pub has_no_child_lem :
    (b : Bytes) (ns : List ℕ) (x : Name)
    → Laid b 0 ns
    → has_no_child 4096 b 0 ≡ true
    → ¬ (Same dot x)
    → ¬ (Same dot_dot x)
    → inodes_of b 0 ns x ≡ []
has_no_child_lem b ns x l e d dd = empty_from b x d dd 4096 0 ns l (omega arith) e
