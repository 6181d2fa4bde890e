-- ===== src/Fs/Directory/Block/Inodes.antt =====
-- The inodes of a name, entry by entry.
use deprecat_os.Prelude.{
  ℕ, ◌+◌, ◌≡◌, ◌∙◌, refl, sym, true, false, List, [], ◌∷◌, arith, Bool-cases, inl, inr,
}
use deprecat_os.Fs.Bytes.{Bytes}
use deprecat_os.Fs.Directory.Block.{Name, entry_inode, is_named}
use deprecat_os.Fs.Directory.Block.View.{inodes_of}

module _ (b : Bytes) (c n : ℕ) (ns : List ℕ) (x : Name) where
  pub inodes_first :
      is_named b c x ≡ true → inodes_of b c (n ∷ ns) x ≡ entry_inode b c ∷ inodes_of b (c + n) ns x
  unfolding inodes_of
  inodes_first e = ground arith

  pub inodes_skip : is_named b c x ≡ false → inodes_of b c (n ∷ ns) x ≡ inodes_of b (c + n) ns x
  unfolding inodes_of
  inodes_skip e = ground arith

  pub inodes_unused : entry_inode b c ≡ 0 → inodes_of b c (n ∷ ns) x ≡ inodes_of b (c + n) ns x
  unfolding is_named
  inodes_unused e = inodes_skip (ground arith)

  pub inodes_none :
      inodes_of b c (n ∷ ns) x ≡ [] → (is_named b c x ≡ false) × (inodes_of b (c + n) ns x ≡ [])
  inodes_none e = elim (Bool-cases (is_named b c x)) [
    | inl t ↦ absurd (ground (arith, inodes_first t))
    | inr f ↦ (f, sym (inodes_skip f) ∙ e)
  ]

pub inodes_entry :
    (b b' : Bytes) (c m n : ℕ) (ms ns : List ℕ) (x : Name)
    → is_named b' c x ≡ is_named b c x
    → entry_inode b' c ≡ entry_inode b c
    → inodes_of b' (c + m) ms x ≡ inodes_of b (c + n) ns x
    → inodes_of b' c (m ∷ ms) x ≡ inodes_of b c (n ∷ ns) x
unfolding inodes_of
inodes_entry b b' c m n ms ns x named inode rest = rw (named, inode, rest) refl
