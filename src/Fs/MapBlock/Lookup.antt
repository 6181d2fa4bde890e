-- ===== src/Fs/MapBlock/Lookup.antt =====
-- `map_file_block` on a block that is there, and on one that is not: the chain of tables.
use deprecat_os.Prelude.{
  ℕ, ◌-◌, ◌/◌, ◌%◌, ◌≡◌, ◌≢◌, ◌∙◌, ap, true, false, Bool-cases, some, List, [], ◌∷◌, subst, sym,
  ◌==◌, ltb, if◌then◌else◌, inl, inr, arith,
}
use deprecat_os.Fs.Volume.{Volume}
use deprecat_os.Fs.Volume.Laws.{IsMounted, Fits, block, read_block-ok}
use deprecat_os.Fs.Inode.{dir_at, singly_at, doubly_at, triply_at}
use deprecat_os.Fs.MapBlock.{map_file_block}
use deprecat_os.Fs.MapBlock.Shared.{success, Walk, free_mode, ptr, entry}
use deprecat_os.Fs.MapBlock.Direct.{map_direct, direct_found}
use deprecat_os.Fs.MapBlock.Singly.{map_singly, singly_table, singly_found}
use deprecat_os.Fs.MapBlock.Doubly.{map_doubly, doubly_table, doubly_leaf, doubly_found}
use deprecat_os.Fs.MapBlock.Triply.{
  map_triply, triply_table, triply_doubly, triply_leaf, triply_found,
}

-- The pointer a block of a file starts from.
unfoldable pub root : ℕ → ℕ
root idx =
    if ltb idx 12
    then dir_at idx
    else if ltb idx 1036
    then singly_at
    else if ltb idx 1049612
    then doubly_at
    else triply_at

-- The places in the tables on its way.
unfoldable pub route : ℕ → List ℕ
route idx =
    if ltb idx 12
    then []
    else if ltb idx 1036
    then (idx - 12) ∷ []
    else if ltb idx 1049612
    then (idx - 1036) / 1024 ∷ (idx - 1036) % 1024 ∷ []
    else (idx - 1049612) / 1048576 ∷ (idx - 1049612) / 1024 % 1024 ∷ (idx - 1049612) % 1024 ∷ []

-- The block at the end of a route through tables that start at block `p`; 0 ends it early.
unfoldable pub chase : Volume → ℕ → List ℕ → ℕ
chase v p [] = p
chase v p (i ∷ is) = let rest = chase v (entry (block v p) i) is in if p == 0 then 0 else rest

-- The tables on the route lie inside the partition.
unfoldable pub TablesFit : Volume → ℕ → List ℕ → Type 0
TablesFit v p [] = Unit {0}
TablesFit v p (i ∷ is) = p ≢ 0 → Fits v p × TablesFit v (entry (block v p) i) is

-- The block of the disk that holds block `idx` of the file, 0 for a hole.
abbrev pub block_of : Volume → Walk → ℕ → ℕ
block_of v w idx = chase v (ptr w (root idx)) (route idx)

module _ {v : Volume} (m : IsMounted v) (mode : ℕ) where
  direct-present :
      (idx : ℕ) (w : Walk)
      → (mode == free_mode) ≡ false
      → ptr w (dir_at idx) ≢ 0
      → map_direct mode idx w v ≡ some ((success, record w { out = ptr w (dir_at idx) }), v)
  unfolding map_direct direct_found
  direct-present idx w nf ne = ground arith

  singly-present :
      (idx : ℕ) (w : Walk)
      → TablesFit v (ptr w singly_at) (idx ∷ [])
      → (mode == free_mode) ≡ false
      → chase v (ptr w singly_at) (idx ∷ []) ≢ 0
      → map_singly mode idx w v
        ≡ some ((success, record w { out = chase v (ptr w singly_at) (idx ∷ []) }), v)
  unfolding chase TablesFit map_singly singly_table singly_found
  singly-present idx w fit nf ne = ground (arith, read_block-ok m (ptr w singly_at))

  doubly-present :
      (idx : ℕ) (w : Walk)
      → TablesFit v (ptr w doubly_at) (idx / 1024 ∷ idx % 1024 ∷ [])
      → (mode == free_mode) ≡ false
      → chase v (ptr w doubly_at) (idx / 1024 ∷ idx % 1024 ∷ []) ≢ 0
      → map_doubly mode idx w v
        ≡ some (
          (success, record w { out = chase v (ptr w doubly_at) (idx / 1024 ∷ idx % 1024 ∷ []) }),
          v,
        )
  unfolding chase TablesFit map_doubly doubly_table doubly_leaf doubly_found
  doubly-present idx w fit nf ne = ground (
    arith,
    read_block-ok m (ptr w doubly_at),
    read_block-ok m (entry (block v (ptr w doubly_at)) (idx / 1024)),
  )

  triply-present :
      (idx : ℕ) (w : Walk)
      → TablesFit v (ptr w triply_at) (idx / 1048576 ∷ idx / 1024 % 1024 ∷ idx % 1024 ∷ [])
      → (mode == free_mode) ≡ false
      → chase v (ptr w triply_at) (idx / 1048576 ∷ idx / 1024 % 1024 ∷ idx % 1024 ∷ []) ≢ 0
      → map_triply mode idx w v
        ≡ some (
          (
            success,
            record w {
              out = chase v (ptr w triply_at) (idx / 1048576 ∷ idx / 1024 % 1024 ∷ idx % 1024 ∷ []);
            },
          ),
          v,
        )
  unfolding chase TablesFit map_triply triply_table triply_doubly triply_leaf triply_found
  triply-present idx w fit nf ne = ground (
    arith,
    read_block-ok m (ptr w triply_at),
    read_block-ok m (entry (block v (ptr w triply_at)) (idx / 1048576)),
    read_block-ok m
        (entry (block v (entry (block v (ptr w triply_at)) (idx / 1048576))) (idx / 1024 % 1024)),
  )

abbrev way : ℕ → ℕ × List ℕ
way idx = (root idx, route idx)

-- The layer that an index falls in, with its way.
data Range (idx : ℕ) : Type 0 where
  in_direct :
      way idx ≡ (dir_at idx, [])
      → ((mode : ℕ) (w : Walk) → map_file_block mode idx w ≡ map_direct mode idx w)
      → Range idx
  in_singly :
      way idx ≡ (singly_at, ((idx - 12) ∷ []))
      → ((mode : ℕ) (w : Walk) → map_file_block mode idx w ≡ map_singly mode (idx - 12) w)
      → Range idx
  in_doubly :
      way idx ≡ (doubly_at, ((idx - 1036) / 1024 ∷ (idx - 1036) % 1024 ∷ []))
      → ((mode : ℕ) (w : Walk) → map_file_block mode idx w ≡ map_doubly mode (idx - 1036) w)
      → Range idx
  in_triply :
      way idx ≡ (
        triply_at,
        ((idx - 1049612) / 1048576 ∷ (idx - 1049612) / 1024 % 1024 ∷ (idx - 1049612) % 1024 ∷ []),
      )
      → ((mode : ℕ) (w : Walk) → map_file_block mode idx w ≡ map_triply mode (idx - 1049612) w)
      → Range idx

range : (idx : ℕ) → Range idx
unfolding root route map_file_block
range idx = elim (Bool-cases (ltb idx 12)) [
  | inl a ↦ in_direct (rw a) (λ mode w. rw a)
  | inr a ↦ elim (Bool-cases (ltb idx 1036)) [
    | inl b ↦
        let c : ltb (idx - 12) 1024 ≡ true = ground arith in
        in_singly (rw (a, b)) (λ mode w. rw (a, c))
    | inr b ↦
        let c : ltb (idx - 12) 1024 ≡ false = ground arith in
        let s : idx - 12 - 1024 ≡ idx - 1036 = omega arith in
        elim (Bool-cases (ltb idx 1049612)) [
          | inl d ↦
              let e : ltb (idx - 1036) 1048576 ≡ true = ground arith in
              in_doubly (rw (a, b, d)) (λ mode w. rw (a, c, s, e))
          | inr d ↦
              let e : ltb (idx - 1036) 1048576 ≡ false = ground arith in
              let t : idx - 1036 - 1048576 ≡ idx - 1049612 = omega arith in
              in_triply (rw (a, b, d)) (λ mode w. rw (a, c, s, e, t))
        ]
  ]
]

module _ {v : Volume} (m : IsMounted v) (mode : ℕ) (idx : ℕ) (w : Walk) where
  -- On a mounted volume where the tables on the way to block `idx` of a file lie in the partition,
  -- if the chain of pointers leads to a block then `map_file_block`, in a mode other than
  -- FREE_MODE, returns success and that block, and changes neither the volume nor the inode nor
  -- the count.
  pub map_file_block-present :
      TablesFit v (ptr w (root idx)) (route idx)
      → (mode == free_mode) ≡ false
      → block_of v w idx ≢ 0
      → map_file_block mode idx w v ≡ some ((success, record w { out = block_of v w idx }), v)
  unfolding chase
  map_file_block-present fit nf ne = elim (range idx) [
    | in_direct e choice ↦
        subst
          (λ x.
            TablesFit v (ptr w x.0) x.1
            → chase v (ptr w x.0) x.1 ≢ 0
            → map_file_block mode idx w v
              ≡ some ((success, record w { out = chase v (ptr w x.0) x.1 }), v))
          (sym e) (λ _ ne'. ap (λ k. k v) (choice mode w) ∙ direct-present m mode idx w nf ne') fit
          ne
    | in_singly e choice ↦
        subst
          (λ x.
            TablesFit v (ptr w x.0) x.1
            → chase v (ptr w x.0) x.1 ≢ 0
            → map_file_block mode idx w v
              ≡ some ((success, record w { out = chase v (ptr w x.0) x.1 }), v))
          (sym e)
          (λ fit' ne'.
            ap (λ k. k v) (choice mode w) ∙ singly-present m mode (idx - 12) w fit' nf ne')
          fit ne
    | in_doubly e choice ↦
        subst
          (λ x.
            TablesFit v (ptr w x.0) x.1
            → chase v (ptr w x.0) x.1 ≢ 0
            → map_file_block mode idx w v
              ≡ some ((success, record w { out = chase v (ptr w x.0) x.1 }), v))
          (sym e)
          (λ fit' ne'.
            ap (λ k. k v) (choice mode w) ∙ doubly-present m mode (idx - 1036) w fit' nf ne')
          fit ne
    | in_triply e choice ↦
        subst
          (λ x.
            TablesFit v (ptr w x.0) x.1
            → chase v (ptr w x.0) x.1 ≢ 0
            → map_file_block mode idx w v
              ≡ some ((success, record w { out = chase v (ptr w x.0) x.1 }), v))
          (sym e)
          (λ fit' ne'.
            ap (λ k. k v) (choice mode w) ∙ triply-present m mode (idx - 1049612) w fit' nf ne')
          fit ne
  ]
