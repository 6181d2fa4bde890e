-- ===== src/Fs/File/Read/Whole.antt =====
-- `read_inode` and `map_file_block` agree on which block of the disk holds a block of a file.
use deprecat_os.Prelude.{
  ℕ, zero, suc, ◌+◌, ◌-◌, ◌*◌, ◌/◌, ◌%◌, ◌^◌, ◌≤◌, ◌<◌, ◌≡◌, ◌∙◌, ap, refl, sym, min, Bool-cases,
  some, true, false, inl, inr, arith, [], ◌∷◌, ltb, leb, if◌then◌else◌,
}
use deprecat_os.Fs.Bytes.{Bytes, get32}
use deprecat_os.Fs.Volume.{Volume, M, pure, ◌>>=◌}
use deprecat_os.Fs.Volume.Laws.{IsMounted, block}
use deprecat_os.Fs.Inode.{Inode, size_lo, dir_at, singly_at, doubly_at, triply_at}
use deprecat_os.Fs.MapBlock.Shared.{Walk, entry, ptr}
use deprecat_os.Fs.MapBlock.Lookup.{root, route, chase, block_of}
use deprecat_os.Fs.File.Fields.{blocks_for}
use deprecat_os.Fs.File.Read.{
  Reader, filled, read_entries, indir_read_block, read_layer, read_direct, read_inode,
}
use deprecat_os.Fs.File.Read.Laws.{
  content, at_layer, AllFit, spread, filled_none, filled_same, read_entries-ok, indir_read_block-ok,
}

-- The blocks of a file that `block_of` can reach lie inside the partition, with their tables.
pub record FileFits (v : Volume) (inode : Inode) : Type 0 where
  pub direct : (i : ℕ) → i < 12 → AllFit v 0 (get32 inode (dir_at i))
  pub singly : AllFit v 1 (get32 inode singly_at)
  pub doubly : AllFit v 2 (get32 inode doubly_at)

-- The direct pointers as a table.
abbrev direct_table : Inode → Bytes
direct_table inode k = inode (40 + k)

direct_entry : (inode : Inode) (i : ℕ) → entry (direct_table inode) i ≡ get32 inode (dir_at i)
unfolding get32
direct_entry inode i =
    let at : (k : ℕ) → inode (40 + (4 * i + k)) ≡ inode (40 + 4 * i + k) =
      λ k. ap inode (omega arith) in
    omega (arith, at 1, at 2, at 3)

abbrev one_more : ℕ → (Reader → M Reader) → Reader → M Reader
one_more p k r = elim (ltb 0 r.left) [
  | true ↦ indir_read_block 0 p r >>= λ r'. k r'
  | false ↦ pure r
]

read_direct-read_entries :
    (inode : Inode) (n i : ℕ)
    → read_direct inode n i ≡ read_entries (indir_read_block 0) (direct_table inode) n i
unfolding read_direct read_entries
read_direct-read_entries inode zero i = refl
read_direct-read_entries inode (suc n) i =
    ap (λ p. one_more p (read_direct inode n (i + 1))) (sym (direct_entry inode i))
    ∙ ap (one_more (entry (direct_table inode) i)) (read_direct-read_entries inode n (i + 1))

-- Block `j` of the file, by the layers.
unfoldable layered : Volume → Inode → ℕ → Bytes
layered v inode j =
    if ltb j 12
    then content v (get32 inode (dir_at j))
    else if ltb j 1036
    then at_layer v 1 (get32 inode singly_at) (j - 12)
    else at_layer v 2 (get32 inode doubly_at) (j - 1036)

module _ {v : Volume} (m : IsMounted v) where
  read_layer-ok :
      (inode : Inode) (layer at : ℕ) (r : Reader)
      → 1024 ^ layer < 2 ^ 32
      → (0 < r.left → AllFit v layer (get32 inode at))
      → read_layer inode layer at r v
        ≡ some (filled r (min (1024 ^ layer) r.left) (at_layer v layer (get32 inode at)), v)
  unfolding read_layer
  read_layer-ok inode layer at r small fit = elim (Bool-cases (ltb 0 r.left)) [
    | inl e ↦
        let pos : 0 < r.left = ground arith in
        rw e (indir_read_block-ok m layer (get32 inode at) r small (fit pos) pos)
    | inr e ↦
        let c : min (1024 ^ layer) r.left ≡ 0 = ground arith in
        rw (e, c, filled_none r (at_layer v layer (get32 inode at)))
  ]

  read_direct-ok :
      (inode : Inode) (r : Reader)
      → FileFits v inode
      → read_direct inode 12 0 r v
        ≡ some (filled r (min 12 r.left) (λ j. content v (get32 inode (dir_at j))), v)
  unfolding at_layer
  read_direct-ok inode r fit =
      let entries =
        read_entries-ok v (indir_read_block 0) (at_layer v 0) 1 (omega arith) (direct_table inode)
          12 0 r
          (λ k a b r' pos.
            indir_read_block-ok m 0 (entry (direct_table inode) k) r' (omega arith)
              (rw (direct_entry inode k) (fit.direct k (omega arith))) pos) in
      ap (λ f. f r v) (read_direct-read_entries inode 12 0)
      ∙ entries
      ∙ ap (λ x. some (x, v))
          (filled_same r (min 12 r.left) (min 12 r.left)
            (spread (at_layer v 0) (direct_table inode) 1 0)
            (λ j. content v (get32 inode (dir_at j))) refl
            (λ j h.
              let q : 0 + j / 1 ≡ j = omega arith in
              ap (λ k. content v (entry (direct_table inode) k)) q
              ∙ ap (content v) (direct_entry inode j)))

  -- What each part of `read_inode` leaves.
  abbrev after_direct : Inode → Reader → Reader
  after_direct inode r = filled r (min 12 r.left) (λ j. content v (get32 inode (dir_at j)))

  abbrev after_layer : Inode → ℕ → ℕ → Reader → Reader
  after_layer inode layer at r =
      filled r (min (1024 ^ layer) r.left) (at_layer v layer (get32 inode at))

  abbrev finish : Inode → Reader → Reader
  finish inode r =
      after_layer inode 3 triply_at
        (after_layer inode 2 doubly_at (after_layer inode 1 singly_at (after_direct inode r)))

  abbrev start : Inode → (ℕ → Bytes) → Reader
  start inode out = record { out = out; at = 0; left = blocks_for (size_lo inode) }

  read_inode-ok :
      (inode : Inode) (out : ℕ → Bytes)
      → FileFits v inode
      → read_inode inode out v ≡ some (finish inode (start inode out), v)
  unfolding read_inode filled
  read_inode-ok inode out fit =
      let r1 = after_direct inode (start inode out) in
      let r2 = after_layer inode 1 singly_at r1 in
      let r3 = after_layer inode 2 doubly_at r2 in
      let done : 0 < r3.left → AllFit v 3 (get32 inode triply_at) = λ h. absurd (ground arith) in
      rw (
        read_inode,
        ◌>>=◌,
        read_direct-ok inode (start inode out) fit,
        read_layer-ok inode 1 singly_at r1 (omega arith) (λ _. fit.singly),
        read_layer-ok inode 2 doubly_at r2 (omega arith) (λ _. fit.doubly),
        read_layer-ok inode 3 triply_at r3 (omega arith) done,
      )

  finish_block :
      (inode : Inode) (out : ℕ → Bytes) (n k : ℕ)
      → n ≤ 1048576
      → (finish inode (record { out = out; at = 0; left = n })).out k
        ≡ (if ltb k n then layered v inode k else out k)
  unfolding filled layered
  finish_block inode out n k h =
      let d : content v (get32 inode (dir_at (k - 0))) ≡ content v (get32 inode (dir_at k)) =
        ap (λ j. content v (get32 inode (dir_at j))) (omega arith) in
      elim (Bool-cases (leb 12 n)) [
        | inl e ↦
            let s : at_layer v 1 (get32 inode singly_at) (k - (0 + min 12 n))
                ≡ at_layer v 1 (get32 inode singly_at) (k - 12) =
              ap (at_layer v 1 (get32 inode singly_at)) (ground arith) in
            elim (Bool-cases (leb 1036 n)) [
              | inl e2 ↦
                  let q : at_layer v 2 (get32 inode doubly_at)
                        (k - (0 + min 12 n + min 1024 (n - min 12 n)))
                      ≡ at_layer v 2 (get32 inode doubly_at) (k - 1036) =
                    ap (at_layer v 2 (get32 inode doubly_at)) (ground arith) in
                  ground arith
              | inr e2 ↦ ground arith
            ]
        | inr e ↦ ground arith
      ]

at_singly : (v : Volume) (p j : ℕ) → at_layer v 1 p j ≡ content v (chase v p (j ∷ []))
unfolding at_layer chase content
at_singly v p j =
    let q : content v (entry (block v p) (j / 1)) ≡ content v (entry (block v p) j) =
      ap (λ k. content v (entry (block v p) k)) (omega arith) in
    ground arith

at_doubly :
    (v : Volume) (p j : ℕ) → at_layer v 2 p j ≡ content v (chase v p (j / 1024 ∷ j % 1024 ∷ []))
unfolding at_layer chase content
at_doubly v p j =
    let t = entry (block v p) (j / 1024) in
    let q : content v (entry (block v t) (j % 1024 / 1))
        ≡ content v (entry (block v t) (j % 1024)) =
      ap (λ k. content v (entry (block v t) k)) (omega arith) in
    ground arith

layered-block_of :
    (v : Volume) (w : Walk) (j : ℕ) → j < 1048576 → layered v w.inode j ≡ content v (block_of v w j)
unfolding layered root route chase
layered-block_of v w j h =
    ground (arith, at_singly v (ptr w singly_at) (j - 12), at_doubly v (ptr w doubly_at) (j - 1036))

-- On a mounted volume, when the blocks of a file and the tables on the way to them lie in the
-- partition, `read_inode` ends with no block left and the volume as it was; block `k` of its
-- output, for each `k` below the file's number of blocks, is the block that the chain of pointers
-- of `map_file_block` leads to, or zeros where that chain ends in a 0; the rest of the buffer is
-- as it was.
pub read_inode-block_of :
    (v : Volume) (w : Walk) (out : ℕ → Bytes)
    → IsMounted v
    → FileFits v w.inode
    → (r : Reader) × (read_inode w.inode out v ≡ some (r, v))
      × (r.left ≡ 0)
      × ((k : ℕ)
          → r.out k
            ≡ (if ltb k (blocks_for (size_lo w.inode)) then content v (block_of v w k) else out k))
unfolding filled
read_inode-block_of v w out m fit = (
  finish m w.inode (start m w.inode out),
  read_inode-ok m w.inode out fit,
  ground arith,
  λ k.
      finish_block m w.inode out (blocks_for (size_lo w.inode)) k (omega arith)
      ∙ ground (arith, layered-block_of v w k),
)
