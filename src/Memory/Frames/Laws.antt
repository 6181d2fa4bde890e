-- ===== src/Memory/Frames/Laws.antt =====
-- `alloc_frame` and `free_frame` by the bits of the frames.
use deprecat_os.Prelude.{
  ℕ, zero, suc, ◌+◌, ◌*◌, ◌/◌, ◌%◌, ◌^◌, ◌≤◌, ◌<◌, ◌≡◌, ◌≢◌, ◌∙◌, refl, bit_and, bit_or, Bool-cases,
  Option, none, some, write, ◌==◌, if◌then◌else◌, arith, inl, inr,
}
use deprecat_os.Bits.{bit, bit-shift, bit-set, bit-clear, bit-ones, bit-le-one}
use deprecat_os.Memory.Frames.{
  Frames, all_used, frame_bitmap_length, take, give, word_loop, map_loop, alloc_frame, free_frame,
}

-- 1 if the frame is taken.
abbrev pub used : Frames → ℕ → ℕ
used m f = bit (m (f / 32)) (f % 32)

pub used-take : (m : Frames) (f j : ℕ) → used (take m f) j ≡ (if j == f then 1 else used m j)
unfolding write
used-take m f j = ground (arith, bit-set (m (f / 32)) (f % 32) (j % 32))

pub used-give : (m : Frames) (f j : ℕ) → used (give m f) j ≡ (if j == f then 0 else used m j)
unfolding write
used-give m f j = ground (arith, bit-clear 32 (m (f / 32)) (f % 32) (j % 32))

-- What the inner loop returns.
WordScan : ℕ → ℕ → ℕ → Option ℕ → Type 0
WordScan w left b none = (j : ℕ) → b ≤ j → j < b + left → bit w j ≡ 1
WordScan w left b (some k) =
    (b ≤ k) × (k < b + left) × (bit w k ≡ 0) × ((j : ℕ) → b ≤ j → j < k → bit w j ≡ 1)

word_later :
    (w left b : ℕ) (o : Option ℕ)
    → bit w b ≡ 1
    → WordScan w left (b + 1) o
    → WordScan w (suc left) b o
unfolding WordScan
word_later w left b none one h = λ j p q. elim (Bool-cases (j == b)) [
  | inl e ↦ let e' : j ≡ b = ground arith in rw e' one
  | inr ne ↦ h j (ground arith) (omega arith)
]
word_later w left b (some k) one (p, q, z, h) = (
  omega arith,
  omega arith,
  z,
  λ j r s. elim (Bool-cases (j == b)) [
    | inl e ↦ let e' : j ≡ b = ground arith in rw e' one
    | inr ne ↦ h j (ground arith) s
  ],
)

word_loop_lem : (w left b : ℕ) → WordScan w left b (word_loop w left b)
unfolding WordScan word_loop
word_loop_lem w zero b = λ j p q. absurd (omega arith)
word_loop_lem w (suc left) b = elim (Bool-cases (bit_and (w / 2 ^ b) 1 == 0)) [
  | inl e ↦
      rw (word_loop, e)
        (omega arith, omega arith, ground (arith, bit-shift b w), λ j p q. absurd (omega arith))
  | inr e ↦
      let one : bit w b ≡ 1 = ground (arith, bit-shift b w, bit-le-one b w) in
      rw (word_loop, e)
        (word_later w left b (word_loop w left (b + 1)) one (word_loop_lem w left (b + 1)))
]

-- What the outer loop returns.
MapScan : Frames → ℕ → ℕ → Option (ℕ × ℕ) → Type 0
MapScan m left i none = (f : ℕ) → i * 32 ≤ f → f < (i + left) * 32 → used m f ≡ 1
MapScan m left i (some (w, b)) =
    (w < i + left)
    × (b < 32)
    × (bit (m w) b ≡ 0)
    × ((f : ℕ) → i * 32 ≤ f → f < w * 32 + b → used m f ≡ 1)

-- Frame `f` of word `i`.
in_word :
    (m : Frames) (i f : ℕ)
    → ((j : ℕ) → j < 32 → bit (m i) j ≡ 1)
    → i * 32 ≤ f
    → f < (i + 1) * 32
    → used m f ≡ 1
in_word m i f h p q = let e : f / 32 ≡ i = omega arith in rw e (h (f % 32) (omega arith))

map_later :
    (m : Frames) (left i : ℕ) (o : Option (ℕ × ℕ))
    → ((j : ℕ) → j < 32 → bit (m i) j ≡ 1)
    → MapScan m left (i + 1) o
    → MapScan m (suc left) i o
unfolding MapScan
map_later m left i none full h = λ f p q. elim (Bool-cases (f / 32 == i)) [
  | inl e ↦ in_word m i f full p (ground arith)
  | inr ne ↦ h f (ground arith) (omega arith)
]
map_later m left i (some (w, b)) full (p, q, z, h) = (
  omega arith,
  q,
  z,
  λ f r s. elim (Bool-cases (f / 32 == i)) [
    | inl e ↦ in_word m i f full r (ground arith)
    | inr ne ↦ h f (ground arith) s
  ],
)

map_loop_lem : (m : Frames) (left i : ℕ) → MapScan m left i (map_loop m left i)
unfolding MapScan WordScan map_loop
map_loop_lem m zero i = λ f p q. absurd (omega arith)
map_loop_lem m (suc left) i = elim (Bool-cases (m i == all_used)) [
  | inl e ↦
      let e' : m i ≡ all_used = ground arith in
      rw (map_loop, e)
        (map_later m left i (map_loop m left (i + 1)) (λ j h. rw e' (bit-ones j h))
          (map_loop_lem m left (i + 1)))
  | inr ne ↦
      rw (map_loop, ne)
        (go (word_loop (m i) 32 0) (word_loop_lem (m i) 32 0) (map_loop_lem m left (i + 1)))
]
  where
    go :
        (o : Option ℕ)
        → WordScan (m i) 32 0 o
        → MapScan m left (i + 1) (map_loop m left (i + 1))
        → MapScan m (suc left) i (elim o [ some b ↦ some (i, b) | none ↦ map_loop m left (i + 1) ])
    go none h r =
        map_later m left i (map_loop m left (i + 1)) (λ j p. h j (omega arith) (omega arith)) r
    go (some b) (p, q, z, h) r = (
      omega arith,
      omega arith,
      z,
      λ f s t. (let e : f / 32 ≡ i = omega arith in rw e (h (f % 32) (omega arith) (omega arith))),
    )

-- The outcome of `alloc_frame`.
pub data Allocated (m : Frames) : ℕ × Frames → Type 0 where
  taken :
      (f : ℕ) (m' : Frames)
      → f < 1048576
      → used m f ≡ 0
      → ((j : ℕ) → j < f → used m j ≡ 1)
      → ((j : ℕ) → used m' j ≡ (if j == f then 1 else used m j))
      → Allocated m (f * 4096, m')
  exhausted : ((j : ℕ) → j < 1048576 → used m j ≡ 1) → Allocated m (0, m)

place : (m : Frames) (w b : ℕ) → b < 32 → write m w (bit_or (m w) (2 ^ b)) ≡ take m (w * 32 + b)
place m w b h =
    let q : (w * 32 + b) / 32 ≡ w = omega arith in
    let r : (w * 32 + b) % 32 ≡ b = omega arith in rw (q, r)

-- `alloc_frame` either returns the address of the lowest free frame and marks that frame and no
-- other, or returns 0 with the bitmap as it was because no frame is free.
pub alloc_frame_lem : (m : Frames) → Allocated m (alloc_frame m)
unfolding alloc_frame MapScan
alloc_frame_lem m = go (map_loop m frame_bitmap_length 0) (map_loop_lem m frame_bitmap_length 0)
  where
    go :
        (o : Option (ℕ × ℕ))
        → MapScan m frame_bitmap_length 0 o
        → Allocated m (elim o [
          | some (i, b) ↦ ((i * 32 + b) * 4096 % 2 ^ 32, write m i (bit_or (m i) (2 ^ b)))
          | none ↦ (0, m)
        ])
    go none h = exhausted (λ j p. h j (omega arith) (omega arith))
    go (some (w, b)) (p, q, z, h) =
        let wrap : (w * 32 + b) * 4096 % 2 ^ 32 ≡ (w * 32 + b) * 4096 = omega arith in
        let i : (w * 32 + b) / 32 ≡ w = omega arith in
        let r : (w * 32 + b) % 32 ≡ b = omega arith in
        let free : used m (w * 32 + b) ≡ 0 = rw (i, r) z in
        rw (wrap, place m w b q)
          (taken (w * 32 + b) (take m (w * 32 + b)) (omega arith) free (λ j l. h j (omega arith) l)
            (used-take m (w * 32 + b)))

pub free_frame_lem :
    (m : Frames) (addr j : ℕ)
    → used (free_frame addr m) j ≡ (if j == addr / 4096 then 0 else used m j)
unfolding free_frame
free_frame_lem m addr j = used-give m (addr / 4096) j

-- If `alloc_frame` returns an address other than 0 then `free_frame` of it leaves every frame as
-- it was before the two calls.
pub free_frame-alloc_frame :
    (m : Frames)
    → (alloc_frame m).0 ≢ 0
    → (j : ℕ) → used (free_frame (alloc_frame m).0 (alloc_frame m).1) j ≡ used m j
free_frame-alloc_frame m = go (alloc_frame m) (alloc_frame_lem m)
  where
    go :
        (r : ℕ × Frames)
        → Allocated m r
        → r.0 ≢ 0
        → (j : ℕ) → used (free_frame r.0 r.1) j ≡ used m j
    go _ (taken f m' lt z lower after) ne j =
        let e : f * 4096 / 4096 ≡ f = omega arith in
        free_frame_lem m' (f * 4096) j ∙ ground (arith, after j)
    go _ (exhausted full) ne j = absurd (ne refl)
