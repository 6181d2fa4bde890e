-- ===== src/Memory/Heap/Blocks.antt =====
-- The heap as a list of blocks, and what a change of some of them leaves alone.
use deprecat_os.Prelude.{
  ℕ, ◌+◌, ◌%◌, ◌≤◌, ◌<◌, ◌≡◌, ◌∙◌, ap, refl, sym, subst, Bool, not, List, [], ◌∷◌, ◌++◌, length,
  arith, Bool-cases, inl, inr, ◌==◌, if◌then◌else◌,
}
use deprecat_os.Memory.Frames.{Frames}
use deprecat_os.Memory.Paging.{kernel_ceiling, heap_start_addr}
use deprecat_os.Memory.Paging.Keeps.{IsLow}
use deprecat_os.Memory.Heap.{Heap, free_at}

pub record Block : Type 0 where
  pub size : ℕ
  pub free : Bool

-- The blocks stand one behind the other from `c` to `e`, in whole words.
unfoldable pub Tiled : (ℕ → ℕ) → ℕ → List Block → ℕ → Type 0
Tiled w c [] e = c ≡ e
Tiled w c (b ∷ bs) e =
    (w c ≡ b.size) × (free_at w c ≡ b.free) × (b.size % 4 ≡ 0) × Tiled w (c + 8 + b.size) bs e

-- The addresses and the sizes of what is in use, in the order of the addresses.
unfoldable pub used : ℕ → List Block → List (ℕ × ℕ)
used c [] = []
used c (b ∷ bs) =
    let rest = used (c + 8 + b.size) bs in if b.free then rest else (c + 8, b.size) ∷ rest

-- Where the blocks end that start at `c`.
unfoldable pub end_at : ℕ → List Block → ℕ
end_at c [] = c
end_at c (b ∷ bs) = end_at (c + 8 + b.size) bs

-- The bytes of what is in use are the same.
unfoldable pub Kept : (ℕ → ℕ) → (ℕ → ℕ) → List (ℕ × ℕ) → Type 0
Kept w w' [] = Unit {0}
Kept w w' ((a, n) ∷ us) = ((k : ℕ) → a ≤ k → k < a + n → w' k ≡ w k) × Kept w w' us

abbrev pub SameIn : (ℕ → ℕ) → (ℕ → ℕ) → ℕ → ℕ → Type 0
SameIn w w' c e = (k : ℕ) → c ≤ k → k < e → w' k ≡ w k

pub end_at-le : (c : ℕ) (bs : List Block) → c ≤ end_at c bs
unfolding end_at
end_at-le c [] = omega arith
end_at-le c (b ∷ bs) = omega (arith, end_at-le (c + 8 + b.size) bs)

pub end_at-length : (c : ℕ) (bs : List Block) → c + length bs ≤ end_at c bs
unfolding end_at
end_at-length c [] = omega arith
end_at-length c (b ∷ bs) = omega (arith, end_at-length (c + 8 + b.size) bs)

pub end_at-append : (c : ℕ) (xs ys : List Block) → end_at c (xs ++ ys) ≡ end_at (end_at c xs) ys
unfolding end_at
end_at-append c [] ys = refl
end_at-append c (x ∷ xs) ys = end_at-append (c + 8 + x.size) xs ys

pub used-append :
    (c : ℕ) (xs ys : List Block) → used c (xs ++ ys) ≡ used c xs ++ used (end_at c xs) ys
unfolding used end_at
used-append c [] ys = refl
used-append c (x ∷ xs) ys = ground (arith, used-append (c + 8 + x.size) xs ys)

pub Kept-append :
    (w w' : ℕ → ℕ) (us vs : List (ℕ × ℕ)) → Kept w w' us → Kept w w' vs → Kept w w' (us ++ vs)
unfolding Kept
Kept-append w w' [] vs p q = q
Kept-append w w' ((a, n) ∷ us) vs p q = (p.0, Kept-append w w' us vs p.1 q)

pub Kept-refl : (w : ℕ → ℕ) (us : List (ℕ × ℕ)) → Kept w w us
unfolding Kept
Kept-refl w [] = tt
Kept-refl w ((a, n) ∷ us) = (λ k p q. refl, Kept-refl w us)

pub Kept-trans : (u v w : ℕ → ℕ) (us : List (ℕ × ℕ)) → Kept u v us → Kept v w us → Kept u w us
unfolding Kept
Kept-trans u v w [] p q = tt
Kept-trans u v w ((a, n) ∷ us) p q =
    (λ k lo hi. q.0 k lo hi ∙ p.0 k lo hi, Kept-trans u v w us p.1 q.1)

module _ (w : ℕ → ℕ) where
  pub Tiled-end : (c : ℕ) (bs : List Block) (e : ℕ) → Tiled w c bs e → end_at c bs ≡ e
  unfolding Tiled end_at
  Tiled-end c [] e t = t
  Tiled-end c (b ∷ bs) e t = Tiled-end (c + 8 + b.size) bs e t.3

  pub Tiled-append :
      (c : ℕ) (xs ys : List Block) (e : ℕ)
      → Tiled w c xs (end_at c xs)
      → Tiled w (end_at c xs) ys e
      → Tiled w c (xs ++ ys) e
  unfolding Tiled end_at
  Tiled-append c [] ys e p q = q
  Tiled-append c (x ∷ xs) ys e p q = (p.0, p.1, p.2, Tiled-append (c + 8 + x.size) xs ys e p.3 q)

  pub Tiled-left :
      (c : ℕ) (xs ys : List Block) (e : ℕ) → Tiled w c (xs ++ ys) e → Tiled w c xs (end_at c xs)
  unfolding Tiled end_at
  Tiled-left c [] ys e t = refl
  Tiled-left c (x ∷ xs) ys e t = (t.0, t.1, t.2, Tiled-left (c + 8 + x.size) xs ys e t.3)

  pub Tiled-right :
      (c : ℕ) (xs ys : List Block) (e : ℕ) → Tiled w c (xs ++ ys) e → Tiled w (end_at c xs) ys e
  unfolding Tiled end_at
  Tiled-right c [] ys e t = t
  Tiled-right c (x ∷ xs) ys e t = Tiled-right (c + 8 + x.size) xs ys e t.3

module _ (w w' : ℕ → ℕ) where
  pub Tiled-frame :
      (c : ℕ) (bs : List Block) (e : ℕ) → Tiled w c bs e → SameIn w w' c e → Tiled w' c bs e
  unfolding Tiled
  Tiled-frame c [] e t same = t
  Tiled-frame c (b ∷ bs) e t same =
      let last : c + 8 + b.size ≤ e =
        subst (λ k. c + 8 + b.size ≤ k) (Tiled-end w (c + 8 + b.size) bs e t.3)
          (end_at-le (c + 8 + b.size) bs) in
      (
        same c (omega arith) (omega arith) ∙ t.0,
        ap (λ x. not (x == 0)) (same (c + 4) (omega arith) (omega arith)) ∙ t.1,
        t.2,
        Tiled-frame (c + 8 + b.size) bs e t.3 (λ k p q. same k (omega arith) q),
      )

  pub Kept-used : (c : ℕ) (bs : List Block) → SameIn w w' c (end_at c bs) → Kept w w' (used c bs)
  unfolding Kept used end_at
  Kept-used c [] same = tt
  Kept-used c (b ∷ bs) same =
      let in_bs = end_at-le (c + 8 + b.size) bs in
      let rest = Kept-used (c + 8 + b.size) bs (λ k p q. same k (omega arith) q) in
      elim (Bool-cases b.free) [
        | inl e ↦ rw e rest
        | inr e ↦ rw e ((λ k p q. same k (omega arith) (omega arith)), rest)
      ]

-- The blocks `bs` make way for `news` on the same stretch.
module _ (w w' : ℕ → ℕ) (c : ℕ) (xs bs ys news : List Block) (e : ℕ)
    (t : Tiled w c (xs ++ (bs ++ ys)) e)
    (new : Tiled w' (end_at c xs) news (end_at (end_at c xs) bs))
    (below : SameIn w w' c (end_at c xs)) (above : SameIn w w' (end_at (end_at c xs) bs) e) where
  behind : Tiled w (end_at (end_at c xs) bs) ys e
  behind = Tiled-right w (end_at c xs) bs ys e (Tiled-right w c xs (bs ++ ys) e t)

  news_end : end_at (end_at c xs) news ≡ end_at (end_at c xs) bs
  news_end = Tiled-end w' (end_at c xs) news (end_at (end_at c xs) bs) new

  pub Tiled-replace : Tiled w' c (xs ++ (news ++ ys)) e
  Tiled-replace =
      Tiled-append w' c xs (news ++ ys) e
        (Tiled-frame w w' c xs (end_at c xs) (Tiled-left w c xs (bs ++ ys) e t) below)
        (Tiled-append w' (end_at c xs) news ys e
          (subst (Tiled w' (end_at c xs) news) (sym news_end) new)
          (subst (λ q. Tiled w' q ys e) (sym news_end)
            (Tiled-frame w w' (end_at (end_at c xs) bs) ys e behind above)))

  pub used-replace :
      used c (xs ++ (news ++ ys))
      ≡ used c xs ++ (used (end_at c xs) news ++ used (end_at (end_at c xs) bs) ys)
  used-replace =
      used-append c xs (news ++ ys)
      ∙ ap (λ us. used c xs ++ us) (used-append (end_at c xs) news ys)
      ∙ ap (λ q. used c xs ++ (used (end_at c xs) news ++ used q ys)) news_end

  pub Kept-replace : Kept w w' (used c xs ++ used (end_at (end_at c xs) bs) ys)
  Kept-replace =
      Kept-append w w' (used c xs) (used (end_at (end_at c xs) bs) ys) (Kept-used w w' c xs below) (
        Kept-used w w' (end_at (end_at c xs) bs) ys
          (λ k p q. above k p (subst (λ z. k < z) (Tiled-end w _ ys e behind) q)))

-- A heap whose blocks are these. It starts at HEAP_START and ends at a page below the ceiling.
pub record IsHeap (p : Heap) (bs : List Block) : Type 0 where
  pub tiled : Tiled p.machine.word p.heap_start bs p.heap_end
  pub start : p.heap_start ≡ heap_start_addr
  pub pages : p.heap_end % 4096 ≡ 0
  pub below : p.heap_end ≤ kernel_ceiling
  pub room : p.heap_start < p.heap_end
  pub low : IsLow p.machine.kernel_dir

-- The heap with other frames.
abbrev pub with_frames : Heap → Frames → Heap
with_frames p f = record p { machine = record p.machine { frames = f } }

pub frames-IsHeap :
    (p : Heap) (f : Frames) (bs : List Block) → IsHeap p bs → IsHeap (with_frames p f) bs
frames-IsHeap p f bs i = record {
  tiled = i.tiled;
  start = i.start;
  pages = i.pages;
  below = i.below;
  room = i.room;
  low = i.low;
}
