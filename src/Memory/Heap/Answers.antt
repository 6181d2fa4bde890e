-- ===== src/Memory/Heap/Answers.antt =====
-- What `kmalloc` answers on a heap of blocks.
use deprecat_os.Prelude.{
  ℕ, ◌+◌, ◌-◌, ◌%◌, ◌^◌, ◌≤◌, ◌≡◌, ◌∙◌, ◌⊎◌, ap, refl, sym, subst, true, false, List, [], ◌∷◌, ◌++◌,
  arith, inl, inr,
}
use deprecat_os.Memory.Frames.{Frames, alloc_frame}
use deprecat_os.Memory.Paging.{kernel_ceiling}
use deprecat_os.Memory.Heap.{Heap, take_block, with_words, wanted_of}
use deprecat_os.Memory.Heap.Blocks.{
  Block, Tiled, used, end_at, Kept, Kept-trans, SameIn, used-append, Tiled-right, Tiled-replace,
  Kept-replace, IsHeap,
}
use deprecat_os.Memory.Heap.Find.{
  Found, NoneFit, taken_block, leftover, Tiled-taken, take_block-same, used-leftover, taken-enough,
  taken-in_use,
}
use deprecat_os.Memory.Heap.Grow.{Grown}

-- A block of at least `size` bytes at `ptr` is in use, which was free, and nothing else has changed.
pub record Allocated (p : Heap) (bs : List Block) (size ptr : ℕ) (p' : Heap) : Type 0 where
  pub xs : List Block
  pub b : Block
  pub ys : List Block
  pub heap : IsHeap p' (xs ++ (b ∷ ys))
  pub place : ptr ≡ end_at p'.heap_start xs + 8
  pub in_use : b.free ≡ false
  pub enough : size ≤ b.size
  pub others :
      used p.heap_start bs ≡ used p'.heap_start xs ++ used (end_at p'.heap_start xs + 8 + b.size) ys
  pub kept : Kept p.machine.word p'.machine.word (used p.heap_start bs)

-- No free block is large enough, and the heap cannot grow.
pub record Refused (p : Heap) (bs : List Block) (wanted : ℕ) (p' : Heap) : Type 0 where
  pub after : List Block
  pub heap : IsHeap p' after
  pub same : used p'.heap_start after ≡ used p.heap_start bs
  pub none_left : NoneFit wanted after
  pub spent :
      (kernel_ceiling ≤ p'.heap_end + 4096)
      ⊎ ((f : Frames) × ((alloc_frame f).0 ≡ 0) × (p'.machine.frames ≡ (alloc_frame f).1))
  pub kept : Kept p.machine.word p'.machine.word (used p.heap_start bs)

-- The two ends of `kmalloc`.
abbrev pub Answers : Heap → List Block → ℕ → ℕ × Heap → Type 0
Answers p bs size r = Allocated p bs size r.0 r.1 ⊎ ((r.0 ≡ 0) × Refused p bs (wanted_of size) r.1)

take_found :
    (p : Heap) (size wanted : ℕ) (xs : List Block) (b : Block) (ys : List Block)
    → IsHeap p (xs ++ (b ∷ ys))
    → b.free ≡ true
    → wanted ≤ b.size
    → wanted % 4 ≡ 0
    → size ≤ wanted
    → Allocated p
        (xs ++ (b ∷ ys))
        size
        (end_at p.heap_start xs + 8)
        (with_words p (take_block (end_at p.heap_start xs) wanted p.machine.word))
unfolding Tiled used end_at
take_found p size wanted xs b ys i free fit even asked =
    let w = p.machine.word in
    let c = p.heap_start in
    let e = p.heap_end in
    let h = end_at c xs in
    let w' = take_block h wanted w in
    let t = Tiled-right w c xs (b ∷ ys) e i.tiled in
    let new = Tiled-taken w h wanted b t.0 t.2 even fit in
    let below : SameIn w w' c h = λ k lo hi. take_block-same w h wanted b k t.0 fit (inl hi) in
    let above : SameIn w w' (h + 8 + b.size) e =
      λ k lo hi. take_block-same w h wanted b k t.0 fit (inr lo) in
    let news = taken_block wanted b ∷ leftover wanted b in
    let was : used c (xs ++ (b ∷ ys)) ≡ used c xs ++ used (h + 8 + b.size) ys =
      used-append c xs (b ∷ ys) ∙ rw free refl in
    record {
      xs = xs;
      b = taken_block wanted b;
      ys = leftover wanted b ++ ys;
      heap = record {
        tiled = Tiled-replace w w' c xs (b ∷ []) ys news e i.tiled new below above;
        start = i.start;
        pages = i.pages;
        below = i.below;
        room = i.room;
        low = i.low;
      };
      place = refl;
      in_use = taken-in_use wanted b;
      enough = omega (arith, asked, taken-enough wanted b fit);
      others = was ∙ ap (λ us. used c xs ++ us) (sym (used-leftover h wanted b ys fit));
      kept =
          subst (Kept w w') (sym was)
            (Kept-replace w w' c xs (b ∷ []) ys news e i.tiled new below above);
    }

-- What is found at `at` is taken.
pub found_Allocated :
    (p : Heap) (bs : List Block) (size at : ℕ)
    → IsHeap p bs
    → size ≤ 2 ^ 32 - 4
    → Found (wanted_of size) p.heap_start bs at
    → Allocated p bs size (at + 8) (with_words p (take_block at (wanted_of size) p.machine.word))
found_Allocated p bs size at i small f =
    let wanted = wanted_of size in
    let Goal : List Block → ℕ → Type 0 =
      λ zs k. Allocated p zs size (k + 8) (with_words p (take_block k wanted p.machine.word)) in
    subst (λ zs. Goal zs at) (sym f.split)
      (subst (λ k. Goal (f.xs ++ (f.b ∷ f.ys)) k) (sym f.place)
        (take_found p size wanted f.xs f.b f.ys (subst (IsHeap p) f.split i) f.free f.enough
          (omega arith) (omega arith)))

-- The answer of the call on a heap that has grown.
pub Grown-Answers :
    (p g : Heap) (bs : List Block) (size : ℕ) (r : ℕ × Heap) (q : Grown p g bs)
    → Answers g q.after size r
    → Answers p bs size r
Grown-Answers p g bs size r q (inl a) = inl (record {
  xs = a.xs;
  b = a.b;
  ys = a.ys;
  heap = a.heap;
  place = a.place;
  in_use = a.in_use;
  enough = a.enough;
  others = sym q.same ∙ a.others;
  kept =
      Kept-trans p.machine.word g.machine.word r.1.machine.word (used p.heap_start bs) q.kept
        (subst (Kept g.machine.word r.1.machine.word) q.same a.kept);
})
Grown-Answers p g bs size r q (inr (z, a)) = inr (
  z,
  record {
    after = a.after;
    heap = a.heap;
    same = a.same ∙ q.same;
    none_left = a.none_left;
    spent = a.spent;
    kept =
        Kept-trans p.machine.word g.machine.word r.1.machine.word (used p.heap_start bs) q.kept
          (subst (Kept g.machine.word r.1.machine.word) q.same a.kept);
  },
)
