-- ===== src/Memory/Heap/Grow.antt =====
-- The growth of the heap in `kmalloc`.
use deprecat_os.Prelude.{
  ℕ, ◌+◌, ◌-◌, ◌/◌, ◌%◌, ◌^◌, ◌≤◌, ◌<◌, ◌≡◌, ◌∙◌, ap, refl, sym, subst, true, List, [], ◌∷◌, ◌++◌,
  arith, Bool-cases, inl, inr, write,
}
use deprecat_os.Memory.Paging.{kernel_ceiling}
use deprecat_os.Memory.Paging.Keeps.{IsLow}
use deprecat_os.Memory.Heap.{Heap, put_header, with_words, map_pages, settle, append_free, grow}
use deprecat_os.Memory.Heap.Blocks.{
  Block, Tiled, used, end_at, Kept, used-append, Tiled-end, Tiled-append, Tiled-left, Tiled-right,
  Tiled-frame, Kept-append, Kept-used, IsHeap,
}
use deprecat_os.Memory.Heap.Find.{LastOf}
use deprecat_os.Memory.Heap.Pages.{map_pages-Mapped, Longer, settle-Longer}

-- What is free at the end of a heap that has grown.
pub record Grown (p q : Heap) (bs : List Block) : Type 0 where
  pub after : List Block
  pub heap : IsHeap q after
  pub start : q.heap_start ≡ p.heap_start
  pub same : used q.heap_start after ≡ used p.heap_start bs
  pub kept : Kept p.machine.word q.machine.word (used p.heap_start bs)
  pub longer : p.heap_end + 4096 ≤ q.heap_end

abbrev longer_block : Block → ℕ → Block
longer_block l more = record { size = l.size + more; free = true }

abbrev new_block : ℕ → Block
new_block more = record { size = more - 8; free = true }

append_nil : (us : List (ℕ × ℕ)) → us ++ [] ≡ us
append_nil [] = refl
append_nil (u ∷ us) = ap (λ vs. u ∷ vs) (append_nil us)

module _ (w v : ℕ → ℕ) (c : ℕ) (xs : List Block) (l : Block) (e more : ℕ)
    (t : Tiled w c (xs ++ (l ∷ [])) e) (same : (a : ℕ) → c ≤ a → v a ≡ w a) (even : more % 4 ≡ 0)
    (page : 4096 ≤ more) where
  -- The blocks stand the same in the memory after the pages have been mapped.
  still : Tiled v c (xs ++ (l ∷ [])) e
  still = Tiled-frame w v c (xs ++ (l ∷ [])) e t (λ k lo hi. same k lo)

  last_block : Tiled v (end_at c xs) (l ∷ []) e
  last_block = Tiled-right v c xs (l ∷ []) e still

  append_longer :
      l.free ≡ true
      → Tiled
          (write v (end_at c xs) (l.size + more))
          c
          (xs ++ (longer_block l more ∷ []))
          (e + more)
  unfolding Tiled write
  append_longer free =
      let h = end_at c xs in
      let b = last_block in
      Tiled-append (write v h (l.size + more)) c xs (longer_block l more ∷ []) (e + more)
        (Tiled-frame v (write v h (l.size + more)) c xs h (Tiled-left v c xs (l ∷ []) e still)
          (λ k lo hi. ground arith))
        (ground arith, ground (arith, b.1, free), omega (arith, b.2), omega (arith, b.3))

  append_new :
      Tiled (put_header e (more - 8) 1 v) c (xs ++ (l ∷ []) ++ (new_block more ∷ [])) (e + more)
  unfolding Tiled write put_header
  append_new =
      let u = put_header e (more - 8) 1 v in
      let end = Tiled-end v c (xs ++ (l ∷ [])) e still in
      Tiled-append u c (xs ++ (l ∷ [])) (new_block more ∷ []) (e + more)
        (subst (Tiled u c (xs ++ (l ∷ []))) (sym end)
          (Tiled-frame v u c (xs ++ (l ∷ [])) e still (λ k lo hi. ground arith)))
        (subst (λ q. Tiled u q (new_block more ∷ []) (e + more)) (sym end)
          (ground arith, ground arith, omega arith, omega arith))

  -- What is in use stays in use, when the last block is free.
  used_free :
      l.free ≡ true → (k : Block) → k.free ≡ true → used c (xs ++ (k ∷ [])) ≡ used c xs ++ []
  unfolding used
  used_free free k g = used-append c xs (k ∷ []) ∙ rw g refl

  Kept-longer :
      l.free ≡ true → Kept w (write v (end_at c xs) (l.size + more)) (used c (xs ++ (l ∷ [])))
  unfolding write Kept
  Kept-longer free =
      let u = write v (end_at c xs) (l.size + more) in
      subst (Kept w u) (sym (used_free free l free)) (
        Kept-append w u (used c xs) [] (Kept-used w u c xs (λ k lo hi. ground (arith, same k lo)))
          tt)

  used_new : used c (xs ++ (l ∷ []) ++ (new_block more ∷ [])) ≡ used c (xs ++ (l ∷ []))
  unfolding used
  used_new =
      used-append c (xs ++ (l ∷ [])) (new_block more ∷ []) ∙ append_nil (used c (xs ++ (l ∷ [])))

  Kept-new : Kept w (put_header e (more - 8) 1 v) (used c (xs ++ (l ∷ [])))
  unfolding put_header write
  Kept-new =
      let end = Tiled-end w c (xs ++ (l ∷ [])) e t in
      Kept-used w (put_header e (more - 8) 1 v) c (xs ++ (l ∷ []))
        (λ k lo hi. let below : k < e = subst (λ z. k < z) end hi in ground (arith, same k lo))

Grown-grow :
    (p q : Heap) (u : ℕ → ℕ) (bs after : List Block)
    → IsHeap p bs
    → Longer p q
    → Tiled u p.heap_start after (p.heap_end + (q.heap_end - p.heap_end))
    → used p.heap_start after ≡ used p.heap_start bs
    → Kept p.machine.word u (used p.heap_start bs)
    → Grown p (with_words q u) bs
Grown-grow p q u bs after i g tiled same kept =
    let sum : p.heap_end + (q.heap_end - p.heap_end) ≡ q.heap_end = omega (arith, g.longer) in
    record {
      after = after;
      heap = record {
        tiled =
            subst (λ e. Tiled u q.heap_start after e) sum
              (subst (λ c. Tiled u c after (p.heap_end + (q.heap_end - p.heap_end))) (sym g.start)
                tiled);
        start = g.start ∙ i.start;
        pages = g.pages;
        below = g.below;
        room = omega (arith, g.start, g.longer, i.room);
        low = subst IsLow (sym g.dir) i.low;
      };
      start = g.start;
      same = ap (λ c. used c after) g.start ∙ same;
      kept = kept;
      longer = g.longer;
    }

append_free-Grown :
    (p q : Heap) (xs : List Block) (l : Block)
    → IsHeap p (xs ++ (l ∷ []))
    → Longer p q
    → Grown p (append_free (end_at p.heap_start xs) p.heap_end q) (xs ++ (l ∷ []))
unfolding append_free Tiled
append_free-Grown p q xs l i g =
    let w = p.machine.word in
    let v = q.machine.word in
    let c = p.heap_start in
    let h = end_at c xs in
    let e = p.heap_end in
    let more = q.heap_end - e in
    let bs = xs ++ (l ∷ []) in
    let same : (a : ℕ) → c ≤ a → v a ≡ w a = λ a k. g.word a (omega (arith, k, i.start)) in
    let even : more % 4 ≡ 0 = omega (arith, g.pages, i.pages, g.longer) in
    let page : 4096 ≤ more = omega (arith, g.longer) in
    let b = last_block w v c xs l e more i.tiled same even page in
    let size : (v h + more) % 2 ^ 32 ≡ l.size + more = omega (arith, b.0, b.3, g.below, g.longer) in
    elim (Bool-cases l.free) [
      | inl f ↦
          rw (b.1 ∙ f, size)
            (Grown-grow p q (write v h (l.size + more)) bs (xs ++ (longer_block l more ∷ [])) i g
              (append_longer w v c xs l e more i.tiled same even page f)
              (used_free w v c xs l e more i.tiled same even page f (longer_block l more) refl
                ∙ sym (used_free w v c xs l e more i.tiled same even page f l f))
              (Kept-longer w v c xs l e more i.tiled same even page f))
      | inr f ↦ rw (b.1 ∙ f) (
          Grown-grow p q (put_header e (more - 8) 1 v) bs (bs ++ (new_block more ∷ [])) i g
            (append_new w v c xs l e more i.tiled same even page)
            (used_new w v c xs l e more i.tiled same even page)
            (Kept-new w v c xs l e more i.tiled same even page))
    ]

last_Grown :
    (p q : Heap) (bs : List Block) (h : ℕ)
    → IsHeap p bs
    → LastOf p.heap_start bs h
    → Longer p q
    → Grown p (append_free h p.heap_end q) bs
last_Grown p q bs h i last g =
    let split = last.xs ++ (last.b ∷ []) in
    subst (λ zs. Grown p (append_free h p.heap_end q) zs) (sym last.split)
      (subst (λ k. Grown p (append_free k p.heap_end q) split) (sym last.place)
        (append_free-Grown p q last.xs last.b (subst (IsHeap p) last.split i) g))

pub grow-Grown :
    (p : Heap) (bs : List Block) (h frame : ℕ)
    → IsHeap p bs
    → LastOf p.heap_start bs h
    → p.heap_end < kernel_ceiling - 4096
    → Grown p (grow h frame p) bs
unfolding grow
grow-Grown p bs h frame i last room =
    let growth = p.heap_end - p.heap_start in
    let sum : (p.heap_end + growth) % 2 ^ 32 ≡ p.heap_end + growth = omega (arith, i.below) in
    let grown : Heap = record p { heap_end = (p.heap_end + growth) % 2 ^ 32 } in
    let mapped = map_pages-Mapped (growth / 4096) p.heap_end frame grown i.low i.pages in
    let r = map_pages (growth / 4096) p.heap_end frame grown in
    let longer : Longer p (settle r) =
      settle-Longer p grown r.0 r.1 refl refl (omega (arith, sum, i.pages, i.start))
        (omega (arith, sum, i.pages, i.start, i.room)) i.pages room mapped in
    last_Grown p (settle r) bs h i last longer
