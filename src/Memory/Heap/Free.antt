-- ===== src/Memory/Heap/Free.antt =====
-- `kfree` on a heap of blocks.
use deprecat_os.Prelude.{
  ℕ, zero, suc, ◌+◌, ◌-◌, ◌%◌, ◌^◌, ◌≤◌, ◌<◌, ◌≡◌, ◌≢◌, ◌∙◌, ap, refl, subst, true, false, List, [],
  ◌∷◌, ◌++◌, length, arith, Bool-cases, inl, inr, ◌==◌, ltb, write,
}
use deprecat_os.Memory.Heap.{Heap, join_loop, kfree, with_words}
use deprecat_os.Memory.Heap.Blocks.{
  Block, Tiled, used, end_at, Kept, SameIn, end_at-le, end_at-length, used-append, Kept-append,
  Tiled-end, Tiled-append, Tiled-left, Tiled-right, Tiled-frame, Kept-used, IsHeap,
}

-- What the loop of `kfree` leaves, where the block `b` at `h` was followed by `ys`.
record Joined (w : ℕ → ℕ) (h e : ℕ) (b : Block) (ys : List Block) (w' : ℕ → ℕ) : Type 0 where
  block : Block
  rest : List Block
  tiled : Tiled w' h (block ∷ rest) e
  free : block.free ≡ true
  same : used (h + 8 + block.size) rest ≡ used (h + 8 + b.size) ys
  kept : (k : ℕ) → k ≢ h → w' k ≡ w k

join_here :
    (w : ℕ → ℕ) (h e : ℕ) (b : Block) (ys : List Block)
    → Tiled w h (b ∷ ys) e
    → b.free ≡ true
    → Joined w h e b ys w
join_here w h e b ys t f = record {
  block = b;
  rest = ys;
  tiled = t;
  free = f;
  same = refl;
  kept = λ k p. refl;
}

abbrev joined_block : Block → Block → Block
joined_block b y = record { size = b.size + (y.size + 8); free = true }

join-Tiled :
    (w : ℕ → ℕ) (h e : ℕ) (b y : Block) (ys : List Block)
    → Tiled w h (b ∷ (y ∷ ys)) e
    → b.free ≡ true
    → Tiled (write w h (b.size + (y.size + 8))) h (joined_block b y ∷ ys) e
unfolding Tiled write
join-Tiled w h e b y ys t f =
    let step : h + 8 + b.size + 8 + y.size ≡ h + 8 + (b.size + (y.size + 8)) = omega arith in
    (
      ground arith,
      ground (arith, t.1, f),
      omega (arith, t.2, t.3.2),
      Tiled-frame w (write w h (b.size + (y.size + 8))) (h + 8 + (b.size + (y.size + 8))) ys e
          (subst (λ k. Tiled w k ys e) step t.3.3) (λ k p q. ground arith),
    )

join_more :
    (w w' : ℕ → ℕ) (h e : ℕ) (b y : Block) (ys : List Block)
    → y.free ≡ true
    → Joined (write w h (b.size + (y.size + 8))) h e (joined_block b y) ys w'
    → Joined w h e b (y ∷ ys) w'
unfolding used write
join_more w w' h e b y ys f j =
    let step : h + 8 + (b.size + (y.size + 8)) ≡ h + 8 + b.size + 8 + y.size = omega arith in
    record {
      block = j.block;
      rest = j.rest;
      tiled = j.tiled;
      free = j.free;
      same = j.same ∙ rw f (ap (λ k. used k ys) step);
      kept = λ k p. j.kept k p ∙ ground (arith, p);
    }

Tiled-within :
    (w : ℕ → ℕ) (h e : ℕ) (b : Block) (ys : List Block) → Tiled w h (b ∷ ys) e → h + 8 + b.size ≤ e
unfolding Tiled
Tiled-within w h e b ys t =
    subst (λ k. h + 8 + b.size ≤ k) (Tiled-end w (h + 8 + b.size) ys e t.3)
      (end_at-le (h + 8 + b.size) ys)

join_lem :
    (fuel : ℕ) (w : ℕ → ℕ) (h e : ℕ) (b : Block) (ys : List Block)
    → Tiled w h (b ∷ ys) e
    → b.free ≡ true
    → length ys ≤ fuel
    → e < 2 ^ 32
    → Joined w h e b ys (join_loop fuel e h w)
unfolding join_loop Tiled
join_lem zero w h e b ys t f enough small = join_here w h e b ys t f
join_lem (suc fuel) w h e b [] t f enough small =
    let stop : ltb ((h + 8 + w h) % 2 ^ 32) e ≡ false = ground (arith, t.0, t.3) in
    rw stop (join_here w h e b [] t f)
join_lem (suc fuel) w h e b (y ∷ ys) t f enough small =
    let within = Tiled-within w (h + 8 + b.size) e y ys t.3 in
    let next : (h + 8 + w h) % 2 ^ 32 ≡ h + 8 + b.size = omega (arith, t.0) in
    let inside : ltb (h + 8 + b.size) e ≡ true = ground arith in
    let sum : (w h + (w (h + 8 + b.size) + 8)) % 2 ^ 32 ≡ b.size + (y.size + 8) =
      omega (arith, t.0, t.3.0) in
    elim (Bool-cases y.free) [
      | inl g ↦
          rw (next, inside, t.3.1 ∙ g, sum)
            (join_more w _ h e b y ys g (
              join_lem fuel (write w h (b.size + (y.size + 8))) h e (joined_block b y) ys
                (join-Tiled w h e b y ys t f) refl (omega (arith, enough)) small))
      | inr g ↦ rw (next, inside, t.3.1 ∙ g) (join_here w h e b (y ∷ ys) t f)
    ]

-- The heap after a block has been given back, where `us` is what else was in use.
pub record Freed (p p' : Heap) (us : List (ℕ × ℕ)) : Type 0 where
  pub after : List Block
  pub heap : IsHeap p' after
  pub now : used p'.heap_start after ≡ us
  pub kept : Kept p.machine.word p'.machine.word us

abbrev freed_block : Block → Block
freed_block b = record b { free = true }

abbrev marked_words : (ℕ → ℕ) → ℕ → ℕ → ℕ
marked_words w h = write w (h + 4) 1

-- The block is marked as free, and then joined.
module _ (p : Heap) (xs : List Block) (b : Block) (ys : List Block)
    (i : IsHeap p (xs ++ (b ∷ ys))) where
  from_h : Tiled p.machine.word (end_at p.heap_start xs) (b ∷ ys) p.heap_end
  from_h = Tiled-right p.machine.word p.heap_start xs (b ∷ ys) p.heap_end i.tiled

  marked-Tiled :
      Tiled
        (marked_words p.machine.word (end_at p.heap_start xs))
        (end_at p.heap_start xs)
        (freed_block b ∷ ys)
        p.heap_end
  unfolding Tiled write
  marked-Tiled =
      let h = end_at p.heap_start xs in
      let t = from_h in
      (
        ground (arith, t.0),
        ground arith,
        t.2,
        Tiled-frame p.machine.word (marked_words p.machine.word h) (h + 8 + b.size) ys p.heap_end
            t.3 (λ k lo hi. ground arith),
      )

  -- The blocks behind fit in the fuel.
  few : length ys ≤ p.heap_end - p.heap_start
  unfolding Tiled
  few =
      let h = end_at p.heap_start xs in
      let end = Tiled-end p.machine.word (h + 8 + b.size) ys p.heap_end from_h.3 in
      omega (arith, end, end_at-length (h + 8 + b.size) ys, end_at-le p.heap_start xs)

  joined :
      Joined
        (marked_words p.machine.word (end_at p.heap_start xs))
        (end_at p.heap_start xs)
        p.heap_end
        (freed_block b)
        ys
        (join_loop
          (p.heap_end - p.heap_start)
          p.heap_end
          (end_at p.heap_start xs)
          (marked_words p.machine.word (end_at p.heap_start xs)))
  joined =
      join_lem (p.heap_end - p.heap_start) (marked_words p.machine.word (end_at p.heap_start xs))
        (end_at p.heap_start xs) p.heap_end (freed_block b) ys marked-Tiled refl few
        (omega (arith, i.below))

  Freed-join :
      (w' : ℕ → ℕ)
      → Joined
          (marked_words p.machine.word (end_at p.heap_start xs))
          (end_at p.heap_start xs)
          p.heap_end
          (freed_block b)
          ys
          w'
      → Freed p
          (with_words p w')
          (used p.heap_start xs ++ used (end_at p.heap_start xs + 8 + b.size) ys)
  unfolding used write Tiled
  Freed-join w' j =
      let w = p.machine.word in
      let h = end_at p.heap_start xs in
      let same : (k : ℕ) → k ≢ h → k ≢ h + 4 → w' k ≡ w k =
        λ k u v. j.kept k u ∙ ground (arith, v) in
      let below : SameIn w w' p.heap_start h = λ k lo hi. same k (omega arith) (omega arith) in
      let above : SameIn w w' (h + 8 + b.size) (end_at (h + 8 + b.size) ys) =
        λ k lo hi. same k (omega arith) (omega arith) in
      let joins = used-append p.heap_start xs (j.block ∷ j.rest) in
      record {
        after = xs ++ (j.block ∷ j.rest);
        heap = record {
          tiled =
              Tiled-append w' p.heap_start xs (j.block ∷ j.rest) p.heap_end
                (Tiled-frame w w' p.heap_start xs h
                  (Tiled-left w p.heap_start xs (b ∷ ys) p.heap_end i.tiled) below)
                j.tiled;
          start = i.start;
          pages = i.pages;
          below = i.below;
          room = i.room;
          low = i.low;
        };
        now = joins ∙ ap (λ us. used p.heap_start xs ++ us) (rw (used, j.free) j.same);
        kept =
            Kept-append w w' (used p.heap_start xs) (used (h + 8 + b.size) ys)
              (Kept-used w w' p.heap_start xs below) (Kept-used w w' (h + 8 + b.size) ys above);
      }

-- In a heap whose blocks stand one behind the other from HEAP_START to a page below the ceiling,
-- `kfree` of the address of a block ends with such a heap, in which what else was in use is in use
-- as before, with the same address, size and contents, and nothing more.
pub kfree_lem :
    (p : Heap) (xs : List Block) (b : Block) (ys : List Block)
    → IsHeap p (xs ++ (b ∷ ys))
    → Freed p
        (kfree (end_at p.heap_start xs + 8) p)
        (used p.heap_start xs ++ used (end_at p.heap_start xs + 8 + b.size) ys)
unfolding kfree
kfree_lem p xs b ys i =
    let h = end_at p.heap_start xs in
    let real : (h + 8 == 0) ≡ false = ground arith in
    let back : h + 8 - 8 ≡ h = omega arith in
    rw (real, back) (Freed-join p xs b ys i _ (joined p xs b ys i))
