-- ===== src/Memory/Heap/Reach.antt =====
-- What `kmalloc` keeps mapped, growth after growth.
use deprecat_os.Prelude.{
  ℕ, zero, suc, ◌+◌, ◌-◌, ◌≤◌, ◌<◌, List, [], ◌∷◌, arith, Bool-cases, inl, inr, ◌==◌, ltb,
  if◌then◌else◌, length,
}
use deprecat_os.Memory.Frames.{alloc_frame}
use deprecat_os.Memory.Paging.{kernel_ceiling, heap_start_addr}
use deprecat_os.Memory.Heap.{
  Heap, Fit, fits, none_fits, case_fit, take_block, with_words, grow, first_frame, wanted_of,
  kmalloc_round, kmalloc_on,
}
use deprecat_os.Memory.Heap.Blocks.{
  with_frames, frames-IsHeap, Block, Tiled, end_at, end_at-le, end_at-length, Tiled-end, IsHeap,
}
use deprecat_os.Memory.Heap.Find.{LastOf, FindFit, find_fit_lem}
use deprecat_os.Memory.Heap.Grow.{grow-Grown}
use deprecat_os.Memory.Heap.Mapped.{Ready, Ready-words, grow-Ready, take_block-low}

-- The heap is no shorter, and mapped if it ends below `limit`.
pub record Reaches (limit : ℕ) (p q : Heap) : Type 0 where
  pub longer : p.heap_end ≤ q.heap_end
  pub ready :
      Ready p.machine limit p.heap_end → q.heap_end ≤ limit → Ready q.machine limit q.heap_end

module _ (limit size : ℕ) (top : limit ≤ kernel_ceiling) where
  Reaches-take_block :
      (p : Heap) (c : ℕ)
      → heap_start_addr ≤ c
      → Reaches limit p (with_words p (take_block c (wanted_of size) p.machine.word))
  Reaches-take_block p c above = record {
    longer = omega arith;
    ready = λ r h.
        Ready-words p.machine (take_block c (wanted_of size) p.machine.word) limit p.heap_end top h
          (λ k low. take_block-low p.machine.word c (wanted_of size) k above low) r;
  }

  Reaches-first_frame :
      (p : Heap) (bs : List Block) (h : ℕ) (next : Heap → ℕ × Heap)
      → IsHeap p bs
      → LastOf p.heap_start bs h
      → ((g : Heap) (after : List Block) → IsHeap g after → Reaches limit g (next g).1)
      → Reaches limit p
          (let (frame, p') = first_frame p in
            if frame == 0 then (0, p') else next (grow h frame p')).1
  unfolding first_frame
  Reaches-first_frame p bs h next i last go =
      let at : heap_start_addr ≤ h =
        omega (arith, last.place, i.start, end_at-le p.heap_start last.xs) in
      elim (Bool-cases (ltb p.heap_end (kernel_ceiling - 4096))) [
        | inr e ↦ rw e (record { longer = omega arith; ready = λ r k. r })
        | inl e ↦
            let room : p.heap_end < kernel_ceiling - 4096 = ground arith in
            let r = alloc_frame p.machine.frames in
            let p' = with_frames p r.1 in
            let j = frames-IsHeap p r.1 bs i in
            let g = grow-Grown p' bs h r.0 j last room in
            let rest = go (grow h r.0 p') g.after g.heap in
            elim (Bool-cases (r.0 == 0)) [
              | inl z ↦
                  rw (e, z)
                    (record {
                      longer = omega arith;
                      ready = λ y k. record { low = y.low; tables = y.tables; mapped = y.mapped };
                    })
              | inr z ↦
                  rw (e, z)
                    (record {
                      longer = omega (arith, g.longer, rest.longer);
                      ready = λ y k.
                          rest.ready
                            (grow-Ready p' h r.0 limit top at i.start
                              (omega (arith, i.room, i.start)) i.pages i.below
                              (record { low = y.low; tables = y.tables; mapped = y.mapped })
                              (omega (arith, rest.longer, k)))
                            k;
                    })
            ]
      ]

  Reaches-case_fit :
      (p : Heap) (b : Block) (bs : List Block) (h0 : ℕ) (next : Heap → ℕ × Heap) (r : Fit)
      → IsHeap p (b ∷ bs)
      → FindFit (wanted_of size) p.heap_start (b ∷ bs) h0 r
      → ((g : Heap) (after : List Block) → IsHeap g after → Reaches limit g (next g).1)
      → Reaches limit p
          (case_fit r
            (λ c. (c + 8, with_words p (take_block c (wanted_of size) p.machine.word)))
            (λ h.
              let (frame, p') = first_frame p in
              if frame == 0 then (0, p') else next (grow h frame p'))).1
  unfolding FindFit
  Reaches-case_fit p b bs h0 next (fits at) i f go =
      Reaches-take_block p at (omega (arith, f.place, i.start, end_at-le p.heap_start f.xs))
  Reaches-case_fit p b bs h0 next (none_fits h) i f go =
      Reaches-first_frame p (b ∷ bs) h next i f.1 go

  pub kmalloc_on-Reaches :
      (n : ℕ) (p : Heap) (bs : List Block) → IsHeap p bs → Reaches limit p (kmalloc_on n size p).1
  unfolding kmalloc_on kmalloc_round Tiled end_at
  kmalloc_on-Reaches zero p bs i = record { longer = omega arith; ready = λ r k. r }
  kmalloc_on-Reaches (suc n) p [] i = absurd (omega (arith, i.tiled, i.room))
  kmalloc_on-Reaches (suc n) p (b ∷ bs) i =
      let w = p.machine.word in
      let few : length (b ∷ bs) ≤ p.heap_end - p.heap_start = omega (
        arith,
        Tiled-end w p.heap_start (b ∷ bs) p.heap_end i.tiled,
        end_at-length p.heap_start (b ∷ bs),
      ) in
      Reaches-case_fit p b bs 0 (kmalloc_on n size) _ i
        (find_fit_lem (p.heap_end - p.heap_start) w p.heap_end (wanted_of size) p.heap_start 0
          (b ∷ bs) i.tiled few (omega (arith, i.below)))
        (λ g after j. kmalloc_on-Reaches n g after j)
