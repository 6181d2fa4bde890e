-- ===== src/Memory/Heap/Pages.antt =====
-- The pages that `kmalloc` maps behind the heap, and where the heap ends then.
use deprecat_os.Prelude.{
  ℕ, zero, suc, ◌+◌, ◌-◌, ◌%◌, ◌≤◌, ◌<◌, ◌≡◌, ◌∙◌, ◌⊎◌, ap, refl, sym, subst, arith, Bool-cases,
  inl, inr, ◌==◌, ltb,
}
use deprecat_os.Memory.Frames.{alloc_frame}
use deprecat_os.Memory.Paging.{kernel_ceiling, heap_start_addr, map_kernel_page}
use deprecat_os.Memory.Paging.Keeps.{IsLow, kernel_flags, map_kernel_page-high, map_kernel_page-dir}
use deprecat_os.Memory.Heap.{Heap, map_pages, settle}

-- What mapping pages from `i` on leaves alone, and where the heap may end then.
pub record Mapped (p q : Heap) (i : ℕ) : Type 0 where
  pub word : (a : ℕ) → heap_start_addr ≤ a → q.machine.word a ≡ p.machine.word a
  pub dir : q.machine.kernel_dir ≡ p.machine.kernel_dir
  pub start : q.heap_start ≡ p.heap_start
  pub end :
      (q.heap_end ≡ p.heap_end)
      ⊎ ((q.heap_end % 4096 ≡ 0) × (i + 4096 ≤ q.heap_end) × (q.heap_end ≤ kernel_ceiling))

pub Mapped-refl : (p : Heap) (i : ℕ) → Mapped p p i
Mapped-refl p i = record { word = λ a h. refl; dir = refl; start = refl; end = inl refl }

pub map_pages-Mapped :
    (left i frame : ℕ) (p : Heap)
    → IsLow p.machine.kernel_dir
    → i % 4096 ≡ 0
    → Mapped p (map_pages left i frame p).1 i
unfolding map_pages
map_pages-Mapped zero i frame p low page = Mapped-refl p i
map_pages-Mapped (suc left) i frame p low page = elim (Bool-cases (ltb (kernel_ceiling - 4096) i)) [
  | inl e ↦ rw e (Mapped-refl p i)
  | inr e ↦
      let m' = map_kernel_page i frame kernel_flags p.machine in
      let frame' = (alloc_frame m'.frames).0 in
      let p' : Heap = record p { machine = record m' { frames = (alloc_frame m'.frames).1 } } in
      let dir = map_kernel_page-dir i frame kernel_flags p.machine in
      let word : (a : ℕ) → heap_start_addr ≤ a → m'.word a ≡ p.machine.word a =
        λ a h. map_kernel_page-high i frame p.machine a low (ground arith) h in
      let rest =
        map_pages-Mapped left (i + 4096) frame' p' (subst IsLow (sym dir) low) (omega arith) in
      elim (Bool-cases (frame' == 0)) [
        | inl z ↦
            rw (e, z)
              (record {
                word = word;
                dir = dir;
                start = refl;
                end = inr (omega arith, omega arith, ground arith);
              })
        | inr z ↦
            rw (e, z)
              (record {
                word = λ a h. rest.word a h ∙ word a h;
                dir = rest.dir ∙ dir;
                start = rest.start;
                end = ground (arith, rest.end);
              })
      ]
]

-- The heap before the new bytes are made free, grown by at least a page.
pub record Longer (p q : Heap) : Type 0 where
  pub word : (a : ℕ) → heap_start_addr ≤ a → q.machine.word a ≡ p.machine.word a
  pub dir : q.machine.kernel_dir ≡ p.machine.kernel_dir
  pub start : q.heap_start ≡ p.heap_start
  pub pages : q.heap_end % 4096 ≡ 0
  pub longer : p.heap_end + 4096 ≤ q.heap_end
  pub below : q.heap_end ≤ kernel_ceiling

pub settle-Longer :
    (p grown : Heap) (frame : ℕ) (q : Heap)
    → grown.machine ≡ p.machine
    → grown.heap_start ≡ p.heap_start
    → grown.heap_end % 4096 ≡ 0
    → p.heap_end + 4096 ≤ grown.heap_end
    → p.heap_end % 4096 ≡ 0
    → p.heap_end < kernel_ceiling - 4096
    → Mapped grown q p.heap_end
    → Longer p (settle (frame, q))
unfolding settle
settle-Longer p grown frame q same start page more own room m = record {
  word = λ a h. m.word a h ∙ ap (λ z. z.word a) same;
  dir = m.dir ∙ ap (λ z. z.kernel_dir) same;
  start = m.start ∙ start;
  pages = ground (arith, m.end);
  longer = ground (arith, m.end);
  below = ground arith;
}
