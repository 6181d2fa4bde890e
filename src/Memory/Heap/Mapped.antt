-- ===== src/Memory/Heap/Mapped.antt =====
-- The pages of a heap that grows in `kmalloc` are mapped, where their page tables are in place.
use deprecat_os.Prelude.{
  ℕ, zero, suc, ◌+◌, ◌-◌, ◌*◌, ◌/◌, ◌%◌, ◌^◌, ◌≤◌, ◌<◌, ◌≡◌, refl, sym, subst, arith, Bool-cases,
  inl, inr, ◌==◌, ltb, write, if◌then◌else◌,
}
use deprecat_os.Memory.Frames.{alloc_frame}
use deprecat_os.Memory.Paging.{Machine, kernel_ceiling, heap_start_addr, map_kernel_page}
use deprecat_os.Memory.Paging.Keeps.{IsLow, kernel_flags}
use deprecat_os.Memory.Paging.Mapped.{
  HasTables, IsMapped, HasTables-same, IsMapped-same, map_kernel_page-set, HasTables-set_word,
  IsMapped-set_word, set_word-IsMapped,
}
use deprecat_os.Memory.Heap.{Heap, map_pages, settle, append_free, grow, put_header, take_block}
use deprecat_os.Memory.Heap.Pages.{map_pages-Mapped}

-- The tables up to `limit` are in place, and every address of the heap up to `e` is mapped.
pub record Ready (m : Machine) (limit e : ℕ) : Type 0 where
  pub low : IsLow m.kernel_dir
  pub tables : HasTables m.word m.kernel_dir limit
  pub mapped : (a : ℕ) → heap_start_addr ≤ a → a < e → IsMapped m.word m.kernel_dir a

-- Words from HEAP_START on change nothing.
pub Ready-words :
    (m : Machine) (w : ℕ → ℕ) (limit e : ℕ)
    → limit ≤ kernel_ceiling
    → e ≤ limit
    → ((k : ℕ) → k < heap_start_addr → w k ≡ m.word k)
    → Ready m limit e
    → Ready (record m { word = w }) limit e
Ready-words m w limit e top h same r = record {
  low = r.low;
  tables = HasTables-same m.word w m.kernel_dir limit r.low top same r.tables;
  mapped = λ a p q.
      IsMapped-same m.word w m.kernel_dir limit r.low top same r.tables a p (omega arith)
        (r.mapped a p q);
}

map_one-Ready :
    (m : Machine) (i frame limit : ℕ)
    → limit ≤ kernel_ceiling
    → heap_start_addr ≤ i
    → i % 4096 ≡ 0
    → i + 4096 ≤ limit
    → Ready m limit i
    → Ready (map_kernel_page i frame kernel_flags m) limit (i + 4096)
map_one-Ready m i frame limit top from page room r =
    let inside : i < limit = omega arith in
    subst (λ z. Ready z limit (i + 4096))
      (sym (map_kernel_page-set m i frame limit r.low top r.tables from inside))
      (record {
        low = r.low;
        tables = HasTables-set_word m i frame limit r.low top r.tables from inside;
        mapped = λ a p q. elim (Bool-cases (ltb a i)) [
          | inl e ↦
              IsMapped-set_word m i frame limit r.low top r.tables from inside a p (omega arith)
                (r.mapped a p (ground (arith, e)))
          | inr e ↦
              let past : i ≤ a = ground (arith, e) in
              set_word-IsMapped m i frame limit r.low top r.tables from inside a (omega arith)
                (omega arith)
        ];
      })

-- The end of the heap below the ceiling.
abbrev pub capped : Heap → ℕ
capped q = if ltb kernel_ceiling q.heap_end then kernel_ceiling else q.heap_end

pub map_pages-Ready :
    (left i frame : ℕ) (p : Heap) (limit : ℕ)
    → limit ≤ kernel_ceiling
    → heap_start_addr ≤ i
    → i % 4096 ≡ 0
    → p.heap_end ≡ i + 4096 * left
    → Ready p.machine limit i
    → capped (map_pages left i frame p).1 ≤ limit
    → Ready (map_pages left i frame p).1.machine limit (capped (map_pages left i frame p).1)
unfolding map_pages
map_pages-Ready zero i frame p limit top from page whole r h = record {
  low = r.low;
  tables = r.tables;
  mapped = λ a lo hi. r.mapped a lo (ground (arith, hi));
}
map_pages-Ready (suc left) i frame p limit top from page whole r h =
    let all = map_pages-Mapped (suc left) i frame p r.low page in
    elim (Bool-cases (ltb (kernel_ceiling - 4096) i)) [
      | inl e ↦ rw e (record {
        low = r.low;
        tables = r.tables;
        mapped = λ a lo hi. r.mapped a lo (ground (arith, hi, e));
      })
      | inr e ↦
          let below : i + 4096 ≤ kernel_ceiling = ground (arith, e) in
          let room : i + 4096 ≤ limit = ground (arith, h, all.end, below, whole) in
          let m' = map_kernel_page i frame kernel_flags p.machine in
          let one = map_one-Ready p.machine i frame limit top from page room r in
          let frame' = (alloc_frame m'.frames).0 in
          let p' : Heap = record p { machine = record m' { frames = (alloc_frame m'.frames).1 } } in
          let next : Ready p'.machine limit (i + 4096) = record {
            low = one.low;
            tables = one.tables;
            mapped = one.mapped;
          } in
          elim (Bool-cases (frame' == 0)) [
            | inl z ↦
                rw (e, z)
                  (record {
                    low = next.low;
                    tables = next.tables;
                    mapped = λ a lo hi. next.mapped a lo (ground (arith, hi));
                  })
            | inr z ↦
                let rest =
                  map_pages-Ready left (i + 4096) frame' p' limit top (omega arith) (omega arith)
                    (omega (arith, whole)) next in
                let stepped : map_pages (suc left) i frame p ≡ map_pages left (i + 4096) frame' p' =
                  rw (e, z) refl in
                subst (λ (t : ℕ × Heap). capped t.1 ≤ limit → Ready t.1.machine limit (capped t.1))
                  (sym stepped) rest h
          ]
    ]

-- The growth of the heap, as far as it is below `limit`.
pub grow-Ready :
    (p : Heap) (h frame limit : ℕ)
    → limit ≤ kernel_ceiling
    → heap_start_addr ≤ h
    → p.heap_start ≡ heap_start_addr
    → heap_start_addr < p.heap_end
    → p.heap_end % 4096 ≡ 0
    → p.heap_end ≤ kernel_ceiling
    → Ready p.machine limit p.heap_end
    → (grow h frame p).heap_end ≤ limit
    → Ready (grow h frame p).machine limit (grow h frame p).heap_end
unfolding grow settle append_free put_header write
grow-Ready p h frame limit top above start room page ceil r fits =
    let growth = p.heap_end - p.heap_start in
    let sum : (p.heap_end + growth) % 2 ^ 32 ≡ p.heap_end + growth = omega arith in
    let grown : Heap = record p { heap_end = (p.heap_end + growth) % 2 ^ 32 } in
    let q = map_pages (growth / 4096) p.heap_end frame grown in
    let ready : Ready q.1.machine limit (capped q.1) =
      map_pages-Ready (growth / 4096) p.heap_end frame grown limit top (omega arith) page
        (omega (arith, sum, start, page))
        (record { low = r.low; tables = r.tables; mapped = r.mapped }) fits in
    let q' = settle q in
    Ready-words q'.machine (append_free h p.heap_end q').machine.word limit (capped q.1) top fits
      (λ k low. ground arith)
      (record { low = ready.low; tables = ready.tables; mapped = ready.mapped })

pub take_block-low :
    (w : ℕ → ℕ) (c wanted k : ℕ)
    → heap_start_addr ≤ c
    → k < heap_start_addr
    → take_block c wanted w k ≡ w k
unfolding take_block put_header write
take_block-low w c wanted k h low = ground arith
