-- ===== src/Memory/Paging/Mapped.antt =====
-- Pages whose tables are in place, and the pages that are mapped in them.
use deprecat_os.Prelude.{
  ℕ, ◌/◌, ◌%◌, ◌^◌, ◌≤◌, ◌<◌, ◌≡◌, ◌≢◌, ◌∙◌, ap, refl, bit_and, bit_or, true, false, write, arith,
  ◌==◌, Bool-cases, inl, inr,
}
use deprecat_os.Bits.{bit}
use deprecat_os.Bits.{bit-or, bit-shift}
use deprecat_os.Memory.Paging.{
  Machine, heap_start_addr, kernel_ceiling, dir_entry, table_entry, frame_of, has_flag, is_outside,
  page_present, with_table, set_page, map_page, map_kernel_page,
}
use deprecat_os.Memory.Paging.Keeps.{IsLow, kernel_flags}

-- The table of a page by the directory.
abbrev pub table_of : (ℕ → ℕ) → ℕ → ℕ → ℕ
table_of w dir a = frame_of (w (dir_entry dir a))

-- The pages from HEAP_START to `limit` have their tables: below HEAP_START, apart from the
-- directory and from each other.
pub record HasTables (w : ℕ → ℕ) (dir limit : ℕ) : Type 0 where
  pub present :
      (a : ℕ) → heap_start_addr ≤ a → a < limit → has_flag (w (dir_entry dir a)) page_present ≡ true
  pub real : (a : ℕ) → heap_start_addr ≤ a → a < limit → table_of w dir a ≢ 0
  pub low : (a : ℕ) → heap_start_addr ≤ a → a < limit → table_of w dir a < heap_start_addr
  pub other : (a : ℕ) → heap_start_addr ≤ a → a < limit → table_of w dir a ≢ dir
  pub apart :
      (a b : ℕ)
      → heap_start_addr ≤ a
      → a < limit
      → heap_start_addr ≤ b
      → b < limit
      → a / 2 ^ 22 ≢ b / 2 ^ 22
      → table_of w dir a ≢ table_of w dir b

-- The processor finds an entry for the page.
pub record IsMapped (w : ℕ → ℕ) (dir a : ℕ) : Type 0 where
  pub in_dir : has_flag (w (dir_entry dir a)) page_present ≡ true
  pub in_table : has_flag (w (table_entry (table_of w dir a) a)) page_present ≡ true

odd_flag : (x : ℕ) → x % 2 ≡ 1 → has_flag x page_present ≡ true
unfolding bit
odd_flag x h =
    let whole : x ≡ x / 2 ^ 0 = omega arith in
    let e : bit_and x 1 ≡ x % 2 = ap (λ y. bit_and y 1) whole ∙ bit-shift 0 x in
    ground (arith, e, h)

or_flag : (phys : ℕ) → has_flag (bit_or phys kernel_flags) page_present ≡ true
unfolding bit
or_flag phys = odd_flag (bit_or phys 3) (bit-or 0 phys 3 ∙ omega arith)

-- Words that are the same below HEAP_START hold the same tables.
module _ (w w' : ℕ → ℕ) (dir limit : ℕ) (below : IsLow dir) (top : limit ≤ kernel_ceiling)
    (same : (k : ℕ) → k < heap_start_addr → w' k ≡ w k) where
  same_entry : (a : ℕ) → a < limit → w' (dir_entry dir a) ≡ w (dir_entry dir a)
  same_entry a h = same (dir_entry dir a) (omega (arith, below.aligned, below.low))

  pub HasTables-same : HasTables w dir limit → HasTables w' dir limit
  HasTables-same t = record {
    present = λ a p q. rw (same_entry a q) (t.present a p q);
    real = λ a p q. rw (same_entry a q) (t.real a p q);
    low = λ a p q. rw (same_entry a q) (t.low a p q);
    other = λ a p q. rw (same_entry a q) (t.other a p q);
    apart = λ a b p q r u. rw (same_entry a q, same_entry b u) (t.apart a b p q r u);
  }

  pub IsMapped-same :
      HasTables w dir limit
      → (a : ℕ) → heap_start_addr ≤ a
      → a < limit
      → IsMapped w dir a
      → IsMapped w' dir a
  IsMapped-same t a p q m =
      let at = table_entry (table_of w dir a) a in
      let entry : w' at ≡ w at = same at (omega (arith, t.low a p q)) in
      record {
        in_dir = rw (same_entry a q) m.in_dir;
        in_table = rw (same_entry a q, entry) m.in_table;
      }

-- A page mapped where its table is in place.
module _ (m : Machine) (virt phys limit : ℕ) (below : IsLow m.kernel_dir)
    (top : limit ≤ kernel_ceiling) (t : HasTables m.word m.kernel_dir limit)
    (from : heap_start_addr ≤ virt) (upto : virt < limit) where
  unfoldable pub set_at : ℕ
  set_at = table_entry (table_of m.word m.kernel_dir virt) virt

  unfoldable pub set_word : ℕ → ℕ
  unfolding set_at
  set_word = write m.word set_at (bit_or phys kernel_flags)

  pub map_kernel_page-set : map_kernel_page virt phys kernel_flags m ≡ record m { word = set_word }
  unfolding map_kernel_page map_page with_table set_page set_word
  map_kernel_page-set =
      let inside : is_outside (table_of m.word m.kernel_dir virt) ≡ false =
        ground (arith, t.real virt from upto, t.low virt from upto) in
      rw (t.present virt from upto, inside) refl

  set_entry :
      (a : ℕ) → a < limit → set_word (dir_entry m.kernel_dir a) ≡ m.word (dir_entry m.kernel_dir a)
  unfolding set_word write
  set_entry a h =
      let apart : (dir_entry m.kernel_dir a == table_entry (table_of m.word m.kernel_dir virt) virt)
          ≡ false =
        ground (arith, below.aligned, t.other virt from upto) in
      rw apart refl

  pub HasTables-set_word : HasTables set_word m.kernel_dir limit
  HasTables-set_word = record {
    present = λ a p q. rw (set_entry a q) (t.present a p q);
    real = λ a p q. rw (set_entry a q) (t.real a p q);
    low = λ a p q. rw (set_entry a q) (t.low a p q);
    other = λ a p q. rw (set_entry a q) (t.other a p q);
    apart = λ a b p q r u. rw (set_entry a q, set_entry b u) (t.apart a b p q r u);
  }

  pub IsMapped-set_word :
      (a : ℕ)
      → heap_start_addr ≤ a
      → a < limit
      → IsMapped m.word m.kernel_dir a
      → IsMapped set_word m.kernel_dir a
  unfolding set_word write
  IsMapped-set_word a p q k =
      let place = table_entry (table_of m.word m.kernel_dir a) a in
      record {
        in_dir = rw (set_entry a q) k.in_dir;
        in_table = rw (set_entry a q) (elim (Bool-cases (place == set_at)) [
          | inl e ↦ rw e (or_flag phys)
          | inr e ↦ rw e k.in_table
        ]);
      }

  -- The page is mapped, with all that share its entry.
  pub set_word-IsMapped :
      (a : ℕ) → a / 4096 ≡ virt / 4096 → a < limit → IsMapped set_word m.kernel_dir a
  unfolding set_word write
  set_word-IsMapped a e q =
      let same : dir_entry m.kernel_dir a ≡ dir_entry m.kernel_dir virt = omega (arith, e) in
      let entry : set_word (dir_entry m.kernel_dir a) ≡ m.word (dir_entry m.kernel_dir virt) =
        set_entry a q ∙ ap m.word same in
      let slot : a / 2 ^ 12 % 1024 ≡ virt / 2 ^ 12 % 1024 = omega (arith, e) in
      let place : (table_entry (table_of m.word m.kernel_dir virt) a == set_at) ≡ true =
        ground (arith, slot) in
      record {
        in_dir = rw entry (t.present virt from upto);
        in_table = rw (entry, place) (or_flag phys);
      }
