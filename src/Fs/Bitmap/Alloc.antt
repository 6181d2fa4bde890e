-- ===== src/Fs/Bitmap/Alloc.antt =====
-- Taking an item of a group and giving one back, for blocks and inodes alike.
use deprecat_os.Prelude.{
  ℕ, ◌+◌, ◌-◌, ◌*◌, ◌/◌, ◌%◌, ◌^◌, ◌≤◌, ◌<◌, ◌≡◌, ◌≢◌, ◌∙◌, refl, subst, Option, none, some, arith,
  bit_or, bit_and, write,
}
use mathlib.Core.Path.{ap₂}
use deprecat_os.Bits.{complement}
use deprecat_os.Fs.Bytes.{Bytes}
use deprecat_os.Fs.Volume.{Volume, read_block}
use deprecat_os.Fs.Volume.Laws.{bind_ok, then_ok, read_block-ok}
use deprecat_os.Fs.Bitmap.{
  Kind, bitmap_addr, unalloc_cnt, unalloc_total, scan_bytes, with_count, count_down, count_up,
  flush, take_in, give_in,
}
use deprecat_os.Fs.Bitmap.Bit.{used, used-take, used-give, is_free-bit}
use deprecat_os.Fs.Bitmap.Count.{free_items-le, full_of}
use deprecat_os.Fs.Bitmap.Search.{ScanBytes, scan_bytes_lem}
use deprecat_os.Fs.Bitmap.Change.{
  InDescriptor, bitmap, IsSound, Changed, changed, change_lem, flush-changed,
}

-- What taking the item `i` of the group `g` leaves.
pub record Taken (k : Kind) (limit : ℕ) (v : Volume) (g i : ℕ) (w : Volume) : Type 0 where
  pub item : i < 8 * limit
  pub free : used (bitmap k v g) i ≡ 0
  pub first : (j : ℕ) → j < i → used (bitmap k v g) j ≡ 1
  pub change :
      Changed k limit v g i 1
        (unalloc_cnt k v.fs g - 1)
        ((unalloc_total k v.fs + 4294967295) % 2 ^ 32)
        w

module _ (k : Kind) (lay : InDescriptor k) (limit : ℕ) (small : limit ≤ 4096) (v : Volume)
    (s : IsSound k limit v) (g : ℕ) (group : g < v.fs.ngroups) where
  cnt-le : unalloc_cnt k v.fs g ≤ 32768
  cnt-le = omega (arith, s.counted g group, free_items-le (bitmap k v g) (8 * limit))

  module _ (some_left : 0 < unalloc_cnt k v.fs g) where
    abbrev down : ℕ
    down = (unalloc_cnt k v.fs g + 65535) % 2 ^ 16

    abbrev total : ℕ
    total = (unalloc_total k v.fs + 4294967295) % 2 ^ 32

    abbrev marked : ℕ → Bytes
    marked i = write (bitmap k v g) (i / 8) (bit_or (bitmap k v g (i / 8)) (2 ^ (i % 8)))

    not_full : (o : Option (ℕ × ℕ × ℕ)) → ScanBytes (bitmap k v g) 0 limit o → o ≢ none
    not_full none full e = omega (
      arith,
      s.counted g group,
      full_of (bitmap k v g) (8 * limit) (λ j p. full j (omega arith) (omega arith)),
    )
    not_full (some _) full e = cc

    tally :
        (i : ℕ)
        → used (bitmap k v g) i ≡ 0
        → down + (1 - used (bitmap k v g) i) ≡ unalloc_cnt k v.fs g + (1 - 1)
    tally i free = omega (arith, cnt-le)

    take_found :
        (i : ℕ)
        → i < 8 * limit
        → used (bitmap k v g) i ≡ 0
        → (scan_bytes (bitmap k v g) limit 0 0 ≡ some (i / 8, i % 8, i))
        → take_in k limit g v ≡ some ((g, i), changed k v g down total (marked i))
    unfolding take_in count_down
    take_found i item free found =
        bind_ok (read_block (bitmap_addr k v.fs g)) _ v
          (read_block-ok s.mounted (bitmap_addr k v.fs g) (s.fits g group))
        ∙ rw found (
            then_ok (flush (with_count k v.fs g down total) (bitmap_addr k v.fs g) (marked i)) _ v (
              flush-changed k lay limit small v s g i 1 down total (marked i) group item
                (used-take (bitmap k v g) i) (tally i free) (omega arith) (omega arith)))

    take_changed :
        (i : ℕ)
        → i < 8 * limit
        → used (bitmap k v g) i ≡ 0
        → Changed k limit v g i 1
            (unalloc_cnt k v.fs g - 1)
            total
            (changed k v g down total (marked i))
    take_changed i item free =
        let e : down ≡ unalloc_cnt k v.fs g - 1 = omega (arith, cnt-le) in
        subst (λ c. Changed k limit v g i 1 c total (changed k v g down total (marked i))) e
          (change_lem k lay limit small v s g i 1 down total (marked i) group item
            (used-take (bitmap k v g) i) (tally i free) (omega arith) (omega arith))

    -- An honest counter leads to an item: the first free one is taken.
    pub take_in_lem :
        (i : ℕ) × (w : Volume) × (take_in k limit g v ≡ some ((g, i), w)) × Taken k limit v g i w
    take_in_lem =
        go (scan_bytes (bitmap k v g) limit 0 0) refl
          (scan_bytes_lem (bitmap k v g) limit 0 0 (omega arith))
      where
        go :
            (o : Option (ℕ × ℕ × ℕ))
            → scan_bytes (bitmap k v g) limit 0 0 ≡ o
            → ScanBytes (bitmap k v g) 0 limit o
            → (i : ℕ) × (w : Volume) × (take_in k limit g v ≡ some ((g, i), w))
              × Taken k limit v g i w
        go none e full = absurd (not_full none full refl)
        go (some (n, j, i)) e h =
            let item : i < 8 * limit = omega (arith, h.below) in
            (
              i,
              changed k v g down total (marked i),
              take_found i item h.free (e ∙ ap₂ (λ a b. some (a, b, i)) h.byte_at h.bit_at),
              record {
                item = item;
                free = h.free;
                first = λ j p. h.first j (omega arith) p;
                change = take_changed i item h.free;
              },
            )

  -- Giving back a free item changes nothing.
  pub give_in_free : (i : ℕ) → used (bitmap k v g) i ≡ 0 → give_in k g i v ≡ some (tt, v)
  unfolding give_in
  give_in_free i free =
      bind_ok (read_block (bitmap_addr k v.fs g)) _ v
        (read_block-ok s.mounted (bitmap_addr k v.fs g) (s.fits g group))
      ∙ rw (is_free-bit (bitmap k v g (i / 8)) (i % 8), free) refl

  -- Giving back a taken item.
  pub give_in_taken :
      (i : ℕ)
      → i < 8 * limit
      → used (bitmap k v g) i ≡ 1
      → (w : Volume) × (give_in k g i v ≡ some (tt, w))
        × Changed k limit v g i 0 (unalloc_cnt k v.fs g + 1) ((unalloc_total k v.fs + 1) % 2 ^ 32) w
  unfolding give_in count_up
  give_in_taken i item taken =
      let cnt = (unalloc_cnt k v.fs g + 1) % 2 ^ 16 in
      let total = (unalloc_total k v.fs + 1) % 2 ^ 32 in
      let b =
        write (bitmap k v g) (i / 8)
          (bit_and (bitmap k v g (i / 8)) (complement 8 (2 ^ (i % 8)))) in
      let tally : cnt + (1 - used (bitmap k v g) i) ≡ unalloc_cnt k v.fs g + (1 - 0) =
        omega (arith, cnt-le) in
      let e : cnt ≡ unalloc_cnt k v.fs g + 1 = omega (arith, cnt-le) in
      (
        changed k v g cnt total b,
        bind_ok (read_block (bitmap_addr k v.fs g)) _ v
              (read_block-ok s.mounted (bitmap_addr k v.fs g) (s.fits g group))
            ∙ rw (is_free-bit (bitmap k v g (i / 8)) (i % 8), taken)
                (flush-changed k lay limit small v s g i 0 cnt total b group item
                  (used-give (bitmap k v g) i) tally (omega arith) (omega arith)),
        subst (λ c. Changed k limit v g i 0 c total (changed k v g cnt total b)) e
            (change_lem k lay limit small v s g i 0 cnt total b group item
              (used-give (bitmap k v g) i) tally (omega arith) (omega arith)),
      )
