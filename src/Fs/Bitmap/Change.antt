-- ===== src/Fs/Bitmap/Change.antt =====
-- What taking and giving back one item does to the volume.
use deprecat_os.Prelude.{
  ℕ, ◌+◌, ◌-◌, ◌*◌, ◌/◌, ◌%◌, ◌^◌, ◌≤◌, ◌<◌, ◌≡◌, ◌≢◌, ◌∙◌, refl, sym, ap, inl, inr, ◌&&◌, some,
  arith, ◌==◌, ltb, if◌then◌else◌, Bool-cases, ltb→lt, ltb→le,
}
use deprecat_os.Bits.{bit}
use deprecat_os.Fs.Bytes.{
  Bytes, Apart, get32, get16-set16, get16-set16-Apart, get32-set16-Apart, get32-set32,
  get32-set32-Apart,
}
use deprecat_os.Fs.Volume.{FsInfo, Volume, write_block, write_super}
use deprecat_os.Fs.Volume.Laws.{
  IsMounted, Fits, then_ok, block, put, put_super, write_block-ok, write_super-ok, put-IsMounted,
  put_super-IsMounted, block-put_same, block-put_other, block-put_super,
}
use deprecat_os.Fs.Bitmap.{Kind, bitmap_addr, unalloc_cnt, unalloc_total, with_count, flush}
use deprecat_os.Fs.Bitmap.Bit.{used}
use deprecat_os.Fs.Bitmap.Count.{free_items, free_items_change}

-- The fields of a kind lie in the 32 bytes of a descriptor, the address below the counter.
abbrev pub InDescriptor : Kind → Type 0
InDescriptor k = (k.bitmap_addr + 4 ≤ k.unalloc_cnt) × (k.unalloc_cnt + 2 ≤ 32)

-- The bitmap of the group `g`, on the disk.
abbrev pub bitmap : Kind → Volume → ℕ → Bytes
bitmap k v g = block v (bitmap_addr k v.fs g)

-- The volume after `flush`.
abbrev pub flushed : Volume → FsInfo → ℕ → Bytes → Volume
flushed v fs addr b = put (put_super (put (record v { fs = fs }) 1 fs.bgdt_buf)) addr b

-- What the two allocators keep: the bitmaps lie in the partition, each in a block of its own
-- behind the superblock and the descriptors, and each counter is the number of free items in
-- the `limit` bytes of its bitmap.
pub record IsSound (k : Kind) (limit : ℕ) (v : Volume) : Type 0 where
  pub mounted : IsMounted v
  pub room : 16 ≤ v.fs.sector_count
  pub fits : (g : ℕ) → g < v.fs.ngroups → Fits v (bitmap_addr k v.fs g)
  pub behind : (g : ℕ) → g < v.fs.ngroups → 2 ≤ bitmap_addr k v.fs g
  pub distinct :
      (g h : ℕ)
      → g < v.fs.ngroups
      → h < v.fs.ngroups
      → g ≢ h
      → bitmap_addr k v.fs g ≢ bitmap_addr k v.fs h
  pub counted :
      (g : ℕ) → g < v.fs.ngroups → unalloc_cnt k v.fs g ≡ free_items (bitmap k v g) (8 * limit)

pub flush-ok :
    (v : Volume) (fs : FsInfo) (addr : ℕ) (b : Bytes)
    → IsMounted (record v { fs = fs })
    → 16 ≤ fs.sector_count
    → 8 * addr + 8 ≤ fs.sector_count
    → flush fs addr b v ≡ some (tt, flushed v fs addr b)
unfolding flush
flush-ok v fs addr b m room fit =
    let m1 = put-IsMounted m 1 fs.bgdt_buf in
    let m2 = put_super-IsMounted m1 in
    then_ok (write_block 1 fs.bgdt_buf) _ (record v { fs = fs })
      (write_block-ok m 1 fs.bgdt_buf (omega arith))
    ∙ then_ok write_super _ (put (record v { fs = fs }) 1 fs.bgdt_buf)
        (write_super-ok m1 (omega arith))
    ∙ write_block-ok m2 addr b fit

pub flushed-IsMounted :
    (v : Volume) (fs : FsInfo) (addr : ℕ) (b : Bytes)
    → IsMounted (record v { fs = fs })
    → IsMounted (flushed v fs addr b)
flushed-IsMounted v fs addr b m =
    put-IsMounted (put_super-IsMounted (put-IsMounted m 1 fs.bgdt_buf)) addr b

-- Behind block 1 a flush writes the bitmap's block alone.
pub block-flushed :
    (v : Volume) (fs : FsInfo) (addr n : ℕ) (b : Bytes)
    → 2 ≤ n
    → n ≢ addr
    → block (flushed v fs addr b) n ≡ block (record v { fs = fs }) n
block-flushed v fs addr n b far ne =
    block-put_other (put_super (put (record v { fs = fs }) 1 fs.bgdt_buf)) addr n b ne
    ∙ block-put_super (put (record v { fs = fs }) 1 fs.bgdt_buf) n (omega arith)
    ∙ block-put_other (record v { fs = fs }) 1 n fs.bgdt_buf (omega arith)

pub used-flushed :
    (v : Volume) (fs : FsInfo) (addr : ℕ) (b : Bytes) (j : ℕ)
    → j < 32768
    → used (block (flushed v fs addr b) addr) j ≡ used b j
used-flushed v fs addr b j h =
    ap (λ x. bit x (j % 8))
      (block-put_same (put_super (put (record v { fs = fs }) 1 fs.bgdt_buf)) addr b (j / 8)
        (omega arith))

Apart-fields : (g h a c : ℕ) → (a + 4 ≤ c) × (c + 2 ≤ 32) → Apart (32 * g + c) 2 (32 * h + a) 4
Apart-fields g h a c d = elim (Bool-cases (ltb g h)) [
  | inl less ↦ inl (let lt = ltb→lt g h less in omega arith)
  | inr more ↦ inr (let le = ltb→le g h more in omega arith)
]

Apart-counters : (g h c : ℕ) → g ≢ h → c + 2 ≤ 32 → Apart (32 * g + c) 2 (32 * h + c) 2
Apart-counters g h c ne d = elim (Bool-cases (ltb g h)) [
  | inl less ↦ inl (let lt = ltb→lt g h less in omega arith)
  | inr more ↦ inr (let le = ltb→le g h more in let ne' : h ≢ g = (λ e. ne (sym e)) in omega arith)
]

-- Counters written: the addresses and the other groups' counters stay.
module _ (k : Kind) (lay : InDescriptor k) (fs : FsInfo) (g cnt total : ℕ) where
  pub addr-with_count : (h : ℕ) → bitmap_addr k (with_count k fs g cnt total) h ≡ bitmap_addr k fs h
  addr-with_count h =
      get32-set16-Apart fs.bgdt_buf (32 * g + k.unalloc_cnt) cnt (32 * h + k.bitmap_addr)
        (Apart-fields g h k.bitmap_addr k.unalloc_cnt lay)

  pub cnt-with_count : cnt < 65536 → unalloc_cnt k (with_count k fs g cnt total) g ≡ cnt
  cnt-with_count small = get16-set16 fs.bgdt_buf (32 * g + k.unalloc_cnt) cnt small

  pub cnt-with_count_other :
      (h : ℕ) → g ≢ h → unalloc_cnt k (with_count k fs g cnt total) h ≡ unalloc_cnt k fs h
  cnt-with_count_other h ne =
      get16-set16-Apart fs.bgdt_buf (32 * g + k.unalloc_cnt) cnt (32 * h + k.unalloc_cnt)
        (Apart-counters g h k.unalloc_cnt ne lay.1)

  pub total-with_count : total < 2 ^ 32 → unalloc_total k (with_count k fs g cnt total) ≡ total
  total-with_count small = get32-set32 fs.sprblk_buf k.unalloc_total total small

-- The volume `w` is `v` with the bit `i` of group `g` made `x`, and the counters with it.
pub record Changed (k : Kind) (limit : ℕ) (v : Volume) (g i x cnt total : ℕ) (w : Volume)
    : Type 0 where
  pub sound : IsSound k limit w
  pub bits :
      (h j : ℕ)
      → h < v.fs.ngroups
      → j < 8 * limit
      → used (bitmap k w h) j ≡ (if (h == g) && (j == i) then x else used (bitmap k v h) j)
  pub count : (h : ℕ) → unalloc_cnt k w.fs h ≡ (if h == g then cnt else unalloc_cnt k v.fs h)
  pub whole : unalloc_total k w.fs ≡ total
  pub elsewhere : (n : ℕ) → 2 ≤ n → n ≢ bitmap_addr k v.fs g → block w n ≡ block v n
  pub ngroups : w.fs.ngroups ≡ v.fs.ngroups
  pub blks_per_grp : w.fs.blks_per_grp ≡ v.fs.blks_per_grp
  pub inodes_per_grp : w.fs.inodes_per_grp ≡ v.fs.inodes_per_grp
  pub super_fields :
      (o : ℕ) → Apart k.unalloc_total 4 o 4 → get32 w.fs.sprblk_buf o ≡ get32 v.fs.sprblk_buf o

-- The volume with new counters for the group `g` and its bitmap written.
abbrev pub changed : Kind → Volume → ℕ → ℕ → ℕ → Bytes → Volume
changed k v g cnt total b = flushed v (with_count k v.fs g cnt total) (bitmap_addr k v.fs g) b

module _ (k : Kind) (lay : InDescriptor k) (limit : ℕ) (small : limit ≤ 4096) (v : Volume)
    (s : IsSound k limit v) (g i x cnt total : ℕ) (b : Bytes) (group : g < v.fs.ngroups)
    (item : i < 8 * limit)
    (bits : (j : ℕ) → used b j ≡ (if j == i then x else used (bitmap k v g) j))
    (tally : cnt + (1 - used (bitmap k v g) i) ≡ unalloc_cnt k v.fs g + (1 - x))
    (cnt_small : cnt < 65536) (total_small : total < 2 ^ 32) where
  mounted' : IsMounted (record v { fs = with_count k v.fs g cnt total })
  mounted' = record { on_drive = s.mounted.on_drive; short = s.mounted.short }

  same_bitmap :
      (h : ℕ) → h < v.fs.ngroups → h ≢ g → bitmap k (changed k v g cnt total b) h ≡ bitmap k v h
  same_bitmap h p ne =
      ap (block (changed k v g cnt total b)) (addr-with_count k lay v.fs g cnt total h)
      ∙ block-flushed v (with_count k v.fs g cnt total) (bitmap_addr k v.fs g)
          (bitmap_addr k v.fs h) b (s.behind h p) (s.distinct h g p group ne)

  own_bits : (j : ℕ) → j < 8 * limit → used (bitmap k (changed k v g cnt total b) g) j ≡ used b j
  own_bits j p =
      ap (λ a. used (block (changed k v g cnt total b) a) j)
        (addr-with_count k lay v.fs g cnt total g)
      ∙ used-flushed v (with_count k v.fs g cnt total) (bitmap_addr k v.fs g) b j (omega arith)

  counts :
      (h : ℕ)
      → unalloc_cnt k (changed k v g cnt total b).fs h
        ≡ (if h == g then cnt else unalloc_cnt k v.fs h)
  counts h = elim (Bool-cases (h == g)) [
    | inl e ↦
        let e' : h ≡ g = ground arith in
        rw (e, e') (cnt-with_count k lay v.fs g cnt total cnt_small)
    | inr ne ↦ rw ne (cnt-with_count_other k lay v.fs g cnt total h (λ e. ground arith))
  ]

  counted_own : cnt ≡ free_items (bitmap k (changed k v g cnt total b) g) (8 * limit)
  counted_own =
      let change =
        free_items_change (bitmap k v g) (bitmap k (changed k v g cnt total b) g) i (8 * limit) item
          (λ j p ne. own_bits j p ∙ bits j ∙ ground arith) in
      let at_i : used (bitmap k (changed k v g cnt total b) g) i ≡ x =
        own_bits i item ∙ bits i ∙ ground arith in
      omega (arith, change, at_i, s.counted g group)

  bits_of :
      (h j : ℕ)
      → h < v.fs.ngroups
      → j < 8 * limit
      → used (bitmap k (changed k v g cnt total b) h) j
        ≡ (if (h == g) && (j == i) then x else used (bitmap k v h) j)
  bits_of h j p q = elim (Bool-cases (h == g)) [
    | inl e ↦ let e' : h ≡ g = ground arith in rw (e, e') (own_bits j q ∙ bits j)
    | inr ne ↦ rw ne (ap (λ c. used c j) (same_bitmap h p (λ e. ground arith)))
  ]

  counted' :
      (h : ℕ)
      → h < v.fs.ngroups
      → unalloc_cnt k (changed k v g cnt total b).fs h
        ≡ free_items (bitmap k (changed k v g cnt total b) h) (8 * limit)
  counted' h p = elim (Bool-cases (h == g)) [
    | inl e ↦
        let e' : h ≡ g = ground arith in
        rw e' (cnt-with_count k lay v.fs g cnt total cnt_small ∙ counted_own)
    | inr ne ↦
        let ne' : h ≢ g = λ e. ground arith in
        cnt-with_count_other k lay v.fs g cnt total h (λ e. ground arith)
        ∙ s.counted h p
        ∙ ap (λ c. free_items c (8 * limit)) (sym (same_bitmap h p ne'))
  ]

  sound' : IsSound k limit (changed k v g cnt total b)
  sound' = record {
    mounted = flushed-IsMounted v (with_count k v.fs g cnt total) (bitmap_addr k v.fs g) b mounted';
    room = s.room;
    fits = λ h p. rw (addr-with_count k lay v.fs g cnt total h) (s.fits h p);
    behind = λ h p. rw (addr-with_count k lay v.fs g cnt total h) (s.behind h p);
    distinct = λ h h' p q ne.
        rw (addr-with_count k lay v.fs g cnt total h, addr-with_count k lay v.fs g cnt total h')
          (s.distinct h h' p q ne);
    counted = counted';
  }

  pub change_lem : Changed k limit v g i x cnt total (changed k v g cnt total b)
  change_lem = record {
    sound = sound';
    bits = bits_of;
    count = counts;
    whole = total-with_count k lay v.fs g cnt total total_small;
    elsewhere = λ n far ne.
        block-flushed v (with_count k v.fs g cnt total) (bitmap_addr k v.fs g) n b far ne;
    ngroups = refl;
    blks_per_grp = refl;
    inodes_per_grp = refl;
    super_fields = λ o apart. get32-set32-Apart v.fs.sprblk_buf k.unalloc_total total o apart;
  }

  pub flush-changed :
      flush (with_count k v.fs g cnt total) (bitmap_addr k v.fs g) b v
      ≡ some (tt, (changed k v g cnt total b))
  flush-changed =
      flush-ok v (with_count k v.fs g cnt total) (bitmap_addr k v.fs g) b mounted' s.room
        (s.fits g group)
