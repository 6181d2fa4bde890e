-- ===== src/Fs/Volume/Keeps.antt =====
-- What an operation on a volume leaves as it is: the geometry of the volume, and every sector
-- outside its partition. One rule for each way to build an operation.
use deprecat_os.Prelude.{
  ℕ, ◌+◌, ◌*◌, ◌%◌, ◌^◌, ◌≤◌, ◌<◌, ◌≡◌, ◌≢◌, ◌∙◌, ◌⊎◌, ap, refl, sym, subst, Bool, true, false,
  Option, none, some, arith, Bool-cases, inl, inr, ◌==◌, ltb, if◌then◌else◌, case_option,
}
use deprecat_os.Fs.Bytes.{Bytes}
use deprecat_os.Fs.Disk.{ata_master, ata_write48_part}
use deprecat_os.Fs.Disk.Laws.{drive_of, stored-OnDrive, stored-elsewhere, write_part}
use deprecat_os.Fs.Volume.{
  FsInfo, Volume, M, pure, panic, ◌>>=◌, get_fs, set_fs, read_block, write_block, write_super,
}
use deprecat_os.Fs.Volume.Laws.{IsMounted}

-- Sector `l` of the drive `d` is not of the volume's partition.
abbrev pub Outside : Volume → ℕ → ℕ → Type 0
Outside v d l =
    ((d == ata_master) ≢ (v.fs.drive == ata_master))
    ⊎ (l < v.fs.start_lba)
    ⊎ (v.fs.start_lba + v.fs.sector_count ≤ l)

-- The same `struct fs_info` but for the contents of the two buffers.
abbrev pub with_buffers : FsInfo → FsInfo → FsInfo
with_buffers fs bufs = record fs { bgdt_buf = bufs.bgdt_buf; sprblk_buf = bufs.sprblk_buf }

pub record Within (v w : Volume) : Type 0 where
  pub mounted : IsMounted w
  pub fs : w.fs ≡ with_buffers v.fs w.fs
  pub sectors :
      (d l k : ℕ)
      → Outside v d l
      → (drive_of w.drives d).sector l k ≡ (drive_of v.drives d).sector l k

-- What a run from `v` returns has stayed within the volume; a panic returns nothing.
unfoldable pub Stayed : {A : Type 0} → Volume → Option (A × Volume) → Type 0
Stayed v none = Unit {0}
Stayed v (some (a, w)) = Within v w

-- `fs` has the geometry of `g`.
pub record Like (g fs : FsInfo) : Type 0 where
  pub same : fs ≡ with_buffers g fs

pub Like-with_buffers : {g : FsInfo} (fs bufs : FsInfo) → Like g fs → Like g (with_buffers fs bufs)
Like-with_buffers fs bufs l = record { same = ap (λ f. with_buffers f bufs) l.same }

pub Like-bgdt :
    {g : FsInfo} (fs : FsInfo) (b : Bytes) → Like g fs → Like g (record fs { bgdt_buf = b })
Like-bgdt fs b l = Like-with_buffers fs (record fs { bgdt_buf = b }) l

-- `m` stays within every volume of the geometry of `g`.
pub record Keeps (g : FsInfo) {A : Type 0} (m : M A) : Type 0 where
  pub at : (v : Volume) → IsMounted v → Like g v.fs → Stayed v (m v)

Within-refl : (v : Volume) → IsMounted v → Within v v
Within-refl v h = record { mounted = h; fs = refl; sectors = λ d l k o. refl }

Outside-fs :
    (u v : Volume) (d l : ℕ) → v.fs ≡ with_buffers u.fs v.fs → Outside u d l → Outside v d l
Outside-fs u v d l e o =
    let drive : v.fs.drive ≡ u.fs.drive = ap (λ f. f.drive) e in
    let start : v.fs.start_lba ≡ u.fs.start_lba = ap (λ f. f.start_lba) e in
    let count : v.fs.sector_count ≡ u.fs.sector_count = ap (λ f. f.sector_count) e in ground arith

Within-trans : {u v w : Volume} → Within u v → Within v w → Within u w
Within-trans {u} {v} {w} p q = record {
  mounted = q.mounted;
  fs = q.fs ∙ ap (λ f. with_buffers f w.fs) p.fs;
  sectors = λ d l k o. q.sectors d l k (Outside-fs u v d l p.fs o) ∙ p.sectors d l k o;
}

module _ {g : FsInfo} {A : Type 0} where
  pub Keeps-pure : (a : A) → Keeps g (pure a)
  unfolding Stayed
  Keeps-pure a = record { at = λ v h e. Within-refl v h }

  pub Keeps-panic : Keeps g (panic {A = A})
  unfolding Stayed
  Keeps-panic = record { at = λ v h e. tt }

  pub Keeps-if : (b : Bool) (m n : M A) → Keeps g m → Keeps g n → Keeps g (if b then m else n)
  Keeps-if true m n p q = p
  Keeps-if false m n p q = q

Stayed-after :
    {A : Type 0} (u v : Volume) (r : Option (A × Volume)) → Within u v → Stayed v r → Stayed u r
unfolding Stayed
Stayed-after u v none p s = tt
Stayed-after u v (some (a, w)) p s = Within-trans p s

Stayed-bind :
    {g : FsInfo} {A B : Type 0} (v : Volume) (r : Option (A × Volume)) (f : A → M B)
    → Like g v.fs
    → Stayed v r
    → ((a : A) → Keeps g (f a))
    → Stayed v (elim r [ none ↦ none | some (a, w) ↦ f a w ])
unfolding Stayed
Stayed-bind v none f e s q = tt
Stayed-bind v (some (a, w)) f e s q =
    Stayed-after v w (f a w) s
      ((q a).at w s.mounted (record { same = s.fs ∙ ap (λ h. with_buffers h w.fs) e.same }))

module _ {g : FsInfo} {A B : Type 0} where
  pub Keeps-bind :
      (m : M A) (f : A → M B) → Keeps g m → ((a : A) → Keeps g (f a)) → Keeps g (m >>= f)
  Keeps-bind m f p q = record { at = λ v h e. Stayed-bind v (m v) f e (p.at v h e) q }

pub Keeps-option :
    {g : FsInfo} {A B : Type 0} (o : Option A) (m : M B) (f : A → M B)
    → Keeps g m
    → ((a : A) → Keeps g (f a))
    → Keeps g (case_option o m f)
Keeps-option none m f p q = p
Keeps-option (some a) m f p q = q a

pub Keeps-elim :
    {g : FsInfo} {A B : Type 0} (o : Option A) (m : M B) (f : A → M B)
    → Keeps g m
    → ((a : A) → Keeps g (f a))
    → Keeps g (elim o [ none ↦ m | some a ↦ f a ])
Keeps-elim none m f p q = p
Keeps-elim (some a) m f p q = q a

-- What `get_fs` hands on has the volume's geometry.
pub Keeps-get_fs :
    {g : FsInfo} {B : Type 0} (f : FsInfo → M B)
    → ((fs : FsInfo) → Like g fs → Keeps g (f fs))
    → Keeps g (get_fs >>= f)
Keeps-get_fs f q = record { at = λ v h e. (q v.fs e).at v h e }

Stayed-read :
    (v : Volume) (o : Option Bytes)
    → IsMounted v
    → Stayed v (elim o [ none ↦ none | some buf ↦ some (buf, v) ])
unfolding Stayed
Stayed-read v none h = tt
Stayed-read v (some buf) h = Within-refl v h

pub Keeps-read_block : {g : FsInfo} (n : ℕ) → Keeps g (read_block n)
unfolding read_block
Keeps-read_block n = record { at = λ v h e. Stayed-read v _ h }

-- A write at sector `lba` of the partition.
write_within :
    (v : Volume) (lba count : ℕ) (buf : Bytes)
    → IsMounted v
    → lba < 2 ^ 32
    → count < 2 ^ 16
    → Stayed v
        (elim (ata_write48_part v.drives v.fs.drive v.fs.start_lba v.fs.sector_count lba count
          buf) [ none ↦ none | some ds ↦ some (tt, record v { drives = ds }) ])
unfolding Stayed ata_write48_part
write_within v lba count buf h small few =
    elim (Bool-cases (ltb v.fs.sector_count ((lba + count) % 2 ^ 64))) [
      | inl e ↦ rw (ata_write48_part, e) tt
      | inr e ↦ rw (write_part h.on_drive lba count (ground arith) few buf) (record {
        mounted = record {
          on_drive = stored-OnDrive (v.fs.start_lba + lba) count buf h.on_drive;
          short = h.short;
        };
        fs = refl;
        sectors = λ d l k o.
            stored-elsewhere v.drives v.fs.drive (v.fs.start_lba + lba) count buf d l k
              (ground arith);
      })
    ]

pub Keeps-write_block : {g : FsInfo} (n : ℕ) (buf : Bytes) → Keeps g (write_block n buf)
unfolding write_block
Keeps-write_block n buf = record {
  at = λ v h e. write_within v (n * 8 % 2 ^ 32) 8 buf h (omega arith) (omega arith);
}

pub Keeps-write_super : {g : FsInfo} → Keeps g write_super
unfolding write_super
Keeps-write_super = record {
  at = λ v h e. write_within v 2 2 v.fs.sprblk_buf h (omega arith) (omega arith);
}

pub Keeps-set_fs : {g : FsInfo} (fs : FsInfo) → Like g fs → Keeps g (set_fs fs)
unfolding Stayed
Keeps-set_fs {g} fs l = record {
  at = λ v h e.
      let like : fs ≡ with_buffers v.fs fs = l.same ∙ sym (ap (λ f. with_buffers f fs) e.same) in
      record {
        mounted =
            subst (λ f. IsMounted (record v { fs = f })) (sym like)
              (record { on_drive = h.on_drive; short = h.short });
        fs = like;
        sectors = λ d l k o. refl;
      };
}

pub ruleset keeps_rules = (
  Keeps-pure, Keeps-panic, Keeps-if, Keeps-bind, Keeps-option, Keeps-get_fs, Keeps-read_block,
  Keeps-write_block, Keeps-write_super, Keeps-set_fs,
)
