-- ===== src/Fs/Volume/Laws.antt =====
-- The blocks of a volume: what a write changes, and that the transfers inside it go through.
use deprecat_os.Prelude.{
  ℕ, ◌+◌, ◌-◌, ◌*◌, ◌/◌, ◌%◌, ◌^◌, ◌≤◌, ◌<◌, ◌≡◌, ◌≢◌, ap, fun_ext, some, arith,
}
use deprecat_os.Fs.Bytes.{Bytes}
use deprecat_os.Fs.Disk.Laws.{
  OnDrive, span, stored, stored-sector, stored-OnDrive, read_part, write_part,
}
use deprecat_os.Fs.Volume.{Volume, M, ◌>>=◌, ◌>>◌, fresh, read_block, write_block, write_super}

pub record IsMounted (v : Volume) : Type 0 where
  pub on_drive : OnDrive v.drives v.fs.drive v.fs.start_lba v.fs.sector_count
  pub short : v.fs.sector_count < 2 ^ 32

-- Block `n` lies inside the partition.
abbrev pub Fits : Volume → ℕ → Type 0
Fits v n = 8 * n + 8 ≤ v.fs.sector_count

abbrev pub block : Volume → ℕ → Bytes
block v n = span v.drives v.fs.drive (v.fs.start_lba + 8 * n) 8

abbrev pub put : Volume → ℕ → Bytes → Volume
put v n b = record v { drives = stored v.drives v.fs.drive (v.fs.start_lba + 8 * n) 8 b }

abbrev pub put_super : Volume → Volume
put_super v = record v {
  drives = stored v.drives v.fs.drive (v.fs.start_lba + 2) 2 v.fs.sprblk_buf;
}

module _ {v : Volume} (m : IsMounted v) where
  pub read_block-ok : (n : ℕ) → Fits v n → read_block n v ≡ some (block v n, v)
  unfolding read_block
  read_block-ok n h =
      let e : n * 8 % 2 ^ 32 ≡ 8 * n = omega arith in
      rw (read_block, e, read_part m.on_drive (8 * n) 8 (omega arith) (omega arith) fresh)

  pub write_block-ok : (n : ℕ) (b : Bytes) → Fits v n → write_block n b v ≡ some (tt, put v n b)
  unfolding write_block
  write_block-ok n b h =
      let e : n * 8 % 2 ^ 32 ≡ 8 * n = omega arith in
      rw (write_block, e, write_part m.on_drive (8 * n) 8 (omega arith) (omega arith) b)

  pub write_super-ok : Fits v 0 → write_super v ≡ some (tt, put_super v)
  unfolding write_super
  write_super-ok h =
      rw (write_super, write_part m.on_drive 2 2 (omega arith) (omega arith) v.fs.sprblk_buf)

  pub put-IsMounted : (n : ℕ) (b : Bytes) → IsMounted (put v n b)
  put-IsMounted n b = record {
    on_drive = stored-OnDrive (v.fs.start_lba + 8 * n) 8 b m.on_drive;
    short = m.short;
  }

  pub put_super-IsMounted : IsMounted (put_super v)
  put_super-IsMounted = record {
    on_drive = stored-OnDrive (v.fs.start_lba + 2) 2 v.fs.sprblk_buf m.on_drive;
    short = m.short;
  }

regroup : (b : Bytes) (l k : ℕ) → b ((l + k / 512 - l) * 512 + k % 512) ≡ b k
regroup b l k = ap b (omega arith)

pub block-put_same :
    (v : Volume) (n : ℕ) (b : Bytes) (k : ℕ) → k < 4096 → block (put v n b) n k ≡ b k
unfolding span
block-put_same v n b k h =
    let l = v.fs.start_lba + 8 * n in
    ground (arith, stored-sector v.drives v.fs.drive l 8 b (l + k / 512) (k % 512), regroup b l k)

pub block-put_other : (v : Volume) (n m : ℕ) (b : Bytes) → m ≢ n → block (put v n b) m ≡ block v m
unfolding span
block-put_other v n m b h = fun_ext λ k.
    let l = v.fs.start_lba in
    ground
      (arith, stored-sector v.drives v.fs.drive (l + 8 * n) 8 b (l + 8 * m + k / 512) (k % 512))

pub block-put_super : (v : Volume) (m : ℕ) → m ≢ 0 → block (put_super v) m ≡ block v m
unfolding span
block-put_super v m h = fun_ext λ k.
    let l = v.fs.start_lba in
    let stays = stored-sector v.drives v.fs.drive (l + 2) 2 v.fs.sprblk_buf in
    ground (arith, stays (l + 8 * m + k / 512) (k % 512))

-- A step that goes through hands its result to the next.
pub bind_ok :
    {A B : Type 0} (m : M A) (f : A → M B) (v : Volume) {a : A} {w : Volume}
    → m v ≡ some (a, w)
    → (m >>= f) v ≡ f a w
bind_ok m f v e = rw (e, ◌>>=◌)

pub then_ok :
    {B : Type 0} (m : M (Unit {0})) (k : M B) (v : Volume) {w : Volume}
    → m v ≡ some (tt, w)
    → (m >> k) v ≡ k w
then_ok m k v e = bind_ok m (λ _. k) v e
