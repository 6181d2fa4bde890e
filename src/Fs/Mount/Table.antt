-- ===== src/Fs/Mount/Table.antt =====
-- The mounted file systems over the two drives, and the operations on them. `none` is a panic.
use deprecat_os.Prelude.{ℕ, Option, none, some, write}
use deprecat_os.Fs.Bytes.{Bytes}
use deprecat_os.Fs.Disk.{Drives}
use deprecat_os.Fs.Volume.{FsInfo, Volume, M}

-- A `struct fs_info` with the fields that mounting adds; `mountpoint` 0 is not mounted.
pub record Mounted : Type 0 where
  pub info : FsInfo
  pub mountpoint : ℕ
  pub label : Bytes

-- `fs_entries`, the place of `root_fs` in it, and the drives.
pub record System : Type 0 where
  pub entries : ℕ → Mounted
  pub root_fs : ℕ
  pub drives : Drives

abbrev pub S : Type 0 → Type 0
S A = System → Option (A × System)

abbrev pub pure : {A : Type 0} → A → S A
pure a s = some (a, s)

abbrev pub panic : {A : Type 0} → S A
panic s = none

infixl 5 ◌>>=◌ ◌>>◌
abbrev pub ◌>>=◌ : {A B : Type 0} → S A → (A → S B) → S B
◌>>=◌ m f s = elim (m s) [ none ↦ none | some (a, s') ↦ f a s' ]

abbrev pub ◌>>◌ : {A B : Type 0} → S A → S B → S B
m >> k = m >>= λ _. k

abbrev pub get_system : S System
get_system s = some (s, s)

abbrev pub set_system : System → S (Unit {0})
set_system t s = some (tt, t)

abbrev pub with_entry : System → ℕ → Mounted → System
with_entry s fs e = record s { entries = write s.entries fs e }

-- The volume of an entry, and the entry after an operation on it.
abbrev pub volume_of : System → ℕ → Volume
volume_of s fs = record { fs = (s.entries fs).info; drives = s.drives }

unfoldable pub after_volume : System → ℕ → Volume → System
after_volume s fs v = record s {
  entries = write s.entries fs (record (s.entries fs) { info = v.fs });
  drives = v.drives;
}

-- An operation on the file system `fs`.
unfoldable pub on : {A : Type 0} → ℕ → M A → S A
unfolding after_volume
on fs m s = elim (m (volume_of s fs)) [ none ↦ none | some (a, v) ↦ some (a, after_volume s fs v) ]
