-- ===== src/Fs/Mount/Laws.antt =====
-- Crossing a mount point and back.
use deprecat_os.Prelude.{
  ℕ, zero, suc, ◌+◌, ◌≤◌, ◌<◌, ◌≡◌, ◌≢◌, ◌∙◌, ap, refl, sym, true, some, arith, Bool-cases, inl,
  inr, ◌==◌,
}
use deprecat_os.Fs.Directory.Scan.{root_inode_n}
use deprecat_os.Fs.Mount.{mounted_at, return_mnt_root, return_mnt_mountpoint}
use deprecat_os.Fs.Mount.Table.{System}

-- No two entries of the table are mounted on the same inode, and the root is not mounted.
pub record IsTable (s : System) : Type 0 where
  pub distinct :
      (i j : ℕ)
      → i < 8
      → j < 8
      → (s.entries i).mountpoint ≡ (s.entries j).mountpoint
      → (s.entries i).mountpoint ≢ 0
      → i ≡ j
  pub root_unmounted : (s.entries s.root_fs).mountpoint ≡ 0

find_mounted :
    (s : System) (fs n : ℕ) (left part : ℕ)
    → ((i : ℕ) → i < 8 → (s.entries i).mountpoint ≡ n → i ≡ fs)
    → (s.entries fs).mountpoint ≡ n
    → part ≤ fs
    → fs < part + left
    → part + left ≤ 8
    → mounted_at s.entries n left part ≡ some fs
unfolding mounted_at
find_mounted s fs n zero part only at lo hi top = absurd (omega arith)
find_mounted s fs n (suc left) part only at lo hi top =
    elim (Bool-cases ((s.entries part).mountpoint == n)) [
      | inl e ↦ rw e (ap some (only part (omega arith) (ground arith)))
      | inr e ↦
          let later : part ≢ fs =
            λ same. absurd (ground (arith, ap (λ i. (s.entries i).mountpoint) same)) in
          ground (
            arith,
            find_mounted s fs n left (part + 1) only at (omega arith) (omega arith) (omega arith),
          )
    ]

-- In a table where no two file systems are mounted on the same inode and the root is not mounted,
-- from the root directory of a mounted file system other than the root `return_mnt_mountpoint`
-- leads to its mount point on the root, and `return_mnt_root` leads from there back to the root
-- directory of the same file system.
pub return_mnt_root-return_mnt_mountpoint :
    (s : System) (fs : ℕ)
    → IsTable s
    → fs < 8
    → (s.entries fs).mountpoint ≢ 0
    → (n : ℕ) × (return_mnt_mountpoint s fs root_inode_n ≡ (true, s.root_fs, n))
      × (return_mnt_root s s.root_fs n ≡ (true, fs, root_inode_n))
unfolding return_mnt_mountpoint return_mnt_root
return_mnt_root-return_mnt_mountpoint s fs t small up =
    let n = (s.entries fs).mountpoint in
    let away : fs ≢ s.root_fs =
      λ same. up (ap (λ i. (s.entries i).mountpoint) same ∙ t.root_unmounted) in
    let only : (i : ℕ) → i < 8 → (s.entries i).mountpoint ≡ n → i ≡ fs =
      λ i h e. sym (t.distinct fs i small h (sym e) up) in
    let back = find_mounted s fs n 8 0 only refl (omega arith) (omega arith) (omega arith) in
    let here : (s.root_fs == s.root_fs) ≡ true = ground arith in
    (n, ground arith, rw (return_mnt_root, here, back) refl)
