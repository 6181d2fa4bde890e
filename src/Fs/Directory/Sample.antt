-- ===== src/Fs/Directory/Sample.antt =====
-- The block of a new directory: "." for inode 11 and ".." for inode 2.
use deprecat_os.Prelude.{ℕ, List, [], ◌∷◌, refl, arith, ◌==◌, if◌then◌else◌}
use deprecat_os.Fs.Bytes.{Bytes, get16}
use deprecat_os.Fs.Directory.Block.View.{Laid}

abbrev pub two_entries : Bytes
two_entries k =
    if k == 0
    then 11
    else if k == 4
    then 12
    else if k == 6
    then 1
    else if k == 8
    then 46
    else if k == 12
    then 2
    else if k == 16
    then 244
    else if k == 17
    then 15
    else if k == 18
    then 2
    else if k == 20
    then 46
    else if k == 21
    then 46
    else 0

abbrev pub two_sizes : List ℕ
two_sizes = 12 ∷ 4084 ∷ []

pub two_entries-Laid : Laid two_entries 0 two_sizes
unfolding Laid get16
two_entries-Laid = (refl, omega arith, omega arith, (refl, omega arith, omega arith, refl))
