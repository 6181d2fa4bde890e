-- ===== src/Mem/Tests.antt =====
-- The memory functions at ranges that overlap.
use deprecat_os.Prelude.{◌+◌, ◌-◌, ◌%◌, ◌&&◌, ◌≡◌, leb, ltb, if◌then◌else◌}
use deprecat_os.Mem.{Memory, memmove, memset, memcmp}
use deprecat_os.Mem.Laws.{memmove_lem, memset_lem, Compared, memcmp_lem}

abbrev counting : Memory
counting k = k

memmove_lem_example :
    memmove 103 100 9 counting 110
    ≡ (if leb 103 110 && ltb 110 (103 + 9) then 100 + (110 - 103) else 110)
memmove_lem_example = memmove_lem 9 103 100 counting 110

memset_lem_example :
    memset 50 513 7 counting 56 ≡ (if leb 50 56 && ltb 56 (50 + 7) then 513 % 256 else 56)
memset_lem_example = memset_lem 7 50 513 counting 56

memcmp_lem_example : Compared counting 4 9 3 0 (memcmp counting 4 9 3)
memcmp_lem_example = memcmp_lem counting 4 9 3
