-- ===== src/Division/Tests.antt =====
-- The division at one pair of numbers.
use deprecat_os.Prelude.{◌/◌, ◌%◌, ◌≡◌, some, arith}
use deprecat_os.Division.{udivmoddi4}
use deprecat_os.Division.Laws.{udivmoddi4_lem}

udivmoddi4_lem_example :
    udivmoddi4 10000000000000 1000003 ≡ some (10000000000000 / 1000003, 10000000000000 % 1000003)
udivmoddi4_lem_example = udivmoddi4_lem 10000000000000 1000003 (omega arith) (omega arith)
