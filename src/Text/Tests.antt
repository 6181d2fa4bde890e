-- ===== src/Text/Tests.antt =====
-- The string functions at two short strings.
use deprecat_os.Prelude.{◌≡◌, inl, some, arith, if◌then◌else◌, ltb}
use deprecat_os.Mem.{Memory}
use deprecat_os.Text.{strcat, streq}
use deprecat_os.Text.Laws.{IsText, Appended, strcat_lem, Answer, streq_lem}

-- "AA" at 10 and "AAA" at 20.
abbrev two_texts : Memory
two_texts x = if ltb x 12 then 65 else if ltb x 20 then 0 else if ltb x 23 then 65 else 0

IsText-10 : IsText two_texts 10 2
IsText-10 = record { ended = ground arith; inside = λ i h. ground arith }

IsText-20 : IsText two_texts 20 3
IsText-20 = record { ended = ground arith; inside = λ i h. ground arith }

strcat_lem_example :
    (r : Memory) × (strcat 4 two_texts 10 20 ≡ some r) × Appended two_texts r 12 20 3
strcat_lem_example =
    strcat_lem 4 two_texts 10 20 2 3 IsText-10 IsText-20 (omega arith) (inl (omega arith))
      (omega arith)

streq_lem_example : Answer two_texts 10 20 2 3 (streq 3 two_texts 10 20)
streq_lem_example = streq_lem 3 two_texts 10 20 2 3 IsText-10 IsText-20 (omega arith)
