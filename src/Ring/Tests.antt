-- ===== src/Ring/Tests.antt =====
-- The ring's theorem at one ring that wraps around, with three bytes in it.
use deprecat_os.Prelude.{◌+◌, ◌≡◌, [], ◌∷◌, arith}
use deprecat_os.Ring.{Ring, put, get, look, run}
use deprecat_os.Ring.Refine.{IsValid, contents, run_fifo, run_refines}

abbrev wrapped : Ring
wrapped = record { queue = λ k. k + 1; head = 1; tail = 254 }

wrapped-IsValid : IsValid wrapped
wrapped-IsValid = record { head_in = omega arith; tail_in = omega arith }

run_refines_example :
    run wrapped (get ∷ put 7 ∷ look ∷ []) ≡ run_fifo (contents wrapped) (get ∷ put 7 ∷ look ∷ [])
run_refines_example = run_refines (get ∷ put 7 ∷ look ∷ []) wrapped-IsValid
