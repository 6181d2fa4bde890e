-- ===== src/Memory/Tests.antt =====
-- The theorems of the frame allocator at a machine with 1 MiB from 1 MiB on, and a reserved region
-- that ends at 4 GiB.
use deprecat_os.Prelude.{◌*◌, ◌≡◌, refl, true, List, [], ◌∷◌, arith, ltb, if◌then◌else◌}
use deprecat_os.Memory.Frames.{
  Frames, Entry, alloc_frame, free_frame, frame_alloc_init, map_loop, word_loop,
}
use deprecat_os.Memory.Frames.Laws.{used, Allocated, alloc_frame_lem, free_frame-alloc_frame}
use deprecat_os.Memory.Frames.Init.{AllLow, held, frame_alloc_init_lem}

-- Frames 0 to 4 and those of the second word are taken.
abbrev some_taken : Frames
some_taken i = if ltb i 1 then 31 else 4294967295

abbrev machine : List Entry
machine =
    record { base_lo = 1048576; base_hi = 0; len_lo = 1048576; len_hi = 0; type = 1 }
    ∷ record { base_lo = 4294705152; base_hi = 0; len_lo = 262144; len_hi = 0; type = 2 }
    ∷ []

machine-AllLow : AllLow machine
machine-AllLow = (
  λ _ _. record { len_hi = refl; end_lt = omega arith; page_lt = omega arith },
  ((λ _ e. absurd (omega (arith, e))), tt),
)

alloc_frame_lem_example : Allocated some_taken (alloc_frame some_taken)
alloc_frame_lem_example = alloc_frame_lem some_taken

address_5 : (alloc_frame some_taken).0 ≡ 20480
unfolding alloc_frame map_loop word_loop
address_5 = refl

free_frame-alloc_frame_example :
    used (free_frame (alloc_frame some_taken).0 (alloc_frame some_taken).1) 9 ≡ used some_taken 9
free_frame-alloc_frame_example =
    free_frame-alloc_frame some_taken (λ e. absurd (omega (arith, address_5, e))) 9

frame_alloc_init_lem_example :
    used (frame_alloc_init true machine 1200000) 300
    ≡ (if ltb (300 * 4096) 1200000 then 1 else if held machine 300 then 0 else 1)
frame_alloc_init_lem_example =
    frame_alloc_init_lem machine 1200000 300 machine-AllLow (omega arith) (omega arith)
