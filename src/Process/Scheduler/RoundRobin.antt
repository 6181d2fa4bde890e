-- ===== src/Process/Scheduler/RoundRobin.antt =====
-- The scheduler as a round robin: one tick, and a round of ticks.
use deprecat_os.Prelude.{
  ℕ, ◌+◌, ◌%◌, ◌^◌, ◌<◌, ◌≡◌, ◌≢◌, refl, sym, subst, ◌∙◌, ap, some, List, [], ◌∷◌, ◌++◌, arith,
  ◌==◌, if◌then◌else◌, length, length-append, write, write_other,
}
use mathlib.Core.Path.{ap₂}
use mathlib.Core.List.{append-nil, append_assoc}
use deprecat_os.Process.Queue
use deprecat_os.Process.Queue.{ProcessQueue}
use deprecat_os.Process.Queue.Refine.{
  IsValid, waiting, push-IsValid, pop-IsValid, not_empty, pop-cons, push-room,
}
use deprecat_os.Process.Scheduler.{Scheduler, stack_size, save_esp, dispatch, schedule, tss_set_esp}

-- What one timer tick does when `p` is next, `rest` wait behind it and the queue has room.
pub record Switched (s : Scheduler) (esp p : ℕ) (rest : List ℕ) (out : Scheduler × ℕ) : Type 0 where
  pub valid : IsValid out.0.ready
  pub current : out.0.current ≡ p
  pub order : waiting out.0.ready ≡ rest ++ (s.current ∷ [])
  pub saved : (out.0.process s.current).esp ≡ esp
  pub others : (q : ℕ) → q ≢ s.current → out.0.process q ≡ s.process q
  pub resumed : out.1 ≡ (out.0.process p).esp
  pub stack : out.0.tss_esp ≡ (
      if (s.process p).malloc_addr == 0
      then s.tss_esp
      else ((s.process p).malloc_addr + stack_size) % 2 ^ 32)

module _ (s : Scheduler) (esp : ℕ) {p : ℕ} {rest : List ℕ} (v : IsValid s.ready)
    (e : waiting s.ready ≡ p ∷ rest) (room : length rest < 254) where
  pushed : ProcessQueue
  pushed = (Queue.push s.ready s.current).0

  pushed-IsValid : IsValid pushed
  unfolding pushed
  pushed-IsValid = push-IsValid v s.current

  waiting-pushed : waiting pushed ≡ p ∷ (rest ++ (s.current ∷ []))
  unfolding pushed
  waiting-pushed = push-room s.current v (rw e (omega arith)) ∙ ap (λ l. l ++ (s.current ∷ [])) e

  popped :
      ((Queue.pop pushed).1 ≡ some p) × (waiting (Queue.pop pushed).0 ≡ rest ++ (s.current ∷ []))
  popped = pop-cons pushed-IsValid waiting-pushed

  schedule_step : schedule s esp ≡ dispatch (record (save_esp s esp) { ready = pushed })
  unfolding schedule pushed
  schedule_step = rw (not_empty v e)

  dispatch_switches : Switched s esp p rest (dispatch (record (save_esp s esp) { ready = pushed }))
  unfolding dispatch save_esp write tss_set_esp
  dispatch_switches =
      rw (popped.0, dispatch)
        (record {
          valid = ground (arith, pop-IsValid pushed-IsValid);
          current = ground arith;
          order = ground (arith, popped.1);
          saved = ground (arith);
          others = λ q ne. ground (
            arith,
            write_other s.process s.current (record (s.process s.current) { esp = esp }) q ne,
          );
          resumed = ground arith;
          stack = ground arith;
        })

  -- When `p` is next, `rest` waits behind it and the queue has room, `schedule` saves the stack
  -- pointer of the running process and puts it last, starts `p` with its own stack pointer, sets
  -- the ring-0 stack if `p` has one, and changes no other process.
  pub schedule_switches : Switched s esp p rest (schedule s esp)
  schedule_switches = subst (Switched s esp p rest) (sym schedule_step) dispatch_switches

-- One timer tick after another, at each the stack pointer of the process that it interrupts.
unfoldable pub ticks : Scheduler → List ℕ → Scheduler
ticks s [] = s
ticks s (esp ∷ es) = ticks (schedule s esp).0 es

-- The process that each tick starts.
unfoldable pub history : Scheduler → List ℕ → List ℕ
history s [] = []
history s (esp ∷ es) = (schedule s esp).0.current ∷ history (schedule s esp).0 es

-- All processes, the one that waits longest first and the running one last.
abbrev pub order : Scheduler → List ℕ
order s = waiting s.ready ++ (s.current ∷ [])

-- What ticks that start `xs` leave, where `ys` were not started.
pub record Rotated (s : Scheduler) (es xs ys : List ℕ) : Type 0 where
  pub started : history s es ≡ xs
  pub later : order (ticks s es) ≡ ys ++ xs
  pub valid : IsValid (ticks s es).ready

cons-injective : {x y : ℕ} {xs ys : List ℕ} → x ∷ xs ≡ y ∷ ys → (x ≡ y) × (xs ≡ ys)
cons-injective e = (cc, cc)

snoc_head :
    (w : List ℕ) (c : ℕ) → (q : ℕ) × (r : List ℕ) × (w ++ (c ∷ []) ≡ q ∷ r) × (length r ≡ length w)
snoc_head [] c = (c, [], refl, refl)
snoc_head (x ∷ w) c = (x, w ++ (c ∷ []), refl, omega (arith, length-append w (c ∷ [])))

rotated :
    (s : Scheduler) (es xs ys w : List ℕ) (p : ℕ)
    → IsValid s.ready
    → waiting s.ready ≡ p ∷ w
    → length w < 254
    → order s ≡ xs ++ ys
    → length es ≡ length xs
    → Rotated s es xs ys
unfolding ticks history
rotated s [] [] ys w p v e room split n = record {
  started = refl;
  later = split ∙ sym (append-nil ys);
  valid = v;
}
rotated s [] (x ∷ xs) ys w p v e room split n = absurd (omega arith)
rotated s (esp ∷ es) [] ys w p v e room split n = absurd (omega arith)
rotated s (esp ∷ es) (x ∷ xs) ys w p v e room split n =
    let t = schedule_switches s esp v e room in
    let parts = cons-injective (sym (ap (λ l. l ++ (s.current ∷ [])) e) ∙ split) in
    let first = snoc_head w s.current in
    let next_order : order (schedule s esp).0 ≡ xs ++ (ys ++ (x ∷ [])) =
      ap₂ (λ l c. l ++ (c ∷ [])) (t.order ∙ parts.1) (t.current ∙ parts.0)
      ∙ append_assoc xs ys (x ∷ []) in
    let ih =
      rotated (schedule s esp).0 es xs (ys ++ (x ∷ [])) first.1 first.0 t.valid (t.order ∙ first.2)
        (omega (arith, first.3)) next_order (omega arith) in
    record {
      started = ap₂ ◌∷◌ (t.current ∙ parts.0) ih.started;
      later = ih.later ∙ append_assoc ys (x ∷ []) xs;
      valid = ih.valid;
    }

-- With n processes, 2 to 255 of them, of which one runs and the others wait in a valid queue, n
-- ticks of `schedule` start each process once, in the order in which they waited, and end with the
-- same process running, the same order and a valid queue.
pub full_round :
    (s : Scheduler) (p : ℕ) (w es : List ℕ)
    → IsValid s.ready
    → waiting s.ready ≡ p ∷ w
    → length w < 254
    → length es ≡ length (order s)
    → (history s es ≡ order s) × (order (ticks s es) ≡ order s) × IsValid (ticks s es).ready
full_round s p w es v e room n =
    let r = rotated s es (order s) [] w p v e room (sym (append-nil (order s))) n in
    (r.started, r.later, r.valid)
