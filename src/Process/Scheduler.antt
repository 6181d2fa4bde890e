-- ===== src/Process/Scheduler.antt =====
-- The timer's part of kernel/process/scheduler/scheduler.c: `schedule`, with the process table
-- that the pointers lead to and the ring-0 stack pointer that gdt/tssController.c keeps.
pub mod RoundRobin
use deprecat_os.Prelude.{
  ℕ, ◌+◌, ◌%◌, ◌^◌, Bool, true, false, Option, none, some, List, [], ◌∷◌, ◌==◌, if◌then◌else◌,
  write,
}
use deprecat_os.Process.Queue
use deprecat_os.Process.Queue.{ProcessQueue}

abbrev pub stack_size : ℕ
stack_size = 16384

pub record Process : Type 0 where
  pub esp : ℕ
  pub stack_addr : ℕ
  pub malloc_addr : ℕ

-- `process` is what stands at each address; `current` and the queue hold addresses.
pub record Scheduler : Type 0 where
  pub process : ℕ → Process
  pub current : ℕ
  pub ready : ProcessQueue
  pub tss_esp : ℕ

-- `tss_set_esp`
pub tss_set_esp : Scheduler → ℕ → Scheduler
tss_set_esp s esp = record s { tss_esp = esp }

-- `current->esp = esp`
pub save_esp : Scheduler → ℕ → Scheduler
save_esp s esp = record s {
  process = write s.process s.current (record (s.process s.current) { esp = esp });
}

-- The null pointer stands for a pop that finds nothing.
pub address : Option ℕ → ℕ
address none = 0
address (some p) = p

-- From `current = pqueue_pop()` on.
pub dispatch : Scheduler → Scheduler × ℕ
unfolding tss_set_esp address
dispatch s =
    let (ready, out) = Queue.pop s.ready in
    let next = address out in
    let popped : Scheduler = record s { ready = ready; current = next } in
    let addr = (s.process next).malloc_addr in
    let switched =
      if addr == 0 then popped else tss_set_esp popped ((addr + stack_size) % 2 ^ 32) in
    (switched, (s.process next).esp)

-- The result of `pqueue_push` is not looked at.
pub schedule : Scheduler → ℕ → Scheduler × ℕ
unfolding save_esp
schedule s esp =
    if Queue.is_empty s.ready
    then (s, esp)
    else let saved = save_esp s esp in
      dispatch (record saved { ready = (Queue.push s.ready s.current).0 })
