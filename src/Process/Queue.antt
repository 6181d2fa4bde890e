-- ===== src/Process/Queue.antt =====
-- kernel/process/queue/processQueue.c and .h. The file's three static variables are a record; a
-- `Process *` is its address, and the null pointer that `pqueue_pop` and `pqueue_peek` return
-- is `none`.
pub mod Refine
use deprecat_os.Prelude.{
  ℕ, ◌+◌, ◌-◌, ◌%◌, Bool, true, false, Option, none, some, List, [], ◌∷◌, ◌==◌, if◌then◌else◌,
  write,
}

pub record ProcessQueue : Type 0 where
  pub queue : ℕ → ℕ
  pub head : ℕ
  pub tail : ℕ

pub init : ProcessQueue → ProcessQueue
init s = record s { head = 0; tail = 0 }

pub is_empty : ProcessQueue → Bool
is_empty s = if s.head == s.tail then true else false

pub pop : ProcessQueue → ProcessQueue × Option ℕ
unfolding is_empty
pop s =
    if is_empty s
    then (s, none)
    else let temp = s.tail in (record s { tail = (s.tail + 1) % 256 }, some (s.queue temp))

pub peek : ProcessQueue → Option ℕ
unfolding is_empty
peek s = if is_empty s then none else some (s.queue s.tail)

pub push : ProcessQueue → ℕ → ProcessQueue × Bool
push s p =
    let next = (s.head + 1) % 256 in
    if next == s.tail
    then (s, false)
    else (record s { queue = write s.queue s.head p; head = next }, true)

-- `(unsigned char) (head - tail)`
pub size : ProcessQueue → ℕ
size s = (s.head + 256 - s.tail) % 256
