-- ===== src/Ring.antt =====
-- etc/lib/rb/ringBuffer.c and .h: the ring of key codes between the keyboard interrupt and the
-- read system call. A function that changes `*rb` returns the new ring; what goes through `out`
-- is an option.
pub mod Refine
mod Tests
use deprecat_os.Prelude.{
  ℕ, ◌+◌, ◌%◌, Bool, true, false, Option, none, some, List, [], ◌∷◌, ◌==◌, if◌then◌else◌, write,
}

-- `ringBuffer`: `queue` is the array of 256 bytes, read and written at `unsigned char` indices.
pub record Ring : Type 0 where
  pub queue : ℕ → ℕ
  pub head : ℕ
  pub tail : ℕ

pub init : Ring → Ring
init r = record r { head = 0; tail = 0 }

pub is_empty : Ring → Bool
is_empty r = if r.tail == r.head then true else false

pub push : Ring → ℕ → Ring × Bool
push r c =
    let next = (r.head + 1) % 256 in
    if next == r.tail
    then (r, false)
    else (record r { queue = write r.queue r.head c; head = next }, true)

pub pop : Ring → Ring × Option ℕ
unfolding is_empty
pop r =
    if is_empty r
    then (r, none)
    else (record r { tail = (r.tail + 1) % 256 }, some (r.queue r.tail))

pub peek : Ring → Option ℕ
unfolding is_empty
peek r = if is_empty r then none else some (r.queue r.tail)

-- The calls of the two sides in the order in which they happen, with what each returns.
pub data Op : Type 0 where
  put : ℕ → Op
  get look : Op

pub data Reply : Type 0 where
  stored : Bool → Reply
  taken seen : Option ℕ → Reply

pub run : Ring → List Op → List Reply
run r [] = []
run r (put c ∷ ops) = let (r', done) = push r c in stored done ∷ run r' ops
run r (get ∷ ops) = let (r', out) = pop r in taken out ∷ run r' ops
run r (look ∷ ops) = seen (peek r) ∷ run r ops
