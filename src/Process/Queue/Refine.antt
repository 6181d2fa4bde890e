-- ===== src/Process/Queue/Refine.antt =====
-- The process queue against a list of at most 255 processes, oldest first.
use deprecat_os.Prelude.{
  ℕ, suc, ◌<◌, ◌≡◌, sym, ◌∙◌, ap, false, some, List, [], ◌∷◌, ◌++◌, arith, length, write,
  write_same,
}
use deprecat_os.Fifo
use deprecat_os.Circular.{
  distance, window, length-window, window-write_out, window_snoc, window_head, window-zero,
}
use deprecat_os.Process.Queue.{ProcessQueue, init, is_empty, pop, peek, push, size}

pub record IsValid (s : ProcessQueue) : Type 0 where
  pub head_in : s.head < 256
  pub tail_in : s.tail < 256

-- The processes that wait, the next one first.
unfoldable pub waiting : ProcessQueue → List ℕ
waiting s = window s.queue s.tail (distance s.head s.tail)

pub init-IsValid : (s : ProcessQueue) → IsValid (init s) × (waiting (init s) ≡ [])
unfolding init waiting
init-IsValid s = (omega arith, window-zero s.queue 0)

pub length-waiting : (s : ProcessQueue) → length (waiting s) ≡ size s
unfolding waiting size
length-waiting s = length-window s.queue s.tail (distance s.head s.tail)

waiting_stored :
    {s : ProcessQueue} (p : ℕ)
    → IsValid s
    → distance s.head s.tail < 255
    → window (write s.queue s.head p) s.tail (suc (distance s.head s.tail)) ≡ waiting s ++ (p ∷ [])
unfolding waiting
waiting_stored {s} p v room =
    window_snoc (write s.queue s.head p) (distance s.head s.tail) s.tail s.head (omega arith)
      (omega arith)
    ∙ rw (write_same s.queue s.head p) (
        ap (λ l. l ++ (p ∷ []))
          (window-write_out s.queue s.head p (distance s.head s.tail) s.tail (omega arith)
            (omega arith) (omega arith)))

-- The calls of the process queue against those of the bounded list.
pub record Refines (s : ProcessQueue) : Type 0 where
  pub push_valid : (p : ℕ) → IsValid (push s p).0
  pub pop_valid : IsValid (pop s).0
  pub push_fifo : (p : ℕ) → (waiting (push s p).0, (push s p).1) ≡ Fifo.push (waiting s) p
  pub pop_fifo : (waiting (pop s).0, (pop s).1) ≡ Fifo.pop (waiting s)
  pub peek_fifo : peek s ≡ Fifo.peek (waiting s)
  pub size_fifo : size s ≡ length (waiting s)

module _ {s : ProcessQueue} (v : IsValid s) where
  pub push-IsValid : (p : ℕ) → IsValid (push s p).0
  unfolding push
  push-IsValid p = ground arith

  pub pop-IsValid : IsValid (pop s).0
  unfolding pop
  pop-IsValid = ground arith

  pub push_refines : (p : ℕ) → (waiting (push s p).0, (push s p).1) ≡ Fifo.push (waiting s) p
  unfolding push Fifo.push waiting size
  push_refines p = ground (arith, length-waiting s, waiting_stored p v)

  pub pop_refines : (waiting (pop s).0, (pop s).1) ≡ Fifo.pop (waiting s)
  unfolding pop Fifo.pop waiting
  pop_refines =
      ground
        (arith, window-zero s.queue s.tail, window_head s.queue s.tail (distance s.head s.tail))

  pub peek_refines : peek s ≡ Fifo.peek (waiting s)
  unfolding peek Fifo.peek waiting
  peek_refines =
      ground
        (arith, window-zero s.queue s.tail, window_head s.queue s.tail (distance s.head s.tail))

  -- Each call of a valid process queue keeps the indices in range and is the call of a list of at
  -- most 255 processes: what it returns, and which processes wait afterwards.
  pub queue-Refines : Refines s
  queue-Refines = record {
    push_valid = push-IsValid;
    pop_valid = pop-IsValid;
    push_fifo = push_refines;
    pop_fifo = pop_refines;
    peek_fifo = peek_refines;
    size_fifo = sym (length-waiting s);
  }

module _ {s : ProcessQueue} {p : ℕ} {rest : List ℕ} (v : IsValid s) (e : waiting s ≡ p ∷ rest) where
  pub not_empty : is_empty s ≡ false
  unfolding is_empty size
  not_empty = let n = ap length e in ground (arith, length-waiting s)

  pub pop-cons : ((pop s).1 ≡ some p) × (waiting (pop s).0 ≡ rest)
  unfolding Fifo.pop
  pop-cons = let f = pop_refines v in ground (arith, e)

pub push-room :
    {s : ProcessQueue} (p : ℕ)
    → IsValid s
    → length (waiting s) < 255
    → waiting (push s p).0 ≡ waiting s ++ (p ∷ [])
unfolding Fifo.push
push-room p v room = let f = push_refines v p in ground arith
