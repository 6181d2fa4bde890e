-- ===== src/Ring/Refine.antt =====
-- The ring against a list of at most 255 bytes, oldest first.
use deprecat_os.Prelude.{
  ℕ, suc, ◌<◌, ◌≡◌, refl, ◌∙◌, ap, List, [], ◌∷◌, ◌++◌, arith, length, write, write_same,
}
use deprecat_os.Fifo
use deprecat_os.Circular.{
  distance, window, length-window, window-write_out, window_snoc, window_head, window-zero,
}
use deprecat_os.Ring.{
  Ring, init, push, pop, peek, run, Op, put, get, look, Reply, stored, taken, seen,
}

pub record IsValid (r : Ring) : Type 0 where
  pub head_in : r.head < 256
  pub tail_in : r.tail < 256

abbrev pub count : Ring → ℕ
count r = distance r.head r.tail

pub contents : Ring → List ℕ
contents r = window r.queue r.tail (count r)

pub length-contents : (r : Ring) → length (contents r) ≡ count r
unfolding contents
length-contents r = length-window r.queue r.tail (count r)

-- The same calls on the specification.
unfoldable pub run_fifo : List ℕ → List Op → List Reply
run_fifo q [] = []
run_fifo q (put c ∷ ops) = let (q', done) = Fifo.push q c in stored done ∷ run_fifo q' ops
run_fifo q (get ∷ ops) = let (q', out) = Fifo.pop q in taken out ∷ run_fifo q' ops
run_fifo q (look ∷ ops) = seen (Fifo.peek q) ∷ run_fifo q ops

pub init-IsValid : (r : Ring) → IsValid (init r) × (contents (init r) ≡ [])
unfolding init contents
init-IsValid r = (omega arith, window-zero r.queue 0)

pub push-IsValid : {r : Ring} (c : ℕ) → IsValid r → IsValid (push r c).0
unfolding push
push-IsValid c v = ground arith

pub pop-IsValid : {r : Ring} → IsValid r → IsValid (pop r).0
unfolding pop
pop-IsValid v = ground arith

-- The cells after a write at `head`.
contents_stored :
    {r : Ring} (c : ℕ)
    → IsValid r
    → count r < 255
    → window (write r.queue r.head c) r.tail (suc (count r)) ≡ contents r ++ (c ∷ [])
unfolding contents
contents_stored {r} c v room =
    window_snoc (write r.queue r.head c) (count r) r.tail r.head (omega arith) (omega arith)
    ∙ rw (write_same r.queue r.head c) (
        ap (λ l. l ++ (c ∷ []))
          (window-write_out r.queue r.head c (count r) r.tail (omega arith) (omega arith)
            (omega arith)))

-- `rb_push` appends the byte unless 255 bytes are stored, and says which.
pub push_refines :
    {r : Ring} (c : ℕ)
    → IsValid r
    → (contents (push r c).0, (push r c).1) ≡ Fifo.push (contents r) c
unfolding push Fifo.push contents
push_refines {r} c v = ground (arith, length-contents r, contents_stored c v)

pub pop_refines : {r : Ring} → IsValid r → (contents (pop r).0, (pop r).1) ≡ Fifo.pop (contents r)
unfolding pop Fifo.pop contents
pop_refines {r} v = ground (arith, window-zero r.queue r.tail, window_head r.queue r.tail (count r))

pub peek_refines : {r : Ring} → IsValid r → peek r ≡ Fifo.peek (contents r)
unfolding peek Fifo.peek contents
peek_refines {r} v =
    ground (arith, window-zero r.queue r.tail, window_head r.queue r.tail (count r))

-- However the calls of `rb_push`, `rb_pop` and `rb_peek` interleave, what a valid ring answers is
-- what a list of at most 255 bytes answers: bytes come out in order, none is lost or repeated, and
-- a byte is refused exactly when 255 are stored.
pub run_refines : (ops : List Op) {r : Ring} → IsValid r → run r ops ≡ run_fifo (contents r) ops
unfolding run run_fifo
run_refines [] v = refl
run_refines (put c ∷ ops) v = rw (run_refines ops (push-IsValid c v), ← push_refines c v)
run_refines (get ∷ ops) v = rw (run_refines ops (pop-IsValid v), ← pop_refines v)
run_refines (look ∷ ops) v = rw (run_refines ops v, ← peek_refines v)
