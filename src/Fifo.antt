-- ===== src/Fifo.antt =====
-- What the ring of etc/lib/rb and the queue of kernel/process/queue promise: a list of at most
-- 255 values, oldest first.
use deprecat_os.Prelude.{
  ℕ, Bool, true, false, Option, none, some, List, [], ◌∷◌, ◌++◌, ltb, if◌then◌else◌, length,
}

-- 256 cells of which one stays free.
abbrev pub capacity : ℕ
capacity = 255

module _ {ℓ} {A : Type ℓ} where
  unfoldable pub push : List A → A → List A × Bool
  push q x = if ltb (length q) capacity then (q ++ (x ∷ []), true) else (q, false)

  unfoldable pub pop : List A → List A × Option A
  pop [] = ([], none)
  pop (x ∷ q) = (q, some x)

  unfoldable pub peek : List A → Option A
  peek [] = none
  peek (x ∷ q) = some x
