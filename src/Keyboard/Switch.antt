-- ===== src/Keyboard/Switch.antt =====
-- A `switch` on a number as the list of its cases.
use deprecat_os.Prelude.{ℕ, List, [], ◌∷◌, ◌==◌, if◌then◌else◌}

module _ {ℓ} {A : Type ℓ} where
  abbrev pub switch : List (ℕ × A) → A → ℕ → A
  switch [] default x = default
  switch ((label, value) ∷ cases) default x = if x == label then value else switch cases default x
