-- ===== src/Screen/Scrolled.antt =====
-- The lines that leave the screen in `scroll` of kernel/drivers/fb/fbController.c, and how the view
-- of `fb_scrollback` brings them back.
use deprecat_os.Prelude.{
  ℕ, ◌+◌, ◌-◌, ◌*◌, ◌%◌, ◌≤◌, ◌<◌, ◌≡◌, ◌≢◌, ◌∙◌, inl, inr, ap, sym, subst, refl, true, false, ◌&&◌,
  arith, ◌==◌, ltb, leb, if◌then◌else◌, Bool-cases,
}
use native.Mathlib.Nat.{mul-le-mul_right}
use deprecat_os.Screen.Draw.{
  Cell, Geometry, Screen, blank, cell_at, draw_cursor, draw_char_forced, del_cursor,
}
use deprecat_os.Screen.{save_line, put_cell, move_line, move_lines, shift_cells, scroll, viewed}
use deprecat_os.Screen.Pixels.{Fits, if-keeps, for_loop-counts, for_loop-keeps, place-lt}

line_above : (r n : ℕ) → 1 ≤ r → r * n ≡ (r - 1) * n + n
line_above r n h =
    let wide : (r - 1 + 1) * n ≡ (r - 1) * n + n = omega arith in
    ap (λ x. x * n) (omega arith) ∙ wide

module _ (g : Geometry) (shadow : ℕ → Cell) where
  -- The first `n` cells are those of the line below.
  Shifted : ℕ → (ℕ → Cell) → Type 0
  Shifted n f = (k : ℕ) → f k ≡ (if ltb k n then shadow (k + g.cols) else shadow k)

  Shifted-more :
      (r c : ℕ) (f : ℕ → Cell)
      → 1 ≤ r
      → Shifted ((r - 1) * g.cols + c) f
      → Shifted
          ((r - 1) * g.cols + (c + 1))
          (put_cell ((r - 1) * g.cols + c) (f (r * g.cols + c)) f)
  unfolding Shifted
  Shifted-more r c f some h k =
      let here : (r - 1) * g.cols + c + g.cols ≡ r * g.cols + c =
        omega (arith, line_above r g.cols some) in
      let from = h (r * g.cols + c) in
      let old = h k in
      let next : k ≡ (r - 1) * g.cols + c → shadow (k + g.cols) ≡ shadow (r * g.cols + c) =
        λ e. ap shadow (omega (arith, here, e)) in
      ground (arith, from, old, next, here)

  move_line-Shifted :
      (r : ℕ) (f : ℕ → Cell)
      → 1 ≤ r
      → Shifted ((r - 1) * g.cols) f
      → Shifted ((r + 1 - 1) * g.cols) (move_line g r f)
  unfolding move_line
  move_line-Shifted r f some q =
      let back : r + 1 - 1 ≡ r = omega arith in
      let end : (r - 1) * g.cols + (0 + g.cols) ≡ (r + 1 - 1) * g.cols =
        omega (arith, line_above r g.cols some, ap (λ x. x * g.cols) back) in
      subst (λ n. Shifted n (move_line g r f)) end
        (for_loop-counts (λ c. Shifted ((r - 1) * g.cols + c)) g.cols 0
          (λ c f'. put_cell ((r - 1) * g.cols + c) (f' (r * g.cols + c)) f') f
          (λ c f' lo hi q'. Shifted-more r c f' some q') (subst (λ n. Shifted n f) (omega arith) q))

  move_lines-Shifted : Fits g → Shifted ((g.rows - 1) * g.cols) (move_lines g shadow)
  unfolding move_lines Shifted
  move_lines-Shifted fit =
      subst (λ n. Shifted (n * g.cols) (move_lines g shadow)) (omega (arith, fit.some_row))
        (for_loop-counts (λ r. Shifted ((r - 1) * g.cols)) (g.rows - 1) 1 (move_line g) shadow
          (λ r f lo hi q. move_line-Shifted r f lo q) (λ k. ground arith))

  shift_cells-up :
      Fits g → (k : ℕ) → k < (g.rows - 1) * g.cols → shift_cells g shadow k ≡ shadow (k + g.cols)
  unfolding shift_cells Shifted
  shift_cells-up fit k h =
      for_loop-keeps (λ (f : ℕ → Cell). f k ≡ shadow (k + g.cols)) g.cols 0
        (λ c. put_cell ((g.rows - 1) * g.cols + c) blank) (move_lines g shadow)
        (λ c f lo hi o. ground (arith, o, h)) (ground (arith, move_lines-Shifted fit k, h))

-- Drawing the cell under the cursor again changes no cell, no line and no number of lines.
record Redrawn (s d : Screen) : Type 0 where
  cells : (k : ℕ) → d.shadow k ≡ s.shadow k
  history : d.history ≡ s.history
  head : d.head ≡ s.head
  count : d.count ≡ s.count

del_cursor-Redrawn : (g : Geometry) (s : Screen) → Redrawn s (del_cursor g s)
unfolding del_cursor draw_char_forced
del_cursor-Redrawn g s =
    let at : Screen = record s { col = s.cursor_col; row = s.cursor_row } in
    let curr = cell_at g at in
    let back : Screen → Screen = λ d. record d { col = s.col; row = s.row } in
    if-keeps (λ d. Redrawn s (back d)) (leb 16 curr.color) _ _
      (λ e. record { cells = λ k. refl; history = refl; head = refl; count = refl })
      (λ e. record {
        cells = λ k. elim (Bool-cases (k == s.cursor_row * g.cols + s.cursor_col)) [
          | inl same ↦
              let here : s.cursor_row * g.cols + s.cursor_col ≡ k = ground (arith, same) in
              rw same (ap s.shadow here)
          | inr other ↦ rw other refl
        ];
        history = refl;
        head = refl;
        count = refl;
      })

-- The line at `i` of the history is another one than the line at `head`.
lines-apart :
    (i head n c : ℕ)
    → i ≢ head
    → c < n
    → (leb (head * n) (i * n + c) && ltb (i * n + c) (head * n + n)) ≡ false
lines-apart i head n c ne small =
    let below : i + 1 ≤ head → (i + 1) * n ≤ head * n = λ h. mul-le-mul_right n h in
    let above : head + 1 ≤ i → (head + 1) * n ≤ i * n = λ h. mul-le-mul_right n h in
    ground (arith, below, above)

lines-same :
    (head n c : ℕ)
    → c < n
    → (leb (head * n) (head * n + c) && ltb (head * n + c) (head * n + n)) ≡ true
lines-same head n c small = ground arith

module _ (g : Geometry) (fit : Fits g) (s : Screen) (v r c : ℕ) (count_le : s.count ≤ 256)
    (head_lt : s.head < 256) (some_line : v ≤ s.count) (kept : v < 256) (row : r < g.rows)
    (col : c < g.cols) where
  after : Screen
  after = record (scroll g s) { view_offset = v + 1 }

  after_count : after.count ≡ (if ltb s.count 256 then s.count + 1 else s.count)
  unfolding after scroll draw_cursor save_line
  after_count = let d = del_cursor-Redrawn g s in ground (arith, d.count)

  after_head : after.head ≡ (s.head + 1) % 256
  unfolding after scroll draw_cursor save_line
  after_head = let d = del_cursor-Redrawn g s in ap (λ h. (h + 1) % 256) d.head

  after_history : (i : ℕ) → i ≢ s.head → after.history (i * g.cols + c) ≡ s.history (i * g.cols + c)
  unfolding after scroll draw_cursor save_line
  after_history i ne =
      let d = del_cursor-Redrawn g s in
      rw (d.head, lines-apart i s.head g.cols c ne col) (ap (λ h. h (i * g.cols + c)) d.history)

  after_line : after.history (s.head * g.cols + c) ≡ s.shadow c
  unfolding after scroll draw_cursor save_line
  after_line =
      let d = del_cursor-Redrawn g s in
      rw (d.head, lines-same s.head g.cols c col) (d.cells _ ∙ ap s.shadow (omega arith))

  after_shadow : (k : ℕ) → k < (g.rows - 1) * g.cols → after.shadow k ≡ s.shadow (k + g.cols)
  unfolding after scroll draw_cursor save_line
  after_shadow k h =
      let d = del_cursor-Redrawn g s in
      shift_cells-up g (del_cursor g s).shadow fit k h ∙ d.cells (k + g.cols)

  -- A line of the view in the history, and one on the screen.
  viewed-history :
      (t : Screen) (i : ℕ)
      → r < t.view_offset
      → t.view_offset ≤ t.count
      → (t.head + (t.count + r - t.view_offset) + 256 - t.count) % 256 ≡ i
      → viewed g t r c ≡ t.history (i * g.cols + c)
  unfolding viewed
  viewed-history t i above le e =
      let past : ltb (t.count + r - t.view_offset) t.count ≡ true = ground arith in
      rw (past, e) refl

  viewed-shadow :
      (t : Screen) (i : ℕ) → t.view_offset + i ≡ r → viewed g t r c ≡ t.shadow (i * g.cols + c)
  unfolding viewed
  viewed-shadow t i e =
      let live : ltb (t.count + r - t.view_offset) t.count ≡ false = ground arith in
      let line : t.count + r - t.view_offset - t.count ≡ i = omega arith in rw (live, line) refl

  before : Screen
  before = record s { view_offset = v }

  after_room : v + 1 ≤ after.count
  after_room = ground (arith, after_count)

  after_index :
      r ≤ v
      → (after.head + (after.count + r - (v + 1)) + 256 - after.count) % 256
        ≡ (s.head + 256 + r - v) % 256
  after_index h = omega (arith, after_room, after_head)

  viewed-upper : r < v → viewed g after r c ≡ viewed g before r c
  unfolding after before
  viewed-upper h =
      let i = (s.head + 256 + r - v) % 256 in
      let other : i ≢ s.head = λ e. absurd (omega (arith, e, h)) in
      viewed-history after i (omega arith) after_room (after_index (omega arith))
      ∙ after_history i other
      ∙ sym (viewed-history before i h some_line (omega arith))

  viewed-middle : r ≡ v → viewed g after r c ≡ viewed g before r c
  unfolding after before
  viewed-middle h =
      viewed-history after s.head (omega arith) after_room (after_index (omega arith) ∙ omega arith)
      ∙ after_line
      ∙ sym (viewed-shadow before 0 (omega arith) ∙ ap s.shadow (omega arith))

  viewed-lower : v < r → viewed g after r c ≡ viewed g before r c
  unfolding after before
  viewed-lower h =
      let i = r - v - 1 in
      let next : i * g.cols + c + g.cols ≡ (r - v) * g.cols + c =
        omega (arith, line_above (r - v) g.cols (omega arith)) in
      viewed-shadow after i (omega arith)
      ∙ after_shadow (i * g.cols + c) (place-lt i (g.rows - 1) g.cols c (omega arith) col)
      ∙ ap s.shadow next
      ∙ sym (viewed-shadow before (r - v) (omega arith))

  viewed-after : viewed g after r c ≡ viewed g before r c
  viewed-after = elim (Bool-cases (ltb r v)) [
    | inl e ↦ viewed-upper (ground (arith, e))
    | inr e ↦ elim (Bool-cases (ltb v r)) [
      | inl f ↦ viewed-lower (ground (arith, f))
      | inr f ↦ viewed-middle (ground (arith, e, f))
    ]
  ]

-- On a screen whose cells lie in the frame buffer, with at most 256 lines in the history, after
-- `scroll` the view one line further back shows in every cell what the view showed before, for
-- every view of at most 255 lines back in the history.
pub viewed-scroll :
    (g : Geometry) (s : Screen) (v r c : ℕ)
    → Fits g
    → s.count ≤ 256
    → s.head < 256
    → v ≤ s.count
    → v < 256
    → r < g.rows
    → c < g.cols
    → viewed g (record (scroll g s) { view_offset = v + 1 }) r c
      ≡ viewed g (record s { view_offset = v }) r c
unfolding after before
viewed-scroll g s v r c fit count_le head_lt some_line kept row col =
    viewed-after g fit s v r c count_le head_lt some_line kept row col
