-- ===== src/Fs/File/Read/Laws.antt =====
-- `read_inode` on a mounted volume: what each layer of pointers puts into the output.
use native.Mathlib.Nat.{
  div-eq_of_lt, mod-eq_of_lt, mul-add-div_right, mul-add-mod_self_right, one-le-pow, pow-succ',
}
use deprecat_os.Prelude.{
  ℕ, zero, suc, ◌+◌, ◌-◌, ◌*◌, ◌/◌, ◌%◌, ◌^◌, ◌≤◌, ◌<◌, ◌≡◌, ◌≢◌, ◌∙◌, ap, refl, sym, fun_ext, min,
  true, false, some, inl, inr, arith, Bool-cases, ◌==◌, ltb, if◌then◌else◌,
}
use deprecat_os.Fs.Bytes.{Bytes}
use deprecat_os.Fs.Volume.{Volume, M, ◌>>=◌}
use deprecat_os.Fs.Volume.Laws.{IsMounted, Fits, block, read_block-ok}
use deprecat_os.Fs.MapBlock.Shared.{entry}
use deprecat_os.Fs.File.Read.{Reader, no_data, filled, read_entries, span_of, indir_read_block}

-- What a pointer to data stands for.
unfoldable pub content : Volume → ℕ → Bytes
content v p = if p == 0 then no_data else block v p

-- Block `j` of those below the pointer `p` of a layer.
unfoldable pub at_layer : Volume → ℕ → ℕ → ℕ → Bytes
at_layer v zero p j = content v p
at_layer v (suc layer) p j =
    let below = at_layer v layer (entry (block v p) (j / 1024 ^ layer)) (j % 1024 ^ layer) in
    if p == 0 then no_data else below

-- The tables and blocks below a pointer lie inside the partition.
unfoldable pub AllFit : Volume → ℕ → ℕ → Type 0
AllFit v zero p = p ≢ 0 → Fits v p
AllFit v (suc layer) p =
    p ≢ 0 → Fits v p × ((i : ℕ) → i < 1024 → AllFit v layer (entry (block v p) i))

abbrev reader_of : (ℕ → Bytes) → ℕ → ℕ → Reader
reader_of o a l = record { out = o; at = a; left = l }

same_reader :
    {o o' : ℕ → Bytes} {a a' l l' : ℕ}
    → ((k : ℕ) → o k ≡ o' k)
    → a ≡ a'
    → l ≡ l'
    → reader_of o a l ≡ reader_of o' a' l'
same_reader eo ea el = λ i. reader_of (fun_ext eo i) (ea i) (el i)

pub filled_same :
    (r : Reader) (n m : ℕ) (f g : ℕ → Bytes)
    → n ≡ m
    → ((j : ℕ) → j < m → f j ≡ g j)
    → filled r n f ≡ filled r m g
unfolding filled
filled_same r n m f g d e =
    same_reader (λ k. ground (arith, e (k - r.at))) (omega arith) (omega arith)

pub filled_twice :
    (r : Reader) (n m : ℕ) (f g : ℕ → Bytes)
    → filled (filled r n f) m g ≡ filled r (n + m) (λ j. if ltb j n then f j else g (j - n))
unfolding filled
filled_twice r n m f g =
    let after : (k : ℕ) → k - (r.at + n) ≡ k - r.at - n = λ k. omega arith in
    same_reader (λ k. ground (arith, ap g (after k))) (omega arith) (omega arith)

pub filled_none : (r : Reader) (f : ℕ → Bytes) → filled r 0 f ≡ r
unfolding filled
filled_none r f = same_reader (λ k. ground arith) (omega arith) (omega arith)

-- The blocks of the entries of a table from `i` on, `s` for each.
abbrev pub spread : (ℕ → ℕ → Bytes) → Bytes → ℕ → ℕ → ℕ → Bytes
spread g t s i j = g (entry t (i + j / s)) (j % s)

module _ (g : ℕ → ℕ → Bytes) (s : ℕ) (pos : 0 < s) where
  spread_first : (t : Bytes) (i j : ℕ) → j < s → g (entry t i) j ≡ spread g t s i j
  spread_first t i j h =
      let q : i + j / s ≡ i = omega (arith, div-eq_of_lt h) in
      sym (ap (λ k. g (entry t k) (j % s)) q ∙ ap (g (entry t i)) (mod-eq_of_lt h))

  spread_rest : (t : Bytes) (i j : ℕ) → s ≤ j → spread g t s (i + 1) (j - s) ≡ spread g t s i j
  spread_rest t i j h =
      let whole : 1 * s + (j - s) ≡ j = omega arith in
      let d : i + 1 + (j - s) / s ≡ i + j / s =
        omega (arith, mul-add-div_right pos 1 (j - s), ap (λ x. x / s) whole) in
      let m : (j - s) % s ≡ j % s =
        sym (mul-add-mod_self_right 1 s (j - s)) ∙ ap (λ x. x % s) whole in
      ap (λ k. g (entry t k) ((j - s) % s)) d ∙ ap (g (entry t (i + j / s))) m

  spread_both :
      (t : Bytes) (i left n j : ℕ)
      → j < min (suc n * s) left
      → (if ltb j (min s left) then g (entry t i) j else spread g t s (i + 1) (j - min s left))
        ≡ spread g t s i j
  spread_both t i left n j h =
      let small : suc n * s ≡ s + n * s = grind arith in
      elim (Bool-cases (ltb j (min s left))) [
        | inl e ↦ rw (e, spread_first t i j (ground arith))
        | inr e ↦
            let c : min s left ≡ s = ground arith in rw (e, c, spread_rest t i j (ground arith))
      ]

  -- One entry's blocks and then those of the rest.
  filled_both :
      (t : Bytes) (i n : ℕ) (r : Reader)
      → let r' = filled r (min s r.left) (g (entry t i)) in
        filled r' (min (n * s) r'.left) (spread g t s (i + 1))
        ≡ filled r (min (suc n * s) r.left) (spread g t s i)
  unfolding filled
  filled_both t i n r =
      let small : suc n * s ≡ s + n * s = grind arith in
      filled_twice r (min s r.left) (min (n * s) (r.left - min s r.left)) (g (entry t i))
        (spread g t s (i + 1))
      ∙ filled_same r (min s r.left + min (n * s) (r.left - min s r.left)) (min (suc n * s) r.left)
          (λ j.
            if ltb j (min s r.left)
            then g (entry t i) j
            else spread g t s (i + 1) (j - min s r.left))
          (spread g t s i) (ground arith) (spread_both t i r.left n)

module _ (v : Volume) (f : ℕ → Reader → M Reader) (g : ℕ → ℕ → Bytes) (s : ℕ) (pos : 0 < s) where
  pub read_entries-ok :
      (t : Bytes) (n i : ℕ) (r : Reader)
      → ((k : ℕ)
          → i ≤ k
          → k < i + n
          → (r' : Reader) → 0 < r'.left
          → f (entry t k) r' v ≡ some (filled r' (min s r'.left) (g (entry t k)), v))
      → read_entries f t n i r v ≡ some (filled r (min (n * s) r.left) (spread g t s i), v)
  unfolding read_entries
  read_entries-ok t zero i r ok =
      let c : min (0 * s) r.left ≡ 0 = ground arith in rw (c, filled_none r (spread g t s i))
  read_entries-ok t (suc n) i r ok = elim (Bool-cases (ltb 0 r.left)) [
    | inl e ↦
        let r' = filled r (min s r.left) (g (entry t i)) in
        let step = ok i (omega arith) (omega arith) r (ground arith) in
        let rest = read_entries-ok t n (i + 1) r' (λ k a b. ok k (omega arith) (omega arith)) in
        rw (read_entries, e, ◌>>=◌, step, rest, filled_both g s pos t i n r)
    | inr e ↦
        let c : min (suc n * s) r.left ≡ 0 = ground arith in
        rw (read_entries, e, c, filled_none r (spread g t s i))
  ]

at_layer-hole : (v : Volume) (layer p j : ℕ) → (p == 0) ≡ true → at_layer v layer p j ≡ no_data
unfolding at_layer content
at_layer-hole v zero p j e = rw e refl
at_layer-hole v (suc layer) p j e = rw e refl

at_layer-table :
    (v : Volume) (layer p j : ℕ)
    → (p == 0) ≡ false
    → spread (at_layer v layer) (block v p) (1024 ^ layer) 0 j ≡ at_layer v (suc layer) p j
unfolding at_layer
at_layer-table v layer p j e =
    let q : 0 + j / 1024 ^ layer ≡ j / 1024 ^ layer = omega arith in
    rw (e, ap (λ k. at_layer v layer (entry (block v p) k) (j % 1024 ^ layer)) q)

module _ {v : Volume} (m : IsMounted v) where
  read_hole :
      (layer p : ℕ) (r : Reader)
      → 1024 ^ layer < 2 ^ 32
      → (p == 0) ≡ true
      → filled r (min (span_of layer) r.left) (λ _. no_data)
        ≡ filled r (min (1024 ^ layer) r.left) (at_layer v layer p)
  read_hole layer p r small e =
      let whole : span_of layer ≡ 1024 ^ layer = mod-eq_of_lt small in
      filled_same r (min (span_of layer) r.left) (min (1024 ^ layer) r.left) (λ _. no_data)
        (at_layer v layer p) (ap (λ k. min k r.left) whole)
        (λ j _. sym (at_layer-hole v layer p j e))

  read_data :
      (p : ℕ) (r : Reader)
      → 0 < r.left
      → (p == 0) ≡ false
      → filled r 1 (λ _. block v p) ≡ filled r (min (1024 ^ 0) r.left) (at_layer v 0 p)
  unfolding at_layer content
  read_data p r pos e =
      filled_same r 1 (min (1024 ^ 0) r.left) (λ _. block v p) (at_layer v 0 p) (ground arith)
        (λ j _. rw e refl)

  read_table :
      (layer p : ℕ) (r : Reader)
      → (p == 0) ≡ false
      → filled r
          (min (1024 * 1024 ^ layer) r.left)
          (spread (at_layer v layer) (block v p) (1024 ^ layer) 0)
        ≡ filled r (min (1024 ^ suc layer) r.left) (at_layer v (suc layer) p)
  read_table layer p r e =
      filled_same r (min (1024 * 1024 ^ layer) r.left) (min (1024 ^ suc layer) r.left)
        (spread (at_layer v layer) (block v p) (1024 ^ layer) 0) (at_layer v (suc layer) p)
        (ap (λ k. min k r.left) (sym (pow-succ' 1024 layer))) (λ j _. at_layer-table v layer p j e)

  -- On a mounted volume `indir_read_block` puts out the blocks below a pointer in their order, as
  -- many as are left.
  pub indir_read_block-ok :
      (layer p : ℕ) (r : Reader)
      → 1024 ^ layer < 2 ^ 32
      → AllFit v layer p
      → 0 < r.left
      → indir_read_block layer p r v
        ≡ some (filled r (min (1024 ^ layer) r.left) (at_layer v layer p), v)
  unfolding indir_read_block AllFit
  indir_read_block-ok zero p r small fit pos = elim (Bool-cases (p == 0)) [
    | inl e ↦ rw e (ap (λ x. some (x, v)) (read_hole zero p r small e))
    | inr e ↦
        let found = read_block-ok m p (fit (ground arith)) in
        rw (e, ◌>>=◌, found) (ap (λ x. some (x, v)) (read_data p r pos e))
  ]
  indir_read_block-ok (suc layer) p r small fit pos = elim (Bool-cases (p == 0)) [
    | inl e ↦ rw e (ap (λ x. some (x, v)) (read_hole (suc layer) p r small e))
    | inr e ↦
        let inside = fit (ground arith) in
        let table = read_block-ok m p inside.0 in
        let step = pow-succ' 1024 layer in
        let entries =
          read_entries-ok v (indir_read_block layer) (at_layer v layer) (1024 ^ layer)
            (one-le-pow layer 1024 (omega arith)) (block v p) 1024 0 r
            (λ k a b r' pos'.
              indir_read_block-ok layer (entry (block v p) k) r' (omega (arith, step))
                (inside.1 k (omega arith)) pos') in
        rw (e, ◌>>=◌, table) (entries ∙ ap (λ x. some (x, v)) (read_table layer p r e))
  ]
