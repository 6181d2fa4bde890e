-- ===== src/Mem/Laws.antt =====
-- The memory functions against what their ranges hold before and after.
use deprecat_os.Prelude.{
  ℕ, zero, suc, ◌+◌, ◌-◌, ◌*◌, ◌/◌, ◌%◌, ◌^◌, ◌≤◌, ◌<◌, ◌≡◌, ◌≢◌, ◌⊎◌, ◌∙◌, ap, inl, inr, ◌&&◌,
  ◌||◌, Bool-cases, ◌==◌, ltb, leb, if◌then◌else◌, write, arith,
}
use deprecat_os.Mem.{
  Memory, movsb, store32, movsl, copy_fwd, movsb_down, copy_bwd, memcpy, memmove, stosl, stosb,
  memset, memcmp_loop, memcmp,
}

-- The bytes `from` on in the `n` bytes from `dst` on, and the rest as it was.
abbrev pub copied : ℕ → ℕ → ℕ → Memory → ℕ → ℕ
copied dst src n m j = if leb dst j && ltb j (dst + n) then m (src + (j - dst)) else m j

same_byte : (m : Memory) (i j : ℕ) → i ≡ j → m i ≡ m j
same_byte m i j e = ap m e

movsb_lem :
    (n d s : ℕ) (m : Memory) (j : ℕ) → (d < s) ⊎ (s + n ≤ d) → movsb n d s m j ≡ copied d s n m j
unfolding movsb write
movsb_lem zero d s m j h = ground arith
movsb_lem (suc n) d s m j h =
    let rest = movsb_lem n (d + 1) (s + 1) (write m d (m s)) j (ground arith) in
    let here : j ≡ d → m s ≡ m (s + (j - d)) = λ e. ap m (omega arith) in
    let later : suc d ≤ j → m (s + 1 + (j - (d + 1))) ≡ m (s + (j - d)) = λ l. ap m (omega arith) in
    ground arith

store32_lem :
    (m : Memory) (d s j : ℕ)
    → store32 m d (m s) (m (s + 1)) (m (s + 2)) (m (s + 3)) j ≡ copied d s 4 m j
unfolding store32 write
store32_lem m d s j =
    let at_0 : j ≡ d → m s ≡ m (s + (j - d)) = λ e. ap m (omega arith) in
    let at_1 : j ≡ d + 1 → m (s + 1) ≡ m (s + (j - d)) = λ e. ap m (omega arith) in
    let at_2 : j ≡ d + 2 → m (s + 2) ≡ m (s + (j - d)) = λ e. ap m (omega arith) in
    let at_3 : j ≡ d + 3 → m (s + 3) ≡ m (s + (j - d)) = λ e. ap m (omega arith) in ground arith

movsl_lem :
    (n d s : ℕ) (m : Memory) (j : ℕ)
    → (d < s) ⊎ (s + 4 * n ≤ d)
    → movsl n d s m j ≡ copied d s (4 * n) m j
unfolding movsl
movsl_lem zero d s m j h = ground arith
movsl_lem (suc n) d s m j h =
    let m' = store32 m d (m s) (m (s + 1)) (m (s + 2)) (m (s + 3)) in
    let rest = movsl_lem n (d + 4) (s + 4) m' j (ground arith) in
    let first = store32_lem m d s j in
    let source = store32_lem m d s (s + 4 + (j - (d + 4))) in
    let later : d + 4 ≤ j → m (s + 4 + (j - (d + 4))) ≡ m (s + (j - d)) = λ l. ap m (omega arith) in
    rest ∙ ground arith

pub copy_fwd_lem :
    (n dst src : ℕ) (m : Memory) (j : ℕ)
    → (dst < src) ⊎ (src + n ≤ dst)
    → copy_fwd dst src n m j ≡ copied dst src n m j
unfolding copy_fwd
copy_fwd_lem n dst src m j h =
    let q = 4 * (n / 4) in
    let m' = movsl (n / 4) dst src m in
    let tail = movsb_lem (n % 4) (dst + q) (src + q) m' j (ground arith) in
    let first = movsl_lem (n / 4) dst src m j (ground arith) in
    let source = movsl_lem (n / 4) dst src m (src + q + (j - (dst + q))) (ground arith) in
    let later : dst + q ≤ j → m (src + q + (j - (dst + q))) ≡ m (src + (j - dst)) =
      λ l. ap m (omega arith) in
    tail ∙ ground arith

movsb_down_lem :
    (n dst src : ℕ) (m : Memory) (j : ℕ)
    → src ≤ dst
    → movsb_down n dst src m j ≡ copied dst src n m j
unfolding movsb_down write
movsb_down_lem zero dst src m j h = ground arith
movsb_down_lem (suc n) dst src m j h =
    let rest = movsb_down_lem n dst src (write m (dst + n) (m (src + n))) j h in
    let last : j ≡ dst + n → m (src + n) ≡ m (src + (j - dst)) = λ e. ap m (omega arith) in
    rest ∙ ground arith

-- After `memmove` the `n` bytes at `dst` are those that stood at `src` before, and every other
-- byte is as it was, however the two ranges overlap.
pub memmove_lem :
    (n dst src : ℕ) (m : Memory) (j : ℕ)
    → memmove dst src n m j ≡ (if leb dst j && ltb j (dst + n) then m (src + (j - dst)) else m j)
unfolding memmove copy_bwd
memmove_lem n dst src m j = elim (Bool-cases (ltb dst src)) [
  | inl e ↦ rw e (copy_fwd_lem n dst src m j (ground arith))
  | inr e ↦ rw e (elim (Bool-cases (n == 0 || dst == src)) [
    | inl idle ↦
        let stays : dst ≤ j → dst ≡ src → m j ≡ m (src + (j - dst)) = λ l q. ap m (omega arith) in
        rw idle (ground arith)
    | inr busy ↦ rw busy (movsb_down_lem n dst src m j (ground arith))
  ])
]

pub memcpy_lem :
    (n dst src : ℕ) (m : Memory) (j : ℕ)
    → (dst + n ≤ src) ⊎ (src + n ≤ dst)
    → memcpy dst src n m j ≡ (if leb dst j && ltb j (dst + n) then m (src + (j - dst)) else m j)
unfolding memcpy
memcpy_lem n dst src m j h = copy_fwd_lem n dst src m j (ground arith)

abbrev filled : ℕ → ℕ → ℕ → Memory → ℕ → ℕ
filled dst b n m j = if leb dst j && ltb j (dst + n) then b else m j

stosb_lem :
    (n d word b : ℕ) (m : Memory) (j : ℕ) → word % 256 ≡ b → stosb n d word m j ≡ filled d b n m j
unfolding stosb write
stosb_lem zero d word b m j e = ground arith
stosb_lem (suc n) d word b m j e =
    stosb_lem n (d + 1) word b (write m d (word % 256)) j e ∙ ground arith

stosl_lem :
    (n d word b : ℕ) (m : Memory) (j : ℕ)
    → word ≡ b * 16843009
    → b < 256
    → stosl n d word m j ≡ filled d b (4 * n) m j
unfolding stosl store32 write
stosl_lem zero d word b m j e h = ground arith
stosl_lem (suc n) d word b m j e h =
    let b0 : word % 256 ≡ b = omega arith in
    let b1 : word / 2 ^ 8 % 256 ≡ b = omega arith in
    let b2 : word / 2 ^ 16 % 256 ≡ b = omega arith in
    let b3 : word / 2 ^ 24 % 256 ≡ b = omega arith in
    stosl_lem n (d + 4) word b
      (store32 m d (word % 256) (word / 2 ^ 8 % 256) (word / 2 ^ 16 % 256) (word / 2 ^ 24 % 256)) j
      e h
    ∙ rw (b0, b1, b2, b3) (ground arith)

-- After `memset` the `n` bytes at `dst` are the low byte of `c`, and every other byte is as it
-- was.
pub memset_lem :
    (n dst c : ℕ) (m : Memory) (j : ℕ)
    → memset dst c n m j ≡ (if leb dst j && ltb j (dst + n) then c % 256 else m j)
unfolding memset
memset_lem n dst c m j =
    let word = c % 256 * 16843009 % 2 ^ 32 in
    let e : word ≡ c % 256 * 16843009 = omega arith in
    let low : word % 256 ≡ c % 256 = omega arith in
    let first = stosl_lem (n / 4) dst word (c % 256) m j e (omega arith) in
    stosb_lem (n % 4) (dst + 4 * (n / 4)) word (c % 256) (stosl (n / 4) dst word m) j low
    ∙ ground arith

-- What the loop of `memcmp` returns from `w` on.
pub data Compared (m : Memory) (a b n w : ℕ) : ℕ → Type 0 where
  equal : ((i : ℕ) → w ≤ i → i < w + n → m (a + i) ≡ m (b + i)) → Compared m a b n w 0
  differ :
      (i : ℕ)
      → w ≤ i
      → i < w + n
      → ((k : ℕ) → w ≤ k → k < i → m (a + k) ≡ m (b + k))
      → m (a + i) ≢ m (b + i)
      → Compared m a b n w ((m (a + i) + 2 ^ 32 - m (b + i)) % 2 ^ 32)

Compared-later :
    (m : Memory) (a b n w : ℕ) (r : ℕ)
    → m (a + w) ≡ m (b + w)
    → Compared m a b n (w + 1) r
    → Compared m a b (suc n) w r
Compared-later m a b n w _ e (equal h) = equal (λ i p q. elim (Bool-cases (i == w)) [
  | inl s ↦ let s' : i ≡ w = ground arith in rw s' e
  | inr t ↦ h i (ground arith) (omega arith)
])
Compared-later m a b n w _ e (differ i p q h ne) =
    differ i (omega arith) (omega arith)
      (λ k r s. elim (Bool-cases (k == w)) [
        | inl t ↦ let t' : k ≡ w = ground arith in rw t' e
        | inr t ↦ h k (ground arith) s
      ])
      ne

memcmp_loop_lem : (m : Memory) (a b n w : ℕ) → Compared m a b n w (memcmp_loop m a b n w)
unfolding memcmp_loop
memcmp_loop_lem m a b zero w = equal (λ i p q. absurd (omega arith))
memcmp_loop_lem m a b (suc n) w = elim (Bool-cases (m (a + w) == m (b + w))) [
  | inl e ↦
      rw (memcmp_loop, e)
        (Compared-later m a b n w (memcmp_loop m a b n (w + 1)) (ground arith)
          (memcmp_loop_lem m a b n (w + 1)))
  | inr ne ↦
      rw (memcmp_loop, ne)
        (differ w (omega arith) (omega arith) (λ k p q. absurd (omega arith)) (ground arith))
]

-- `memcmp` returns 0 with the two ranges equal, or the difference of the first bytes that differ.
pub memcmp_lem : (m : Memory) (a b n : ℕ) → Compared m a b n 0 (memcmp m a b n)
unfolding memcmp
memcmp_lem m a b n = memcmp_loop_lem m a b n 0
