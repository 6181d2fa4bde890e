-- ===== src/Mem.antt =====
-- etc/lib/mem/mem.c: the memory functions, on a memory of bytes. The string instructions of the
-- processor are loops over it; addresses do not reach the end of the address space.
pub mod Laws
mod Tests
use deprecat_os.Prelude.{
  ℕ, zero, suc, ◌+◌, ◌-◌, ◌*◌, ◌/◌, ◌%◌, ◌^◌, Bool, true, false, ◌||◌, ◌==◌, ltb, if◌then◌else◌,
  write,
}

abbrev pub Memory : Type 0
Memory = ℕ → ℕ

-- `cld; rep movsb` and `rep movsl`: a double word is read whole before it is written.
unfoldable pub movsb : ℕ → ℕ → ℕ → Memory → Memory
movsb zero d s m = m
movsb (suc n) d s m = movsb n (d + 1) (s + 1) (write m d (m s))

unfoldable pub store32 : Memory → ℕ → ℕ → ℕ → ℕ → ℕ → Memory
store32 m d a b c e = write (write (write (write m d a) (d + 1) b) (d + 2) c) (d + 3) e

unfoldable pub movsl : ℕ → ℕ → ℕ → Memory → Memory
movsl zero d s m = m
movsl (suc n) d s m =
    movsl n (d + 4) (s + 4) (store32 m d (m s) (m (s + 1)) (m (s + 2)) (m (s + 3)))

unfoldable pub copy_fwd : ℕ → ℕ → ℕ → Memory → Memory
copy_fwd dst src n m =
    let dwords = n / 2 ^ 2 in
    let bytes = n % 4 in movsb bytes (dst + 4 * dwords) (src + 4 * dwords) (movsl dwords dst src m)

-- `std; rep movsb`, from the last of `n` bytes down.
unfoldable pub movsb_down : ℕ → ℕ → ℕ → Memory → Memory
movsb_down zero dst src m = m
movsb_down (suc n) dst src m = movsb_down n dst src (write m (dst + n) (m (src + n)))

unfoldable pub copy_bwd : ℕ → ℕ → ℕ → Memory → Memory
copy_bwd dst src n m = if n == 0 || dst == src then m else movsb_down n dst src m

unfoldable pub memcpy : ℕ → ℕ → ℕ → Memory → Memory
memcpy dst src n m = copy_fwd dst src n m

unfoldable pub memmove : ℕ → ℕ → ℕ → Memory → Memory
memmove dst src n m = if ltb dst src then copy_fwd dst src n m else copy_bwd dst src n m

-- `rep stosl` and `rep stosb` of the register `word`.
unfoldable pub stosl : ℕ → ℕ → ℕ → Memory → Memory
stosl zero d word m = m
stosl (suc n) d word m =
    stosl n (d + 4) word
      (store32 m d (word % 256) (word / 2 ^ 8 % 256) (word / 2 ^ 16 % 256) (word / 2 ^ 24 % 256))

unfoldable pub stosb : ℕ → ℕ → ℕ → Memory → Memory
stosb zero d word m = m
stosb (suc n) d word m = stosb n (d + 1) word (write m d (word % 256))

unfoldable pub memset : ℕ → ℕ → ℕ → Memory → Memory
memset dst c n m =
    let word = c % 256 * 16843009 % 2 ^ 32 in
    let dwords = n / 2 ^ 2 in
    let bytes = n % 4 in stosb bytes (dst + 4 * dwords) word (stosl dwords dst word m)

-- The loop, `left` bytes from `w` on; the result is the `int` on 32 bits.
unfoldable pub memcmp_loop : Memory → ℕ → ℕ → ℕ → ℕ → ℕ
memcmp_loop m a b zero w = 0
memcmp_loop m a b (suc left) w = elim (m (a + w) == m (b + w)) [
  | true ↦ memcmp_loop m a b left (w + 1)
  | false ↦ (m (a + w) + 2 ^ 32 - m (b + w)) % 2 ^ 32
]

unfoldable pub memcmp : Memory → ℕ → ℕ → ℕ → ℕ
memcmp m a b n = memcmp_loop m a b n 0
