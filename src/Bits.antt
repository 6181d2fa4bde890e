-- ===== src/Bits.antt =====
-- The bit operations of C on unsigned words of any width. `bit x k` is what `(x >> k) & 1`
-- computes; `|`, `&` and `~` of a word are `bit_or`, `bit_and` and `complement`.
mod Laws
unfoldable pub use Laws.*
