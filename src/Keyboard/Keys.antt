-- ===== src/Keyboard/Keys.antt =====
-- The codes of the keys.
mod Main
mod Function
pub use Main.*
pub use Function.*
