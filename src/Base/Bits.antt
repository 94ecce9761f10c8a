-- ===== src/Base/Bits.antt =====
-- Laws of `^`, `|` and `&` at variables: their lowest digit, disjoint fields, and the group laws of
-- exclusive or.
mod Step
pub mod Xor
pub mod Mask
pub use Step.{bit_or-lowest, bit_and-lowest, bit_xor-lowest}
