-- ===== src/Words.antt =====
-- C's unsigned words as numbers below 2 ^ w: what `&`, `|`, `^`, `~` and the shifts do to each bit.
pub mod Steps
pub mod Digits
pub mod Mask
