-- ===== src/Texts.antt =====
-- Laws of the text operations that the program calls, and the order of texts.
pub mod Join
pub mod Order
pub mod Split
pub mod Strip
