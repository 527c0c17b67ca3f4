-- ===== src/Utils.antt =====
-- utils.h, utils.c: text.
pub mod Text
pub mod Vlist
pub mod Words
pub mod Json
mod Examples
