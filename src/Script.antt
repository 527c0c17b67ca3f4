-- ===== src/Script.antt =====
-- script.c: the text of a script and the tree that is built from it.
pub mod Text
pub mod Tree
mod Examples
