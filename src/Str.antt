-- ===== src/Str.antt =====
-- str.c: the string type that all of the server uses.
pub mod Buffer
pub mod Text
pub mod Lines
pub mod Cut
