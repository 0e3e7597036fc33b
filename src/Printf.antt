-- ===== src/Printf.antt =====
-- libc/src/stdio/vcbprintf.c: formatted output through a callback.
pub mod Out
pub mod Integer
pub mod Directive
pub mod Format
