-- ===== src/Vga.antt =====
-- kernel/src/vgaterminal.cpp: the text screen, with its escape sequences.
pub mod Screen
pub mod Escape
pub mod Cursor
