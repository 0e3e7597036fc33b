-- ===== src/Terminal.antt =====
-- kernel/src/terminal.cpp: the terminal between the keyboard, the screen and the reading process.
pub mod Buffer
pub mod Lines
