-- ===== src/Tests.antt =====
-- Runs of the models at concrete inputs, and the theorems there.
mod Heap
mod Str
mod Printf
mod Number
mod Environ
mod Exit
mod Vga
mod Terminal
mod Keyboard
mod Memory
mod Path
