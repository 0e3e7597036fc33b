-- ===== src/Lib.antt =====
-- INWOX, an operating system for the i686: of its C library the heap, the string functions and the
-- formatted output, and of its kernel the text screen, the terminal, the keyboard and the memory.
--
-- Base: shared names, lists and Booleans over the native numbers, and the integers of a comparison.
-- Str (libc/src/string): the string and memory functions on byte lists. An object is the list of its
--   bytes from the pointer on; `none` is an access beyond the object. Str/Text says when an object
--   holds a string, Str/Length, Compare, Search, Copy and Move are about the functions of those
--   kinds. Str/Tokens is `strtok`, with its static pointer in a state, and Str/Messages `strerror`.
-- Heap (libc/src/stdlib/malloc.c, malloc.h, free.c): the memory control blocks, as cells at
--   addresses. `allocate_big_block`, `unify_blocks` and `split_block` are the functions of those
--   names with two underscores; `malloc_loop` and `take_block` are the loop of `malloc`; `join`,
--   `release` and `give_back` are the parts of `free`. Heap/Chain says that the blocks between two
--   addresses are linked in both directions and fill the memory between them, Heap/Bigs that all big
--   blocks are well formed, linked, and apart from each other. Heap/Split, Search and Serve are
--   about `malloc`, Heap/Join, Freed, Release and Removed about `free`, and Heap/Live states both on
--   the live objects. Heap/Calloc (calloc.c) stands on any `malloc`.
-- Printf (libc/src/stdio/vcbprintf.c): Printf/Out is the callback and the four ways in which a run
--   can end, Printf/Integer `convert_integer`, `printInteger` and `printString`, with the numerals
--   that they print in Printf/Integer/Numeral and Shown (for the value 0 the digit is stored below
--   the buffer, `in_buffer`, and the run is `undefined`), Printf/Directive the flags, the width, the
--   precision and the length of a conversion, Printf/Format the arguments, the switch on the
--   specifier and the loop over the format.
-- Number (libc/src/stdlib/strtol.c, strtoul.c): one model for both, as the source is one text, with
--   the signedness as an argument; an overflow of a signed subtraction is `none`. Number/Value is
--   about strtoul and about negative numbers, Number/Signed about strtol on the others.
-- Environ (libc/src/stdlib/getenv.c, setenv.c): the environment as a list of entries that are C
--   strings, with `malloc` as a parameter. `set_entry` is `setenv` behind its tests, on an array
--   that may be changed. Environ/Entry is about one entry, Lookup about the list, Setting about both
--   functions.
-- Random (libc/src/stdlib/rand.c, rand_r.c): the pseudorandom numbers.
-- Path (libc/src/libgen): `basename` and `dirname`; Path/Parts is about `dirname`.
-- Exit (libc/src/stdlib/atexit.c): the table of the exit handlers; Exit/Order is about the order of
--   the calls.
-- Vga (kernel/src/vgaterminal.cpp): the text screen, as the page of video memory with the cursor.
--   Vga/Screen is the printing of a byte, `backspace`, `fillRect` and `init`, Vga/Escape the escape
--   sequences and `Terminal::write`, Vga/Cursor the ports of the cursor and the warning screen.
--   Vga/Screen/Fill says what the loops fill, Vga/Screen/Valid is about the printing,
--   Vga/Escape/Operations and Safe about all bytes that are printed and Vga/Escape/Sequences about
--   some sequences.
-- Keyboard (kernel/src/keyboard.cpp): the layout, the modifiers and the sequences of the keys;
--   Keyboard/History is about the modifiers.
-- Terminal (kernel/src/terminal.cpp): Terminal/Buffer is `TerminalBuffer`, and Terminal/Buffer/Queue
--   what it holds. Terminal/Lines is `Terminal`, with the screen and the keyboard's modifiers in its
--   state: `handle_character`, `handle_sequence` and `on_keyboard_event` are the keyboard's side,
--   `read` and `write` the process's. Terminal/Lines/Typing, Reading and Session are about the text
--   that is typed, the one that is read, and both.
-- Memory: Memory/Segments (kernel/src/memorysegment.cpp) is the search for free addresses and the
--   insertion of a segment, on the list that the `next` pointers make. Memory/Paging
--   (kernel/src/addressspace.cpp) is the directories and page tables, in one memory of frames, and
--   the translation of an address; NewTable, Entry and Mapped are about `mapAt` and `unMap`.
--   Memory/Frames (kernel/src/physicalmemory.cpp) is the stack of free page frames over
--   Memory/Paging, where Bag forgets the order, and Usable is `PhysicalMemory::initialize`; its
--   Ranges is about the pages that it finds free.
-- Tests: runs at concrete inputs, and each theorem at one of them.
--
-- `vcbprintf` reads a string with `strlen` and `strnlen` of Str; `strdup` takes `malloc` as a function.
-- `malloc` and `free` work on one heap, whose kernel calls are a parameter: a function from a size to
-- the address that is mapped, `null` where there is none.
--
-- A key event goes through the keyboard's layout to the terminal, which echoes it on the screen and
-- stores it in its buffer. The free frames are mapped in the kernel's address space by Memory/Paging
-- while their lock is held, so that `popPageFrame` cannot be called again: a mapping that needed a new
-- page table would wait for ever, and is `none`.
--
-- `updateCursorPosition` and `setCursorVisibility` only write to ports: Vga/Cursor models them, and the
-- operations that call them leave the calls out.
--
-- A `size_t`, an `int`, a `long` and a pointer have 32 bits, a `uintmax_t` 64. Sizes wrap where the C
-- code wraps. The loop of `malloc` runs on fuel: a round for each block and one for each end block are
-- enough where a block fits. The digit loops run on 64 rounds, one for each bit. The loop over a format
-- has a round for each byte of the format and one more. The loop of `strspn` runs on any fuel, since it
-- need not end.
--
-- A read of the terminal is structural on the bytes that it asks for: where the C++ code yields, the
-- model returns what it has, and `read_on` takes it up in the state of then.
--
-- Not modelled: the lock around the heap, which does nothing in a program with one thread; `errno`,
-- except that an overflow of the result is told from a failed write; the removal and the storage
-- of memory segments; the writing of page tables through temporary mappings, and the flushing of the
-- TLB; the rest of the C library, the programs, and the kernel's processes, files, system calls and
-- drivers.
pub mod Base
pub mod Str
pub mod Heap
pub mod Printf
pub mod Environ
pub mod Exit
pub mod Keyboard
pub mod Memory
pub mod Number
pub mod Path
pub mod Random
pub mod Terminal
pub mod Vga
pub mod Tests
