-- ===== src/Tests/Terminal.antt =====
-- The terminal with a short line.
use inwox.Base.{
  ℕ, ◌-◌, ◌≡◌, refl, ◌≢◌, true, false, ◌||◌, [], ◌∷◌, ◌++◌, arith, leb, if◌then◌else◌, length, take,
  drop, replicate, All, length-replicate, Bytes,
}
use inwox.Keyboard.History.{released}
use inwox.Terminal.Buffer.{Buffer}
use inwox.Terminal.Buffer.Queue.{Holds}
use inwox.Terminal.Lines.{
  Termios, Terminal, done, returned, waits, initial_termios, ctrl, is_canonical, is_char,
  is_ignored, handle_character, read_on, read,
}
use inwox.Terminal.Lines.Typing.{Typed, IsTyped, type_key, handle_character-type_key}
use inwox.Terminal.Lines.Reading.{line_of, after_line, read-line_of, read-raw}
use inwox.Terminal.Lines.Session.{type_all, IsPlain, read-type_all, read-handle_character}
use inwox.Tests.Vga.{second_line, second_line-IsScreen}

-- The bytes ab, a newline and c, of which the first three are a line.
abbrev short_buffer : Buffer
short_buffer = record {
  circular = b'a' ∷ (b'b' ∷ (b'\n' ∷ (b'c' ∷ replicate 4092 0)));
  read_index = 0;
  line_index = 3;
  write_index = 4;
}

abbrev one_line : Bytes
one_line = b'a' ∷ (b'b' ∷ (b'\n' ∷ []))

abbrev one_line_and_c : Typed
one_line_and_c = record { lines = one_line; open_line = b'c' ∷ []; eofs = 0 }

abbrev with_modes : Termios → ℕ → Terminal
with_modes s n = record {
  buffer = short_buffer;
  termio = s;
  num_eof = n;
  screen = second_line;
  modifiers = released;
}

short_buffer-Holds : Holds short_buffer one_line (b'c' ∷ [])
short_buffer-Holds =
    let rest = length-replicate {A = ℕ} 4092 0 in
    record {
      size = omega (arith, rest);
      start = omega arith;
      middle = refl;
      end = refl;
      room = omega arith;
      bytes = (refl, (refl, (refl, (refl, tt))));
    }

with_modes-IsTyped : (s : Termios) → IsTyped s (with_modes s 0) one_line_and_c
with_modes-IsTyped s = record {
  held = short_buffer-Holds;
  eofs = refl;
  screen = second_line-IsScreen;
  termio = refl;
}

initial-canonical : is_canonical initial_termios ≡ true
unfolding is_canonical initial_termios
initial-canonical = refl

-- Backspace.
handle_character-type_key_example :
    (t' : Terminal) × (handle_character 8 (with_modes initial_termios 0) ≡ done t')
    × IsTyped initial_termios t' (type_key initial_termios 8 one_line_and_c)
handle_character-type_key_example =
    handle_character-type_key initial_termios 8 (with_modes initial_termios 0) one_line_and_c
      (with_modes-IsTyped initial_termios) initial-canonical (omega arith) (omega arith)
      (λ e. omega arith)

read-line_of_example :
    (t' : Terminal) × (read 2 (with_modes initial_termios 0) ≡ returned (line_of 2 one_line) t')
    × IsTyped initial_termios t'
        (record { lines = after_line 2 one_line; open_line = b'c' ∷ []; eofs = 0 })
read-line_of_example =
    read-line_of initial_termios (with_modes initial_termios 0) one_line (b'c' ∷ []) 2
      (with_modes-IsTyped initial_termios) initial-canonical (omega arith)

-- Without ICANON, and with VMIN 4.
abbrev raw_termios : Termios
raw_termios = record {
  iflag = 0;
  oflag = 0;
  cflag = 0;
  lflag = 0;
  eof = 4;
  eol = 0;
  erase = 8;
  intr = 3;
  kill = 21;
  vmin = 4;
  quit = 28;
  start = 17;
  stop = 19;
  susp = 26;
  vtime = 0;
}

raw-not_canonical : is_canonical raw_termios ≡ false
unfolding is_canonical
raw-not_canonical = refl

read-raw_example :
    (t' : Terminal) × (read 10 (with_modes raw_termios 0) ≡ (
      if leb 10 (length one_line) || leb 4 (length one_line)
      then returned (take 10 one_line) t'
      else waits (10 - length one_line) one_line t'))
    × IsTyped raw_termios t' (record { lines = drop 10 one_line; open_line = b'c' ∷ []; eofs = 0 })
read-raw_example =
    read-raw raw_termios (with_modes raw_termios 0) one_line (b'c' ∷ []) 10
      (with_modes-IsTyped raw_termios) raw-not_canonical

abbrev nothing_typed : Terminal
nothing_typed = record (with_modes initial_termios 0) {
  buffer = record short_buffer { read_index = 4; line_index = 4 };
}

nothing_typed-IsTyped :
    IsTyped initial_termios nothing_typed (record { lines = []; open_line = []; eofs = 0 })
nothing_typed-IsTyped =
    let rest = length-replicate {A = ℕ} 4092 0 in
    record {
      held = record {
        size = omega (arith, rest);
        start = omega arith;
        middle = refl;
        end = refl;
        room = omega arith;
        bytes = tt;
      };
      eofs = refl;
      screen = second_line-IsScreen;
      termio = refl;
    }

abbrev letters : Bytes
letters = b'h' ∷ (b'i' ∷ [])

letters-IsPlain : All (λ c. IsPlain initial_termios c × (c ≢ b'\n')) letters
unfolding initial_termios ctrl is_char is_ignored
letters-IsPlain =
    (((refl, refl, refl, refl), omega arith), (((refl, refl, refl, refl), omega arith), tt))

newline-IsPlain : IsPlain initial_termios b'\n'
unfolding initial_termios ctrl is_char is_ignored
newline-IsPlain = (refl, refl, refl, refl)

read-type_all_example :
    (read 80 nothing_typed ≡ waits 80 [] nothing_typed)
    × ((t1 t2 : Terminal) × (type_all (letters ++ (b'\n' ∷ [])) nothing_typed ≡ done t1)
        × (read_on 80 [] t1 ≡ returned (letters ++ (b'\n' ∷ [])) t2)
        × IsTyped initial_termios t2 (record { lines = []; open_line = []; eofs = 0 }))
read-type_all_example =
    read-type_all initial_termios letters nothing_typed 80 nothing_typed-IsTyped initial-canonical
      letters-IsPlain newline-IsPlain (omega arith) (omega arith)

-- The line, and nothing after it.
abbrev line_typed : Terminal
line_typed = record (with_modes initial_termios 0) {
  buffer = record short_buffer { write_index = 3 };
}

line_typed-IsTyped :
    IsTyped initial_termios line_typed (record { lines = one_line; open_line = []; eofs = 0 })
line_typed-IsTyped =
    let rest = length-replicate {A = ℕ} 4092 0 in
    record {
      held = record {
        size = omega (arith, rest);
        start = omega arith;
        middle = refl;
        end = refl;
        room = omega arith;
        bytes = (refl, (refl, (refl, tt)));
      };
      eofs = refl;
      screen = second_line-IsScreen;
      termio = refl;
    }

ctrl_d-eof : is_char 4 initial_termios.eof ≡ true
unfolding initial_termios ctrl is_char
ctrl_d-eof = refl

read-handle_character_example :
    (t1 t2 t3 : Terminal) × (handle_character 4 line_typed ≡ done t1)
    × (read 2 t1 ≡ returned [] t2)
    × (read 2 t2 ≡ returned (line_of 2 one_line) t3)
    × IsTyped initial_termios t3
        (record { lines = after_line 2 one_line; open_line = []; eofs = 0 })
read-handle_character_example =
    read-handle_character initial_termios 4 line_typed one_line 2 line_typed-IsTyped
      initial-canonical ctrl_d-eof (omega arith) (omega arith)
