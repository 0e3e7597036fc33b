-- ===== src/Terminal/Lines.antt =====
-- Terminal: what the keyboard types, what a process reads and writes, and the modes.
pub mod Typing
pub mod Reading
pub mod Session
use inwox.Base.{
  ℕ, zero, suc, ◌+◌, ◌-◌, ◌*◌, ◌/◌, ◌%◌, ◌^◌, ◌≤◌, ◌<◌, min, ◌≡◌, refl, sym, ap, ◌∙◌, ◌≢◌, ◌↔◌, ◌⊎◌,
  inl, inr, Bool, true, false, not, ◌&&◌, ◌||◌, Option, none, some, List, [], ◌∷◌, ◌++◌, map,
  append-nil, append_assoc, arith, ltb, leb, ◌==◌, ==_iff, if◌then◌else◌, Bool-cases, Option-cases,
  length, get_elem?, set, take, drop, replicate, All, length-append, length-replicate, length-set,
  Bytes, ◌>>=◌,
}
use inwox.Base.Int.{ℤ}
use inwox.Keyboard.{Modifiers, get_char_from_key, get_sequence_from_key}
use inwox.Terminal.Buffer
use inwox.Terminal.Buffer.{Buffer, available, has_incomplete_line}
use inwox.Vga.Screen
use inwox.Vga.Screen.{Vga, unsigned_mod, print_character_raw}
use inwox.Vga.Escape.{print_all}

-- `struct termios`, the slots of `c_cc` by their names.
pub record Termios : Type 0 where
  pub iflag : ℕ
  pub oflag : ℕ
  pub cflag : ℕ
  pub lflag : ℕ
  pub eof : ℕ
  pub eol : ℕ
  pub erase : ℕ
  pub intr : ℕ
  pub kill : ℕ
  pub vmin : ℕ
  pub quit : ℕ
  pub start : ℕ
  pub stop : ℕ
  pub susp : ℕ
  pub vtime : ℕ

-- The terminal with the screen and the keyboard's modifiers, which are static variables.
pub record Terminal : Type 0 where
  pub buffer : Buffer
  pub termio : Termios
  pub num_eof : ℕ
  pub screen : Vga
  pub modifiers : Modifiers

-- `fault` is an access outside the video page; `blocked` is `TerminalBuffer::write` waiting for
-- room in the interrupt handler.
pub data Outcome : Type 0 where
  done : Terminal → Outcome
  fault blocked : Outcome

infixl 20 ◌then◌
unfoldable pub ◌then◌ : Outcome → (Terminal → Outcome) → Outcome
done t then f = f t
fault then f = fault
blocked then f = blocked

-- `CTRL`.
unfoldable pub ctrl : ℕ → ℕ
ctrl c = c % 32

unfoldable pub initial_termios : Termios
initial_termios = record {
  iflag = 0;
  oflag = 0;
  cflag = 0;
  lflag = 3;
  eof = ctrl b'D';
  eol = 0;
  erase = 8;
  intr = ctrl b'C';
  kill = ctrl b'U';
  vmin = 1;
  quit = ctrl 92;
  start = ctrl b'Q';
  stop = ctrl b'S';
  susp = ctrl b'Z';
  vtime = 0;
}

-- The constructors; the objects they do not set are `t`'s.
unfoldable pub construct : Terminal → Terminal
construct t = record t { buffer = Buffer.reset t.buffer; termio = initial_termios; num_eof = 0 }

unfoldable pub is_echo : Termios → Bool
is_echo s = s.lflag % 2 == 1

unfoldable pub is_canonical : Termios → Bool
is_canonical s = (s.lflag / 2) % 2 == 1

unfoldable pub show : Option Vga → Terminal → Outcome
show none t = fault
show (some v) t = done (record t { screen = v })

unfoldable pub keep : Option Buffer → Terminal → Outcome
keep none t = blocked
keep (some b) t = done (record t { buffer = b })

unfoldable pub echo : ℕ → Terminal → Outcome
echo c t = if is_echo t.termio then show (print_character_raw c t.screen) t else done t

unfoldable pub enter : ℕ → Terminal → Outcome
enter c t = keep (Buffer.write c t.buffer) t

unfoldable pub end_line : Terminal → Terminal
end_line t = record t { buffer = Buffer.end_line t.buffer }

unfoldable pub end_of_file : Terminal → Terminal
end_of_file t =
    if has_incomplete_line t.buffer
    then end_line t
    else record t { num_eof = (t.num_eof + 1) % unsigned_mod }

unfoldable pub erase_last : Terminal → Outcome
erase_last t =
    let (erased, b) = Buffer.backspace t.buffer in
    if erased && is_echo t.termio
    then show (Screen.backspace t.screen) (record t { buffer = b })
    else done (record t { buffer = b })

-- A byte from 128 on is negative as a char, and differs from every `cc_t`.
unfoldable pub is_char : ℕ → ℕ → Bool
is_char c cc = ltb c 128 && c == cc

-- The slots without an action.
unfoldable pub is_ignored : Termios → ℕ → Bool
is_ignored s c =
    is_char c s.intr
    || is_char c s.kill
    || is_char c s.quit
    || is_char c s.start
    || is_char c s.stop
    || is_char c s.susp

unfoldable pub type_char : ℕ → Terminal → Outcome
type_char c t = echo c t then enter c then λ t'. done (if c == b'\n' then end_line t' else t')

unfoldable pub handle_canonical : ℕ → Terminal → Outcome
handle_canonical c t =
    if is_char c t.termio.eof
    then done (end_of_file t)
    else if is_char c t.termio.eol
    then done t
    else if is_char c t.termio.erase
    then erase_last t
    else if is_ignored t.termio c
    then done t
    else type_char c t

unfoldable pub handle_character : ℕ → Terminal → Outcome
handle_character c t =
    if is_canonical t.termio
    then handle_canonical c t
    else (echo c t then enter c then λ t'. done (end_line t'))

-- The loop over a string, up to its NUL.
unfoldable pub enter_all : Bytes → Terminal → Outcome
enter_all [] t = done t
enter_all (c ∷ cs) t = if c == 0 then done t else (echo c t then enter c then enter_all cs)

unfoldable pub handle_sequence : Bytes → Terminal → Outcome
handle_sequence cs t =
    if not (is_canonical t.termio) then (enter_all cs t then λ t'. done (end_line t')) else done t

unfoldable pub handle_found : Option Bytes → Terminal → Outcome
handle_found none t = done t
handle_found (some cs) t = handle_sequence cs t

unfoldable pub on_keyboard_event : ℤ → Terminal → Outcome
on_keyboard_event key t =
    let (c, m) = get_char_from_key key t.modifiers in
    let t' = record t { modifiers = m } in
    if not (c == 0) then handle_character c t' else handle_found (get_sequence_from_key key) t'

-- A read is over, or it waits for the keyboard with the bytes that are read so far. When it goes
-- on, it is `read_on` in the state of then.
pub data ReadResult : Type 0 where
  returned : Bytes → Terminal → ReadResult
  waits : ℕ → Bytes → Terminal → ReadResult
  read_fault : ReadResult

-- The turn of the loop that reads a byte, and the rest of the loop.
unfoldable pub read_turn :
    Terminal → Bytes → (Bytes → Terminal → ReadResult) → Option (ℕ × Buffer) → ReadResult
read_turn t got rest none = read_fault
read_turn t got rest (some (c, b)) =
    if is_canonical t.termio && c == b'\n'
    then returned (got ++ (c ∷ [])) (record t { buffer = b })
    else rest (got ++ (c ∷ [])) (record t { buffer = b })

unfoldable pub is_read_over : Termios → ℕ → Bool
is_read_over s n = if is_canonical s then ltb 0 n else leb s.vmin n

-- On the bytes that are wanted still, and those read.
unfoldable pub read_on : ℕ → Bytes → Terminal → ReadResult
read_on zero got t = returned got t
read_on (suc n) got t =
    let byte = read_turn t got (read_on n) (Buffer.read t.buffer) in
    if available t.buffer == 0 && t.num_eof == 0
    then if is_read_over t.termio (length got) then returned got t else waits (suc n) got t
    else if ltb 0 t.num_eof
    then if ltb 0 (length got)
      then returned got t
      else returned [] (record t { num_eof = t.num_eof - 1 })
    else byte

unfoldable pub read : ℕ → Terminal → ReadResult
read size t = read_on size [] t

unfoldable pub write : Bytes → Terminal → Outcome
write cs t = show (print_all cs t.screen) t

unfoldable pub tcgetattr : Terminal → Termios
tcgetattr t = t.termio

-- TCSAFLUSH is 0: what is typed and not read is thrown away.
unfoldable pub tcsetattr : ℕ → Termios → Terminal → Terminal
tcsetattr flags s t =
    let t' = record t { termio = s } in
    if flags == 0 then record t' { buffer = Buffer.reset t.buffer; num_eof = 0 } else t'
