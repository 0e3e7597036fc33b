-- ===== src/Terminal/Buffer.antt =====
-- TerminalBuffer: the circular buffer of what was typed.
pub mod Queue
use inwox.Base.{
  ℕ, zero, suc, ◌+◌, ◌-◌, ◌*◌, ◌/◌, ◌%◌, ◌^◌, ◌≤◌, ◌<◌, min, ◌≡◌, refl, sym, ap, ◌∙◌, ◌≢◌, ◌↔◌, ◌⊎◌,
  inl, inr, Bool, true, false, not, ◌&&◌, ◌||◌, Option, none, some, List, [], ◌∷◌, ◌++◌, map,
  append-nil, append_assoc, arith, ltb, leb, ◌==◌, ==_iff, if◌then◌else◌, Bool-cases, Option-cases,
  length, get_elem?, set, take, drop, replicate, All, length-append, length-replicate, length-set,
  Bytes, ◌>>=◌,
}

abbrev pub buffer_size : ℕ
buffer_size = 4096

pub record Buffer : Type 0 where
  pub circular : Bytes
  pub read_index : ℕ
  pub line_index : ℕ
  pub write_index : ℕ

-- The distance of two indices, whichever is larger: only its being 0 or not is used.
unfoldable pub available : Buffer → ℕ
available b =
    if leb b.read_index b.line_index
    then b.line_index - b.read_index
    else b.read_index - b.line_index

unfoldable pub backspace : Buffer → Bool × Buffer
backspace b =
    if b.line_index == b.write_index
    then (false, b)
    else if not (b.write_index == 0)
    then (true, record b { write_index = (b.write_index - 1) % buffer_size })
    else (true, record b { write_index = buffer_size - 1 })

unfoldable pub reset : Buffer → Buffer
reset b = record b { read_index = 0; line_index = 0; write_index = 0 }

-- `none` is the loop that waits for room: the caller is the keyboard's interrupt, so nothing is read
-- meanwhile.
unfoldable pub write : ℕ → Buffer → Option Buffer
write c b =
    if (b.write_index + 1) % buffer_size == b.read_index
    then none
    else some (record b {
      circular = set b.circular b.write_index c;
      write_index = (b.write_index + 1) % buffer_size;
    })

-- `none` is a read outside the buffer.
unfoldable pub read : Buffer → Option (ℕ × Buffer)
read b = get_elem? b.circular b.read_index >>= λ c.
    some (c, record b { read_index = (b.read_index + 1) % buffer_size })

unfoldable pub end_line : Buffer → Buffer
end_line b = record b { line_index = b.write_index }

unfoldable pub has_incomplete_line : Buffer → Bool
has_incomplete_line b = not (b.line_index == b.write_index)
