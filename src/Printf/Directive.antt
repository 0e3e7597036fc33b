-- ===== src/Printf/Directive.antt =====
-- `vcbprintf`: the conversion specifications of a format, and the loop over it.
use inwox.Base.{
  ℕ, ◌+◌, ◌-◌, ◌*◌, ◌%◌, ◌^◌, Bool, true, false, ◌&&◌, Option, none, some, List, [], ◌∷◌, ltb, leb,
  ◌==◌, if◌then◌else◌, length, Bytes, ◌>>=◌,
}
use inwox.Printf.Integer.{Flags}
use inwox.Printf.Out.{int_max}

-- LENGTH_CHAR_HH and the other lengths.
pub data Length : Type 0 where
  char_hh short_h int_default long_l long_long_ll intmax_j size_z ptrdiff_t long_double_l : Length

abbrev pub no_flags : Flags
no_flags = record {
  left_justified = false;
  plus = false;
  space = false;
  alternative = false;
  leading_zeros = false;
}

unfoldable pub add_flag : ℕ → Flags → Option Flags
add_flag c flags =
    if c == b'-'
    then some (record flags { left_justified = true })
    else if c == b'+'
    then some (record flags { plus = true })
    else if c == b' '
    then some (record flags { space = true })
    else if c == b'#'
    then some (record flags { alternative = true })
    else if c == b'0'
    then some (record flags { leading_zeros = true })
    else none

-- The flags, and the format from the first byte that is none. `none` is a read beyond the format,
-- and so it is in the functions below.
unfoldable pub parse_flags : Flags → Bytes → Option (Flags × Bytes)
parse_flags flags [] = none
parse_flags flags (c ∷ format) = elim (add_flag c flags) [
  | none ↦ some (flags, c ∷ format)
  | some flags' ↦ parse_flags flags' format
]

abbrev is_digit : ℕ → Bool
is_digit c = leb b'0' c && leb c b'9'

-- A number in decimal; `none` also where `n * 10 + c` does not fit an int.
unfoldable pub parse_number : ℕ → Bytes → Option (ℕ × Bytes)
parse_number n [] = none
parse_number n (c ∷ format) =
    let rest = parse_number (n * 10 + c - 48) format in
    if is_digit c then (if leb (n * 10 + c) int_max then rest else none) else some (n, c ∷ format)

-- The arguments behind the format: an int or another 32-bit value, a 64-bit value, a string.
-- Only the low bits of a number count.
pub data Arg : Type 0 where
  word : ℕ → Arg
  dword : ℕ → Arg
  text : Bytes → Arg
  int_pointer : Arg

-- `va_arg(vl, int)` and the other 32-bit types; `none` where the argument has another type.
unfoldable pub next_word : List Arg → Option (ℕ × List Arg)
next_word (word w ∷ vl) = some (w % 2 ^ 32, vl)
next_word _ = none

unfoldable pub next_dword : List Arg → Option (ℕ × List Arg)
next_dword (dword w ∷ vl) = some (w % 2 ^ 64, vl)
next_dword _ = none

pub record Width : Type 0 where
  pub flags : Flags
  pub field_width : ℕ
  pub format : Bytes
  pub vl : List Arg

unfoldable pub star_width : Flags → Bytes → ℕ → List Arg → Option Width
star_width flags format w vl =
    if ltb w (2 ^ 31)
    then some (record { flags = flags; field_width = w; format = format; vl = vl })
    else if w == 2 ^ 31
    then none
    else some (record {
      flags = record flags { left_justified = true };
      field_width = 2 ^ 32 - w;
      format = format;
      vl = vl;
    })

-- The field width. A negative argument asks for left justification; that of the least int has no
-- negation.
unfoldable pub parse_width : Flags → Bytes → List Arg → Option Width
parse_width flags [] vl = none
parse_width flags (c ∷ format) vl =
    if c == b'*'
    then (next_word vl >>= λ (w, vl'). star_width flags format w vl')
    else (parse_number 0 (c ∷ format) >>= λ (n, format').
        some (record { flags = flags; field_width = n; format = format'; vl = vl }))

pub record Precision : Type 0 where
  pub precision : Option ℕ
  pub format : Bytes
  pub vl : List Arg

unfoldable pub star_precision : Bytes → List Arg → Option Precision
star_precision format vl = next_word vl >>= λ (w, vl').
    some (record { precision = if ltb w (2 ^ 31) then some w else none; format = format; vl = vl' })

unfoldable pub given_precision : Bytes → List Arg → Option Precision
given_precision [] vl = none
given_precision (c ∷ format) vl =
    if c == b'*'
    then star_precision format vl
    else (parse_number 0 (c ∷ format) >>= λ (n, format').
        some (record { precision = some n; format = format'; vl = vl }))

-- The precision; `none` stands for every negative one.
unfoldable pub parse_precision : Bytes → List Arg → Option Precision
parse_precision [] vl = none
parse_precision (c ∷ format) vl =
    if c == b'.'
    then given_precision format vl
    else some (record { precision = none; format = c ∷ format; vl = vl })

-- What a length byte does: `stop` ends the loop behind the byte, `next` goes on with the next byte,
-- `back` ends it at the byte.
pub data LengthStep : Type 0 where
  stop : Length → LengthStep
  next : Length → LengthStep
  back : LengthStep

unfoldable pub after_h : Length → LengthStep
after_h short_h = stop char_hh
after_h _ = next short_h

unfoldable pub after_l : Length → LengthStep
after_l long_l = stop long_long_ll
after_l _ = next long_l

unfoldable pub step_length : Length → ℕ → LengthStep
step_length length c =
    if c == b'h'
    then after_h length
    else if c == b'l'
    then after_l length
    else if c == b'j'
    then stop intmax_j
    else if c == b'z'
    then stop size_z
    else if c == b't'
    then stop ptrdiff_t
    else if c == b'L'
    then stop long_double_l
    else back

unfoldable pub parse_length : Length → Bytes → Option (Length × Bytes)
parse_length length [] = none
parse_length length (c ∷ format) = elim (step_length length c) [
  | stop l ↦ some (l, format)
  | next l ↦ parse_length l format
  | back ↦ some (length, c ∷ format)
]
