-- ===== src/Printf/Integer.antt =====
-- `convert_integer`, `printInteger` and `printString`.
pub mod Digits
pub mod Counting
pub mod Layout
pub mod Printed
pub mod Numeral
pub mod Shown
use inwox.Base.{
  ℕ, zero, suc, ◌+◌, ◌-◌, ◌*◌, ◌/◌, ◌%◌, ◌^◌, ◌≤◌, ◌<◌, min, ◌≡◌, refl, sym, ap, ◌∙◌, ◌≢◌, ◌↔◌, ◌⊎◌,
  inl, inr, Bool, true, false, not, ◌&&◌, ◌||◌, Option, none, some, List, [], ◌∷◌, ◌++◌, map,
  append-nil, append_assoc, arith, ltb, leb, ◌==◌, ==_iff, if◌then◌else◌, Bool-cases, Option-cases,
  length, get_elem?, set, take, drop, replicate, All, length-append, length-replicate, length-set,
  Bytes,
}
use inwox.Printf.Out.{Callback, Cmd, undefined, pure, ◌>>=◌, ◌>>◌, int_max, add_int, put, pad}

abbrev pub uintmax_mod : ℕ
uintmax_mod = 2 ^ 64

-- The digit strings "0123456789ABCDEF" and "0123456789abcdef" at an index.
unfoldable pub digit_char : Bool → ℕ → ℕ
digit_char upper d = if ltb d 10 then 48 + d else (if upper then 55 + d else 87 + d)

-- The first loop: how often `i` can be divided before it is 0. The fuel is the number of bits.
unfoldable pub count_digits : ℕ → ℕ → ℕ → ℕ
count_digits zero base i = 0
count_digits (suc fuel) base i =
    let rest = count_digits fuel base (i / base) in if i == 0 then 0 else rest + 1

-- The second loop: the bytes written so far, from the lowest address on. A value of 0 has a digit
-- here, though the first loop counts none.
unfoldable pub write_digits : ℕ → Bool → ℕ → ℕ → Bytes → Bytes
write_digits zero upper base value written = written
write_digits (suc fuel) upper base value written =
    let written' = digit_char upper (value % base) ∷ written in
    let rest = write_digits fuel upper base (value / base) written' in
    if value / base == 0 then written' else rest

-- `length` is what `convert_integer` returns. The bytes written end at `destination + length`, so
-- there is one too many, below `destination`, where `written` is longer than `length`.
pub record Converted : Type 0 where
  pub length : ℕ
  pub written : Bytes

abbrev pub bits : ℕ
bits = 64

unfoldable pub convert_integer : Bool → ℕ → ℕ → Converted
convert_integer upper base value = record {
  length = count_digits bits base value;
  written = write_digits bits upper base value [];
}

-- The bytes of `buffer` that `printInteger` passes on, from `buffer[0]`.
abbrev pub digits_of : Converted → Bytes
digits_of c = drop (length c.written - c.length) c.written

-- The write to `buffer[-1]`, where there is one.
unfoldable pub in_buffer : {S : Type 0} → Converted → Cmd S (Unit {0})
in_buffer c = if leb (length c.written) c.length then pure tt else λ s. undefined

pub record Flags : Type 0 where
  pub left_justified : Bool
  pub plus : Bool
  pub space : Bool
  pub alternative : Bool
  pub leading_zeros : Bool

abbrev pub is_signed : ℕ → Bool
is_signed specifier = specifier == b'd' || specifier == b'i'

abbrev pub is_hex : ℕ → Bool
is_hex specifier = specifier == b'x' || specifier == b'X'

abbrev pub base_of : ℕ → ℕ
base_of specifier = if specifier == b'o' then 8 else if is_hex specifier then 16 else 10

-- `(intmax_t)value < 0`.
abbrev pub is_negative : ℕ → ℕ → Bool
is_negative specifier value = is_signed specifier && leb (2 ^ 63) value

-- The value that is converted, and the flags after the sign flags were dropped.
unfoldable pub magnitude : ℕ → ℕ → ℕ
magnitude specifier value =
    if is_negative specifier value then (uintmax_mod - value) % uintmax_mod else value

unfoldable pub sign_flags : ℕ → Flags → Flags
sign_flags specifier flags =
    if is_signed specifier then flags else record flags { plus = false; space = false }

abbrev pub wants_sign : Bool → Flags → Bool
wants_sign negative flags = negative || (flags.plus || flags.space)

abbrev pub sign_char : Bool → Flags → ℕ
sign_char negative flags = if negative then b'-' else if flags.plus then b'+' else b' '

module _ {S : Type 0} (callback : Callback S) where
  -- The padding, the sign and the prefix around the digits, in the order of the code.
  unfoldable pub pad_left : (unpadded field_width : ℕ) → Flags → Cmd S (Unit {0})
  pad_left unpadded field_width flags =
      if flags.left_justified || flags.leading_zeros
      then pure tt
      else pad callback b' ' unpadded field_width

  unfoldable pub put_sign : Bool → Flags → Cmd S (Unit {0})
  put_sign negative flags =
      if wants_sign negative flags then put callback (sign_char negative flags ∷ []) else pure tt

  unfoldable pub put_prefix : (specifier value : ℕ) → Flags → Cmd S (Unit {0})
  put_prefix specifier value flags =
      if flags.alternative && is_hex specifier && not (value == 0)
      then put callback (b'0' ∷ specifier ∷ [])
      else pure tt

  unfoldable pub pad_zeros : (unpadded field_width : ℕ) → Flags → Cmd S (Unit {0})
  pad_zeros unpadded field_width flags =
      if not flags.left_justified && flags.leading_zeros
      then pad callback b'0' unpadded field_width
      else pure tt

  unfoldable pub pad_right : (unpadded field_width : ℕ) → Flags → Cmd S (Unit {0})
  pad_right unpadded field_width flags =
      if flags.left_justified then pad callback b' ' unpadded field_width else pure tt

  -- From the computed lengths on: `unpadded` is unpaddedLength.
  unfoldable pub print_parts :
      (specifier value : ℕ) → Bool → Bytes → (unpadded field_width precision : ℕ) → Flags → Cmd S ℕ
  print_parts specifier value negative digits unpadded field_width precision flags = do
    pad_left unpadded field_width flags
    put_sign negative flags
    put_prefix specifier value flags
    pad_zeros unpadded field_width flags
    pad callback b'0' (length digits) precision
    put callback digits
    pad_right unpadded field_width flags
    pure (if leb field_width unpadded then unpadded else field_width)

  unfoldable pub print_integer : ℕ → ℕ → (field_width precision : ℕ) → Flags → Cmd S ℕ
  print_integer specifier value field_width precision flags = do
    let negative = is_negative specifier value
    let value' = magnitude specifier value
    let flags' = sign_flags specifier flags
    let converted = convert_integer (specifier == b'X') (base_of specifier) value'
    let string_length = converted.length
    in_buffer converted
    precision' ←
        if flags'.alternative && specifier == b'o' && leb precision string_length
        then add_int string_length 1
        else pure precision
    let longer = if leb precision' string_length then string_length else precision'
    unpadded ← if wants_sign negative flags' then add_int longer 1 else pure longer
    unpadded' ←
        if flags'.alternative && is_hex specifier && not (value' == 0)
        then add_int unpadded 2
        else pure unpadded
    print_parts specifier value' negative (digits_of converted) unpadded' field_width precision'
        flags'

  unfoldable pub print_string : Bytes → ℕ → Flags → Cmd S ℕ
  print_string s field_width flags = do
    if flags.left_justified then pure tt else pad callback b' ' (length s) field_width
    put callback s
    pad_right (length s) field_width flags
    pure (if leb field_width (length s) then length s else field_width)
