-- ===== src/Printf/Format.antt =====
-- `vcbprintf`: fetching and printing the arguments, and the loop over the format.
pub mod Counting
pub mod Verbatim
pub mod Single
use inwox.Base.{
  ℕ, zero, suc, ◌+◌, ◌-◌, ◌*◌, ◌/◌, ◌%◌, ◌^◌, ◌≤◌, ◌<◌, min, ◌≡◌, refl, sym, ap, ◌∙◌, ◌≢◌, ◌↔◌, ◌⊎◌,
  inl, inr, Bool, true, false, not, ◌&&◌, ◌||◌, Option, none, some, List, [], ◌∷◌, ◌++◌, map,
  append-nil, append_assoc, arith, ltb, leb, ◌==◌, ==_iff, if◌then◌else◌, Bool-cases, Option-cases,
  length, get_elem?, set, take, drop, replicate, All, length-append, length-replicate, length-set,
  Bytes,
}
use inwox.Str.{strlen, strnlen}
use inwox.Printf.Out.{
  Callback, Run, undefined, overflowed, Cmd, pure, ◌>>=◌, ◌>>◌, int_max, add_int, put,
}
use inwox.Printf.Integer.{Flags, print_integer, print_string}
use inwox.Printf.Directive.{
  Length, char_hh, short_h, int_default, long_l, long_long_ll, intmax_j, size_z, ptrdiff_t,
  long_double_l, Arg, text, int_pointer, next_word, next_dword, no_flags, parse_flags, parse_width,
  parse_precision, parse_length,
}

-- A signed value of `w` bits as a uintmax_t.
unfoldable pub sign_extend : ℕ → ℕ → ℕ
sign_extend w v = let low = v % 2 ^ w in if ltb low (2 ^ (w - 1)) then low else low + 2 ^ 64 - 2 ^ w

-- A 32-bit or a 64-bit argument, narrowed by a cast.
unfoldable pub word_as : (ℕ → ℕ) → List Arg → Option (ℕ × List Arg)
word_as cast vl = elim (next_word vl) [ none ↦ none | some (w, vl') ↦ some (cast w, vl') ]

-- The switch for the unsigned conversions: a `long`, a `size_t` and a `ptrdiff_t` have 32 bits.
unfoldable pub unsigned_value : Length → List Arg → Option (ℕ × List Arg)
unsigned_value char_hh vl = word_as (λ w. w % 2 ^ 8) vl
unsigned_value short_h vl = word_as (λ w. w % 2 ^ 16) vl
unsigned_value int_default vl = word_as (λ w. w) vl
unsigned_value long_l vl = word_as (λ w. w) vl
unsigned_value long_long_ll vl = next_dword vl
unsigned_value intmax_j vl = next_dword vl
unsigned_value size_z vl = word_as (λ w. w) vl
unsigned_value ptrdiff_t vl = word_as (sign_extend 32) vl
unsigned_value long_double_l vl = some (0, vl)

unfoldable pub signed_value : Length → List Arg → Option (ℕ × List Arg)
signed_value char_hh vl = word_as (sign_extend 8) vl
signed_value short_h vl = word_as (sign_extend 16) vl
signed_value int_default vl = word_as (sign_extend 32) vl
signed_value long_l vl = word_as (sign_extend 32) vl
signed_value long_long_ll vl = next_dword vl
signed_value intmax_j vl = next_dword vl
signed_value size_z vl = word_as (sign_extend 32) vl
signed_value ptrdiff_t vl = word_as (sign_extend 32) vl
signed_value long_double_l vl = some (0, vl)

abbrev pub is_unsigned : ℕ → Bool
is_unsigned c = c == b'o' || c == b'u' || c == b'x' || c == b'X'

abbrev pub is_signed : ℕ → Bool
is_signed c = c == b'd' || c == b'i'

unfoldable pub fetch_value : ℕ → Length → List Arg → Option (ℕ × List Arg)
fetch_value specifier length vl =
    if is_unsigned specifier
    then unsigned_value length vl
    else if is_signed specifier
    then signed_value length vl
    else some (0, vl)

-- A conversion specification, up to the specifier, with which `format` begins.
pub record Spec : Type 0 where
  pub flags : Flags
  pub field_width : ℕ
  pub precision : Option ℕ
  pub length : Length
  pub format : Bytes
  pub vl : List Arg

unfoldable pub parse_spec : Bytes → List Arg → Option Spec
parse_spec format vl = elim (parse_flags no_flags format) [
  | none ↦ none
  | some (flags, format') ↦ elim (parse_width flags format' vl) [
    | none ↦ none
    | some w ↦ elim (parse_precision w.format w.vl) [
      | none ↦ none
      | some p ↦ elim (parse_length int_default p.format) [
        | none ↦ none
        | some (l, format'') ↦ some (record {
          flags = w.flags;
          field_width = w.field_width;
          precision = p.precision;
          length = l;
          format = format'';
          vl = p.vl;
        })
      ]
    ]
  ]
]

-- The result so far, the arguments left, and what `%n` stored.
pub record Progress : Type 0 where
  pub result : ℕ
  pub vl : List Arg
  pub stored : List ℕ

-- `INCREMENT_RESULT(x)`.
unfoldable pub increment : {S : Type 0} → ℕ → List Arg → Progress → Cmd S Progress
increment x vl pr = do r ← add_int pr.result x; pure (record pr { result = r; vl = vl })

unfoldable pub lift : {S A : Type 0} → Option A → Cmd S A
lift none s = undefined
lift (some a) s = pure a s

unfoldable pub overflow : {S A : Type 0} → Cmd S A
overflow s = overflowed s

unfoldable pub alternative_only : Flags
alternative_only = record no_flags { alternative = true }

unfoldable pub number_precision : Option ℕ → ℕ
number_precision none = 1
number_precision (some p) = p

-- A precision switches leading zeros off.
unfoldable pub number_flags : Option ℕ → Flags → Flags
number_flags none flags = flags
number_flags (some p) flags = record flags { leading_zeros = false }

unfoldable pub string_size : Bytes → Option ℕ → Option ℕ
string_size s none = strlen s
string_size s (some precision) = strnlen s precision

unfoldable pub next_text : List Arg → Option (Bytes × List Arg)
next_text (text s ∷ vl) = some (s, vl)
next_text _ = none

unfoldable pub next_int_pointer : List Arg → Option (List Arg)
next_int_pointer (int_pointer ∷ vl) = some vl
next_int_pointer _ = none

module _ {S : Type 0} (callback : Callback S) where
  unfoldable pub convert_number : ℕ → Spec → Progress → Cmd S Progress
  convert_number specifier sp pr = do
    (value, vl) ← lift (fetch_value specifier sp.length sp.vl)
    written ←
        print_integer callback specifier value sp.field_width (number_precision sp.precision)
          (number_flags sp.precision sp.flags)
    increment written vl pr

  unfoldable pub convert_char : Spec → Progress → Cmd S Progress
  convert_char sp pr = do
    (w, vl) ← lift (next_word sp.vl)
    written ← print_string callback ((w % 256) ∷ []) sp.field_width sp.flags
    increment written vl pr

  unfoldable pub convert_string : Spec → Progress → Cmd S Progress
  convert_string sp pr = do
    (s, vl) ← lift (next_text sp.vl)
    size ← lift (string_size s sp.precision)
    if ltb int_max size then overflow else (do
      written ← print_string callback (take size s) sp.field_width sp.flags
      increment written vl pr)

  unfoldable pub convert_pointer : Spec → Progress → Cmd S Progress
  convert_pointer sp pr = do
    (w, vl) ← lift (next_word sp.vl)
    written ← print_integer callback b'x' w 0 1 alternative_only
    increment written vl pr

  unfoldable pub convert_count : Spec → Progress → Cmd S Progress
  convert_count sp pr = do
    vl ← lift (next_int_pointer sp.vl)
    pure (record pr { vl = vl; stored = pr.stored ++ (pr.result ∷ []) })

  unfoldable pub convert_percent : Spec → Progress → Cmd S Progress
  convert_percent sp pr = do put callback (b'%' ∷ []); increment 1 sp.vl pr

  -- The switch on the specifier; `none` is an invalid conversion.
  unfoldable pub convert : ℕ → Spec → Progress → Option (Cmd S Progress)
  convert specifier sp pr =
      if is_unsigned specifier || is_signed specifier
      then some (convert_number specifier sp pr)
      else if specifier == b'c'
      then some (convert_char sp pr)
      else if specifier == b's'
      then some (convert_string sp pr)
      else if specifier == b'p'
      then some (convert_pointer sp pr)
      else if specifier == b'n'
      then some (convert_count sp pr)
      else if specifier == b'%'
      then some (convert_percent sp pr)
      else none

  unfoldable pub put_literal : ℕ → Progress → Cmd S Progress
  put_literal c pr = do put callback (c ∷ []); increment 1 pr.vl pr

  -- The loop once `invalidConversion` is set: the rest of the format is printed as it stands.
  unfoldable pub literal_loop : Bytes → Progress → Cmd S Progress
  literal_loop [] pr = λ _. undefined
  literal_loop (c ∷ format) pr =
      let rest = put_literal c pr >>= λ pr'. literal_loop format pr' in
      if c == 0 then pure pr else rest

  -- What follows the switch: `next` takes the rest of the format, or, after an invalid conversion,
  -- all is printed as it stands from `begin`, which is specifierBegin.
  unfoldable pub after_switch :
      (Bytes → Progress → Cmd S Progress)
      → Bytes
      → Option (Cmd S Progress)
      → Bytes
      → Progress
      → Cmd S Progress
  after_switch next begin none rest pr = literal_loop begin pr
  after_switch next begin (some printed) rest pr = printed >>= next rest

  unfoldable pub at_specifier :
      (Bytes → Progress → Cmd S Progress) → Bytes → Bytes → Spec → Progress → Cmd S Progress
  at_specifier next begin [] sp pr = λ _. undefined
  at_specifier next begin (specifier ∷ rest) sp pr =
      after_switch next begin (convert specifier sp pr) rest pr

  -- One conversion specification and the rest of the format.
  unfoldable pub directive :
      (Bytes → Progress → Cmd S Progress) → Bytes → Option Spec → Progress → Cmd S Progress
  directive next begin none pr = λ _. undefined
  directive next begin (some sp) pr = at_specifier next begin sp.format sp pr

  -- The loop over the format, on the rounds left.
  unfoldable pub format_loop : ℕ → Bytes → Progress → Cmd S Progress
  format_loop zero format pr = λ _. undefined
  format_loop (suc fuel) [] pr = λ _. undefined
  format_loop (suc fuel) (c ∷ format) pr =
      let literal = put_literal c pr >>= format_loop fuel format in
      let converted = directive (format_loop fuel) (c ∷ format) (parse_spec format pr.vl) pr in
      if c == 0 then pure pr else if not (c == b'%') then literal else converted

  -- The result, and what `%n` stored. Each round takes a byte of the format at least.
  unfoldable pub vcbprintf : Bytes → List Arg → Cmd S (ℕ × List ℕ)
  vcbprintf format vl = do
    pr ← format_loop (length format + 1) format (record { result = 0; vl = vl; stored = [] })
    pure (pr.result, pr.stored)
