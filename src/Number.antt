-- ===== src/Number.antt =====
-- libc/src/stdlib/strtol.c and strtoul.c, one text that is compiled for `long` and for
-- `unsigned long`. Both have 32 bits; a `long` is its word in two's complement.
pub mod Value
pub mod Signed
use inwox.Base.{
  ℕ, zero, suc, ◌+◌, ◌-◌, ◌*◌, ◌/◌, ◌%◌, ◌^◌, ◌≤◌, ◌<◌, min, ◌≡◌, refl, sym, ap, ◌∙◌, ◌≢◌, ◌↔◌, ◌⊎◌,
  inl, inr, Bool, true, false, not, ◌&&◌, ◌||◌, Option, none, some, List, [], ◌∷◌, ◌++◌, map,
  append-nil, append_assoc, arith, ltb, leb, ◌==◌, ==_iff, if◌then◌else◌, Bool-cases, Option-cases,
  length, get_elem?, set, take, drop, replicate, All, length-append, length-replicate, length-set,
  Bytes, ◌>>=◌,
}
use inwox.Str.{isspace}

-- `signed` is true in strtol and false in strtoul (STRTOL_UNSIGNED is its negation).
abbrev pub word_mod : ℕ
word_mod = 2 ^ 32

abbrev pub result_max : Bool → ℕ
result_max signed = if signed then 2 ^ 31 - 1 else 2 ^ 32 - 1

abbrev pub result_min : Bool → ℕ
result_min signed = if signed then 2 ^ 31 else 0

-- The order of the words: of their values as a `long`, or as they are.
abbrev pub rank : Bool → ℕ → ℕ
rank signed w = if signed then (w + 2 ^ 31) % word_mod else w

-- `a - b`; `none` where a signed subtraction overflows, which C leaves undefined.
unfoldable pub subtract : Bool → ℕ → ℕ → Option ℕ
subtract signed a b =
    let d = (a + word_mod - b) % word_mod in
    if not signed
    then some d
    else if leb (rank true b) (rank true a + 2 ^ 31) && ltb (rank true a) (rank true b + 2 ^ 31)
    then some d
    else none

-- `__builtin_mul_overflow(result, base, &result)`: the product that wraps, and whether it does.
unfoldable pub multiply : Bool → ℕ → ℕ → ℕ × Bool
multiply signed result base = (
  result * base % word_mod,
  if not signed
      then leb word_mod (result * base)
      else if ltb result (2 ^ 31)
      then leb (2 ^ 31) (result * base)
      else ltb (2 ^ 31) ((word_mod - result) * base),
)

unfoldable pub get_digit_value : Bool → ℕ → ℕ
get_digit_value signed c =
    if leb b'0' c && leb c b'9'
    then c - 48
    else if leb b'a' c && leb c b'z'
    then 10 + c - 97
    else if leb b'A' c && leb c b'Z'
    then 10 + c - 65
    else result_max signed

-- What the loop has found: the result, `overflow`, `numberFound`, and the bytes read.
pub record Scan : Type 0 where
  pub result : ℕ
  pub overflow : Bool
  pub number_found : Bool
  pub count : ℕ

-- What becomes of the result and of `overflow`, with the room that is left.
unfoldable pub put_digit : Bool → ℕ → ℕ → ℕ → ℕ → Bool → ℕ × Bool
put_digit signed digit room result moved overflow =
    if leb (rank signed digit) (rank signed room) then (moved, overflow) else (result, true)

-- The digit goes to the result where it fits, and `overflow` is set where it does not.
unfoldable pub add_digit : Bool → Bool → ℕ → ℕ → Bool → Option (ℕ × Bool)
add_digit signed negative digit result overflow =
    let up = (result + digit) % word_mod in
    let down = (result + word_mod - digit) % word_mod in
    if negative
    then (subtract signed result (result_min signed) >>= λ room.
        some (put_digit signed digit room result down overflow))
    else (subtract signed (result_max signed) result >>= λ room.
        some (put_digit signed digit room result up overflow))

unfoldable pub step : Bool → Bool → ℕ → ℕ → Scan → Option Scan
step signed negative base digit scan =
    let (product, wrapped) = multiply signed scan.result base in
    add_digit signed negative digit product (scan.overflow || wrapped) >>= λ (result, overflow).
    some
      (record { result = result; overflow = overflow; number_found = true; count = scan.count + 1 })

-- The loop over the digits.
unfoldable pub scan_digits : Bool → Bool → ℕ → Bytes → Scan → Option Scan
scan_digits signed negative base [] scan = none
scan_digits signed negative base (c ∷ str) scan =
    let digit = get_digit_value signed c in
    if leb base digit
    then some scan
    else (step signed negative base digit scan >>= scan_digits signed negative base str)

-- White space is skipped; the number of bytes skipped, and what is left.
unfoldable pub skip_space : ℕ → Bytes → Option (ℕ × Bytes)
skip_space n [] = none
skip_space n (c ∷ str) = if isspace c then skip_space (n + 1) str else some (n, c ∷ str)

-- The sign: `minus`, the bytes read, and what is left.
unfoldable pub read_sign : Bytes → Option (Bool × ℕ × Bytes)
read_sign [] = none
read_sign (c ∷ str) =
    if c == b'+'
    then some (false, 1, str)
    else if c == b'-'
    then some (true, 1, str)
    else some (false, 0, c ∷ str)

-- Is `str` at "0x" or "0X"? The second byte is read behind a `0` only.
unfoldable pub at_hex : Bytes → Option Bool
at_hex [] = none
at_hex (c ∷ []) = if c == b'0' then none else some false
at_hex (c ∷ d ∷ str) = some (c == b'0' && (d == b'x' || d == b'X'))

unfoldable pub detect_base : ℕ → Bytes → Option ℕ
detect_base base [] = none
detect_base base (c ∷ str) =
    if not (base == 0)
    then some base
    else if c == b'0'
    then (at_hex (c ∷ str) >>= λ hex. some (if hex then 16 else 8))
    else some 10

-- The prefix of base 16.
unfoldable pub skip_prefix : ℕ → Bytes → Option (ℕ × Bytes)
skip_prefix base str =
    if base == 16
    then (at_hex str >>= λ hex. some (if hex then (2, drop 2 str) else (0, str)))
    else some (0, str)

-- The result, what `*end` points at as an offset, and whether `errno` is set.
pub record Parsed : Type 0 where
  pub result : ℕ
  pub end : ℕ
  pub failed : Bool

unfoldable pub finish : Bool → Bool → ℕ → Scan → Parsed
finish signed minus start scan = record {
  result =
      if scan.overflow
      then (if not signed || not minus then result_max signed else result_min signed)
      else if minus && not signed
      then (word_mod - scan.result) % word_mod
      else scan.result;
  end = if scan.number_found then start + scan.count else 0;
  failed = scan.overflow;
}

abbrev pub empty_scan : Scan
empty_scan = record { result = 0; overflow = false; number_found = false; count = 0 }

-- The part behind the test of the base.
unfoldable pub parse : Bool → Bytes → ℕ → Option Parsed
parse signed string base = do
  (spaces, str) ← skip_space 0 string
  (minus, sign, str') ← read_sign str
  base' ← detect_base base str'
  (prefix, str'') ← skip_prefix base' str'
  scan ← scan_digits signed (minus && signed) base' str'' empty_scan
  some (finish signed minus (spaces + sign + prefix) scan)

-- A base is an `int`; one below 0 is a word above 36. `end` is left as it was where the base is
-- refused, so its offset means nothing there.
unfoldable pub convert : Bool → Bytes → ℕ → Option Parsed
convert signed string base =
    if base == 1 || ltb 36 base
    then some (record { result = 0; end = 0; failed = true })
    else parse signed string base

unfoldable pub strtol : Bytes → ℕ → Option Parsed
strtol = convert true

unfoldable pub strtoul : Bytes → ℕ → Option Parsed
strtoul = convert false
