-- ===== src/Tests/Number.antt =====
-- strtol and strtoul at short texts, and the theorems on them there.
use inwox.Base.{
  ◌+◌, ◌≡◌, refl, true, false, not, none, some, [], ◌∷◌, ◌++◌, arith, ltb, length, Bytes,
}
use inwox.Number.{
  word_mod, strtol, strtoul, convert, parse, skip_space, read_sign, detect_base, skip_prefix,
  at_hex, scan_digits, step, multiply, add_digit, put_digit, subtract, get_digit_value, finish,
}
use inwox.Number.Signed.{strtol-number}
use inwox.Number.Value.{
  number, value_of, sign_of, Blank, AllDigits, strtoul-number, strtol-negative,
}
use inwox.Str.{isspace}

abbrev one_blank : Bytes
one_blank = b' ' ∷ []

one_blank-Blank : Blank one_blank
unfolding isspace
one_blank-Blank = (refl, tt)

abbrev digits_42 : Bytes
digits_42 = b'4' ∷ b'2' ∷ []

digits_42-AllDigits : AllDigits false 10 digits_42
unfolding get_digit_value
digits_42-AllDigits = (omega arith, (omega arith, tt))

-- "0x1F" with an automatic base.
strtol_runs :
    strtol (b'0' ∷ b'x' ∷ b'1' ∷ b'F' ∷ 0 ∷ []) 0
    ≡ some (record { result = 31; end = 4; failed = false })
unfolding strtol convert parse skip_space read_sign detect_base skip_prefix at_hex scan_digits step
    multiply add_digit put_digit subtract get_digit_value finish isspace
strtol_runs = refl

strtoul-number_example :
    strtoul (one_blank ++ (sign_of true ++ (digits_42 ++ (0 ∷ [])))) 10
    ≡ some (record {
      result = value_of true (number false 10 0 digits_42);
      end = length one_blank + length (sign_of true) + length digits_42;
      failed = not (ltb (number false 10 0 digits_42) word_mod);
    })
unfolding get_digit_value
strtoul-number_example =
    strtoul-number one_blank true b'4' (b'2' ∷ []) 0 [] one_blank-Blank digits_42-AllDigits
      (omega arith)

strtol-negative_example : strtol (one_blank ++ (b'-' ∷ b'5' ∷ 0 ∷ [])) 10 ≡ none
unfolding get_digit_value
strtol-negative_example = strtol-negative one_blank b'5' (0 ∷ []) one_blank-Blank (omega arith)

signed_42-AllDigits : AllDigits true 10 digits_42
unfolding get_digit_value
signed_42-AllDigits = (omega arith, (omega arith, tt))

strtol-number_example :
    strtol (one_blank ++ (digits_42 ++ (0 ∷ []))) 10
    ≡ some (record {
      result = number true 10 0 digits_42;
      end = length one_blank + length digits_42;
      failed = false;
    })
unfolding get_digit_value number
strtol-number_example =
    strtol-number one_blank b'4' (b'2' ∷ []) 0 [] one_blank-Blank signed_42-AllDigits (omega arith)
      (omega arith)
