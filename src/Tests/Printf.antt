-- ===== src/Tests/Printf.antt =====
-- The printf family at short formats, and the theorems on it there.
use inwox.Base.{
  ℕ, ◌+◌, ◌-◌, ◌^◌, ◌≡◌, refl, true, false, [], ◌∷◌, ◌++◌, arith, ◌==◌, if◌then◌else◌, length,
  Bytes,
}
use inwox.Str.Text.{NoNul, cstring}
use inwox.Printf.Out.{returned}
use inwox.Printf.Out.Counting.{collect, Ensures}
use inwox.Printf.Integer.{Flags, convert_integer, digits_of}
use inwox.Printf.Integer.Digits.{value_from, convert_integer-value, convert_integer-written}
use inwox.Printf.Integer.Numeral.{numeral, absolute, numeral_of, digits_text}
use inwox.Printf.Directive.{word, text, no_flags}
use inwox.Printf.Format.{vcbprintf}
use inwox.Printf.Format.Counting.{vcbprintf-counts}
use inwox.Printf.Format.Verbatim.{NoPercent, vcbprintf-verbatim}
use inwox.Printf.Format.Single.{percent_s, percent_d, int_text, vcbprintf-string, vcbprintf-decimal}

abbrev hi : Bytes
hi = b'h' ∷ b'i' ∷ []

hi-NoNul : NoNul hi
hi-NoNul = (omega arith, (omega arith, tt))

hi-NoPercent : NoPercent hi
hi-NoPercent = (omega arith, (omega arith, tt))

-- What stands in the buffer before the call.
abbrev old : Bytes
old = 1 ∷ 2 ∷ []

abbrev left_flags : Flags
left_flags = record no_flags { left_justified = true }

convert_integer-value_example :
    value_from 16 0 (digits_of (convert_integer true 16 0xbeef)) ≡ 0xbeef
convert_integer-value_example =
    convert_integer-value true 16 (omega arith) (omega arith) 0xbeef (omega arith)

convert_integer-written_example :
    length (convert_integer false 10 0).written
    ≡ (convert_integer false 10 0).length + (if 0 == 0 then 1 else 0)
convert_integer-written_example =
    convert_integer-written false 10 (omega arith) (omega arith) 0 (omega arith)

-- "00ff".
digits_text_runs : digits_text b'x' 255 4 left_flags ≡ b'0' ∷ (b'0' ∷ (b'f' ∷ (b'f' ∷ [])))
unfolding digits_text numeral_of numeral absolute
digits_text_runs = refl

vcbprintf-counts_example :
    Ensures
      (λ r s'. length s' ≡ length old + r.0)
      (vcbprintf collect (b'%' ∷ b'5' ∷ b'd' ∷ 0 ∷ []) (word 7 ∷ []) old)
vcbprintf-counts_example = vcbprintf-counts (b'%' ∷ b'5' ∷ b'd' ∷ 0 ∷ []) (word 7 ∷ []) old

vcbprintf-verbatim_example :
    vcbprintf collect (cstring hi old) [] old ≡ returned (length hi, []) (old ++ hi)
vcbprintf-verbatim_example = vcbprintf-verbatim hi old [] old hi-NoNul hi-NoPercent (omega arith)

vcbprintf-string_example :
    vcbprintf collect percent_s (text (cstring hi []) ∷ []) old
    ≡ returned (length hi, []) (old ++ hi)
vcbprintf-string_example = vcbprintf-string hi [] [] old hi-NoNul (omega arith)

-- -7 as an int.
abbrev minus_seven : ℕ
minus_seven = 2 ^ 32 - 7

-- "-7".
int_text_runs : int_text minus_seven ≡ b'-' ∷ (b'7' ∷ [])
unfolding numeral
int_text_runs = refl

vcbprintf-decimal_example :
    vcbprintf collect percent_d (word minus_seven ∷ []) old
    ≡ returned (length (int_text minus_seven), []) (old ++ int_text minus_seven)
vcbprintf-decimal_example = vcbprintf-decimal minus_seven [] old (omega arith) (omega arith)
