-- ===== src/Printf/Integer/Numeral.antt =====
-- Decimal, octal and hexadecimal numerals, with a sign, a prefix and zeros in front.
use inwox.Base.{
  ℕ, zero, suc, ◌+◌, ◌-◌, ◌/◌, ◌%◌, ◌^◌, ◌≤◌, ◌<◌, ◌≡◌, refl, sym, ap, ◌∙◌, ◌≢◌, inl, inr, Bool,
  false, ◌&&◌, ◌||◌, [], ◌∷◌, ◌++◌, append_assoc, arith, ltb, leb, ◌==◌, if◌then◌else◌, Bool-cases,
  length, replicate, length-append, Bytes,
}
use inwox.Printf.Integer.Layout.{at_least}
use inwox.Printf.Integer.Digits.{half_pow}
use inwox.Printf.Integer.{Flags, digit_char, write_digits}

-- The numeral of a number below 2 ^ fuel, the highest digit first, and nothing for 0.
unfoldable pub numeral : ℕ → Bool → ℕ → ℕ → Bytes
numeral zero upper base value = []
numeral (suc fuel) upper base value =
    let high = numeral fuel upper base (value / base) in
    let d = value % base in
    let letter = if upper then b'A' else b'a' in
    if value == 0 then [] else high ++ ((if ltb d 10 then b'0' + d else letter + (d - 10)) ∷ [])

-- The sign of a value of 64 bits, which d and i take as a signed one.
unfoldable pub sign_text : ℕ → ℕ → Flags → Bytes
sign_text specifier value flags =
    if specifier == b'd' || specifier == b'i'
    then (if leb (2 ^ 63) value
        then b'-' ∷ []
        else if flags.plus
        then b'+' ∷ []
        else if flags.space
        then b' ' ∷ []
        else [])
    else []

unfoldable pub prefix_text : ℕ → Flags → Bytes
prefix_text specifier flags =
    if flags.alternative
    then (if specifier == b'x'
        then b'0' ∷ (b'x' ∷ [])
        else if specifier == b'X'
        then b'0' ∷ (b'X' ∷ [])
        else [])
    else []

unfoldable pub absolute : ℕ → ℕ → ℕ
absolute specifier value =
    if (specifier == b'd' || specifier == b'i') && leb (2 ^ 63) value then 2 ^ 64 - value else value

unfoldable pub numeral_of : ℕ → ℕ → Bytes
numeral_of specifier value =
    let base =
      if specifier == b'x' || specifier == b'X' then 16 else if specifier == b'o' then 8 else 10 in
    numeral 64 (specifier == b'X') base (absolute specifier value)

-- The numeral with zeros in front up to the precision, and one at least in the alternative form
-- of o.
unfoldable pub digits_text : (specifier value precision : ℕ) → Flags → Bytes
digits_text specifier value precision flags =
    let ds = numeral_of specifier value in
    let least =
      if flags.alternative && specifier == b'o'
      then at_least precision (length ds + 1)
      else precision in
    replicate (least - length ds) b'0' ++ ds

numeral-zero : (fuel : ℕ) (upper : Bool) (base : ℕ) → numeral fuel upper base 0 ≡ []
unfolding numeral
numeral-zero zero upper base = refl
numeral-zero (suc fuel) upper base = refl

pub length-numeral :
    (fuel : ℕ) (upper : Bool) (base value : ℕ) → length (numeral fuel upper base value) ≤ fuel
unfolding numeral
length-numeral zero upper base value = omega arith
length-numeral (suc fuel) upper base value = elim (Bool-cases (value == 0)) [
  | inl e ↦ rw e (omega arith)
  | inr e ↦ rw e (
      omega (
        arith,
        length-append (numeral fuel upper base (value / base)) (_ ∷ []),
        length-numeral fuel upper base (value / base),
      ))
]

pub numeral-not_empty :
    (fuel : ℕ) (upper : Bool) (base value : ℕ)
    → value ≢ 0
    → 0 < fuel
    → 1 ≤ length (numeral fuel upper base value)
unfolding numeral
numeral-not_empty zero upper base value ne h = absurd (omega arith)
numeral-not_empty (suc fuel) upper base value ne h =
    let other : (value == 0) ≡ false = ground (arith, ne) in
    rw other (omega (arith, length-append (numeral fuel upper base (value / base)) (_ ∷ [])))

digit_char-eq :
    (upper : Bool) (d : ℕ)
    → digit_char upper d
      ≡ (if ltb d 10 then b'0' + d else (if upper then b'A' else b'a') + (d - 10))
unfolding digit_char
digit_char-eq upper d = ground arith

pub write_digits-numeral :
    (fuel : ℕ) (upper : Bool) (base value : ℕ) (acc : Bytes)
    → 2 ≤ base
    → value < 2 ^ fuel
    → value ≢ 0
    → write_digits fuel upper base value acc ≡ numeral fuel upper base value ++ acc
unfolding write_digits numeral
write_digits-numeral zero upper base value acc two h ne = absurd (omega arith)
write_digits-numeral (suc fuel) upper base value acc two h ne =
    let other : (value == 0) ≡ false = ground (arith, ne) in
    let c = digit_char upper (value % base) in
    let same = digit_char-eq upper (value % base) in
    rw (other, ← same)
      (elim (Bool-cases (value / base == 0)) [
        | inl e ↦
            let z : value / base ≡ 0 = ground (arith, e) in
            let none_high : numeral fuel upper base (value / base) ≡ [] =
              ap (numeral fuel upper base) z ∙ numeral-zero fuel upper base in
            rw (e, none_high) refl
        | inr e ↦ rw e (
            write_digits-numeral fuel upper base (value / base) (c ∷ acc) two
              (half_pow base fuel value two h) (λ z. ground (arith, e, z))
            ∙ sym (append_assoc (numeral fuel upper base (value / base)) (c ∷ []) acc))
      ])
