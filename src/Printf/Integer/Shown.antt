-- ===== src/Printf/Integer/Shown.antt =====
-- `printInteger` and decimal, octal and hexadecimal numerals.
use inwox.Base.{
  ℕ, ◌+◌, ◌-◌, ◌^◌, ◌≤◌, ◌<◌, ◌≡◌, refl, ap, ◌∙◌, ◌≢◌, inl, inr, Bool, true, false, ◌&&◌, ◌||◌, [],
  ◌∷◌, ◌++◌, append-nil, arith, leb, ◌==◌, if◌then◌else◌, Bool-cases, length, drop, replicate,
  Bytes,
}
use inwox.Printf.Out.{returned, int_max}
use inwox.Printf.Out.Counting.{collect}
use inwox.Printf.Out.Appending.{Appends}
use inwox.Printf.Integer.Numeral.{
  numeral, sign_text, prefix_text, absolute, numeral_of, digits_text, write_digits-numeral,
}
use inwox.Printf.Integer.Layout.{field, lead, at_least}
use inwox.Printf.Integer.Digits.{convert_integer-written}
use inwox.Printf.Integer.Counting.{magnitude-lt, base_of_bounds}
use inwox.Printf.Integer.Printed.{digits, body, wanted, print_integer-parts}
use inwox.Printf.Integer.{
  uintmax_mod, convert_integer, Flags, is_signed, is_hex, base_of, is_negative, magnitude,
  sign_flags, wants_sign, sign_char, print_integer,
}

magnitude-absolute :
    (specifier value : ℕ)
    → value < uintmax_mod
    → magnitude specifier value ≡ absolute specifier value
unfolding magnitude absolute
magnitude-absolute specifier value h = ground arith

digits-numeral_of :
    (specifier value : ℕ)
    → value < uintmax_mod
    → magnitude specifier value ≢ 0
    → digits specifier value ≡ numeral_of specifier value
unfolding digits convert_integer numeral_of
digits-numeral_of specifier value h ne =
    let v = magnitude specifier value in
    let upper = specifier == b'X' in
    let base = base_of specifier in
    let bounds = base_of_bounds specifier in
    let small = magnitude-lt specifier value h in
    let c = convert_integer upper base v in
    let exact : length c.written - c.length ≡ 0 =
      ground (arith, ne, convert_integer-written upper base (omega arith) bounds.1 v small) in
    let same_base : base ≡ (
        if specifier == b'x' || specifier == b'X'
        then 16
        else if specifier == b'o'
        then 8
        else 10) =
      ground arith in
    ap (λ k. drop k c.written) exact
    ∙ write_digits-numeral 64 upper base v [] (omega arith) small ne
    ∙ append-nil (numeral 64 upper base v)
    ∙ ap (numeral 64 upper base) (magnitude-absolute specifier value h)
    ∙ ap (λ b. numeral 64 upper b (absolute specifier value)) same_base

body-digits_text :
    (specifier value precision : ℕ) (flags : Flags)
    → value < uintmax_mod
    → magnitude specifier value ≢ 0
    → body specifier value precision (sign_flags specifier flags)
      ≡ digits_text specifier value precision flags
unfolding body digits_text wanted sign_flags
body-digits_text specifier value precision flags h ne =
    let ds = numeral_of specifier value in
    let least : (if (sign_flags specifier flags).alternative
            && specifier == b'o'
            && leb precision (length ds)
          then length ds + 1
          else precision)
        ≡ (if flags.alternative && specifier == b'o'
            then at_least precision (length ds + 1)
            else precision) =
      ground arith in
    rw (digits-numeral_of specifier value h ne)
      (ap (λ n. replicate (n - length ds) b'0' ++ ds) least)

-- The sign, on the tests.
sign_lem :
    (signed negative plus space : Bool)
    → let flags = λ (b : Bool). if signed then b else false in
      let c : ℕ = if signed && negative then b'-' else if flags plus then b'+' else b' ' in
      (if (signed && negative) || (flags plus || flags space) then c ∷ [] else []) ≡ (
        if signed
        then (if negative
            then b'-' ∷ []
            else if plus
            then b'+' ∷ []
            else if space
            then b' ' ∷ []
            else [])
        else [])
sign_lem true true plus space = refl
sign_lem true false true space = refl
sign_lem true false false true = refl
sign_lem true false false false = refl
sign_lem false negative plus space = refl

sign-sign_text :
    (specifier value : ℕ) (flags : Flags)
    → (if wants_sign (is_negative specifier value) (sign_flags specifier flags)
        then sign_char (is_negative specifier value) (sign_flags specifier flags) ∷ []
        else [])
      ≡ sign_text specifier value flags
unfolding sign_text sign_flags
sign-sign_text specifier value flags = elim (Bool-cases (is_signed specifier)) [
  | inl e ↦ rw e (sign_lem true (leb (2 ^ 63) value) flags.plus flags.space)
  | inr e ↦ rw e (sign_lem false (leb (2 ^ 63) value) flags.plus flags.space)
]

prefix-prefix_text :
    (specifier : ℕ) (flags : Flags)
    → (if (sign_flags specifier flags).alternative && is_hex specifier && true
        then b'0' ∷ (specifier ∷ [])
        else [])
      ≡ prefix_text specifier flags
unfolding prefix_text sign_flags
prefix-prefix_text specifier flags =
    let kept : (sign_flags specifier flags).alternative ≡ flags.alternative =
      elim (Bool-cases (is_signed specifier)) [ inl e ↦ rw e refl | inr e ↦ rw e refl ] in
    rw kept (elim (Bool-cases flags.alternative) [
      | inl a ↦ rw a (elim (Bool-cases (specifier == b'x')) [
        | inl e ↦ let same : specifier ≡ b'x' = ground (arith, e) in rw e (rw same refl)
        | inr e ↦ rw e (elim (Bool-cases (specifier == b'X')) [
          | inl e' ↦ let same : specifier ≡ b'X' = ground (arith, e') in rw e' (rw same refl)
          | inr e' ↦ rw e' refl
        ])
      ])
      | inr a ↦ rw a refl
    ])

lead-sign_text :
    (specifier value : ℕ) (flags : Flags)
    → magnitude specifier value ≢ 0
    → lead specifier
        (magnitude specifier value)
        (is_negative specifier value)
        (sign_flags specifier flags)
      ≡ sign_text specifier value flags ++ prefix_text specifier flags
unfolding lead
lead-sign_text specifier value flags ne =
    let other : (magnitude specifier value == 0) ≡ false = ground (arith, ne) in
    rw (other, sign-sign_text specifier value flags, prefix-prefix_text specifier flags) refl

field-sign_flags :
    (specifier : ℕ) (flags : Flags) (gap : ℕ) (l t : Bytes)
    → field (sign_flags specifier flags) gap l t ≡ field flags gap l t
unfolding field sign_flags
field-sign_flags specifier flags gap l t = elim (Bool-cases (is_signed specifier)) [
  | inl e ↦ rw e refl
  | inr e ↦ rw e refl
]

absolute-zero :
    (specifier value : ℕ) → value < uintmax_mod → value ≢ 0 → magnitude specifier value ≢ 0
unfolding magnitude
absolute-zero specifier value h ne z = ground (arith, z)

pub print_integer-Appends :
    (specifier value field_width precision : ℕ) (flags : Flags)
    → value < uintmax_mod
    → value ≢ 0
    → precision + 3 ≤ int_max
    → let l = sign_text specifier value flags ++ prefix_text specifier flags in
      let b = digits_text specifier value precision flags in
      Appends
        (print_integer collect specifier value field_width precision flags)
        (at_least field_width (length l + length b))
        (field flags (field_width - (length l + length b)) l b)
print_integer-Appends specifier value field_width precision flags h ne p s =
    let some_value = absolute-zero specifier value h ne in
    let l = sign_text specifier value flags ++ prefix_text specifier flags in
    let b = digits_text specifier value precision flags in
    let n = length l + length b in
    print_integer-parts specifier value field_width precision flags h some_value p s
    ∙ rw
        (
          lead-sign_text specifier value flags some_value,
          body-digits_text specifier value precision flags h some_value,
        )
        (ap (λ t. returned (at_least field_width n) (s ++ t))
          (field-sign_flags specifier flags (field_width - n) l b))
