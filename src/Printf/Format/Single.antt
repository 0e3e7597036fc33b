-- ===== src/Printf/Format/Single.antt =====
-- `vcbprintf` on the formats "%d" and "%s", from the format to the text.
use inwox.Base.{
  ℕ, ◌+◌, ◌-◌, ◌%◌, ◌^◌, ◌≤◌, ◌<◌, ◌≡◌, ◌≢◌, append-nil, refl, sym, ap, ◌∙◌, inl, inr, true, false,
  not, none, some, List, [], ◌∷◌, ◌++◌, arith, ltb, leb, if◌then◌else◌, Bool-cases, length, take,
  replicate, length-append, Bytes,
}
use inwox.Str.Text.{NoNul, cstring}
use inwox.Str.Length.{strlen-cstring}
use inwox.Printf.Out.{returned, int_max, add_int}
use inwox.Printf.Out.Counting.{collect}
use inwox.Printf.Integer.{uintmax_mod, print_integer}
use inwox.Printf.Integer.Layout.{field, at_least}
use inwox.Printf.Integer.Numeral.{
  numeral, sign_text, prefix_text, absolute, numeral_of, digits_text, length-numeral,
  numeral-not_empty,
}
use inwox.Printf.Integer.Shown.{print_integer-Appends}
use inwox.Printf.Integer.Printed.{print_string-Appends}
use inwox.Printf.Directive.{
  Arg, word, text, no_flags, int_default, add_flag, parse_number, step_length, parse_flags,
  parse_width, parse_precision, parse_length, next_word,
}
use inwox.Printf.Format.{
  Spec, Progress, increment, lift, format_loop, directive, at_specifier, after_switch, convert,
  convert_number, convert_string, fetch_value, signed_value, word_as, sign_extend, number_precision,
  number_flags, parse_spec, string_size, next_text, vcbprintf,
}

-- "%s" and its terminator.
abbrev pub percent_s : Bytes
percent_s = b'%' ∷ b's' ∷ 0 ∷ []

abbrev pub percent_d : Bytes
percent_d = b'%' ∷ b'd' ∷ 0 ∷ []

-- A specification that is a specifier alone.
abbrev plain : ℕ → List Arg → Spec
plain c vl = record {
  flags = no_flags;
  field_width = 0;
  precision = none;
  length = int_default;
  format = c ∷ 0 ∷ [];
  vl = vl;
}

parse_spec-s : (vl : List Arg) → parse_spec (b's' ∷ 0 ∷ []) vl ≡ some (plain b's' vl)
unfolding parse_spec parse_flags add_flag parse_width parse_number parse_precision parse_length
    step_length
parse_spec-s vl = refl

parse_spec-d : (vl : List Arg) → parse_spec (b'd' ∷ 0 ∷ []) vl ≡ some (plain b'd' vl)
unfolding parse_spec parse_flags add_flag parse_width parse_number parse_precision parse_length
    step_length
parse_spec-d vl = refl

take-length-append : (xs ys : Bytes) → take (length xs) (xs ++ ys) ≡ xs
take-length-append [] ys = refl
take-length-append (x ∷ xs) ys = ap (◌∷◌ x) (take-length-append xs ys)

no_gap : (n : ℕ) (l t : Bytes) → field no_flags (0 - n) l t ≡ l ++ t
unfolding field
no_gap n l t = let z : 0 - n ≡ 0 = omega arith in rw z refl

no_field : (n : ℕ) → at_least 0 n ≡ n
no_field n = ground arith

increment-fits :
    (x : ℕ) (vl : List Arg) (pr : Progress) (s : Bytes)
    → pr.result + x ≤ int_max
    → increment x vl pr s ≡ returned (record pr { result = pr.result + x; vl = vl }) s
unfolding increment add_int
increment-fits x vl pr s h =
    let fits : leb (pr.result + x) int_max ≡ true = ground arith in rw fits refl

convert_string-returned :
    (xs rest : Bytes) (vl : List Arg) (pr : Progress) (s : Bytes)
    → NoNul xs
    → length xs ≤ int_max
    → pr.result ≡ 0
    → convert_string collect (plain b's' (text (cstring xs rest) ∷ vl)) pr s
      ≡ returned (record pr { result = length xs; vl = vl }) (s ++ xs)
unfolding convert_string lift next_text string_size
convert_string-returned xs rest vl pr s h b z =
    let small : ltb int_max (length xs) ≡ false = ground arith in
    rw
      (
        strlen-cstring xs rest h,
        small,
        take-length-append xs (0 ∷ rest),
        print_string-Appends xs 0 no_flags s,
        no_field (length xs),
        no_gap (length xs) [] xs,
        increment-fits (length xs) vl pr (s ++ xs) (omega arith),
        z,
      )
      (ap (λ n. returned (record pr { result = n; vl = vl }) (s ++ xs)) (omega arith))

-- A `%s` conversion writes its string, of at most 2147483647 bytes, as it stands, and the result is
-- the string's length.
pub vcbprintf-string :
    (xs rest : Bytes) (vl : List Arg) (s : Bytes)
    → NoNul xs
    → length xs ≤ int_max
    → vcbprintf collect percent_s (text (cstring xs rest) ∷ vl) s
      ≡ returned (length xs, []) (s ++ xs)
unfolding vcbprintf format_loop directive at_specifier after_switch convert
vcbprintf-string xs rest vl s h b = rw (parse_spec-s (text (cstring xs rest) ∷ vl)) (
    rw
      (convert_string-returned xs rest vl
        (record { result = 0; vl = text (cstring xs rest) ∷ vl; stored = [] }) s h b refl)
      refl)

-- An int, given by its 32 bits, in decimal.
abbrev pub int_size : ℕ → ℕ
int_size w = if ltb w (2 ^ 31) then w else 2 ^ 32 - w

abbrev pub minus_sign : ℕ → Bytes
minus_sign w = if ltb w (2 ^ 31) then [] else b'-' ∷ []

abbrev extended : ℕ → ℕ
extended w = sign_extend 32 (w % 2 ^ 32)

-- The int in decimal, as the text that is written.
abbrev pub int_text : ℕ → Bytes
int_text w = minus_sign w ++ numeral 64 false 10 (int_size w)

extended_lem :
    (w : ℕ)
    → w < 2 ^ 32
    → w ≢ 0
    → (extended w < uintmax_mod)
      × (extended w ≢ 0)
      × (absolute b'd' (extended w) ≡ int_size w)
      × (leb (2 ^ 63) (extended w) ≡ not (ltb w (2 ^ 31)))
unfolding sign_extend absolute
extended_lem w h ne = (ground arith, λ z. ground (arith, z), ground arith, ground arith)

sign_text-d : (w : ℕ) → w < 2 ^ 32 → w ≢ 0 → sign_text b'd' (extended w) no_flags ≡ minus_sign w
unfolding sign_text
sign_text-d w h ne =
    rw ((extended_lem w h ne).3)
      (elim (Bool-cases (ltb w (2 ^ 31))) [ inl e ↦ rw e refl | inr e ↦ rw e refl ])

prefix_text-d : prefix_text b'd' no_flags ≡ []
unfolding prefix_text
prefix_text-d = refl

digits_text-d :
    (w : ℕ)
    → w < 2 ^ 32
    → w ≢ 0
    → digits_text b'd' (extended w) 1 no_flags ≡ numeral 64 false 10 (int_size w)
unfolding digits_text numeral_of
digits_text-d w h ne =
    let v : int_size w ≢ 0 = λ z. ground (arith, z) in
    let ds = numeral 64 false 10 (int_size w) in
    let none_missing : 1 - length ds ≡ 0 =
      omega (arith, numeral-not_empty 64 false 10 (int_size w) v (omega arith)) in
    ap (λ n. replicate (1 - length (numeral 64 false 10 n)) b'0' ++ numeral 64 false 10 n)
      ((extended_lem w h ne).2)
    ∙ ap (λ n. replicate n b'0' ++ ds) none_missing

print_integer-d :
    (w : ℕ) (s : Bytes)
    → w < 2 ^ 32
    → w ≢ 0
    → let t = int_text w in
      print_integer collect b'd' (extended w) 0 1 no_flags s ≡ returned (length t) (s ++ t)
print_integer-d w s h ne =
    let v = extended w in
    let b = numeral 64 false 10 (int_size w) in
    let l = minus_sign w in
    let bounds = extended_lem w h ne in
    let leads : sign_text b'd' v no_flags ++ prefix_text b'd' no_flags ≡ l =
      ap (λ x. sign_text b'd' v no_flags ++ x) prefix_text-d
      ∙ append-nil (sign_text b'd' v no_flags)
      ∙ sign_text-d w h ne in
    print_integer-Appends b'd' v 0 1 no_flags bounds.0 bounds.1 (omega arith) s
    ∙ ap
        (λ x. returned (at_least 0 (length x + length (digits_text b'd' v 1 no_flags))) (
          s
          ++ field no_flags (0 - (length x + length (digits_text b'd' v 1 no_flags))) x
              (digits_text b'd' v 1 no_flags)))
        leads
    ∙ ap
        (λ x.
          returned (at_least 0 (length l + length x))
            (s ++ field no_flags (0 - (length l + length x)) l x))
        (digits_text-d w h ne)
    ∙ ap (λ t. returned (at_least 0 (length l + length b)) (s ++ t))
        (no_gap (length l + length b) l b)
    ∙ ap (λ n. returned n (s ++ (l ++ b)))
        (no_field (length l + length b) ∙ sym (length-append l b))

length-int_text : (w : ℕ) → length (int_text w) ≤ 65
length-int_text w = ground (
  arith,
  length-append (minus_sign w) (numeral 64 false 10 (int_size w)),
  length-numeral 64 false 10 (int_size w),
)

convert_number-returned :
    (w : ℕ) (vl : List Arg) (pr : Progress) (s : Bytes)
    → w < 2 ^ 32
    → w ≢ 0
    → pr.result ≡ 0
    → let t = int_text w in
      convert_number collect b'd' (plain b'd' (word w ∷ vl)) pr s
      ≡ returned (record pr { result = length t; vl = vl }) (s ++ t)
unfolding convert_number lift fetch_value signed_value word_as next_word number_precision
    number_flags
convert_number-returned w vl pr s h ne z =
    let t = int_text w in
    let short : pr.result + length t ≤ int_max = omega (arith, z, length-int_text w) in
    rw (print_integer-d w s h ne, increment-fits (length t) vl pr (s ++ t) short)
      (ap (λ n. returned (record pr { result = n; vl = vl }) (s ++ t)) (omega (arith, z)))

-- A `%d` conversion of an int that is not 0, given by its 32 bits, always returns: it writes a minus
-- sign where the int is negative and the decimal numeral of its absolute value, and no other byte,
-- and the result is the number of bytes. The least int is included.
pub vcbprintf-decimal :
    (w : ℕ) (vl : List Arg) (s : Bytes)
    → w < 2 ^ 32
    → w ≢ 0
    → vcbprintf collect percent_d (word w ∷ vl) s
      ≡ returned (length (int_text w), []) (s ++ int_text w)
unfolding vcbprintf format_loop directive at_specifier after_switch convert
vcbprintf-decimal w vl s h ne = rw (parse_spec-d (word w ∷ vl)) (
    rw
      (convert_number-returned w vl (record { result = 0; vl = word w ∷ vl; stored = [] }) s h ne
        refl)
      refl)
