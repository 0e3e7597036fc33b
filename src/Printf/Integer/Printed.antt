-- ===== src/Printf/Integer/Printed.antt =====
-- `printInteger` and `printString` are certain to return, and what they write.
use inwox.Base.{
  ℕ, ◌+◌, ◌-◌, ◌≤◌, ◌<◌, ◌≡◌, ◌≢◌, refl, sym, ap, ◌∙◌, inl, inr, Bool, true, false, not, ◌&&◌, [],
  ◌++◌, append-nil, arith, leb, ◌==◌, if◌then◌else◌, Bool-cases, length, replicate, length-append,
  length-replicate, Bytes,
}
use inwox.Printf.Out.{returned, undefined, pure, int_max, add_int}
use inwox.Printf.Out.Counting.{collect}
use inwox.Printf.Out.Appending.{
  Appends, Appends-pure, Appends-then, Appends-if, Appends-put, Appends-pad,
}
use inwox.Printf.Integer.Digits.{convert_integer-bounds, convert_integer-written}
use inwox.Printf.Integer.Layout.{field, lead, at_least, print_parts-Appends}
use inwox.Printf.Integer.Counting.{magnitude-lt, base_of_bounds, length-digits_of}
use inwox.Printf.Integer.{
  uintmax_mod, in_buffer, Flags, convert_integer, digits_of, base_of, is_negative, is_hex,
  magnitude, sign_flags, wants_sign, pad_right, print_integer, print_string,
}

-- The digits of the value's magnitude, in the specifier's base.
unfoldable pub digits : (specifier value : ℕ) → Bytes
digits specifier value =
    digits_of (convert_integer (specifier == b'X') (base_of specifier) (magnitude specifier value))

-- The number of digits that is asked for: the alternative octal form asks for a zero in front.
unfoldable pub wanted : (specifier size precision : ℕ) → Flags → ℕ
wanted specifier size precision flags =
    if flags.alternative && specifier == b'o' && leb precision size then size + 1 else precision

-- The digits, with zeros in front up to the precision.
unfoldable pub body : (specifier value precision : ℕ) → Flags → Bytes
body specifier value precision flags =
    let ds = digits specifier value in
    replicate (wanted specifier (length ds) precision flags - length ds) b'0' ++ ds

sides :
    (l : Bool) (g t : Bytes)
    → (if l then [] else g) ++ (t ++ ((if l then g else []) ++ []))
      ≡ (if l then [] ++ t ++ g else g ++ [] ++ t)
sides true g t = simp (append-nil)
sides false g t = simp (append-nil)

add_if-fits :
    (b : Bool) (a k : ℕ) (s : Bytes)
    → a + k ≤ int_max
    → (if b then add_int a k else pure a) s ≡ returned (a + (if b then k else 0)) s
unfolding add_int
add_if-fits true a k s h = ground arith
add_if-fits false a k s h = ap (λ n. returned n s) (omega arith)

add_or-fits :
    (b : Bool) (a k c : ℕ) (s : Bytes)
    → a + k ≤ int_max
    → (if b then add_int a k else pure c) s ≡ returned (if b then a + k else c) s
unfolding add_int
add_or-fits true a k c s h = ground arith
add_or-fits false a k c s h = refl

length-lead :
    (specifier value : ℕ) (negative : Bool) (flags : Flags)
    → length (lead specifier value negative flags)
      ≡ (if wants_sign negative flags then 1 else 0)
        + (if flags.alternative && is_hex specifier && not (value == 0) then 2 else 0)
unfolding lead
length-lead specifier value negative flags = elim (Bool-cases (wants_sign negative flags)) [
  | inl e ↦ rw e (ground arith)
  | inr e ↦ rw e (ground arith)
]

in_buffer-fits :
    (upper : Bool) (specifier value : ℕ) (s : Bytes)
    → value < uintmax_mod
    → value ≢ 0
    → in_buffer (convert_integer upper (base_of specifier) value) s ≡ returned tt s
unfolding in_buffer
in_buffer-fits upper specifier value s h ne =
    let c = convert_integer upper (base_of specifier) value in
    let bounds = base_of_bounds specifier in
    let inside : leb (length c.written) c.length ≡ true = ground (
      arith,
      ne,
      convert_integer-written upper (base_of specifier) (omega arith) bounds.1 value h,
    ) in
    rw inside refl

-- The value 0 is written below the buffer.
pub print_integer-zero :
    (specifier field_width precision : ℕ) (flags : Flags) (s : Bytes)
    → print_integer collect specifier 0 field_width precision flags s ≡ undefined
unfolding print_integer in_buffer magnitude
print_integer-zero specifier field_width precision flags s =
    let upper = specifier == b'X' in
    let c = convert_integer upper (base_of specifier) 0 in
    let bounds = base_of_bounds specifier in
    let signed : is_negative specifier 0 ≡ false = ground arith in
    let below : leb (length c.written) c.length ≡ false = ground (
      arith,
      convert_integer-written upper (base_of specifier) (omega arith) bounds.1 0 (omega arith),
    ) in
    rw (signed, below) refl

-- The text by its parts, as the code computes them.
pub print_integer-parts :
    (specifier value field_width precision : ℕ) (flags : Flags)
    → value < uintmax_mod
    → magnitude specifier value ≢ 0
    → precision + 3 ≤ int_max
    → let flags' = sign_flags specifier flags in
      let l = lead specifier (magnitude specifier value) (is_negative specifier value) flags' in
      let b = body specifier value precision flags' in
      Appends
        (print_integer collect specifier value field_width precision flags)
        (at_least field_width (length l + length b))
        (field flags' (field_width - (length l + length b)) l b)
unfolding print_integer digits body wanted
print_integer-parts specifier value field_width precision flags h ne p s =
    let flags' = sign_flags specifier flags in
    let value' = magnitude specifier value in
    let negative = is_negative specifier value in
    let c = convert_integer (specifier == b'X') (base_of specifier) value' in
    let bounds = base_of_bounds specifier in
    let small = magnitude-lt specifier value h in
    let room =
      convert_integer-bounds (specifier == b'X') (base_of specifier) (omega arith) bounds.1 value'
        bounds.0 small in
    let sized = length-digits_of (specifier == b'X') specifier value' small in
    let octal = flags'.alternative && specifier == b'o' && leb precision c.length in
    let precision' = if octal then c.length + 1 else precision in
    let longer = if leb precision' c.length then c.length else precision' in
    let signed = wants_sign negative flags' in
    let prefixed = flags'.alternative && is_hex specifier && not (value' == 0) in
    let first = add_or-fits octal c.length 1 precision s (omega arith) in
    let second = add_if-fits signed longer 1 s (ground arith) in
    let u = longer + (if signed then 1 else 0) in
    let third = add_if-fits prefixed u 2 s (ground arith) in
    let total = u + (if prefixed then 2 else 0) in
    let ds = digits_of c in
    let l = lead specifier value' negative flags' in
    let b = body specifier value precision flags' in
    let b' = replicate (precision' - length ds) b'0' ++ ds in
    let shown : b' ≡ b =
      ap (λ n. replicate (wanted specifier n precision flags' - length ds) b'0' ++ ds)
        (sym sized) in
    let zeros : length b' ≡ (precision' - length ds) + length ds =
      length-append (replicate (precision' - length ds) b'0') ds
      ∙ ap (λ n. n + length ds) (length-replicate (precision' - length ds) b'0') in
    let leads = length-lead specifier value' negative flags' in
    let longest : longer ≡ (precision' - length ds) + length ds = ground (arith, sized) in
    let sums : total ≡ length l + length b =
      omega (arith, zeros, leads, longest, ap length shown) in
    rw (in_buffer-fits (specifier == b'X') specifier value' s small ne, first, second, third)
      (print_parts-Appends specifier value' negative ds total field_width precision' flags' s
        ∙ ap
            (λ t.
              returned (at_least field_width total) (s ++ field flags' (field_width - total) l t))
            shown
        ∙ ap (λ n. returned (at_least field_width n) (s ++ field flags' (field_width - n) l b))
            sums)

-- For every text, `printString` returns: it writes the text in a field of the width, padded with
-- spaces, and the result is the larger of the two lengths.
pub print_string-Appends :
    (text : Bytes) (field_width : ℕ) (flags : Flags)
    → Appends
        (print_string collect text field_width flags)
        (at_least field_width (length text))
        (field (record flags { leading_zeros = false }) (field_width - length text) [] text)
unfolding print_string pad_right field
print_string-Appends text field_width flags s =
    let w = at_least field_width (length text) in
    let g = replicate (field_width - length text) b' ' in
    Appends-then _ _ w _ _
      (Appends-if flags.left_justified _ _ [] g (Appends-pure tt)
        (Appends-pad b' ' (length text) field_width))
      (Appends-then _ _ w _ _ (Appends-put text) (
        Appends-then _ _ w _ _
          (Appends-if flags.left_justified _ _ g [] (Appends-pad b' ' (length text) field_width)
            (Appends-pure tt))
          (Appends-pure w)))
      s
    ∙ ap (λ t. returned w (s ++ t)) (sides flags.left_justified g text)
