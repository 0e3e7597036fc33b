-- ===== src/Printf/Integer/Counting.antt =====
-- `printInteger` and `printString` return the number of bytes that they wrote.
use inwox.Base.{
  ℕ, zero, suc, ◌+◌, ◌-◌, ◌≤◌, ◌<◌, ◌≡◌, refl, ap, ◌∙◌, inl, inr, Bool, true, false, not, ◌&&◌,
  ◌||◌, [], ◌∷◌, arith, leb, ◌==◌, if◌then◌else◌, Bool-cases, length, drop, Bytes,
}
use inwox.Printf.Out.{Run, Cmd, pure, int_max, add_int, put, pad}
use inwox.Printf.Out.Counting.{
  collect, Ensures, Ensures-and_then, Ensures-mono, Writes, Writes-pure, Writes-then, Writes-if,
  Writes-put, Writes-pad,
}
use inwox.Printf.Integer.Digits.{convert_integer-written}
use inwox.Printf.Integer.{
  uintmax_mod, Converted, in_buffer, Flags, convert_integer, digits_of, base_of, is_negative,
  is_hex, magnitude, sign_flags, wants_sign, sign_char, pad_left, put_sign, put_prefix, pad_zeros,
  pad_right, print_parts, print_integer, print_string,
}

abbrev unit : Cmd Bytes (Unit {0})
unit = pure tt

abbrev one : Bool → ℕ
one b = if b then 1 else 0

module _ (unpadded field_width : ℕ) (flags : Flags) where
  abbrev gap : ℕ
  gap = field_width - unpadded

  Writes-pad_left :
      Writes
        (pad_left collect unpadded field_width flags)
        tt
        (if flags.left_justified || flags.leading_zeros then 0 else gap)
  unfolding pad_left
  Writes-pad_left =
      Writes-if (flags.left_justified || flags.leading_zeros) (pure tt)
        (pad collect b' ' unpadded field_width) 0 gap (Writes-pure tt)
        (Writes-pad b' ' unpadded field_width)

  Writes-pad_zeros :
      Writes
        (pad_zeros collect unpadded field_width flags)
        tt
        (if not flags.left_justified && flags.leading_zeros then gap else 0)
  unfolding pad_zeros
  Writes-pad_zeros =
      Writes-if (not flags.left_justified && flags.leading_zeros)
        (pad collect b'0' unpadded field_width) (pure tt) gap 0
        (Writes-pad b'0' unpadded field_width) (Writes-pure tt)

  Writes-pad_right :
      Writes
        (pad_right collect unpadded field_width flags)
        tt
        (if flags.left_justified then gap else 0)
  unfolding pad_right
  Writes-pad_right =
      Writes-if flags.left_justified (pad collect b' ' unpadded field_width) (pure tt) gap 0
        (Writes-pad b' ' unpadded field_width) (Writes-pure tt)

Writes-put_sign :
    (negative : Bool) (flags : Flags)
    → Writes (put_sign collect negative flags) tt (one (wants_sign negative flags))
unfolding put_sign
Writes-put_sign negative flags =
    Writes-if (wants_sign negative flags) (put collect (sign_char negative flags ∷ [])) (pure tt) 1
      0 (Writes-put (sign_char negative flags ∷ [])) (Writes-pure tt)

abbrev prefix_length : (specifier value : ℕ) → Flags → ℕ
prefix_length specifier value flags =
    if flags.alternative && is_hex specifier && not (value == 0) then 2 else 0

Writes-put_prefix :
    (specifier value : ℕ) (flags : Flags)
    → Writes (put_prefix collect specifier value flags) tt (prefix_length specifier value flags)
unfolding put_prefix
Writes-put_prefix specifier value flags =
    Writes-if (flags.alternative && is_hex specifier && not (value == 0))
      (put collect (b'0' ∷ specifier ∷ [])) (pure tt) 2 0 (Writes-put (b'0' ∷ specifier ∷ []))
      (Writes-pure tt)

-- The gap is filled in one place: left, behind the prefix, or right.
one_gap :
    (l z : Bool) (g : ℕ)
    → (if l || z then 0 else g) + ((if not l && z then g else 0) + (if l then g else 0)) ≡ g
one_gap l z g = ground arith

wider : (u w : ℕ) → (if leb w u then u else w) ≡ u + (w - u)
wider u w = ground arith

-- With the right unpadded length, as many bytes are written as the field is wide, or as the number
-- takes if that is more.
print_parts-Writes :
    (specifier value : ℕ) (negative : Bool) (digits : Bytes) (unpadded field_width precision : ℕ)
    (flags : Flags)
    → unpadded
      ≡ one (wants_sign negative flags)
        + prefix_length specifier value flags
        + (length digits + (precision - length digits))
    → Writes
        (print_parts collect specifier value negative digits unpadded field_width precision flags)
        (if leb field_width unpadded then unpadded else field_width)
        (if leb field_width unpadded then unpadded else field_width)
unfolding print_parts
print_parts-Writes specifier value negative digits unpadded field_width precision flags e =
    let w = if leb field_width unpadded then unpadded else field_width in
    Writes-then _ _ _ _ _ w (Writes-pad_left unpadded field_width flags)
      (Writes-then _ _ _ _ _ w (Writes-put_sign negative flags)
        (Writes-then _ _ _ _ _ w (Writes-put_prefix specifier value flags)
          (Writes-then _ _ _ _ _ w (Writes-pad_zeros unpadded field_width flags)
            (Writes-then _ _ _ _ _ w (Writes-pad b'0' (length digits) precision)
              (Writes-then _ _ _ _ _ w (Writes-put digits)
                (Writes-then _ _ _ _ _ w (Writes-pad_right unpadded field_width flags)
                  (Writes-pure w) refl)
                refl)
              refl)
            refl)
          refl)
        refl)
      (omega (
        arith,
        e,
        one_gap flags.left_justified flags.leading_zeros (field_width - unpadded),
        wider unpadded field_width,
      ))

-- `printString` writes as many bytes as it returns, the field's width at least.
pub print_string-Writes :
    (text : Bytes) (field_width : ℕ) (flags : Flags)
    → Writes
        (print_string collect text field_width flags)
        (if leb field_width (length text) then length text else field_width)
        (if leb field_width (length text) then length text else field_width)
unfolding print_string
print_string-Writes text field_width flags =
    let w = if leb field_width (length text) then length text else field_width in
    Writes-then _ _ _ _ _ w
      (Writes-if flags.left_justified (pure tt) (pad collect b' ' (length text) field_width) 0
        (field_width - length text) (Writes-pure tt) (Writes-pad b' ' (length text) field_width))
      (Writes-then _ _ _ _ _ w (Writes-put text)
        (Writes-then _ _ _ _ _ w (Writes-pad_right (length text) field_width flags) (Writes-pure w)
          refl)
        refl)
      (ground (arith, wider (length text) field_width))

-- The result of a run that returns is the number of bytes that were appended.
abbrev pub CountsFrom : Bytes → Run Bytes ℕ → Type 0
CountsFrom s r = Ensures (λ n s'. length s' ≡ length s + n) r

-- `a` was increased by `b`, and nothing was written.
abbrev IsAdd : ℕ → ℕ → Bytes → ℕ → Bytes → Type 0
IsAdd a b s r s' = (r ≡ a + b) × (s' ≡ s)

pub add_int-IsAdd : (a b : ℕ) (s : Bytes) → Ensures (IsAdd a b s) (add_int a b s)
unfolding add_int
add_int-IsAdd a b s = elim (Bool-cases (leb (a + b) int_max)) [
  | inl fits ↦ rw fits (refl, refl)
  | inr over ↦ rw over tt
]

optional-IsAdd :
    (b : Bool) (a k : ℕ) (s : Bytes)
    → Ensures (IsAdd a (if b then k else 0) s) ((if b then add_int a k else pure a) s)
optional-IsAdd true a k s = add_int-IsAdd a k s
optional-IsAdd false a k s = (omega arith, refl)

add_if-same :
    (b : Bool) (a k c : ℕ) (s : Bytes)
    → Ensures (λ _ s'. s' ≡ s) ((if b then add_int a k else pure c) s)
add_if-same true a k c s =
    Ensures-mono (IsAdd a k s) (λ _ s'. s' ≡ s) (add_int a k s) (add_int-IsAdd a k s) λ r s' h. h.1
add_if-same false a k c s = refl

pub magnitude-lt :
    (specifier value : ℕ) → value < uintmax_mod → magnitude specifier value < uintmax_mod
unfolding magnitude
magnitude-lt specifier value h = ground arith

length-drop : (n : ℕ) (xs : Bytes) → length (drop n xs) ≡ length xs - n
length-drop zero xs = omega arith
length-drop (suc n) [] = omega arith
length-drop (suc n) (x ∷ xs) = omega (arith, length-drop n xs)

pub base_of_bounds : (specifier : ℕ) → (8 ≤ base_of specifier) × (base_of specifier ≤ 16)
base_of_bounds specifier = ground arith

pub length-digits_of :
    (upper : Bool) (specifier value : ℕ)
    → value < uintmax_mod
    → length (digits_of (convert_integer upper (base_of specifier) value))
      ≡ (convert_integer upper (base_of specifier) value).length
length-digits_of upper specifier value h =
    let c = convert_integer upper (base_of specifier) value in
    let bounds = base_of_bounds specifier in
    ground (
      arith,
      length-drop (length c.written - c.length) c.written,
      convert_integer-written upper (base_of specifier) (omega arith) bounds.1 value h,
    )

in_buffer-same : (c : Converted) (s : Bytes) → Ensures (λ _ s'. s' ≡ s) (in_buffer c s)
unfolding in_buffer
in_buffer-same c s = elim (Bool-cases (leb (length c.written) c.length)) [
  | inl e ↦ rw e refl
  | inr e ↦ rw e tt
]

-- `printInteger`, where it returns, has written as many bytes as it returns: whatever the
-- specifier, the value, the field width, the precision and the flags are.
pub print_integer-CountsFrom :
    (specifier value field_width precision : ℕ) (flags : Flags) (s : Bytes)
    → value < uintmax_mod
    → CountsFrom s (print_integer collect specifier value field_width precision flags s)
unfolding print_integer
print_integer-CountsFrom specifier value field_width precision flags s h =
    let value' = magnitude specifier value in
    let flags' = sign_flags specifier flags in
    let c = convert_integer (specifier == b'X') (base_of specifier) value' in
    let digits = digits_of c in
    let negative = is_negative specifier value in
    let sized =
      length-digits_of (specifier == b'X') specifier value' (magnitude-lt specifier value h) in
    Ensures-and_then (λ _ s'. s' ≡ s) (λ n s'. length s' ≡ length s + n) _ _ (in_buffer-same c s)
      λ _ s₀ e₀.
        Ensures-and_then (λ _ s'. s' ≡ s₀) (λ n s'. length s' ≡ length s + n) _ _
          (add_if-same (flags'.alternative && specifier == b'o' && leb precision c.length) c.length
            1 precision s₀)
          λ p s₁ e₁.
            let longer = if leb p c.length then c.length else p in
            Ensures-and_then (IsAdd longer (one (wants_sign negative flags')) s₁)
              (λ n s'. length s' ≡ length s + n) _ _
              (optional-IsAdd (wants_sign negative flags') longer 1 s₁)
              λ u s₂ e₂.
                Ensures-and_then (IsAdd u (prefix_length specifier value' flags') s₂)
                  (λ n s'. length s' ≡ length s + n) _ _
                  (optional-IsAdd (flags'.alternative && is_hex specifier && not (value' == 0)) u 2
                    s₂)
                  λ u' s₃ e₃.
                    let same = ap length (e₃.1 ∙ e₂.1 ∙ e₁ ∙ e₀) in
                    let w = if leb field_width u' then u' else field_width in
                    Ensures-mono (λ a s'. (a ≡ w) × (length s' ≡ length s₃ + w))
                      (λ n s'. length s' ≡ length s + n) _
                      (print_parts-Writes specifier value' negative digits u' field_width p flags'
                        (omega (arith, sized, e₃.0, e₂.0, wider c.length p)) s₃)
                      λ a s' g. omega (arith, g.0, g.1, same)
