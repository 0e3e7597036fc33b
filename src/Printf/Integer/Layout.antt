-- ===== src/Printf/Integer/Layout.antt =====
-- The text that `printInteger` and `printString` write, as a sign, a prefix, zeros and digits in a field.
use inwox.Base.{
  ℕ, ◌-◌, ◌≡◌, ap, ◌∙◌, Bool, true, false, not, ◌&&◌, ◌||◌, [], ◌∷◌, ◌++◌, append-nil, append_assoc,
  leb, ◌==◌, if◌then◌else◌, length, replicate, Bytes,
}
use inwox.Printf.Out.{returned}
use inwox.Printf.Out.Counting.{collect}
use inwox.Printf.Out.Appending.{
  Appends, Appends-pure, Appends-then, Appends-if, Appends-put, Appends-pad,
}
use inwox.Printf.Integer.{
  Flags, is_hex, wants_sign, sign_char, pad_left, put_sign, put_prefix, pad_zeros, pad_right,
  print_parts,
}

-- A text in a field: spaces behind it, zeros between what leads and the rest, or spaces in front.
unfoldable pub field : Flags → (gap : ℕ) → (lead text : Bytes) → Bytes
field flags gap lead text =
    if flags.left_justified
    then lead ++ text ++ replicate gap b' '
    else if flags.leading_zeros
    then lead ++ replicate gap b'0' ++ text
    else replicate gap b' ' ++ lead ++ text

-- The sign and the prefix.
unfoldable pub lead : (specifier value : ℕ) → Bool → Flags → Bytes
lead specifier value negative flags =
    (if wants_sign negative flags then sign_char negative flags ∷ [] else [])
    ++ (if flags.alternative && is_hex specifier && not (value == 0)
        then b'0' ∷ specifier ∷ []
        else [])

abbrev pub at_least : ℕ → ℕ → ℕ
at_least w n = if leb w n then n else w

gaps :
    (l z : Bool) (g : ℕ) (a b c d : Bytes)
    → (if l || z then [] else replicate g b' ')
        ++ (a
            ++ (b
                ++ ((if not l && z then replicate g b'0' else [])
                    ++ (c ++ (d ++ ((if l then replicate g b' ' else []) ++ []))))))
      ≡ (if l
          then (a ++ b) ++ (c ++ d) ++ replicate g b' '
          else if z
          then (a ++ b) ++ replicate g b'0' ++ (c ++ d)
          else replicate g b' ' ++ (a ++ b) ++ (c ++ d))
gaps true true g a b c d = simp (append_assoc, append-nil)
gaps true false g a b c d = simp (append_assoc, append-nil)
gaps false true g a b c d = simp (append_assoc, append-nil)
gaps false false g a b c d = simp (append_assoc, append-nil)

pub print_parts-Appends :
    (specifier value : ℕ) (negative : Bool) (digits : Bytes) (unpadded field_width precision : ℕ)
    (flags : Flags)
    → Appends
        (print_parts collect specifier value negative digits unpadded field_width precision flags)
        (at_least field_width unpadded)
        (field flags
          (field_width - unpadded)
          (lead specifier value negative flags)
          (replicate (precision - length digits) b'0' ++ digits))
unfolding print_parts pad_left put_sign put_prefix pad_zeros pad_right field lead
print_parts-Appends specifier value negative digits unpadded field_width precision flags s =
    let w = at_least field_width unpadded in
    Appends-then _ _ w _ _
      (Appends-if _ _ _ _ _ (Appends-pure tt) (Appends-pad b' ' unpadded field_width))
      (Appends-then _ _ w _ _
        (Appends-if _ _ _ _ _ (Appends-put (sign_char negative flags ∷ [])) (Appends-pure tt))
        (Appends-then _ _ w _ _
          (Appends-if _ _ _ _ _ (Appends-put (b'0' ∷ specifier ∷ [])) (Appends-pure tt))
          (Appends-then _ _ w _ _
            (Appends-if _ _ _ _ _ (Appends-pad b'0' unpadded field_width) (Appends-pure tt))
            (Appends-then _ _ w _ _ (Appends-pad b'0' (length digits) precision) (
              Appends-then _ _ w _ _ (Appends-put digits) (
                Appends-then _ _ w _ _
                  (Appends-if _ _ _ _ _ (Appends-pad b' ' unpadded field_width) (Appends-pure tt))
                  (Appends-pure w)))))))
      s
    ∙ ap (λ t. returned w (s ++ t))
        (gaps flags.left_justified flags.leading_zeros (field_width - unpadded) _ _ _ digits)
