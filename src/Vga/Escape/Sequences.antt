-- ===== src/Vga/Escape/Sequences.antt =====
-- Whole escape sequences: what they make of the cursor and the colour.
use inwox.Base.{
  ℕ, zero, suc, ◌+◌, ◌-◌, ◌*◌, ◌/◌, ◌%◌, ◌≤◌, ◌<◌, ◌≡◌, refl, ap, ◌∙◌, inl, inr, Bool, true, false,
  ◌&&◌, none, some, List, [], ◌∷◌, ◌++◌, arith, ltb, leb, if◌then◌else◌, Bool-cases, length,
  get_elem?, set, replicate, All, length-set, Bytes,
}
use inwox.Str.Move.{memmove-Copied, store}
use inwox.Vga.Screen.{
  height, width, unsigned_mod, normal, csi, Vga, video_offset, put_cell, fill_row, fill_rows,
  fill_rect, set_video,
}
use inwox.Vga.Screen.Fill.{page, put_cell-Filled}
use inwox.Vga.Screen.Valid.{IsScreen}
use inwox.Vga.Escape.{
  set_foreground, set_background, or_default, set_bold, rendition, set_graphics_rendition, param,
  to_position, kept_bytes, scroll_up, graphics, final_byte, set_mode, add_digit, next_param, in_csi,
  in_escape, dispatch, print_escape_code, escape, is_normal, print_character, print_all,
}

-- The foreground colours keep the background and the brightness, the background colours keep the
-- foreground and the brightness, and the background of a number is the colour that is the foreground
-- of this number.
pub rendition-parts :
    (p color : ℕ)
    → p < 8
    → color < 256
    → (rendition (30 + p) color / 8 ≡ color / 8)
      × (rendition (40 + p) color % 16 ≡ color % 16)
      × (rendition (30 + p) color % 8 ≡ rendition (40 + p) color / 16)
unfolding rendition set_foreground set_background or_default set_bold
rendition-parts p color h k = (ground arith, ground arith, ground arith)

-- 49, the default background, changes the foreground as well: its lower two bits are set.
pub rendition-default_background : (color : ℕ) → rendition 49 color % 4 ≡ 3
unfolding rendition set_background or_default
rendition-default_background color = ground arith

-- The value of decimal digits behind `n`, as an unsigned int.
unfoldable pub decimal : ℕ → Bytes → ℕ
decimal n [] = n
decimal n (c ∷ cs) = decimal ((n * 10 + c - 48) % unsigned_mod) cs

abbrev pub AllDigits : Bytes → Type 0
AllDigits = All (λ c. (48 ≤ c) × (c ≤ 57))

get_elem?-set_self : (xs : List ℕ) (i a : ℕ) → i < length xs → get_elem? (set xs i a) i ≡ some a
get_elem?-set_self [] i a h = absurd (omega arith)
get_elem?-set_self (x ∷ xs) zero a h = refl
get_elem?-set_self (x ∷ xs) (suc i) a h = get_elem?-set_self xs i a (omega arith)

set-set {ℓ} : {A : Type ℓ} (xs : List A) (i : ℕ) (a b : A) → set (set xs i a) i b ≡ set xs i b
set-set [] i a b = refl
set-set (x ∷ xs) zero a b = refl
set-set (x ∷ xs) (suc i) a b = ap (◌∷◌ x) (set-set xs i a b)

-- Inside a CSI sequence.
abbrev in_sequence : Vga → List ℕ → List Bool → ℕ → Vga
in_sequence v ps sp i = record v { params = ps; specified = sp; index = i; status = csi }

print_character-digit :
    (v : Vga) (ps : List ℕ) (sp : List Bool) (i p c : ℕ)
    → (48 ≤ c) × (c ≤ 57)
    → get_elem? ps i ≡ some p
    → print_character c (in_sequence v ps sp i)
      ≡ some (in_sequence v (set ps i ((p * 10 + c - 48) % unsigned_mod)) (set sp i true) i)
unfolding print_character print_escape_code dispatch in_csi add_digit is_normal
print_character-digit v ps sp i p c d e =
    let digit : (leb b'0' c && leb c b'9') ≡ true = ground arith in rw (digit, e) refl

-- A number is read into the current parameter.
print_all-digits :
    (c : ℕ) (cs rest : Bytes) (v : Vga) (ps : List ℕ) (sp : List Bool) (i p : ℕ)
    → AllDigits (c ∷ cs)
    → i < length ps
    → get_elem? ps i ≡ some p
    → print_all ((c ∷ cs) ++ rest) (in_sequence v ps sp i)
      ≡ print_all rest (in_sequence v (set ps i (decimal p (c ∷ cs))) (set sp i true) i)
unfolding print_all decimal
print_all-digits c [] rest v ps sp i p d h e = rw (print_character-digit v ps sp i p c d.0 e) refl
print_all-digits c (c' ∷ cs) rest v ps sp i p d h e =
    let p' = (p * 10 + c - 48) % unsigned_mod in
    let l : i < length (set ps i p') = omega (arith, length-set ps i p') in
    rw (print_character-digit v ps sp i p c d.0 e) (
      print_all-digits c' cs rest v (set ps i p') (set sp i true) i p' d.1 l
        (get_elem?-set_self ps i p' h)
      ∙ ap (λ qs. print_all rest (in_sequence v qs (set (set sp i true) i true) i))
          (set-set ps i p' (decimal p' (c' ∷ cs)))
      ∙ ap (λ qs. print_all rest (in_sequence v (set ps i (decimal p' (c' ∷ cs))) qs i))
          (set-set sp i true true))

abbrev zeros : List ℕ
zeros = replicate 14 0

abbrev falses : List Bool
falses = replicate 14 false

print_all-begin :
    (v : Vga) (rest : Bytes)
    → print_all (escape ∷ b'[' ∷ rest) (record v { status = normal })
      ≡ print_all rest (in_sequence v (0 ∷ 0 ∷ zeros) (false ∷ false ∷ falses) 0)
unfolding print_all print_character print_escape_code dispatch in_escape is_normal set_mode
print_all-begin v rest = refl

print_all-separator :
    (v : Vga) (rest : Bytes) (ps : List ℕ) (sp : List Bool)
    → print_all (b';' ∷ rest) (in_sequence v ps sp 0) ≡ print_all rest (in_sequence v ps sp 1)
unfolding print_all print_character print_escape_code dispatch in_csi next_param is_normal
print_all-separator v rest ps sp = refl

print_all-position :
    (v : Vga) (line column : ℕ) (ps : List ℕ) (sp : List Bool)
    → let s = in_sequence v (line ∷ column ∷ ps) (true ∷ true ∷ sp) 1 in
      print_all (b'H' ∷ []) s ≡ some (set_mode normal (to_position column line s))
unfolding print_all print_character print_escape_code dispatch in_csi final_byte param is_normal
print_all-position v line column ps sp = refl

to_position_lem :
    (column line : ℕ) (v : Vga)
    → let inside = ltb 0 column && ltb column width && ltb 0 line && ltb line height in
      let v' = to_position column line v in
      (v'.x ≡ (if inside then column - 1 else v.x))
      × (v'.y ≡ (if inside then line - 1 else v.y))
      × (v'.video ≡ v.video)
      × (v'.color ≡ v.color)
      × (v'.saved_x ≡ v.saved_x)
      × (v'.saved_y ≡ v.saved_y)
unfolding to_position
to_position_lem column line v =
    by_test (ltb 0 column && ltb column width && ltb 0 line && ltb line height)
  where
    by_test :
        (t : Bool)
        → let v' = if t then record v { x = column - 1; y = line - 1 } else v in
          (v'.x ≡ (if t then column - 1 else v.x))
          × (v'.y ≡ (if t then line - 1 else v.y))
          × (v'.video ≡ v.video)
          × (v'.color ≡ v.color)
          × (v'.saved_x ≡ v.saved_x)
          × (v'.saved_y ≡ v.saved_y)
    by_test true = (refl, refl, refl, refl, refl, refl)
    by_test false = (refl, refl, refl, refl, refl, refl)

-- ESC [ line ; column H, with one digit or more each, moves the cursor to that line and column,
-- counted from 1, if the decimal numbers modulo 2 ^ 32 are positive and smaller than 25 and 80, and
-- leaves it where it is if they are not; the screen, the colour and the saved cursor stay, and the
-- sequence is over.
pub print_all-cursor_position :
    (v : Vga) (a : ℕ) (as' : Bytes) (b : ℕ) (bs : Bytes)
    → AllDigits (a ∷ as')
    → AllDigits (b ∷ bs)
    → let line = decimal 0 (a ∷ as') in
      let column = decimal 0 (b ∷ bs) in
      let inside = ltb 0 column && ltb column width && ltb 0 line && ltb line height in
      (v' : Vga) × (print_all
          (escape ∷ b'[' ∷ ((a ∷ as') ++ (b';' ∷ ((b ∷ bs) ++ (b'H' ∷ [])))))
          (record v { status = normal })
        ≡ some v')
      × (v'.x ≡ (if inside then column - 1 else v.x))
      × (v'.y ≡ (if inside then line - 1 else v.y))
      × (v'.video ≡ v.video)
      × (v'.color ≡ v.color)
      × (v'.saved_x ≡ v.saved_x)
      × (v'.saved_y ≡ v.saved_y)
      × (v'.status ≡ normal)
unfolding set_mode
print_all-cursor_position v a as' b bs da db =
    let line = decimal 0 (a ∷ as') in
    let column = decimal 0 (b ∷ bs) in
    let s = in_sequence v (line ∷ column ∷ zeros) (true ∷ true ∷ falses) 1 in
    let rest = b'H' ∷ [] in
    let (ex, ey, ev, ec, sx, sy) = to_position_lem column line s in
    (
      set_mode normal (to_position column line s),
      print_all-begin v ((a ∷ as') ++ (b';' ∷ ((b ∷ bs) ++ rest)))
          ∙ print_all-digits a as' (b';' ∷ ((b ∷ bs) ++ rest)) v (0 ∷ 0 ∷ zeros)
              (false ∷ false ∷ falses) 0 0 da (omega arith) refl
          ∙ print_all-separator v ((b ∷ bs) ++ rest) (line ∷ 0 ∷ zeros) (true ∷ false ∷ falses)
          ∙ print_all-digits b bs rest v (line ∷ 0 ∷ zeros) (true ∷ false ∷ falses) 1 0 db
              (omega arith) refl
          ∙ print_all-position v line column zeros falses,
      ex,
      ey,
      ev,
      ec,
      sx,
      sy,
      refl,
    )

-- ESC [ m leaves the colour as it is: without a parameter nothing is reset.
pub print_all-plain_rendition :
    (v : Vga)
    → (v' : Vga) × (print_all (escape ∷ b'[' ∷ b'm' ∷ []) (record v { status = normal }) ≡ some v')
      × (v'.color ≡ v.color)
unfolding print_all print_character print_escape_code dispatch in_escape in_csi final_byte graphics
    is_normal set_mode set_graphics_rendition
print_all-plain_rendition v = (_, refl, refl)

-- A line that ends behind the page is not filled.
fill_row-outside :
    (n i j ch color : ℕ) (m : Bytes)
    → length m ≡ page
    → 160 * i + 2 * j ≤ page
    → page < 160 * i + 2 * (j + n)
    → fill_row n i j ch color m ≡ none
unfolding fill_row put_cell store video_offset
fill_row-outside zero i j ch color m l a h = absurd (omega arith)
fill_row-outside (suc n) i j ch color m l a h = elim (Bool-cases (ltb (160 * i + 2 * j) page)) [
  | inl fits ↦
      let (m', e, (l', _)) = put_cell-Filled i j ch color m (omega arith) (ground arith) in
      rw e (fill_row-outside n i (j + 1) ch color m' (l' ∙ l) (ground arith) (omega arith))
  | inr over ↦
      let far : ltb ((2 * i * width + 2 * j) % unsigned_mod) (length m) ≡ false = ground arith in
      rw far refl
]

-- ESC [ 0 S: scrolling up by no line fills a line below the last one, which is not in the page.
pub scroll_up-zero : (v : Vga) → IsScreen v → scroll_up 0 v ≡ none
unfolding scroll_up kept_bytes video_offset set_video fill_rect fill_rows
scroll_up-zero v h =
    let (m, e, (l, _)) =
      memmove-Copied 0 0 4000 v.video (omega (arith, h.video)) (omega (arith, h.video)) in
    rw (e, fill_row-outside 80 25 0 0 v.color m (l ∙ h.video) (omega arith) (omega arith)) refl
