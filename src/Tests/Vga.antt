-- ===== src/Tests/Vga.antt =====
-- The text screen at concrete screens.
use inwox.Base.{
  ℕ, ◌+◌, ◌-◌, ◌*◌, ◌≤◌, ◌<◌, ◌≡◌, refl, ◌≢◌, false, ◌&&◌, none, some, [], ◌∷◌, ◌++◌, arith, ltb,
  if◌then◌else◌, length, get_elem?, replicate, length-replicate, Bytes,
}
use inwox.Vga.Screen.{
  Mode, normal, csi, Vga, width, height, default_color, print_character_raw, backspace,
}
use inwox.Vga.Screen.Fill.{page, Filled}
use inwox.Vga.Screen.Valid.{
  InRange, IsScreen, Keeps, target_x, target_y, elsewhere, print_character_raw-printed,
  backspace-Filled, backspace-origin,
}
use inwox.Vga.Escape.{escape, print_character, print_all}
use inwox.Vga.Escape.Safe.{print_character-IsScreen}
use inwox.Vga.Escape.Sequences.{decimal, print_all-cursor_position}

abbrev blank_page : Bytes
blank_page = replicate 4096 0

abbrev pub screen_at : ℕ → ℕ → Mode → Vga
screen_at x y mode = record {
  video = blank_page;
  color = default_color;
  x = x;
  y = y;
  saved_x = 0;
  saved_y = 0;
  params = replicate 16 0;
  specified = replicate 16 false;
  index = 0;
  status = mode;
}

screen_at-IsScreen :
    (x y : ℕ) (mode : Mode) → x ≤ 80 → y < 25 → InRange mode 0 → IsScreen (screen_at x y mode)
screen_at-IsScreen x y mode hx hy r = record {
  video = length-replicate {A = ℕ} 4096 0;
  color = omega arith;
  x = hx;
  y = hy;
  saved_x = omega arith;
  saved_y = omega arith;
  params = refl;
  specified = refl;
  index = r;
}

-- Behind the last column of the last line.
abbrev full_screen : Vga
full_screen = screen_at 80 24 normal

full_screen-IsScreen : IsScreen full_screen
full_screen-IsScreen = screen_at-IsScreen 80 24 normal (omega arith) (omega arith) tt

print_character_raw-printed_example :
    (m : Bytes) × (print_character_raw b'x' full_screen
      ≡ some (record full_screen {
        video = m;
        x = target_x full_screen + 1;
        y = target_y full_screen;
      }))
    × (length m ≡ page)
    × (get_elem? m (160 * target_y full_screen + 2 * target_x full_screen) ≡ some b'x')
    × (get_elem? m (160 * target_y full_screen + 2 * target_x full_screen + 1) ≡ some default_color)
    × ((k : ℕ)
        → k < 4000
        → k ≢ 160 * target_y full_screen + 2 * target_x full_screen
        → k ≢ 160 * target_y full_screen + 2 * target_x full_screen + 1
        → get_elem? m k ≡ elsewhere full_screen k)
print_character_raw-printed_example =
    print_character_raw-printed b'x' full_screen full_screen-IsScreen (omega arith)

-- In the first column of the second line.
abbrev pub second_line : Vga
second_line = screen_at 0 1 normal

pub second_line-IsScreen : IsScreen second_line
second_line-IsScreen = screen_at-IsScreen 0 1 normal (omega arith) (omega arith) tt

backspace-Filled_example :
    (m : Bytes) × (backspace second_line ≡ some (record second_line { video = m; x = 79; y = 0 }))
    × Filled blank_page 158 160 0 default_color m
backspace-Filled_example = backspace-Filled second_line second_line-IsScreen (omega arith)

-- At the origin, in a CSI sequence.
abbrev in_sequence : Vga
in_sequence = screen_at 0 0 csi

in_sequence-IsScreen : IsScreen in_sequence
in_sequence-IsScreen = screen_at-IsScreen 0 0 csi (omega arith) (omega arith) (omega arith)

print_character-IsScreen_example : Keeps (print_character b'H' in_sequence)
print_character-IsScreen_example =
    print_character-IsScreen b'H' in_sequence in_sequence-IsScreen
      (λ e. absurd (omega (arith, e)), λ e. absurd (omega (arith, e)))

backspace-origin_example : backspace in_sequence ≡ none
backspace-origin_example = backspace-origin in_sequence in_sequence-IsScreen refl refl

-- ESC [ 12 ; 5 H.
print_all-cursor_position_example :
    let line = decimal 0 (b'1' ∷ (b'2' ∷ [])) in
    let column = decimal 0 (b'5' ∷ []) in
    let inside = ltb 0 column && ltb column width && ltb 0 line && ltb line height in
    (v' : Vga) × (print_all
        (escape ∷ b'[' ∷ ((b'1' ∷ (b'2' ∷ [])) ++ (b';' ∷ ((b'5' ∷ []) ++ (b'H' ∷ [])))))
        full_screen
      ≡ some v')
    × (v'.x ≡ (if inside then column - 1 else 80))
    × (v'.y ≡ (if inside then line - 1 else 24))
    × (v'.video ≡ blank_page)
    × (v'.color ≡ default_color)
    × (v'.saved_x ≡ 0)
    × (v'.saved_y ≡ 0)
    × (v'.status ≡ normal)
print_all-cursor_position_example =
    print_all-cursor_position full_screen b'1' (b'2' ∷ []) b'5' []
      ((omega arith, omega arith), ((omega arith, omega arith), tt))
      ((omega arith, omega arith), tt)
