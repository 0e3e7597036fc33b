-- ===== src/Vga/Escape/Safe.antt =====
-- Every byte that is printed keeps the screen valid, whatever escape sequence it stands in.
use inwox.Base.{
  ℕ, zero, suc, ◌+◌, ◌-◌, ◌*◌, ◌%◌, ◌≤◌, ◌<◌, ◌≡◌, refl, ◌∙◌, inl, inr, Bool, true, false, not,
  ◌&&◌, ◌||◌, Option, some, List, [], ◌∷◌, arith, leb, ◌==◌, ==_iff, if◌then◌else◌, Bool-cases,
  length, get_elem?, set, length-set,
}
use inwox.Vga.Screen.{
  video_size, unsigned_mod, default_color, Mode, normal, escaped, csi, Vga, clear,
}
use inwox.Vga.Screen.Fill.{clear-Filled}
use inwox.Vga.Screen.Valid.{InRange, IsScreen, Keeps, print_character_raw-IsScreen}
use inwox.Vga.Escape.{
  param, up, down, forward, backward, first_column, to_column, to_line, to_position, save, restore,
  graphics, final_byte, set_mode, add_digit, next_param, in_csi, reset, in_escape, dispatch,
  print_escape_code, escape, is_normal, print_character,
}
use inwox.Vga.Escape.Operations.{
  mode-IsScreen, moved-IsScreen, set_video-IsScreen, erase_display-IsScreen, erase_line-IsScreen,
  scroll_up-IsScreen, scroll_down-IsScreen,
}

-- The final bytes that scroll by more lines than there are, or up by none, are left out.
abbrev Bounded : ℕ → Vga → Type 0
Bounded c v = (c ≡ b'S' → (1 ≤ param v 0 1) × (param v 0 1 ≤ 25)) × (c ≡ b'T' → param v 0 1 ≤ 25)

-- Only a byte that ends a CSI sequence can be such a final byte.
abbrev pub BoundedIn : Mode → ℕ → Vga → Type 0
BoundedIn csi c v = Bounded c v
BoundedIn _ c v = Unit

Keeps-some : (v : Vga) → IsScreen v → Keeps (some v)
Keeps-some v h = (v, refl, h)

Keeps-if :
    {a b : Option Vga} (t : Bool)
    → (t ≡ true → Keeps a)
    → (t ≡ false → Keeps b)
    → Keeps (if t then a else b)
Keeps-if true ha hb = ha refl
Keeps-if false ha hb = hb refl

final_byte-IsScreen : (c : ℕ) (v : Vga) → IsScreen v → Bounded c v → Keeps (final_byte c v)
unfolding final_byte
final_byte-IsScreen c v h b =
    let n = param v 0 1 in
    let (
      on_up, on_down, on_forward, on_backward, on_column, on_line, _, _, on_restore, on_save,
      on_graphics,
    ) =
      moved-IsScreen n n v h in
    let next = (moved-IsScreen 0 0 (down n v) on_down).7 in
    let previous = (moved-IsScreen 0 0 (up n v) on_up).7 in
    let position = (moved-IsScreen (param v 1 1) n v h).6 in
    Keeps-if (c == b'A') (λ _. Keeps-some (up n v) on_up)
      λ _.
        Keeps-if (c == b'B') (λ _. Keeps-some (down n v) on_down)
          λ _.
            Keeps-if (c == b'C') (λ _. Keeps-some (forward n v) on_forward)
              λ _.
                Keeps-if (c == b'D') (λ _. Keeps-some (backward n v) on_backward)
                  λ _.
                    Keeps-if (c == b'E') (λ _. Keeps-some (first_column (down n v)) next)
                      λ _.
                        Keeps-if (c == b'F') (λ _. Keeps-some (first_column (up n v)) previous)
                          λ _.
                            Keeps-if (c == b'G') (λ _. Keeps-some (to_column n v) on_column)
                              λ _.
                                Keeps-if (c == b'H' || c == b'f')
                                  (λ _. Keeps-some (to_position (param v 1 1) n v) position)
                                  λ _.
                                    Keeps-if (c == b'J')
                                      (λ _. erase_display-IsScreen (param v 0 0) v h)
                                      λ _.
                                        Keeps-if (c == b'K')
                                          (λ _. erase_line-IsScreen (param v 0 0) v h)
                                          λ _.
                                            Keeps-if (c == b'S')
                                              (λ e.
                                                scroll_up-IsScreen n v h (b.0 ((==_iff c _).0 e)).0
                                                  (b.0 ((==_iff c _).0 e)).1)
                                              λ _.
                                                Keeps-if (c == b'T')
                                                  (λ e.
                                                    scroll_down-IsScreen n v h
                                                      (b.1 ((==_iff c _).0 e)))
                                                  λ _.
                                                    Keeps-if (c == b'd')
                                                      (λ _. Keeps-some (to_line n v) on_line)
                                                      λ _.
                                                        Keeps-if (c == b'm')
                                                          (λ _. Keeps-some (graphics v) on_graphics)
                                                          λ _.
                                                            Keeps-if (c == b's')
                                                            (λ _. Keeps-some (save v) on_save)
                                                            λ _.
                                                            Keeps-if (c == b'u')
                                                            (λ _. Keeps-some (restore v) on_restore)
                                                            λ _. Keeps-some v h

get_elem?-lt : (xs : List ℕ) (i : ℕ) → i < length xs → (x : ℕ) × (get_elem? xs i ≡ some x)
get_elem?-lt [] i h = absurd (omega arith)
get_elem?-lt (x ∷ xs) zero h = (x, refl)
get_elem?-lt (x ∷ xs) (suc i) h = get_elem?-lt xs i (omega arith)

-- A digit is stored in the current parameter.
add_digit-IsScreen : (c : ℕ) (v : Vga) → IsScreen v → v.index < 16 → Keeps (add_digit c v)
unfolding add_digit
add_digit-IsScreen c v h i =
    let (p, e) = get_elem?-lt v.params v.index (omega (arith, h.params)) in
    (
      record v {
        params = set v.params v.index ((p * 10 + c - 48) % unsigned_mod);
        specified = set v.specified v.index true;
      },
      rw e refl,
      record {
        video = h.video;
        color = h.color;
        x = h.x;
        y = h.y;
        saved_x = h.saved_x;
        saved_y = h.saved_y;
        params = length-set v.params v.index ((p * 10 + c - 48) % unsigned_mod) ∙ h.params;
        specified = length-set v.specified v.index true ∙ h.specified;
        index = h.index;
      },
    )

next_param-IsScreen : (v : Vga) → IsScreen v → IsScreen (next_param v)
unfolding next_param
next_param-IsScreen v h = elim (Bool-cases (leb 16 (v.index + 1))) [
  | inl e ↦ rw e (mode-IsScreen v normal (v.index + 1) h tt)
  | inr e ↦ rw e (mode-IsScreen v csi (v.index + 1) h (ground arith))
]

in_csi-IsScreen : (c : ℕ) (v : Vga) → IsScreen v → v.index < 16 → Bounded c v → Keeps (in_csi c v)
unfolding in_csi set_mode
in_csi-IsScreen c v h i b =
    let (v', e, h') = final_byte-IsScreen c v h b in
    Keeps-if (leb b'0' c && leb c b'9') (λ _. add_digit-IsScreen c v h i)
      λ _.
        Keeps-if (c == b';') (λ _. Keeps-some (next_param v) (next_param-IsScreen v h))
          λ _. (record v' { status = normal }, rw e refl, mode-IsScreen v' normal v'.index h' tt)

reset-IsScreen : (v : Vga) → IsScreen v → Keeps (reset v)
unfolding reset
reset-IsScreen v h =
    let (m, e, f) = clear-Filled 0 4000 v.video (omega (arith, h.video)) in
    set_video-IsScreen
      (record v { x = 0; y = 0; saved_x = 0; saved_y = 0; color = default_color; status = normal })
      (clear 0 video_size v.video) m
      (record {
        video = h.video;
        color = omega arith;
        x = omega arith;
        y = omega arith;
        saved_x = omega arith;
        saved_y = omega arith;
        params = h.params;
        specified = h.specified;
        index = tt;
      })
      e (f.0 ∙ h.video)

in_escape-IsScreen : (c : ℕ) (v : Vga) → IsScreen v → Keeps (in_escape c v)
unfolding in_escape set_mode
in_escape-IsScreen c v h =
    Keeps-if (c == b'[')
      (λ _. Keeps-some _ (record {
        video = h.video;
        color = h.color;
        x = h.x;
        y = h.y;
        saved_x = h.saved_x;
        saved_y = h.saved_y;
        params = refl;
        specified = refl;
        index = omega arith;
      }))
      λ _.
        Keeps-if (c == b'c') (λ _. reset-IsScreen v h)
          λ _. Keeps-some _ (mode-IsScreen v normal v.index h tt)

dispatch-IsScreen :
    (mode : Mode) (c : ℕ) (v : Vga)
    → IsScreen v
    → InRange mode v.index
    → BoundedIn mode c v
    → Keeps (dispatch mode c v)
unfolding dispatch set_mode
dispatch-IsScreen normal c v h r b = Keeps-some _ (mode-IsScreen v escaped v.index h tt)
dispatch-IsScreen escaped c v h r b = in_escape-IsScreen c v h
dispatch-IsScreen csi c v h r b = in_csi-IsScreen c v h r b

-- Every byte that is printed, in any state of the escape sequences, ends without a fault and keeps
-- the invariant: the cursor and the saved cursor stand on the screen, or one column behind it, the
-- colour is a byte, and the parameter that is read is one of the sixteen. Left out are the final
-- bytes S with a parameter that is not from 1 to 25, and T with one above 25.
pub print_character-IsScreen :
    (c : ℕ) (v : Vga) → IsScreen v → BoundedIn v.status c v → Keeps (print_character c v)
unfolding print_character print_escape_code
print_character-IsScreen c v h b =
    Keeps-if (is_normal v.status && not (c == escape)) (λ _. print_character_raw-IsScreen c v h)
      λ _. dispatch-IsScreen v.status c v h h.index b
