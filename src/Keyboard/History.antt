-- ===== src/Keyboard/History.antt =====
-- The modifiers as what the key events so far make them.
use inwox.Base.{
  ℕ, zero, suc, ◌+◌, ◌*◌, ◌<◌, ◌≡◌, refl, Bool, true, false, not, ◌&&◌, ◌||◌, List, [], ◌∷◌, arith,
  ltb, ◌==◌, if◌then◌else◌, get_elem?, Bytes,
}
use inwox.Base.Int.{ℤ, pos, negsuc}
use inwox.Keyboard
use inwox.Keyboard.{
  Modifiers, lshift, rshift, capslock, lcontrol, rcontrol, modify, xor, layout_us, or_zero,
  plain_char, pressed_char, get_char_from_key,
}

-- At the start of the program, and after the events of a list with the newest first.
abbrev pub released : Modifiers
released = record {
  left_shift = false;
  right_shift = false;
  caps_lock = false;
  left_control = false;
  right_control = false;
}

unfoldable pub after_events : List ℤ → Modifiers
after_events [] = released
after_events (e ∷ es) = modify e (after_events es)

-- The last event of the key is that it was pressed.
unfoldable pub is_held : ℕ → List ℤ → Bool
is_held key [] = false
is_held key (pos k ∷ es) = if k == key then true else is_held key es
is_held key (negsuc k ∷ es) = if k + 1 == key then false else is_held key es

-- The key was pressed an odd number of times.
unfoldable pub is_odd : ℕ → List ℤ → Bool
is_odd key [] = false
is_odd key (pos k ∷ es) = if k == key then not (is_odd key es) else is_odd key es
is_odd key (negsuc k ∷ es) = is_odd key es

-- After any events, a shift or control key counts as held when its last event is a press, and caps
-- lock is on when it was pressed an odd number of times.
pub after_events-is_held :
    (es : List ℤ)
    → after_events es ≡ record {
      left_shift = is_held lshift es;
      right_shift = is_held rshift es;
      caps_lock = is_odd capslock es;
      left_control = is_held lcontrol es;
      right_control = is_held rcontrol es;
    }
unfolding after_events is_held is_odd modify
after_events-is_held [] = refl
after_events-is_held (pos k ∷ es) = rw (after_events-is_held es) (ground arith)
after_events-is_held (negsuc k ∷ es) = rw (after_events-is_held es) (ground arith)

abbrev pub is_ascii : Bytes → Bool
is_ascii [] = true
is_ascii (c ∷ cs) = ltb c 128 && is_ascii cs

is_ascii-get_elem? : (cs : Bytes) (i : ℕ) → is_ascii cs ≡ true → or_zero (get_elem? cs i) < 128
unfolding or_zero
is_ascii-get_elem? [] i h = ground arith
is_ascii-get_elem? (c ∷ cs) zero h = ground (arith, h)
is_ascii-get_elem? (c ∷ cs) (suc i) h = is_ascii-get_elem? cs i (ground (arith, h))

plain_char-lt : (k : ℕ) (shifted : Bool) → plain_char k shifted < 128
unfolding plain_char
plain_char-lt k shifted =
    ground (arith, is_ascii-get_elem? layout_us (2 * k + Keyboard.bit shifted) refl)

-- Every key gives an ASCII character, or 0.
pub get_char_from_key-lt : (key : ℤ) (m : Modifiers) → (get_char_from_key key m).0 < 128
unfolding get_char_from_key pressed_char
get_char_from_key-lt (pos k) m =
    let s = modify (pos k) m in
    ground (arith, plain_char-lt k (xor (s.left_shift || s.right_shift) s.caps_lock))
get_char_from_key-lt (negsuc k) m = ground arith
