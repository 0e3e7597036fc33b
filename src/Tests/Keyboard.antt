-- ===== src/Tests/Keyboard.antt =====
-- The keyboard at a few events.
use inwox.Base.{◌≡◌, refl, some, List, [], ◌∷◌}
use inwox.Base.Int.{ℤ, pos, negsuc}
use inwox.Keyboard.{
  lshift, rshift, capslock, lcontrol, rcontrol, modify, plain_char, pressed_char, get_char_from_key,
  get_sequence_from_key, find_sequence, or_zero, csi_sequence,
}
use inwox.Keyboard.History.{after_events, is_held, is_odd, after_events-is_held}

-- The shift key down, and the a key: A; with control, 1.
shift_a_runs :
    ((get_char_from_key (pos 0x1E) (after_events (pos lshift ∷ []))).0 ≡ b'A')
    × ((get_char_from_key (pos 0x1E) (after_events (pos lshift ∷ (pos rcontrol ∷ [])))).0 ≡ 1)
unfolding get_char_from_key after_events modify plain_char pressed_char or_zero
shift_a_runs = (refl, refl)

arrow_runs : get_sequence_from_key (pos 0xC8) ≡ some (csi_sequence (b'A' ∷ []))
unfolding get_sequence_from_key find_sequence
arrow_runs = refl

-- The left shift key is let go, having been pressed, with caps lock on.
abbrev few_events : List ℤ
few_events = negsuc 0x29 ∷ (pos capslock ∷ (pos lshift ∷ []))

after_events-is_held_example : after_events few_events ≡ record {
  left_shift = is_held lshift few_events;
  right_shift = is_held rshift few_events;
  caps_lock = is_odd capslock few_events;
  left_control = is_held lcontrol few_events;
  right_control = is_held rcontrol few_events;
}
after_events-is_held_example = after_events-is_held few_events
