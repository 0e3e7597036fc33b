-- ===== src/Keyboard.antt =====
-- kernel/src/keyboard.cpp: from key codes to characters and escape sequences. A key code is an int,
-- negative when the key is let go; the codes are those of kernel/include/inwox/keyboardkeys.h.
pub mod History
use inwox.Base.{
  ℕ, zero, suc, ◌+◌, ◌-◌, ◌*◌, ◌/◌, ◌%◌, ◌^◌, ◌≤◌, ◌<◌, min, ◌≡◌, refl, sym, ap, ◌∙◌, ◌≢◌, ◌↔◌, ◌⊎◌,
  inl, inr, Bool, true, false, not, ◌&&◌, ◌||◌, Option, none, some, List, [], ◌∷◌, ◌++◌, map,
  append-nil, append_assoc, arith, ltb, leb, ◌==◌, ==_iff, if◌then◌else◌, Bool-cases, Option-cases,
  length, get_elem?, set, take, drop, replicate, All, length-append, length-replicate, length-set,
  Bytes, ◌>>=◌,
}
use inwox.Base.Int.{ℤ, pos, negsuc}

pub record Modifiers : Type 0 where
  pub left_shift : Bool
  pub right_shift : Bool
  pub caps_lock : Bool
  pub left_control : Bool
  pub right_control : Bool

abbrev pub lshift : ℕ
lshift = 0x2A

abbrev pub rshift : ℕ
rshift = 0x36

abbrev pub capslock : ℕ
capslock = 0x3A

abbrev pub lcontrol : ℕ
lcontrol = 0x1D

abbrev pub rcontrol : ℕ
rcontrol = 0x9D

abbrev pub numpad_enter : ℕ
numpad_enter = 0x9C

abbrev pub numpad_div : ℕ
numpad_div = 0xB5

-- `KBLAYOUT_US`: two characters for each key, without and with the shift key.
abbrev pub layout_us : Bytes
layout_us =
    96 ∷ 126 ∷ 0 ∷ 0 ∷ 49 ∷ 33 ∷ 50 ∷ 64 ∷ 51 ∷ 35 ∷ 52 ∷ 36 ∷ 53 ∷ 37 ∷ 54 ∷ 94 ∷ 55 ∷ 38 ∷ 56 ∷ 42
    ∷ 57 ∷ 40 ∷ 48 ∷ 41 ∷ 45 ∷ 95 ∷ 61 ∷ 43 ∷ 8 ∷ 8 ∷ 32 ∷ 32 ∷ 113 ∷ 81 ∷ 119 ∷ 87 ∷ 101 ∷ 69 ∷ 114
    ∷ 82 ∷ 116 ∷ 84 ∷ 121 ∷ 89 ∷ 117 ∷ 85 ∷ 105 ∷ 73 ∷ 111 ∷ 79 ∷ 112 ∷ 80 ∷ 91 ∷ 123 ∷ 93 ∷ 125
    ∷ 10 ∷ 10 ∷ 0 ∷ 0 ∷ 97 ∷ 65 ∷ 115 ∷ 83 ∷ 100 ∷ 68 ∷ 102 ∷ 70 ∷ 103 ∷ 71 ∷ 104 ∷ 72 ∷ 106 ∷ 74
    ∷ 107 ∷ 75 ∷ 108 ∷ 76 ∷ 59 ∷ 58 ∷ 39 ∷ 34 ∷ 96 ∷ 126 ∷ 0 ∷ 0 ∷ 92 ∷ 124 ∷ 122 ∷ 90 ∷ 120 ∷ 88
    ∷ 99 ∷ 67 ∷ 118 ∷ 86 ∷ 98 ∷ 66 ∷ 110 ∷ 78 ∷ 109 ∷ 77 ∷ 44 ∷ 60 ∷ 46 ∷ 62 ∷ 47 ∷ 63 ∷ 0 ∷ 0 ∷ 0
    ∷ 0 ∷ 0 ∷ 0 ∷ 32 ∷ 32 ∷ 0 ∷ 0 ∷ 0 ∷ 0 ∷ 0 ∷ 0 ∷ 0 ∷ 0 ∷ 0 ∷ 0 ∷ 0 ∷ 0 ∷ []

-- The bytes of ESC and [, and then the given ones.
abbrev pub csi_sequence : Bytes → Bytes
csi_sequence cs = 27 ∷ b'[' ∷ cs

abbrev pub sequences : List (ℕ × Bytes)
sequences =
    (200, csi_sequence (b'A' ∷ []))
    ∷ (208, csi_sequence (b'B' ∷ []))
    ∷ (205, csi_sequence (b'C' ∷ []))
    ∷ (203, csi_sequence (b'D' ∷ []))
    ∷ (199, csi_sequence (b'1' ∷ b'~' ∷ []))
    ∷ (210, csi_sequence (b'2' ∷ b'~' ∷ []))
    ∷ (211, csi_sequence (b'3' ∷ b'~' ∷ []))
    ∷ (207, csi_sequence (b'4' ∷ b'~' ∷ []))
    ∷ (201, csi_sequence (b'5' ∷ b'~' ∷ []))
    ∷ (209, csi_sequence (b'6' ∷ b'~' ∷ []))
    ∷ (59, csi_sequence (b'O' ∷ b'P' ∷ []))
    ∷ (60, csi_sequence (b'O' ∷ b'Q' ∷ []))
    ∷ (61, csi_sequence (b'O' ∷ b'R' ∷ []))
    ∷ (62, csi_sequence (b'O' ∷ b'S' ∷ []))
    ∷ (63, csi_sequence (b'1' ∷ b'5' ∷ b'~' ∷ []))
    ∷ (64, csi_sequence (b'1' ∷ b'7' ∷ b'~' ∷ []))
    ∷ (65, csi_sequence (b'1' ∷ b'8' ∷ b'~' ∷ []))
    ∷ (66, csi_sequence (b'1' ∷ b'9' ∷ b'~' ∷ []))
    ∷ (67, csi_sequence (b'2' ∷ b'0' ∷ b'~' ∷ []))
    ∷ (68, csi_sequence (b'2' ∷ b'1' ∷ b'~' ∷ []))
    ∷ (87, csi_sequence (b'2' ∷ b'3' ∷ b'~' ∷ []))
    ∷ (88, csi_sequence (b'2' ∷ b'4' ∷ b'~' ∷ []))
    ∷ []

-- What a key does to the static variables of `getCharFromKey`.
unfoldable pub modify : ℤ → Modifiers → Modifiers
modify (pos k) s =
    if k == lshift
    then record s { left_shift = true }
    else if k == rshift
    then record s { right_shift = true }
    else if k == capslock
    then record s { caps_lock = not s.caps_lock }
    else if k == lcontrol
    then record s { left_control = true }
    else if k == rcontrol
    then record s { right_control = true }
    else s
modify (negsuc k) s =
    if k + 1 == lshift
    then record s { left_shift = false }
    else if k + 1 == rshift
    then record s { right_shift = false }
    else if k + 1 == lcontrol
    then record s { left_control = false }
    else if k + 1 == rcontrol
    then record s { right_control = false }
    else s

abbrev pub xor : Bool → Bool → Bool
xor true b = not b
xor false b = b

abbrev pub bit : Bool → ℕ
bit true = 1
bit false = 0

unfoldable pub or_zero : Option ℕ → ℕ
or_zero none = 0
or_zero (some c) = c

-- The character of a key that is pressed; `key << 1 | shifted` is below 128 for the keys below 64.
unfoldable pub plain_char : ℕ → Bool → ℕ
plain_char k shifted =
    if ltb (2 * k + bit shifted) (length layout_us)
    then or_zero (get_elem? layout_us (2 * k + bit shifted))
    else if k == numpad_enter
    then b'\n'
    else if k == numpad_div
    then b'/'
    else 0

unfoldable pub pressed_char : ℕ → Modifiers → ℕ
pressed_char k s =
    let c = plain_char k (xor (s.left_shift || s.right_shift) s.caps_lock) in
    if s.left_control || s.right_control then c % 32 else c

unfoldable pub get_char_from_key : ℤ → Modifiers → ℕ × Modifiers
get_char_from_key (pos k) s = (pressed_char k (modify (pos k) s), modify (pos k) s)
get_char_from_key (negsuc k) s = (0, modify (negsuc k) s)

unfoldable pub find_sequence : ℕ → List (ℕ × Bytes) → Option Bytes
find_sequence k [] = none
find_sequence k ((l, cs) ∷ rest) = if l == k then some cs else find_sequence k rest

unfoldable pub get_sequence_from_key : ℤ → Option Bytes
get_sequence_from_key (pos k) = find_sequence k sequences
get_sequence_from_key (negsuc k) = none
