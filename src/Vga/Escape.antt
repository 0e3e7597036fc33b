-- ===== src/Vga/Escape.antt =====
-- The escape sequences.
pub mod Operations
pub mod Safe
pub mod Sequences
use inwox.Base.{
  ℕ, zero, suc, ◌+◌, ◌-◌, ◌*◌, ◌/◌, ◌%◌, ◌^◌, ◌≤◌, ◌<◌, min, ◌≡◌, refl, sym, ap, ◌∙◌, ◌≢◌, ◌↔◌, ◌⊎◌,
  inl, inr, Bool, true, false, not, ◌&&◌, ◌||◌, Option, none, some, List, [], ◌∷◌, ◌++◌, map,
  append-nil, append_assoc, arith, ltb, leb, ◌==◌, ==_iff, if◌then◌else◌, Bool-cases, Option-cases,
  length, get_elem?, set, take, drop, replicate, All, length-append, length-replicate, length-set,
  Bytes, ◌>>=◌,
}
use inwox.Str.Move.{memmove}
use inwox.Vga.Screen.{
  height, width, video_size, unsigned_mod, default_foreground, default_color, Mode, normal, escaped,
  csi, Vga, video_offset, fill_rect, set_video, print_character_raw, clear,
}

abbrev pub max_params : ℕ
max_params = 16

-- The foreground is the lower three bits: `(fontColor & 0xF8) | k`.
unfoldable pub set_foreground : ℕ → ℕ → ℕ
set_foreground k color = color / 8 * 8 + k

-- The background: `(fontColor & 0x0F) | (k << 4)`.
unfoldable pub set_background : ℕ → ℕ → ℕ
set_background k color = color % 16 + k * 16

-- `color | 3` in the lower half, which `| DEFAULT_COLOR` does as well.
unfoldable pub or_default : ℕ → ℕ
or_default low = low / 4 * 4 + default_foreground

-- `fontColor |= 0x08` and `fontColor &= ~0x08`.
unfoldable pub set_bold : Bool → ℕ → ℕ
set_bold bold color = color / 16 * 16 + (if bold then 8 else 0) + color % 8

-- One parameter of SGR.
unfoldable pub rendition : ℕ → ℕ → ℕ
rendition p color =
    if p == 0
    then default_color
    else if p == 1
    then set_bold true color
    else if p == 22
    then set_bold false color
    else if p == 30
    then set_foreground 0 color
    else if p == 31
    then set_foreground 4 color
    else if p == 32
    then set_foreground 2 color
    else if p == 33
    then set_foreground 6 color
    else if p == 34
    then set_foreground 1 color
    else if p == 35
    then set_foreground 5 color
    else if p == 36
    then set_foreground 3 color
    else if p == 37
    then set_foreground 7 color
    else if p == 39
    then set_foreground default_foreground color
    else if p == 40
    then set_background 0 color
    else if p == 41
    then set_background 4 color
    else if p == 42
    then set_background 2 color
    else if p == 43
    then set_background 6 color
    else if p == 44
    then set_background 1 color
    else if p == 45
    then set_background 5 color
    else if p == 46
    then set_background 3 color
    else if p == 47
    then set_background 7 color
    else if p == 49
    then set_background 8 (or_default (color % 16))
    else color

-- The loop over the parameters that were given.
unfoldable pub set_graphics_rendition : List ℕ → List Bool → ℕ → ℕ
set_graphics_rendition (p ∷ params) (given ∷ specified) color =
    set_graphics_rendition params specified (if given then rendition p color else color)
set_graphics_rendition _ _ color = color

-- `paramSpecified[i] ? params[i] : otherwise`.
unfoldable pub param : Vga → ℕ → ℕ → ℕ
param v i otherwise = elim (get_elem? v.specified i) [
  | some true ↦ elim (get_elem? v.params i) [ none ↦ otherwise | some p ↦ p ]
  | _ ↦ otherwise
]

unfoldable pub up : ℕ → Vga → Vga
up n v = record v { y = if ltb v.y n then 0 else v.y - n }

unfoldable pub down : ℕ → Vga → Vga
down n v =
    let y' = (v.y + n) % unsigned_mod in record v { y = if leb height y' then height - 1 else y' }

unfoldable pub forward : ℕ → Vga → Vga
forward n v = let x' = (v.x + n) % unsigned_mod in record v { x = if leb width x' then 0 else x' }

unfoldable pub backward : ℕ → Vga → Vga
backward n v = record v { x = if ltb v.x n then 0 else v.x - n }

unfoldable pub first_column : Vga → Vga
first_column v = record v { x = 0 }

unfoldable pub to_column : ℕ → Vga → Vga
to_column n v = if ltb 0 n && ltb n width then record v { x = n - 1 } else v

unfoldable pub to_line : ℕ → Vga → Vga
to_line n v = if ltb 0 n && ltb n height then record v { y = n - 1 } else v

unfoldable pub to_position : ℕ → ℕ → Vga → Vga
to_position column line v =
    if ltb 0 column && ltb column width && ltb 0 line && ltb line height
    then record v { x = column - 1; y = line - 1 }
    else v

unfoldable pub erase_display : ℕ → Vga → Option Vga
erase_display n v =
    let here = video_offset v.y v.x in
    if n == 0
    then set_video v (clear here ((video_size + unsigned_mod - here) % unsigned_mod) v.video)
    else if n == 1
    then set_video v (clear 0 here v.video)
    else if n == 2
    then set_video v (clear 0 video_size v.video)
    else some v

unfoldable pub erase_line : ℕ → Vga → Option Vga
erase_line n v =
    if n == 0
    then set_video v (fill_rect v.x width v.y v.y 0 v.color v.video)
    else if n == 1
    then set_video v (fill_rect 0 v.x v.y v.y 0 v.color v.video)
    else if n == 2
    then set_video v (fill_rect 0 width v.y v.y 0 v.color v.video)
    else some v

-- The number of bytes in the lines that stay.
unfoldable pub kept_bytes : ℕ → ℕ
kept_bytes n = 2 * ((height + unsigned_mod - n) % unsigned_mod) * width % unsigned_mod

unfoldable pub scroll_up : ℕ → Vga → Option Vga
scroll_up n v = set_video v (
    memmove 0 (video_offset n 0) (kept_bytes n) v.video
    >>= fill_rect 0 width ((height + unsigned_mod - n) % unsigned_mod) height 0 v.color)

unfoldable pub scroll_down : ℕ → Vga → Option Vga
scroll_down n v =
    set_video v
      (memmove (video_offset n 0) 0 (kept_bytes n) v.video >>= fill_rect 0 width 0 n 0 v.color)

unfoldable pub save : Vga → Vga
save v = record v { saved_x = v.x; saved_y = v.y }

unfoldable pub restore : Vga → Vga
restore v = record v { x = v.saved_x; y = v.saved_y }

unfoldable pub graphics : Vga → Vga
graphics v = record v { color = set_graphics_rendition v.params v.specified v.color }

-- The final byte of a CSI sequence.
unfoldable pub final_byte : ℕ → Vga → Option Vga
final_byte c v =
    if c == b'A'
    then some (up (param v 0 1) v)
    else if c == b'B'
    then some (down (param v 0 1) v)
    else if c == b'C'
    then some (forward (param v 0 1) v)
    else if c == b'D'
    then some (backward (param v 0 1) v)
    else if c == b'E'
    then some (first_column (down (param v 0 1) v))
    else if c == b'F'
    then some (first_column (up (param v 0 1) v))
    else if c == b'G'
    then some (to_column (param v 0 1) v)
    else if c == b'H' || c == b'f'
    then some (to_position (param v 1 1) (param v 0 1) v)
    else if c == b'J'
    then erase_display (param v 0 0) v
    else if c == b'K'
    then erase_line (param v 0 0) v
    else if c == b'S'
    then scroll_up (param v 0 1) v
    else if c == b'T'
    then scroll_down (param v 0 1) v
    else if c == b'd'
    then some (to_line (param v 0 1) v)
    else if c == b'm'
    then some (graphics v)
    else if c == b's'
    then some (save v)
    else if c == b'u'
    then some (restore v)
    else some v

unfoldable pub set_mode : Mode → Vga → Vga
set_mode mode v = record v { status = mode }

-- A digit goes to the current parameter; `none` is an access outside the arrays.
unfoldable pub add_digit : ℕ → Vga → Option Vga
add_digit c v = get_elem? v.params v.index >>= λ p. some (record v {
  params = set v.params v.index ((p * 10 + c - 48) % unsigned_mod);
  specified = set v.specified v.index true;
})

unfoldable pub next_param : Vga → Vga
next_param v = record v {
  index = v.index + 1;
  status = if leb max_params (v.index + 1) then normal else csi;
}

unfoldable pub in_csi : ℕ → Vga → Option Vga
in_csi c v =
    if leb b'0' c && leb c b'9'
    then add_digit c v
    else if c == b';'
    then some (next_param v)
    else (final_byte c v >>= λ v'. some (set_mode normal v'))

-- ESC c: everything is as at the start.
unfoldable pub reset : Vga → Option Vga
reset v =
    set_video
      (record v { x = 0; y = 0; saved_x = 0; saved_y = 0; color = default_color; status = normal })
      (clear 0 video_size v.video)

unfoldable pub in_escape : ℕ → Vga → Option Vga
in_escape c v =
    if c == b'['
    then some (record v {
      status = csi;
      params = replicate max_params 0;
      specified = replicate max_params false;
      index = 0;
    })
    else if c == b'c'
    then reset v
    else some (set_mode normal v)

unfoldable pub dispatch : Mode → ℕ → Vga → Option Vga
dispatch normal c v = some (set_mode escaped v)
dispatch escaped c v = in_escape c v
dispatch csi c v = in_csi c v

unfoldable pub print_escape_code : ℕ → Vga → Option Vga
print_escape_code c v = dispatch v.status c v

abbrev pub escape : ℕ
escape = 27

unfoldable pub is_normal : Mode → Bool
is_normal normal = true
is_normal _ = false

unfoldable pub print_character : ℕ → Vga → Option Vga
print_character c v =
    if is_normal v.status && not (c == escape)
    then print_character_raw c v
    else print_escape_code c v

-- A write to the terminal, byte by byte.
unfoldable pub print_all : Bytes → Vga → Option Vga
print_all [] v = some v
print_all (c ∷ cs) v = print_character c v >>= print_all cs
