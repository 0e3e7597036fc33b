-- ===== src/Vga/Screen.antt =====
-- The video memory, and the printing of a byte without escape sequences.
pub mod Fill
pub mod Valid
use inwox.Base.{
  ℕ, zero, suc, ◌+◌, ◌-◌, ◌*◌, ◌/◌, ◌%◌, ◌^◌, ◌≤◌, ◌<◌, min, ◌≡◌, refl, sym, ap, ◌∙◌, ◌≢◌, ◌↔◌, ◌⊎◌,
  inl, inr, Bool, true, false, not, ◌&&◌, ◌||◌, Option, none, some, List, [], ◌∷◌, ◌++◌, map,
  append-nil, append_assoc, arith, ltb, leb, ◌==◌, ==_iff, if◌then◌else◌, Bool-cases, Option-cases,
  length, get_elem?, set, take, drop, replicate, All, length-append, length-replicate, length-set,
  Bytes, ◌>>=◌,
}
use inwox.Str.{memset}
use inwox.Str.Move.{store, memmove}

abbrev pub height : ℕ
height = 25

abbrev pub width : ℕ
width = 80

abbrev pub video_size : ℕ
video_size = 2 * width * height

abbrev pub unsigned_mod : ℕ
unsigned_mod = 2 ^ 32

abbrev pub default_foreground : ℕ
default_foreground = 3

-- A colour is a byte, the background in its upper half; 0x83.
abbrev pub default_color : ℕ
default_color = 8 * 16 + default_foreground

pub data Mode : Type 0 where
  normal escaped csi : Mode

-- `video` is the page that is mapped at 0xC0000000, and an offset in it is an address there; it is
-- 96 bytes longer than the screen. The rest are the file's static variables.
pub record Vga : Type 0 where
  pub video : Bytes
  pub color : ℕ
  pub x : ℕ
  pub y : ℕ
  pub saved_x : ℕ
  pub saved_y : ℕ
  pub params : List ℕ
  pub specified : List Bool
  pub index : ℕ
  pub status : Mode

unfoldable pub video_offset : ℕ → ℕ → ℕ
video_offset line column = (2 * line * width + 2 * column) % unsigned_mod

-- A character and its colour; `none` is a write outside the page, here and below.
unfoldable pub put_cell : ℕ → ℕ → ℕ → ℕ → Bytes → Option Bytes
put_cell line column ch color m =
    store m (video_offset line column) ch >>= λ m'. store m' (video_offset line column + 1) color

-- The inner loop of `fillRect`, on the columns left, and the outer one, on the lines left.
unfoldable pub fill_row : ℕ → ℕ → ℕ → ℕ → ℕ → Bytes → Option Bytes
fill_row zero i j ch color m = some m
fill_row (suc n) i j ch color m = put_cell i j ch color m >>= fill_row n i (j + 1) ch color

unfoldable pub fill_rows : ℕ → ℕ → ℕ → ℕ → ℕ → ℕ → Bytes → Option Bytes
fill_rows zero i x1 n ch color m = some m
fill_rows (suc lines) i x1 n ch color m =
    fill_row n i x1 ch color m >>= fill_rows lines (i + 1) x1 n ch color

-- One column and one line are filled at least.
unfoldable pub fill_rect : (x1 x2 y1 y2 ch color : ℕ) → Bytes → Option Bytes
fill_rect x1 x2 y1 y2 ch color m =
    if ltb width x2 || ltb height y2
    then some m
    else (let x2' = if x1 == x2 then x2 + 1 else x2 in
        let y2' = if y1 == y2 then y2 + 1 else y2 in
        fill_rows (y2' - y1) y1 x1 (x2' - x1) ch color m)

unfoldable pub set_video : Vga → Option Bytes → Option Vga
set_video v none = none
set_video v (some m) = some (record v { video = m })

-- The lines move up by one, and the last is cleared.
unfoldable pub scroll : ℕ → Bytes → Option Bytes
scroll color m =
    memmove 0 (video_offset 1 0) (2 * (height - 1) * width) m
    >>= fill_rect 0 width (height - 1) (height - 1) 0 color

-- The cursor goes to the next line.
unfoldable pub next_line : Vga → Option Vga
next_line v =
    let v' = record v { x = 0; y = v.y + 1 } in
    let scrolled = set_video (record v' { y = height - 1 }) (scroll v.color v.video) in
    if ltb (height - 1) (v.y + 1) then scrolled else some v'

unfoldable pub put_here : ℕ → Vga → Option Vga
put_here c v = set_video (record v { x = v.x + 1 }) (put_cell v.y v.x c v.color v.video)

unfoldable pub print_character_raw : ℕ → Vga → Option Vga
print_character_raw c v =
    if c == b'\n'
    then next_line v
    else if ltb (width - 1) v.x
    then (next_line v >>= put_here c)
    else put_here c v

unfoldable pub back : Vga → Vga
back v =
    if v.x == 0 && ltb 0 v.y
    then record v { x = width - 1; y = (v.y + unsigned_mod - 1) % unsigned_mod }
    else record v { x = (v.x + unsigned_mod - 1) % unsigned_mod }

unfoldable pub backspace : Vga → Option Vga
backspace v = let v' = back v in set_video v' (put_cell v'.y v'.x 0 v.color v.video)

-- `memset(video + offset, 0, n)`.
unfoldable pub clear : ℕ → ℕ → Bytes → Option Bytes
clear offset n m = memset (drop offset m) 0 n >>= λ rest. some (take offset m ++ rest)

unfoldable pub init : Vga → Option Vga
init v = set_video (record v { x = 0; y = 0 }) (fill_rect 0 width 0 height 0 default_color v.video)
