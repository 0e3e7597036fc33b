-- ===== src/Vga/Escape/Operations.antt =====
-- The operations of the CSI sequences keep the screen valid.
use inwox.Base.{
  ℕ, zero, suc, ◌+◌, ◌-◌, ◌*◌, ◌%◌, ◌≤◌, ◌<◌, ◌≡◌, refl, ◌∙◌, inl, inr, Bool, true, false, Option,
  some, List, [], ◌∷◌, arith, ◌==◌, if◌then◌else◌, Bool-cases, length, Bytes,
}
use inwox.Str.Move.{memmove-Copied}
use inwox.Vga.Screen.{
  height, width, video_size, unsigned_mod, Mode, Vga, video_offset, fill_rect, set_video, clear,
}
use inwox.Vga.Screen.Fill.{page, fill_rect-lines, fill_rect-line, clear-Filled}
use inwox.Vga.Screen.Valid.{InRange, IsScreen, Keeps, video-IsScreen}
use inwox.Vga.Escape.{
  set_foreground, set_background, or_default, set_bold, rendition, set_graphics_rendition, up, down,
  forward, backward, first_column, to_column, to_line, to_position, erase_display, erase_line,
  kept_bytes, scroll_up, scroll_down, save, restore, graphics,
}

-- A colour is a byte.
rendition_bounds : (p color : ℕ) → color < 256 → rendition p color < 256
unfolding rendition set_foreground set_background or_default set_bold
rendition_bounds p color h = ground arith

set_graphics_rendition_bounds :
    (params : List ℕ) (specified : List Bool) (color : ℕ)
    → color < 256
    → set_graphics_rendition params specified color < 256
unfolding set_graphics_rendition
set_graphics_rendition_bounds [] specified color h = h
set_graphics_rendition_bounds (p ∷ params) [] color h = h
set_graphics_rendition_bounds (p ∷ params) (true ∷ specified) color h =
    set_graphics_rendition_bounds params specified (rendition p color) (rendition_bounds p color h)
set_graphics_rendition_bounds (p ∷ params) (false ∷ specified) color h =
    set_graphics_rendition_bounds params specified color h

-- The choice by the parameter of an erasing sequence.
choose :
    {a b c d : Option Vga} (n : ℕ)
    → Keeps a
    → Keeps b
    → Keeps c
    → Keeps d
    → Keeps (if n == 0 then a else if n == 1 then b else if n == 2 then c else d)
choose n ha hb hc hd = elim (Bool-cases (n == 0)) [
  | inl e ↦ rw e ha
  | inr e ↦ rw e (elim (Bool-cases (n == 1)) [
    | inl e ↦ rw e hb
    | inr e ↦ rw e (elim (Bool-cases (n == 2)) [ inl e ↦ rw e hc | inr e ↦ rw e hd ])
  ])
]

pub mode-IsScreen :
    (v : Vga) (mode : Mode) (i : ℕ)
    → IsScreen v
    → InRange mode i
    → IsScreen (record v { status = mode; index = i })
mode-IsScreen v mode i h r = record {
  video = h.video;
  color = h.color;
  x = h.x;
  y = h.y;
  saved_x = h.saved_x;
  saved_y = h.saved_y;
  params = h.params;
  specified = h.specified;
  index = r;
}

pub moved-IsScreen :
    (n m : ℕ) (v : Vga)
    → IsScreen v
    → IsScreen (up n v)
      × IsScreen (down n v)
      × IsScreen (forward n v)
      × IsScreen (backward n v)
      × IsScreen (to_column n v)
      × IsScreen (to_line n v)
      × IsScreen (to_position n m v)
      × IsScreen (first_column v)
      × IsScreen (restore v)
      × IsScreen (save v)
      × IsScreen (graphics v)
unfolding up down forward backward to_column to_line to_position first_column restore save graphics
moved-IsScreen n m v h = (
  ground arith,
  ground arith,
  ground arith,
  ground arith,
  ground arith,
  ground arith,
  ground arith,
  ground arith,
  ground arith,
  ground arith,
  ground (arith, set_graphics_rendition_bounds v.params v.specified v.color h.color),
)

-- An operation on the video memory of a valid screen.
pub set_video-IsScreen :
    (v : Vga) (r : Option Bytes) (m : Bytes)
    → IsScreen v
    → r ≡ some m
    → length m ≡ page
    → Keeps (set_video v r)
unfolding set_video
set_video-IsScreen v r m h e l = (record v { video = m }, rw e refl, video-IsScreen v m h l)

pub erase_display-IsScreen : (n : ℕ) (v : Vga) → IsScreen v → Keeps (erase_display n v)
unfolding erase_display video_offset
erase_display-IsScreen n v h =
    let here : (2 * v.y * width + 2 * v.x) % unsigned_mod ≡ 160 * v.y + 2 * v.x =
      omega (arith, h.x, h.y) in
    let o = 160 * v.y + 2 * v.x in
    let room : o ≤ video_size = omega (arith, h.x, h.y) in
    let count : (video_size + unsigned_mod - o) % unsigned_mod ≡ video_size - o = omega arith in
    let (m₀, e₀, f₀) = clear-Filled o (video_size - o) v.video (omega (arith, h.video)) in
    let (m₁, e₁, f₁) = clear-Filled 0 o v.video (omega (arith, h.video)) in
    let (m₂, e₂, f₂) = clear-Filled 0 video_size v.video (omega (arith, h.video)) in
    rw (here, count)
      (choose n (set_video-IsScreen v (clear o (video_size - o) v.video) m₀ h e₀ (f₀.0 ∙ h.video))
        (set_video-IsScreen v (clear 0 o v.video) m₁ h e₁ (f₁.0 ∙ h.video))
        (set_video-IsScreen v (clear 0 video_size v.video) m₂ h e₂ (f₂.0 ∙ h.video)) (v, refl, h))

pub erase_line-IsScreen : (n : ℕ) (v : Vga) → IsScreen v → Keeps (erase_line n v)
unfolding erase_line
erase_line-IsScreen n v h =
    let (m₀, e₀, f₀) =
      fill_rect-line v.x 80 v.y 0 v.color v.video (omega (arith, h.video)) h.x (omega arith) h.y
        (omega (arith, h.video)) in
    let (m₁, e₁, f₁) =
      fill_rect-line 0 v.x v.y 0 v.color v.video (omega (arith, h.video)) (omega arith) h.x h.y
        (omega (arith, h.video)) in
    let (m₂, e₂, f₂) =
      fill_rect-line 0 80 v.y 0 v.color v.video (omega (arith, h.video)) (omega arith) (omega arith)
        h.y (omega (arith, h.video)) in
    choose n (set_video-IsScreen v _ m₀ h e₀ (f₀.0 ∙ h.video))
      (set_video-IsScreen v _ m₁ h e₁ (f₁.0 ∙ h.video))
      (set_video-IsScreen v _ m₂ h e₂ (f₂.0 ∙ h.video)) (v, refl, h)

kept_bytes_lem : (n : ℕ) → n ≤ 25 → kept_bytes n ≡ 4000 - 160 * n
unfolding kept_bytes
kept_bytes_lem n h = omega arith

-- From 1 line to 25.
pub scroll_up-IsScreen : (n : ℕ) (v : Vga) → IsScreen v → 1 ≤ n → n ≤ 25 → Keeps (scroll_up n v)
unfolding scroll_up video_offset
scroll_up-IsScreen n v h one most =
    let from : (2 * n * width + 2 * 0) % unsigned_mod ≡ 160 * n = omega arith in
    let rest : (height + unsigned_mod - n) % unsigned_mod ≡ 25 - n = omega arith in
    let (m, e, (l, _)) =
      memmove-Copied 0 (160 * n) (4000 - 160 * n) v.video (omega (arith, h.video))
        (omega (arith, h.video)) in
    let (m', e', (l', _)) =
      fill_rect-lines (25 - n) 25 0 v.color m (omega (arith, l, h.video)) (omega arith)
        (omega arith) (omega (arith, l, h.video)) in
    rw (from, rest, kept_bytes_lem n most, e, e')
      (set_video-IsScreen v (some m') m' h refl (l' ∙ l ∙ h.video))

fill_top :
    (n color : ℕ) (m : Bytes)
    → length m ≡ page
    → n ≤ 25
    → (m' : Bytes) × (fill_rect 0 80 0 n 0 color m ≡ some m') × (length m' ≡ page)
fill_top zero color m l most =
    let (m', e, f) =
      fill_rect-line 0 80 0 0 color m (omega arith) (omega arith) (omega arith) (omega arith)
        (omega arith) in
    (m', e, f.0 ∙ l)
fill_top (suc n) color m l most =
    let (m', e, f) =
      fill_rect-lines 0 (suc n) 0 color m (omega arith) (omega arith) (omega arith) (omega arith) in
    (m', e, f.0 ∙ l)

pub scroll_down-IsScreen : (n : ℕ) (v : Vga) → IsScreen v → n ≤ 25 → Keeps (scroll_down n v)
unfolding scroll_down video_offset
scroll_down-IsScreen n v h most =
    let to : (2 * n * width + 2 * 0) % unsigned_mod ≡ 160 * n = omega arith in
    let (m, e, (l, _)) =
      memmove-Copied (160 * n) 0 (4000 - 160 * n) v.video (omega (arith, h.video))
        (omega (arith, h.video)) in
    let (m', e', l') = fill_top n v.color m (l ∙ h.video) most in
    rw (to, kept_bytes_lem n most, e, e') (set_video-IsScreen v (some m') m' h refl l')
