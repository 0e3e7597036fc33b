-- ===== src/Vga/Cursor.antt =====
-- The cursor of the screen's hardware, as writes to ports, and the warning screen.
use inwox.Base.{
  ℕ, zero, suc, ◌+◌, ◌*◌, ◌/◌, ◌%◌, ◌^◌, ◌≡◌, Bool, Option, some, List, [], ◌∷◌, arith,
  if◌then◌else◌, Bytes, ◌>>=◌,
}
use inwox.Str.Move.{store}
use inwox.Vga.Screen.{Vga, height, width, video_offset, set_video}
use inwox.Vga.Screen.Valid.{IsScreen}

-- The line of the shape of the cursor; bit 5 hides it.
unfoldable pub set_cursor_visibility : Bool → List (ℕ × ℕ)
set_cursor_visibility visible = (0x3D4, 0x0A) ∷ ((0x3D5, if visible then 0x0E else 0x20) ∷ [])

unfoldable pub cursor_position : Vga → ℕ
cursor_position v = (v.x + v.y * width) % 2 ^ 16

unfoldable pub update_cursor_position : Vga → List (ℕ × ℕ)
update_cursor_position v =
    (0x3D4, 0x0E)
    ∷ ((0x3D5, (cursor_position v / 2 ^ 8) % 256)
        ∷ ((0x3D4, 0x0F) ∷ ((0x3D5, cursor_position v % 256) ∷ [])))

-- The two bytes that are written give the place of the cursor on a valid screen.
pub cursor_position-bytes :
    (v : Vga)
    → IsScreen v
    → (cursor_position v / 2 ^ 8) % 256 * 256 + cursor_position v % 256 ≡ v.x + 80 * v.y
unfolding cursor_position
cursor_position-bytes v h = omega (arith, h.x, h.y)

abbrev pub warning_color : ℕ
warning_color = 0xCF

-- On the cells left of a line, and on the lines left.
unfoldable pub warn_row : ℕ → ℕ → ℕ → Bytes → Option Bytes
warn_row zero i j m = some m
warn_row (suc n) i j m = store m (video_offset i j + 1) warning_color >>= warn_row n i (j + 1)

unfoldable pub warn_rows : ℕ → ℕ → Bytes → Option Bytes
warn_rows zero i m = some m
warn_rows (suc n) i m = warn_row width i 0 m >>= warn_rows n (i + 1)

unfoldable pub warn_terminal : Vga → Option Vga
warn_terminal v = set_video (record v { color = warning_color }) (warn_rows height 0 v.video)
