-- ===== src/Vga/Screen/Valid.antt =====
-- The invariant of the screen, and the printing of single bytes.
use inwox.Base.{
  ℕ, ◌+◌, ◌-◌, ◌*◌, ◌%◌, ◌≤◌, ◌<◌, ◌≡◌, refl, ap, ◌∙◌, ◌≢◌, inl, inr, true, false, ◌&&◌, Option,
  none, some, arith, ltb, ◌==◌, if◌then◌else◌, Bool-cases, length, get_elem?, Bytes,
}
use inwox.Vga.Screen.{
  height, width, Mode, normal, escaped, csi, Vga, put_cell, set_video, next_line, put_here,
  video_offset, print_character_raw, back, backspace, unsigned_mod,
}
use inwox.Str.Move.{store}
use inwox.Vga.Screen.Fill.{page, Filled, put_cell-Filled, scroll_lem}

-- Inside a CSI sequence the current parameter is one of the sixteen.
abbrev pub InRange : Mode → ℕ → Type 0
InRange normal i = Unit
InRange escaped i = Unit
InRange csi i = i < 16

-- The cursor may stand one column behind the last one.
pub record IsScreen (v : Vga) : Type 0 where
  pub video : length v.video ≡ page
  pub color : v.color < 256
  pub x : v.x ≤ width
  pub y : v.y < height
  pub saved_x : v.saved_x ≤ width
  pub saved_y : v.saved_y < height
  pub params : length v.params ≡ 16
  pub specified : length v.specified ≡ 16
  pub index : InRange v.status v.index

-- The operation ends without a fault, and the screen is valid again.
abbrev pub Keeps : Option Vga → Type 0
Keeps r = (v' : Vga) × (r ≡ some v') × IsScreen v'

pub video-IsScreen :
    (v : Vga) (m : Bytes) → IsScreen v → length m ≡ page → IsScreen (record v { video = m })
video-IsScreen v m h l = record {
  video = l;
  color = h.color;
  x = h.x;
  y = h.y;
  saved_x = h.saved_x;
  saved_y = h.saved_y;
  params = h.params;
  specified = h.specified;
  index = h.index;
}

pub cursor-IsScreen :
    (v : Vga) (x y : ℕ) → IsScreen v → x ≤ width → y < height → IsScreen (record v { x = x; y = y })
cursor-IsScreen v x y h a b = record {
  video = h.video;
  color = h.color;
  x = a;
  y = b;
  saved_x = h.saved_x;
  saved_y = h.saved_y;
  params = h.params;
  specified = h.specified;
  index = h.index;
}

-- What an offset of the screen shows once the lines have moved up.
abbrev pub scrolled_at : Vga → ℕ → Option ℕ
scrolled_at v k =
    if ltb k 3840 then get_elem? v.video (k + 160) else some (if k % 2 == 0 then 0 else v.color)

abbrev pub line_below : ℕ → ℕ
line_below y = if y == 24 then 24 else y + 1

-- The next line: the screen is scrolled at the last one.
next_line_lem :
    (v : Vga)
    → IsScreen v
    → (m : Bytes) × (length m ≡ page)
      × (next_line v ≡ some (record v { video = m; x = 0; y = line_below v.y }))
      × ((k : ℕ)
          → k < 4000
          → get_elem? m k ≡ (if v.y == 24 then scrolled_at v k else get_elem? v.video k))
unfolding next_line set_video
next_line_lem v h = elim (Bool-cases (v.y == 24)) [
  | inl last ↦
      let (m, e, l, upper, lower) = scroll_lem v.color v.video h.video in
      let over : ltb 24 (v.y + 1) ≡ true = ground (arith, h.y) in
      (m, l, rw (last, over, e) refl, λ k b. rw last (ground (arith, upper k, lower k)))
  | inr other ↦
      let inside : ltb 24 (v.y + 1) ≡ false = ground (arith, h.y) in
      (v.video, h.video, rw (other, inside) refl, λ k b. rw other refl)
]

put_here_lem :
    (c : ℕ) (v : Vga)
    → length v.video ≡ page
    → v.x < width
    → v.y < height
    → (m : Bytes) × (put_here c v ≡ some (record v { x = v.x + 1; video = m }))
      × Filled v.video (160 * v.y + 2 * v.x) (160 * v.y + 2 * v.x + 2) c v.color m
unfolding put_here set_video
put_here_lem c v l hx hy =
    let (m, e, f) = put_cell-Filled v.y v.x c v.color v.video (omega arith) (omega arith) in
    (m, rw e refl, f)

-- Where the byte goes, and what the screen shows elsewhere.
abbrev pub target_x : Vga → ℕ
target_x v = if ltb 79 v.x then 0 else v.x

abbrev pub target_y : Vga → ℕ
target_y v = if ltb 79 v.x then line_below v.y else v.y

abbrev pub elsewhere : Vga → ℕ → Option ℕ
elsewhere v k = if ltb 79 v.x && v.y == 24 then scrolled_at v k else get_elem? v.video k

-- A byte other than a newline is always printed: it stands at the cursor, or in the first column of
-- the next line where the cursor is behind the last column, with the current colour; the cursor
-- stands behind it, and the rest of the screen is unchanged but for the scrolling.
pub print_character_raw-printed :
    (c : ℕ) (v : Vga)
    → IsScreen v
    → c ≢ b'\n'
    → (m : Bytes) × (print_character_raw c v
        ≡ some (record v { video = m; x = target_x v + 1; y = target_y v }))
      × (length m ≡ page)
      × (get_elem? m (160 * target_y v + 2 * target_x v) ≡ some c)
      × (get_elem? m (160 * target_y v + 2 * target_x v + 1) ≡ some v.color)
      × ((k : ℕ)
          → k < 4000
          → k ≢ 160 * target_y v + 2 * target_x v
          → k ≢ 160 * target_y v + 2 * target_x v + 1
          → get_elem? m k ≡ elsewhere v k)
unfolding print_character_raw
print_character_raw-printed c v h ne = elim (Bool-cases (ltb 79 v.x)) [
  | inl wrap ↦
      let (m₁, l₁, e₁, f₁) = next_line_lem v h in
      let v₁ : Vga = record v { video = m₁; x = 0; y = line_below v.y } in
      let (m, e, (l, f)) = put_here_lem c v₁ l₁ (omega arith) (ground (arith, h.y)) in
      let other : (c == b'\n') ≡ false = ground arith in
      (
        m,
        rw (other, wrap, e₁) (e ∙ refl),
        omega (arith, l, l₁),
        rw wrap (f (160 * line_below v.y + 2 * 0) ∙ ground arith),
        rw wrap (f (160 * line_below v.y + 2 * 0 + 1) ∙ ground arith),
        λ k b. rw wrap (λ a a'. ground (arith, f k, f₁ k b)),
      )
  | inr stay ↦
      let (m, e, (l, f)) = put_here_lem c v h.video (ground arith) h.y in
      let other : (c == b'\n') ≡ false = ground arith in
      (
        m,
        rw (other, stay) e,
        omega (arith, l, h.video),
        rw stay (f (160 * v.y + 2 * v.x) ∙ ground arith),
        rw stay (f (160 * v.y + 2 * v.x + 1) ∙ ground arith),
        λ k b. rw stay (λ a a'. ground (arith, f k)),
      )
]

-- Printing a byte, a newline included, ends without a fault in a valid screen.
pub print_character_raw-IsScreen : (c : ℕ) (v : Vga) → IsScreen v → Keeps (print_character_raw c v)
unfolding print_character_raw
print_character_raw-IsScreen c v h = elim (Bool-cases (c == b'\n')) [
  | inl newline ↦
      let (m, l, e, _) = next_line_lem v h in
      (
        record v { video = m; x = 0; y = line_below v.y },
        rw newline e,
        cursor-IsScreen (record v { video = m }) 0 (line_below v.y) (video-IsScreen v m h l)
            (omega arith) (ground (arith, h.y)),
      )
  | inr other ↦
      let (m, e, l, _, _, _) = print_character_raw-printed c v h (ground arith) in
      (
        record v { video = m; x = target_x v + 1; y = target_y v },
        e,
        cursor-IsScreen (record v { video = m }) (target_x v + 1) (target_y v)
            (video-IsScreen v m h l) (ground (arith, h.x)) (ground (arith, h.y)),
      )
]

back_lem :
    (v : Vga)
    → IsScreen v
    → v.x + v.y ≢ 0
    → back v
      ≡ record v { x = if v.x == 0 then 79 else v.x - 1; y = if v.x == 0 then v.y - 1 else v.y }
unfolding back
back_lem v h ne = elim (Bool-cases (v.x == 0)) [
  | inl first ↦
      let above : ltb 0 v.y ≡ true = ground arith in
      let minus : (v.y + unsigned_mod - 1) % unsigned_mod ≡ v.y - 1 = ground (arith, h.y) in
      rw (first, above) (ap (λ y. record v { x = 79; y = y }) minus)
  | inr later ↦
      let minus : (v.x + unsigned_mod - 1) % unsigned_mod ≡ v.x - 1 = ground (arith, h.x) in
      rw later (ap (λ x. record v { x = x }) minus)
]

-- Away from the first column of the first line, a backspace goes back one column, to the end of the
-- line above where that is needed, and empties the cell there and no other.
pub backspace-Filled :
    (v : Vga)
    → IsScreen v
    → v.x + v.y ≢ 0
    → let x' = if v.x == 0 then 79 else v.x - 1 in
      let y' = if v.x == 0 then v.y - 1 else v.y in
      (m : Bytes) × (backspace v ≡ some (record v { video = m; x = x'; y = y' }))
      × Filled v.video (160 * y' + 2 * x') (160 * y' + 2 * x' + 2) 0 v.color m
unfolding backspace set_video
backspace-Filled v h ne =
    let x' = if v.x == 0 then 79 else v.x - 1 in
    let y' = if v.x == 0 then v.y - 1 else v.y in
    let line : y' < height = ground (arith, h.y) in
    let column : x' < width = ground (arith, h.x) in
    let (m, e, f) =
      put_cell-Filled y' x' 0 v.color v.video (omega (arith, h.video)) (omega (arith, h.video)) in
    (m, rw (back_lem v h ne) (ap (set_video (record v { x = x'; y = y' })) e), f)

-- In the first column of the first line the column wraps, and a backspace writes outside the page.
pub backspace-origin : (v : Vga) → IsScreen v → v.x ≡ 0 → v.y ≡ 0 → backspace v ≡ none
unfolding backspace back set_video put_cell store video_offset
backspace-origin v h ex ey =
    let first : (v.x == 0 && ltb 0 v.y) ≡ false = ground arith in
    let far : ltb ((2 * v.y * width + 2 * ((v.x + unsigned_mod - 1) % unsigned_mod)) % unsigned_mod)
          (length v.video)
        ≡ false =
      ground (arith, h.video) in
    rw (first, far) refl

pub backspace-IsScreen : (v : Vga) → IsScreen v → v.x + v.y ≢ 0 → Keeps (backspace v)
backspace-IsScreen v h ne =
    let (m, e, f) = backspace-Filled v h ne in
    let x' = if v.x == 0 then 79 else v.x - 1 in
    let y' = if v.x == 0 then v.y - 1 else v.y in
    (
      record v { video = m; x = x'; y = y' },
      e,
      cursor-IsScreen (record v { video = m }) x' y'
          (video-IsScreen v m h (omega (arith, f.0, h.video))) (ground (arith, h.x))
          (ground (arith, h.y)),
    )
