-- ===== src/Vga/Screen/Fill.antt =====
-- What `fillRect`, `memset` and the scrolling leave in the video memory.
use inwox.Base.{
  ℕ, zero, suc, ◌+◌, ◌-◌, ◌*◌, ◌%◌, ◌≤◌, ◌<◌, ◌≡◌, refl, ap, ◌∙◌, true, false, ◌&&◌, ◌||◌, Option,
  none, some, [], ◌∷◌, ◌++◌, arith, ltb, leb, ◌==◌, if◌then◌else◌, length, get_elem?, set, take,
  drop, length-set, Bytes, ◌>>=◌,
}
use inwox.Str.{memset}
use inwox.Str.Move.{store, memmove-Copied, get_elem?-set}
use inwox.Vga.Screen.{
  height, width, video_size, unsigned_mod, video_offset, put_cell, fill_row, fill_rows, fill_rect,
  scroll, clear,
}

-- The page.
abbrev pub page : ℕ
page = 4096

-- The bytes from `lo` to `hi` have become cells of the character and the colour, and no other.
abbrev pub Filled : Bytes → ℕ → ℕ → ℕ → ℕ → Bytes → Type 0
Filled m lo hi ch color m' =
    (length m' ≡ length m)
    × ((k : ℕ)
        → get_elem? m' k ≡ (
            if leb lo k && ltb k hi
            then some (if k % 2 == 0 then ch else color)
            else get_elem? m k))

pub put_cell-Filled :
    (i j ch color : ℕ) (m : Bytes)
    → length m ≤ page
    → 160 * i + 2 * j + 2 ≤ length m
    → (m' : Bytes) × (put_cell i j ch color m ≡ some m')
      × Filled m (160 * i + 2 * j) (160 * i + 2 * j + 2) ch color m'
unfolding put_cell store video_offset
put_cell-Filled i j ch color m small h =
    let o = 160 * i + 2 * j in
    let same : (2 * i * width + 2 * j) % unsigned_mod ≡ o = omega arith in
    let m₁ = set m o ch in
    let l₁ = length-set m o ch in
    let fits : ltb o (length m) ≡ true = ground arith in
    let fits' : ltb (o + 1) (length m₁) ≡ true = ground arith in
    (
      set m₁ (o + 1) color,
      rw (same, fits, fits') refl,
      (
        omega (arith, l₁, length-set m₁ (o + 1) color),
        λ k. ground (
          arith,
          get_elem?-set m₁ (o + 1) color k (omega arith),
          get_elem?-set m o ch k (omega arith),
        ),
      ),
    )

-- Two ranges that meet are filled one after the other.
Filled-then :
    (m m₁ m₂ : Bytes) (lo mid hi ch color : ℕ)
    → lo ≤ mid
    → mid ≤ hi
    → Filled m lo mid ch color m₁
    → Filled m₁ mid hi ch color m₂
    → Filled m lo hi ch color m₂
Filled-then m m₁ m₂ lo mid hi ch color a b (l, f) (l', g) = (l' ∙ l, λ k. ground (arith, f k, g k))

Filled-empty : (m : Bytes) (lo ch color : ℕ) → Filled m lo lo ch color m
Filled-empty m lo ch color = (refl, λ k. ground arith)

fill_row-Filled :
    (n i j ch color : ℕ) (m : Bytes)
    → length m ≤ page
    → 160 * i + 2 * (j + n) ≤ length m
    → (m' : Bytes) × (fill_row n i j ch color m ≡ some m')
      × Filled m (160 * i + 2 * j) (160 * i + 2 * (j + n)) ch color m'
unfolding fill_row
fill_row-Filled zero i j ch color m small h =
    let same : 160 * i + 2 * (j + 0) ≡ 160 * i + 2 * j = omega arith in
    (m, refl, rw same (Filled-empty m (160 * i + 2 * j) ch color))
fill_row-Filled (suc n) i j ch color m small h =
    let (m₁, e₁, f₁) = put_cell-Filled i j ch color m small (omega arith) in
    let (m₂, e₂, f₂) =
      fill_row-Filled n i (j + 1) ch color m₁ (omega (arith, f₁.0)) (omega (arith, f₁.0)) in
    let start : 160 * i + 2 * (j + 1) ≡ 160 * i + 2 * j + 2 = omega arith in
    let end : 160 * i + 2 * (j + 1 + n) ≡ 160 * i + 2 * (j + suc n) = omega arith in
    let f₂' = rw (start, end) at f₂ in
    (
      m₂,
      rw (e₁, e₂) refl,
      Filled-then m m₁ m₂ (160 * i + 2 * j) (160 * i + 2 * j + 2) (160 * i + 2 * (j + suc n)) ch
          color (omega arith) (omega arith) f₁ f₂',
    )

fill_rows-Filled :
    (lines i ch color : ℕ) (m : Bytes)
    → length m ≤ page
    → 160 * (i + lines) ≤ length m
    → (m' : Bytes) × (fill_rows lines i 0 80 ch color m ≡ some m')
      × Filled m (160 * i) (160 * (i + lines)) ch color m'
unfolding fill_rows
fill_rows-Filled zero i ch color m small h =
    let same : 160 * (i + 0) ≡ 160 * i = omega arith in
    (m, refl, rw same (Filled-empty m (160 * i) ch color))
fill_rows-Filled (suc lines) i ch color m small h =
    let (m₁, e₁, f₁) = fill_row-Filled 80 i 0 ch color m small (omega arith) in
    let (m₂, e₂, f₂) =
      fill_rows-Filled lines (i + 1) ch color m₁ (omega (arith, f₁.0)) (omega (arith, f₁.0)) in
    let start : 160 * i + 2 * 0 ≡ 160 * i = omega arith in
    let middle : 160 * i + 2 * (0 + 80) ≡ 160 * (i + 1) = omega arith in
    let end : 160 * (i + 1 + lines) ≡ 160 * (i + suc lines) = omega arith in
    let f₁' = rw (start, middle) at f₁ in
    let f₂' = rw end at f₂ in
    (
      m₂,
      rw (e₁, e₂) refl,
      Filled-then m m₁ m₂ (160 * i) (160 * (i + 1)) (160 * (i + suc lines)) ch color (omega arith)
          (omega arith) f₁' f₂',
    )

-- `fillRect` over whole lines, one at least.
pub fill_rect-lines :
    (y1 y2 ch color : ℕ) (m : Bytes)
    → length m ≤ page
    → y1 < y2
    → y2 ≤ height
    → video_size ≤ length m
    → (m' : Bytes) × (fill_rect 0 width y1 y2 ch color m ≡ some m')
      × Filled m (160 * y1) (160 * y2) ch color m'
unfolding fill_rect
fill_rect-lines y1 y2 ch color m small lt le h =
    let (m', e, f) = fill_rows-Filled (y2 - y1) y1 ch color m small (omega arith) in
    let in_screen : ltb height y2 ≡ false = ground arith in
    let apart : (y1 == y2) ≡ false = ground arith in
    let end : 160 * (y1 + (y2 - y1)) ≡ 160 * y2 = omega arith in
    (m', rw (in_screen, apart) e, rw end at f)

-- `fillRect` inside one line.
pub fill_rect-line :
    (x1 x2 y ch color : ℕ) (m : Bytes)
    → length m ≤ page
    → x1 ≤ x2
    → x2 ≤ width
    → y < height
    → video_size + 2 ≤ length m
    → (m' : Bytes) × (fill_rect x1 x2 y y ch color m ≡ some m')
      × Filled m (160 * y + 2 * x1) (160 * y + 2 * (if x1 == x2 then x2 + 1 else x2)) ch color m'
unfolding fill_rect fill_rows
fill_rect-line x1 x2 y ch color m small le inside lt h =
    let x2' = if x1 == x2 then x2 + 1 else x2 in
    let order : x1 ≤ x2' = ground arith in
    let room : x2' ≤ 81 = ground arith in
    let (m', e, f) = fill_row-Filled (x2' - x1) y x1 ch color m small (omega arith) in
    let in_screen : (ltb width x2 || ltb height y) ≡ false = ground arith in
    let same : (y == y) ≡ true = ground arith in
    let one : y + 1 - y ≡ 1 = omega arith in
    let end : 160 * y + 2 * (x1 + (x2' - x1)) ≡ 160 * y + 2 * x2' = omega arith in
    (m', rw (in_screen, same, one, e) refl, rw end at f)

memset-elems :
    (m : Bytes) (v n : ℕ)
    → n ≤ length m
    → (m' : Bytes) × (memset m v n ≡ some m')
      × (length m' ≡ length m)
      × ((k : ℕ) → get_elem? m' k ≡ (if ltb k n then some (v % 256) else get_elem? m k))
unfolding memset
memset-elems m v zero h = (m, refl, refl, λ k. ground arith)
memset-elems [] v (suc n) h = absurd (omega arith)
memset-elems (x ∷ m) v (suc n) h =
    let (m', e, l, f) = memset-elems m v n (omega arith) in
    (v % 256 ∷ m', rw e refl, omega (arith, l), at m' f)
  where
    at :
        (m' : Bytes)
        → ((k : ℕ) → get_elem? m' k ≡ (if ltb k n then some (v % 256) else get_elem? m k))
        → (k : ℕ)
        → get_elem? (v % 256 ∷ m') k
          ≡ (if ltb k (suc n) then some (v % 256) else get_elem? (x ∷ m) k)
    at m' f zero = ground arith
    at m' f (suc k) = ground (arith, f k)

-- `memset` with 0 on part of the page.
pub clear-Filled :
    (o n : ℕ) (m : Bytes)
    → o + n ≤ length m
    → (m' : Bytes) × (clear o n m ≡ some m') × Filled m o (o + n) 0 0 m'
unfolding clear
clear-Filled zero n m h =
    let (m', e, l, f) = memset-elems m 0 n (omega arith) in
    (m', rw e refl, (l, λ k. ground (arith, f k)))
clear-Filled (suc o) n [] h = absurd (omega arith)
clear-Filled (suc o) n (x ∷ m) h =
    let (m', e, (l, f)) = clear-Filled o n m (omega arith) in
    let (rest, e₁, e₂) = opened (memset (drop o m) 0 n) m' e in
    (x ∷ m', rw e₁ (ap (λ t. some (x ∷ t)) e₂), (omega (arith, l), at m' f))
  where
    opened :
        (r : Option Bytes) (m' : Bytes)
        → (r >>= λ rest. some (take o m ++ rest)) ≡ some m'
        → (rest : Bytes) × (r ≡ some rest) × (take o m ++ rest ≡ m')
    opened none m' e = cc
    opened (some rest) m' e = (rest, refl, cc)

    at :
        (m' : Bytes)
        → ((k : ℕ)
            → get_elem? m' k ≡ (
                if leb o k && ltb k (o + n)
                then some (if k % 2 == 0 then 0 else 0)
                else get_elem? m k))
        → (k : ℕ)
        → get_elem? (x ∷ m') k ≡ (
            if leb (suc o) k && ltb k (suc o + n)
            then some (if k % 2 == 0 then 0 else 0)
            else get_elem? (x ∷ m) k)
    at m' f zero = ground arith
    at m' f (suc k) = ground (arith, f k)

-- One line up: every line but the last shows what the next one showed, and the last is empty.
pub scroll_lem :
    (color : ℕ) (m : Bytes)
    → length m ≡ page
    → (m' : Bytes) × (scroll color m ≡ some m')
      × (length m' ≡ page)
      × ((k : ℕ) → k < 160 * 24 → get_elem? m' k ≡ get_elem? m (k + 160))
      × ((k : ℕ)
          → 160 * 24 ≤ k
          → k < 160 * 25
          → get_elem? m' k ≡ some (if k % 2 == 0 then 0 else color))
unfolding scroll video_offset
scroll_lem color m h =
    let (m₁, e₁, (l₁, f₁)) = memmove-Copied 0 160 3840 m (omega arith) (omega arith) in
    let (m₂, e₂, f₂) = last_line m₁ (omega arith) in
    (
      m₂,
      rw (e₁, e₂) refl,
      omega (arith, f₂.0),
      λ k b. ground (arith, f₂.1 k, f₁ k),
      λ k a b. ground (arith, f₂.1 k),
    )
  where
    last_line :
        (m₁ : Bytes)
        → length m₁ ≡ page
        → (m₂ : Bytes) × (fill_rect 0 width 24 24 0 color m₁ ≡ some m₂)
          × Filled m₁ 3840 4000 0 color m₂
    last_line m₁ l =
        fill_rect-line 0 80 24 0 color m₁ (omega arith) (omega arith) (omega arith) (omega arith)
          (omega arith)
