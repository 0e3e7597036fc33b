-- ===== src/Terminal/Lines/Typing.antt =====
-- What is typed in canonical mode, as the complete lines and the line that is being typed.
use inwox.Base.{
  ℕ, ◌+◌, ◌<◌, ◌≡◌, refl, ap, ◌≢◌, ◌⊎◌, inl, inr, Bool, true, [], ◌∷◌, ◌++◌, arith, ◌==◌,
  if◌then◌else◌, Bool-cases, length, Bytes,
}
use inwox.Terminal.Buffer
use inwox.Terminal.Buffer.Queue.{
  Holds, write-Holds, backspace-Holds, backspace-empty, end_line-Holds, has_incomplete_line-eq,
}
use inwox.Terminal.Lines.{
  Termios, Terminal, Outcome, done, ◌then◌, is_echo, is_canonical, show, keep, echo, enter,
  end_line, end_of_file, erase_last, is_char, is_ignored, type_char, handle_canonical,
  handle_character,
}
use inwox.Vga.Screen.{unsigned_mod}
use inwox.Vga.Screen.Valid.{IsScreen, backspace-IsScreen, print_character_raw-IsScreen}

pub record Typed : Type 0 where
  pub lines : Bytes
  pub open_line : Bytes
  pub eofs : ℕ

unfoldable pub remove_last : Bytes → Bytes
remove_last [] = []
remove_last (c ∷ []) = []
remove_last (c ∷ (d ∷ cs)) = c ∷ remove_last (d ∷ cs)

unfoldable pub append_typed : ℕ → Typed → Typed
append_typed c x =
    if c == b'\n'
    then record x { lines = x.lines ++ (x.open_line ++ (c ∷ [])); open_line = [] }
    else record x { open_line = x.open_line ++ (c ∷ []) }

unfoldable pub close_typed : Typed → Typed
close_typed x =
    if length x.open_line == 0
    then record x { eofs = x.eofs + 1 }
    else record x { lines = x.lines ++ x.open_line; open_line = [] }

-- What a typed character does to the text.
unfoldable pub type_key : Termios → ℕ → Typed → Typed
type_key s c x =
    if is_char c s.eof
    then close_typed x
    else if is_char c s.eol
    then x
    else if is_char c s.erase
    then record x { open_line = remove_last x.open_line }
    else if is_ignored s c
    then x
    else append_typed c x

pub record IsTyped (s : Termios) (t : Terminal) (x : Typed) : Type 0 where
  pub held : Holds t.buffer x.lines x.open_line
  pub eofs : t.num_eof ≡ x.eofs
  pub screen : IsScreen t.screen
  pub termio : t.termio ≡ s

abbrev pub Reaches : Termios → Outcome → Typed → Type 0
Reaches s o x = (t' : Terminal) × (o ≡ done t') × IsTyped s t' x

last-cases : (cs : Bytes) → (cs ≡ []) ⊎ ((c : ℕ) × (cs ≡ remove_last cs ++ (c ∷ [])))
unfolding remove_last
last-cases [] = inl refl
last-cases (c ∷ []) = inr (c, refl)
last-cases (c ∷ (d ∷ cs)) = elim (last-cases (d ∷ cs)) [
  | inl e ↦ absurd (ground (arith, ap length e))
  | inr (l, e) ↦ inr (l, ap (λ r. c ∷ r) e)
]

echo-IsTyped :
    (s : Termios) (c : ℕ) (t : Terminal) (x : Typed) → IsTyped s t x → Reaches s (echo c t) x
unfolding echo show
echo-IsTyped s c t x h = elim (Bool-cases (is_echo t.termio)) [
  | inl e ↦
      let (v, p, ok) = print_character_raw-IsScreen c t.screen h.screen in
      (
        record t { screen = v },
        rw e (rw p refl),
        record { held = h.held; eofs = h.eofs; screen = ok; termio = h.termio },
      )
  | inr e ↦ (t, rw e refl, h)
]

enter-IsTyped :
    (s : Termios) (c : ℕ) (t : Terminal) (x : Typed)
    → IsTyped s t x
    → length x.lines + length x.open_line + 1 < 4096
    → Reaches s (enter c t) (record x { open_line = x.open_line ++ (c ∷ []) })
unfolding enter keep
enter-IsTyped s c t x h room =
    let (b, p, ok) = write-Holds c t.buffer x.lines x.open_line h.held room in
    (
      record t { buffer = b },
      rw p refl,
      record { held = ok; eofs = h.eofs; screen = h.screen; termio = h.termio },
    )

end_line-IsTyped :
    (s : Termios) (t : Terminal) (x : Typed)
    → IsTyped s t x
    → IsTyped s (end_line t) (record x { lines = x.lines ++ x.open_line; open_line = [] })
unfolding end_line
end_line-IsTyped s t x h = record {
  held = end_line-Holds t.buffer x.lines x.open_line h.held;
  eofs = h.eofs;
  screen = h.screen;
  termio = h.termio;
}

pub end_of_file-IsTyped :
    (s : Termios) (t : Terminal) (x : Typed)
    → IsTyped s t x
    → x.eofs + 1 < unsigned_mod
    → IsTyped s (end_of_file t) (close_typed x)
unfolding end_of_file close_typed
end_of_file-IsTyped s t x h few =
    rw (has_incomplete_line-eq t.buffer x.lines x.open_line h.held)
      (elim (Bool-cases (length x.open_line == 0)) [
        | inl e ↦ rw e record {
          held = h.held;
          eofs = ground (arith, h.eofs);
          screen = h.screen;
          termio = h.termio;
        }
        | inr e ↦ rw e (end_line-IsTyped s t x h)
      ])

-- The erasing of the last byte on a screen where the cursor is not at the origin.
erase_last-IsTyped :
    (s : Termios) (t : Terminal) (x : Typed)
    → IsTyped s t x
    → t.screen.x + t.screen.y ≢ 0
    → Reaches s (erase_last t) (record x { open_line = remove_last x.open_line })
unfolding erase_last show remove_last
erase_last-IsTyped s t x h away = elim (last-cases x.open_line) [
  | inl e ↦
      let none_left : Holds t.buffer x.lines [] = rw (← e) h.held in
      (
        t,
        rw (backspace-empty t.buffer x.lines none_left) refl,
        rw e record { held = none_left; eofs = h.eofs; screen = h.screen; termio = h.termio },
      )
  | inr (c, e) ↦
      let (erased, ok) =
        backspace-Holds t.buffer x.lines (remove_last x.open_line) c (rw (← e) h.held) in
      let b' = (Buffer.backspace t.buffer).1 in
      rw erased (elim (Bool-cases (is_echo t.termio)) [
        | inl on ↦
            let (v, p, good) = backspace-IsScreen t.screen h.screen away in
            (
              record t { buffer = b'; screen = v },
              rw on (rw p refl),
              record { held = ok; eofs = h.eofs; screen = good; termio = h.termio },
            )
        | inr off ↦ (
          record t { buffer = b' },
          rw off refl,
          record { held = ok; eofs = h.eofs; screen = h.screen; termio = h.termio },
        )
      ])
]

pub type_char-IsTyped :
    (s : Termios) (c : ℕ) (t : Terminal) (x : Typed)
    → IsTyped s t x
    → length x.lines + length x.open_line + 1 < 4096
    → Reaches s (type_char c t) (append_typed c x)
unfolding type_char append_typed ◌then◌
type_char-IsTyped s c t x h room =
    let (t1, e1, h1) = echo-IsTyped s c t x h in
    let (t2, e2, h2) = enter-IsTyped s c t1 x h1 room in
    rw e1 (
      rw e2 (elim (Bool-cases (c == b'\n')) [
        | inl n ↦ (end_line t2, rw n refl, rw n (end_line-IsTyped s t2 _ h2))
        | inr n ↦ (t2, rw n refl, rw n h2)
      ]))

-- In canonical mode a typed character does what `type_key` says to the text that is read later, and
-- the screen stays well-formed: when fewer than 4095 bytes are held, the end-of-file count does not
-- overflow, and, if it is the erase character, the cursor is not at the screen's origin.
pub handle_character-type_key :
    (s : Termios) (c : ℕ) (t : Terminal) (x : Typed)
    → IsTyped s t x
    → is_canonical s ≡ true
    → length x.lines + length x.open_line + 1 < 4096
    → x.eofs + 1 < unsigned_mod
    → (is_char c s.erase ≡ true → t.screen.x + t.screen.y ≢ 0)
    → (t' : Terminal) × (handle_character c t ≡ done t') × IsTyped s t' (type_key s c x)
unfolding handle_character handle_canonical type_key
handle_character-type_key s c t x h canonical room few away =
    let same : (f : Termios → Bool) → f t.termio ≡ f s = λ f. ap f h.termio in
    rw
      (
        same is_canonical,
        canonical,
        same (λ q. is_char c q.eof),
        same (λ q. is_char c q.eol),
        same (λ q. is_char c q.erase),
        same (λ q. is_ignored q c),
      )
      (elim (Bool-cases (is_char c s.eof)) [
        | inl e ↦ rw e (end_of_file t, refl, end_of_file-IsTyped s t x h few)
        | inr e ↦ rw e (elim (Bool-cases (is_char c s.eol)) [
          | inl e' ↦ rw e' (t, refl, h)
          | inr e' ↦ rw e' (elim (Bool-cases (is_char c s.erase)) [
            | inl k ↦ rw k (erase_last-IsTyped s t x h (away k))
            | inr k ↦ rw k (elim (Bool-cases (is_ignored s c)) [
              | inl i ↦ rw i (t, refl, h)
              | inr i ↦ rw i (type_char-IsTyped s c t x h room)
            ])
          ])
        ])
      ])
