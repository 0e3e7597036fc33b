-- ===== src/Terminal/Lines/Session.antt =====
-- A line that is typed and the read that waits for it, and an end of file that is typed.
use inwox.Base.{
  ℕ, zero, suc, ◌+◌, ◌-◌, ◌<◌, ◌≡◌, refl, ap, ◌∙◌, ◌≢◌, Bool, true, false, [], ◌∷◌, ◌++◌,
  append_assoc, arith, ◌==◌, if◌then◌else◌, length, All, length-append, Bytes,
}
use inwox.Terminal.Lines.{
  Termios, Terminal, Outcome, done, ◌then◌, returned, waits, is_canonical, is_char, is_ignored,
  is_read_over, end_of_file, handle_canonical, handle_character, read_on, read,
}
use inwox.Terminal.Lines.Typing.{
  Typed, IsTyped, Reaches, append_typed, close_typed, type_char-IsTyped, end_of_file-IsTyped,
}
use inwox.Terminal.Lines.Reading.{
  line_of, after_line, read_on-empty, read-line_of, read-end_of_file,
}

-- The key events of a text, one after the other.
unfoldable pub type_all : Bytes → Terminal → Outcome
type_all [] t = done t
type_all (c ∷ cs) t = handle_character c t then type_all cs

-- A character without a special meaning.
abbrev pub IsPlain : Termios → ℕ → Type 0
IsPlain s c =
    (is_char c s.eof ≡ false)
    × (is_char c s.eol ≡ false)
    × (is_char c s.erase ≡ false)
    × (is_ignored s c ≡ false)

handle_character-IsPlain :
    (s : Termios) (c : ℕ) (t : Terminal) (x : Typed)
    → IsTyped s t x
    → is_canonical s ≡ true
    → IsPlain s c
    → length x.lines + length x.open_line + 1 < 4096
    → Reaches s (handle_character c t) (append_typed c x)
unfolding handle_character handle_canonical
handle_character-IsPlain s c t x h canonical p room =
    let same : (f : Termios → Bool) → f t.termio ≡ f s = λ f. ap f h.termio in
    rw
      (
        same is_canonical,
        canonical,
        same (λ q. is_char c q.eof),
        same (λ q. is_char c q.eol),
        same (λ q. is_char c q.erase),
        same (λ q. is_ignored q c),
      )
      (rw (p.0, p.1, p.2, p.3) (type_char-IsTyped s c t x h room))

with_texts : (s : Termios) (t : Terminal) (x y : Typed) → IsTyped s t x → x ≡ y → IsTyped s t y
with_texts s t x y h e = rw (← e) h

type_all-line :
    (s : Termios) (cs line : Bytes) (t : Terminal)
    → IsTyped s t (record { lines = []; open_line = line; eofs = 0 })
    → is_canonical s ≡ true
    → All (λ c. IsPlain s c × (c ≢ b'\n')) cs
    → IsPlain s b'\n'
    → length line + length cs + 1 < 4096
    → Reaches s
        (type_all (cs ++ (b'\n' ∷ [])) t)
        (record { lines = line ++ (cs ++ (b'\n' ∷ [])); open_line = []; eofs = 0 })
unfolding type_all append_typed ◌then◌
type_all-line s [] line t h canonical plain newline room =
    let (t', e, h') = handle_character-IsPlain s b'\n' t _ h canonical newline (omega arith) in
    (t', rw e refl, with_texts s t' _ _ h' refl)
type_all-line s (c ∷ cs) line t h canonical ((p, ne), plain) newline room =
    let other : (c == b'\n') ≡ false = ground arith in
    let (t1, e1, h1) = handle_character-IsPlain s c t _ h canonical p (omega arith) in
    let (t2, e2, h2) =
      type_all-line s cs (line ++ (c ∷ [])) t1 (with_texts s t1 _ _ h1 (rw other refl)) canonical
        plain newline (omega (arith, length-append line (c ∷ []))) in
    (
      t2,
      rw e1 e2,
      with_texts s t2 _ _ h2 (rw (append_assoc line (c ∷ []) (cs ++ (b'\n' ∷ []))) refl),
    )

line_of-whole :
    (cs : Bytes) (n : ℕ)
    → All (λ c. c ≢ b'\n') cs
    → length cs < n
    → (line_of n (cs ++ (b'\n' ∷ [])) ≡ cs ++ (b'\n' ∷ []))
      × (after_line n (cs ++ (b'\n' ∷ [])) ≡ [])
unfolding line_of after_line
line_of-whole cs zero plain h = absurd (omega arith)
line_of-whole [] (suc n) plain h = (refl, refl)
line_of-whole (c ∷ cs) (suc n) (ne, plain) h =
    let other : (c == b'\n') ≡ false = ground arith in
    let (e, f) = line_of-whole cs n plain (omega arith) in rw other (ap (λ r. c ∷ r) e, f)

plain-lines :
    (s : Termios) (cs : Bytes) → All (λ c. IsPlain s c × (c ≢ b'\n')) cs → All (λ c. c ≢ b'\n') cs
plain-lines s [] h = tt
plain-lines s (c ∷ cs) h = (h.0.1, plain-lines s cs h.1)

-- In canonical mode with nothing typed, a read waits; when a line of plain characters of at most
-- 4093 bytes and a newline are typed, the read goes on and returns this line if it asks for more
-- bytes than it has before the newline, and then nothing typed is left.
pub read-type_all :
    (s : Termios) (cs : Bytes) (t : Terminal) (size : ℕ)
    → IsTyped s t (record { lines = []; open_line = []; eofs = 0 })
    → is_canonical s ≡ true
    → All (λ c. IsPlain s c × (c ≢ b'\n')) cs
    → IsPlain s b'\n'
    → length cs + 1 < 4096
    → length cs < size
    → (read size t ≡ waits size [] t)
      × ((t1 t2 : Terminal) × (type_all (cs ++ (b'\n' ∷ [])) t ≡ done t1)
          × (read_on size [] t1 ≡ returned (cs ++ (b'\n' ∷ [])) t2)
          × IsTyped s t2 (record { lines = []; open_line = []; eofs = 0 }))
unfolding read is_read_over
read-type_all s cs t zero h canonical plain newline room more = absurd (omega arith)
read-type_all s cs t (suc n) h canonical plain newline room more =
    let (t1, e1, h1) = type_all-line s cs [] t h canonical plain newline (omega arith) in
    let l = length-append cs (b'\n' ∷ []) in
    let (t2, e2, h2) =
      read-line_of s t1 (cs ++ (b'\n' ∷ [])) [] (suc n) h1 canonical (omega (arith, l)) in
    let (whole, rest) = line_of-whole cs (suc n) (plain-lines s cs plain) more in
    (
      read_on-empty s t [] n [] h ∙ rw canonical refl,
      (t1, t2, e1, e2 ∙ ap (λ r. returned r t2) whole, with_texts s t2 _ _ h2 (rw rest refl)),
    )

handle_character-end_of_file :
    (s : Termios) (c : ℕ) (t : Terminal) (lines : Bytes)
    → IsTyped s t (record { lines = lines; open_line = []; eofs = 0 })
    → is_canonical s ≡ true
    → is_char c s.eof ≡ true
    → Reaches s (handle_character c t) (record { lines = lines; open_line = []; eofs = 1 })
unfolding handle_character handle_canonical close_typed
handle_character-end_of_file s c t lines h canonical eof =
    let same : (f : Termios → Bool) → f t.termio ≡ f s = λ f. ap f h.termio in
    rw (same is_canonical, canonical, same (λ q. is_char c q.eof), eof)
      (end_of_file t, refl, end_of_file-IsTyped s t _ h (omega arith))

-- The end-of-file character, typed in canonical mode behind complete lines that are not yet read,
-- comes before them: the next read of one byte or more returns no byte, and only the read after
-- that returns the first of the lines, up to its size.
pub read-handle_character :
    (s : Termios) (c : ℕ) (t : Terminal) (lines : Bytes) (size : ℕ)
    → IsTyped s t (record { lines = lines; open_line = []; eofs = 0 })
    → is_canonical s ≡ true
    → is_char c s.eof ≡ true
    → 0 < length lines
    → 0 < size
    → (t1 t2 t3 : Terminal) × (handle_character c t ≡ done t1)
      × (read size t1 ≡ returned [] t2)
      × (read size t2 ≡ returned (line_of size lines) t3)
      × IsTyped s t3 (record { lines = after_line size lines; open_line = []; eofs = 0 })
read-handle_character s c t lines size h canonical eof some_line more =
    let (t1, e1, h1) = handle_character-end_of_file s c t lines h canonical eof in
    let t2 : Terminal = record t1 { num_eof = t1.num_eof - 1 } in
    let h2 : IsTyped s t2 (record { lines = lines; open_line = []; eofs = 0 }) = record {
      held = h1.held;
      eofs = omega (arith, h1.eofs);
      screen = h1.screen;
      termio = h1.termio;
    } in
    let (t3, e3, h3) = read-line_of s t2 lines [] size h2 canonical some_line in
    (t1, t2, t3, e1, read-end_of_file t1 size more (omega (arith, h1.eofs)), e3, h3)
