-- ===== src/Terminal/Lines/Reading.antt =====
-- What a read returns: at most one line in canonical mode, and what there is in the other.
use inwox.Base.{
  ℕ, zero, suc, ◌+◌, ◌-◌, ◌≤◌, ◌<◌, ◌≡◌, refl, sym, ap, ◌∙◌, ◌⊎◌, inl, inr, true, false, ◌&&◌, ◌||◌,
  [], ◌∷◌, ◌++◌, append-nil, append_assoc, arith, ltb, leb, ◌==◌, if◌then◌else◌, Bool-cases, length,
  take, drop, length-append, Bytes,
}
use inwox.Terminal.Buffer.{available}
use inwox.Terminal.Buffer.Queue.{read-Holds, available-empty, available-cons}
use inwox.Terminal.Lines.{
  Termios, Terminal, ReadResult, returned, waits, is_canonical, read_turn, is_read_over, read_on,
  read,
}
use inwox.Terminal.Lines.Typing.{Typed, IsTyped}

-- The first line with its newline, or its first `n` bytes.
unfoldable pub line_of : ℕ → Bytes → Bytes
line_of zero cs = []
line_of (suc n) [] = []
line_of (suc n) (c ∷ cs) = if c == b'\n' then c ∷ [] else c ∷ line_of n cs

unfoldable pub after_line : ℕ → Bytes → Bytes
after_line zero cs = cs
after_line (suc n) [] = []
after_line (suc n) (c ∷ cs) = if c == b'\n' then cs else after_line n cs

pub line_of-after_line : (n : ℕ) (cs : Bytes) → line_of n cs ++ after_line n cs ≡ cs
unfolding line_of after_line
line_of-after_line zero cs = refl
line_of-after_line (suc n) [] = refl
line_of-after_line (suc n) (c ∷ cs) = elim (Bool-cases (c == b'\n')) [
  | inl e ↦ rw e refl
  | inr e ↦ rw e (ap (λ r. c ∷ r) (line_of-after_line n cs))
]

abbrev pub Returns : Termios → ReadResult → Bytes → Typed → Type 0
Returns s r got x = (t' : Terminal) × (r ≡ returned got t') × IsTyped s t' x

-- One turn of the loop takes the first complete byte.
read_turn-IsTyped :
    (s : Termios) (t : Terminal) (c : ℕ) (lines line : Bytes) (n : ℕ) (got : Bytes)
    → IsTyped s t (record { lines = c ∷ lines; open_line = line; eofs = 0 })
    → (t' : Terminal) × IsTyped s t' (record { lines = lines; open_line = line; eofs = 0 })
      × (read_on (suc n) got t ≡ (
          if is_canonical s && c == b'\n'
          then returned (got ++ (c ∷ [])) t'
          else read_on n (got ++ (c ∷ [])) t'))
unfolding read_on read_turn
read_turn-IsTyped s t c lines line n got h =
    let (b, e, ok) = read-Holds t.buffer c lines line h.held in
    let some_left = available-cons t.buffer c lines line h.held in
    (
      record t { buffer = b },
      record { held = ok; eofs = h.eofs; screen = h.screen; termio = h.termio },
      rw (some_left, h.eofs, e, ap is_canonical h.termio) refl,
    )

pub read_on-empty :
    (s : Termios) (t : Terminal) (line : Bytes) (n : ℕ) (got : Bytes)
    → IsTyped s t (record { lines = []; open_line = line; eofs = 0 })
    → read_on (suc n) got t
      ≡ (if is_read_over s (length got) then returned got t else waits (suc n) got t)
unfolding read_on
read_on-empty s t line n got h =
    rw
      (available-empty t.buffer line h.held, h.eofs, ap (λ q. is_read_over q (length got)) h.termio)
      refl

snoc_append : (got : Bytes) (c : ℕ) (cs : Bytes) → (got ++ (c ∷ [])) ++ cs ≡ got ++ (c ∷ cs)
snoc_append got c cs = append_assoc got (c ∷ []) cs

read_on-line :
    (s : Termios) (t : Terminal) (lines line : Bytes) (n : ℕ) (got : Bytes)
    → IsTyped s t (record { lines = lines; open_line = line; eofs = 0 })
    → is_canonical s ≡ true
    → 0 < length got + length lines
    → Returns s
        (read_on n got t)
        (got ++ line_of n lines)
        (record { lines = after_line n lines; open_line = line; eofs = 0 })
unfolding read_on line_of after_line is_read_over
read_on-line s t lines line zero got h canonical some_byte =
    (t, ap (λ r. returned r t) (sym (append-nil got)), h)
read_on-line s t [] line (suc n) got h canonical some_byte =
    let over : ltb 0 (length got) ≡ true = ground arith in
    (t, read_on-empty s t line n got h ∙ rw (canonical, over, append-nil got) refl, h)
read_on-line s t (c ∷ lines) line (suc n) got h canonical some_byte =
    let (t', h', e) = read_turn-IsTyped s t c lines line n got h in
    elim (Bool-cases (c == b'\n')) [
      | inl newline ↦ rw (newline) (t', e ∙ rw (canonical, newline) refl, h')
      | inr other ↦
          let (t2, e2, h2) =
            read_on-line s t' lines line n (got ++ (c ∷ [])) h' canonical
              (omega (arith, length-append got (c ∷ []))) in
          rw other (
            t2,
            e
                ∙ rw (canonical, other)
                    (e2 ∙ ap (λ r. returned r t2) (snoc_append got c (line_of n lines))),
            h2,
          )
    ]

-- In canonical mode, with a complete byte typed and no end of file, a read returns the first line, or
-- as much of it as is asked for, and what it does not return is left for the next one.
pub read-line_of :
    (s : Termios) (t : Terminal) (lines line : Bytes) (size : ℕ)
    → IsTyped s t (record { lines = lines; open_line = line; eofs = 0 })
    → is_canonical s ≡ true
    → 0 < length lines
    → (t' : Terminal) × (read size t ≡ returned (line_of size lines) t')
      × IsTyped s t' (record { lines = after_line size lines; open_line = line; eofs = 0 })
unfolding read
read-line_of s t lines line size h canonical some_byte =
    read_on-line s t lines line size [] h canonical (omega arith)

pub read-end_of_file :
    (t : Terminal) (size : ℕ)
    → 0 < size
    → 0 < t.num_eof
    → read size t ≡ returned [] (record t { num_eof = t.num_eof - 1 })
unfolding read read_on
read-end_of_file t zero h eof = absurd (omega arith)
read-end_of_file t (suc n) h eof =
    let pending : (t.num_eof == 0) ≡ false = ground arith in
    let more : ltb 0 t.num_eof ≡ true = ground arith in
    elim (Bool-cases (available t.buffer == 0)) [
      | inl e ↦ rw (e, pending, more) refl
      | inr e ↦ rw (e, more) refl
    ]

read_on-raw :
    (s : Termios) (t : Terminal) (lines line : Bytes) (n : ℕ) (got : Bytes)
    → IsTyped s t (record { lines = lines; open_line = line; eofs = 0 })
    → is_canonical s ≡ false
    → n ≤ length lines ⊎ s.vmin ≤ length got + length lines
    → Returns s
        (read_on n got t)
        (got ++ take n lines)
        (record { lines = drop n lines; open_line = line; eofs = 0 })
unfolding read_on is_read_over
read_on-raw s t lines line zero got h raw enough =
    (t, ap (λ r. returned r t) (sym (append-nil got)), h)
read_on-raw s t [] line (suc n) got h raw enough =
    let over : leb s.vmin (length got) ≡ true = ground (arith, enough) in
    (t, read_on-empty s t line n got h ∙ rw (raw, over, append-nil got) refl, h)
read_on-raw s t (c ∷ lines) line (suc n) got h raw enough =
    let (t', h', e) = read_turn-IsTyped s t c lines line n got h in
    let (t2, e2, h2) =
      read_on-raw s t' lines line n (got ++ (c ∷ [])) h' raw
        (ground (arith, enough, length-append got (c ∷ []))) in
    (t2, e ∙ rw raw (e2 ∙ ap (λ r. returned r t2) (snoc_append got c (take n lines))), h2)

read_on-starved :
    (s : Termios) (t : Terminal) (lines line : Bytes) (n : ℕ) (got : Bytes)
    → IsTyped s t (record { lines = lines; open_line = line; eofs = 0 })
    → is_canonical s ≡ false
    → length lines < n
    → length got + length lines < s.vmin
    → (t' : Terminal) × (read_on n got t ≡ waits (n - length lines) (got ++ lines) t')
      × IsTyped s t' (record { lines = []; open_line = line; eofs = 0 })
unfolding is_read_over
read_on-starved s t lines line zero got h raw more few = absurd (omega arith)
read_on-starved s t [] line (suc n) got h raw more few =
    let under : leb s.vmin (length got) ≡ false = ground arith in
    let all_left : suc n - 0 ≡ suc n = omega arith in
    (t, read_on-empty s t line n got h ∙ rw (raw, under, append-nil got, all_left) refl, h)
read_on-starved s t (c ∷ lines) line (suc n) got h raw more few =
    let (t', h', e) = read_turn-IsTyped s t c lines line n got h in
    let (t2, e2, h2) =
      read_on-starved s t' lines line n (got ++ (c ∷ [])) h' raw (omega arith)
        (omega (arith, length-append got (c ∷ []))) in
    let left : suc n - suc (length lines) ≡ n - length lines = omega arith in
    (t2, e ∙ rw raw (e2 ∙ rw (snoc_append got c lines, left) refl), h2)

drop-all : (n : ℕ) (cs : Bytes) → length cs ≤ n → drop n cs ≡ []
drop-all zero [] h = refl
drop-all zero (c ∷ cs) h = absurd (omega arith)
drop-all (suc n) [] h = refl
drop-all (suc n) (c ∷ cs) h = drop-all n cs (omega arith)

-- Outside canonical mode, with no end of file pending: a read of `size` bytes returns the bytes that
-- are there, `size` at most, when there are `size` of them or VMIN; and otherwise it takes them all
-- and waits for the rest.
pub read-raw :
    (s : Termios) (t : Terminal) (lines line : Bytes) (size : ℕ)
    → IsTyped s t (record { lines = lines; open_line = line; eofs = 0 })
    → is_canonical s ≡ false
    → (t' : Terminal) × (read size t ≡ (
        if leb size (length lines) || leb s.vmin (length lines)
        then returned (take size lines) t'
        else waits (size - length lines) lines t'))
      × IsTyped s t' (record { lines = drop size lines; open_line = line; eofs = 0 })
unfolding read
read-raw s t lines line size h raw =
    elim (Bool-cases (leb size (length lines) || leb s.vmin (length lines))) [
      | inl e ↦ rw e (read_on-raw s t lines line size [] h raw (ground (arith, e)))
      | inr e ↦
          let all : drop size lines ≡ [] = drop-all size lines (ground (arith, e)) in
          rw (e, all)
            (read_on-starved s t lines line size [] h raw (ground (arith, e)) (ground (arith, e)))
    ]
