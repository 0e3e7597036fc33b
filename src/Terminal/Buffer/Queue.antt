-- ===== src/Terminal/Buffer/Queue.antt =====
-- The buffer as two texts: the lines that can be read, and the line that is being typed.
use inwox.Base.{
  ℕ, ◌+◌, ◌-◌, ◌%◌, ◌<◌, ◌≡◌, refl, ◌∙◌, ◌≢◌, inl, inr, true, false, not, none, some, [], ◌∷◌, ◌++◌,
  append-nil, append_assoc, arith, ◌==◌, Bool-cases, length, get_elem?, set, length-append,
  length-set, Bytes,
}
use inwox.Str.Move.{get_elem?-set}
use inwox.Terminal.Buffer.{
  buffer_size, Buffer, available, backspace, reset, write, read, end_line, has_incomplete_line,
}

-- The bytes from index `r` on, going round.
abbrev Window : Bytes → ℕ → Bytes → Type 0
Window m r [] = Unit
Window m r (x ∷ xs) = (get_elem? m r ≡ some x) × Window m ((r + 1) % buffer_size) xs

-- The buffer holds the complete lines `done`, and behind them the open line `line`.
pub record Holds (b : Buffer) (done line : Bytes) : Type 0 where
  pub size : length b.circular ≡ buffer_size
  pub start : b.read_index < buffer_size
  pub middle : b.line_index ≡ (b.read_index + length done) % buffer_size
  pub end : b.write_index ≡ (b.read_index + length done + length line) % buffer_size
  pub room : length done + length line < buffer_size
  pub bytes : Window b.circular b.read_index (done ++ line)

-- A byte that is written behind the window makes it longer.
Window-set :
    (m : Bytes) (r c w : ℕ) (xs : Bytes)
    → length m ≡ buffer_size
    → r < buffer_size
    → length xs + 1 < buffer_size
    → w ≡ (r + length xs) % buffer_size
    → Window m r xs
    → Window (set m w c) r (xs ++ (c ∷ []))
Window-set m r c w [] l s b e h = (get_elem?-set m w c r (omega arith) ∙ ground arith, tt)
Window-set m r c w (x ∷ xs) l s b e h = (
  get_elem?-set m w c r (omega arith) ∙ ground (arith, h.0),
  Window-set m ((r + 1) % buffer_size) c w xs l (omega arith) (omega arith) (omega arith) h.1,
)

Window-append : (m : Bytes) (r : ℕ) (xs ys : Bytes) → Window m r (xs ++ ys) → Window m r xs
Window-append m r [] ys h = tt
Window-append m r (x ∷ xs) ys h = (h.0, Window-append m ((r + 1) % buffer_size) xs ys h.1)

-- A byte is put at the end of the open line, as long as 4094 bytes at most are held.
pub write-Holds :
    (c : ℕ) (b : Buffer) (done line : Bytes)
    → Holds b done line
    → length done + length line + 1 < buffer_size
    → (b' : Buffer) × (write c b ≡ some b') × Holds b' done (line ++ (c ∷ []))
unfolding write
write-Holds c b done line h room =
    let free : ((b.write_index + 1) % buffer_size == b.read_index) ≡ false =
      ground (arith, h.end, h.start) in
    let all = length-append done line in
    let more = length-append line (c ∷ []) in
    (
      record b {
        circular = set b.circular b.write_index c;
        write_index = (b.write_index + 1) % buffer_size;
      },
      rw free refl,
      record {
        size = length-set b.circular b.write_index c ∙ h.size;
        start = h.start;
        middle = h.middle;
        end = omega (arith, h.end, more);
        room = omega (arith, more);
        bytes = rw (← append_assoc done line (c ∷ [])) (
            Window-set b.circular b.read_index c b.write_index (done ++ line) h.size h.start
              (omega arith) (omega (arith, h.end)) h.bytes);
      },
    )

-- With 4095 bytes held it waits for ever.
pub write-full :
    (c : ℕ) (b : Buffer) (done line : Bytes)
    → Holds b done line
    → length done + length line + 1 ≡ buffer_size
    → write c b ≡ none
unfolding write
write-full c b done line h full =
    let taken : ((b.write_index + 1) % buffer_size == b.read_index) ≡ true =
      ground (arith, h.end, h.start) in
    rw taken refl

back_index :
    (r n w : ℕ)
    → r < buffer_size
    → w ≡ (r + (n + 1)) % buffer_size
    → n + 1 < buffer_size
    → (w ≢ 0 → (w - 1) % buffer_size ≡ (r + n) % buffer_size)
      × (w ≡ 0 → buffer_size - 1 ≡ (r + n) % buffer_size)
back_index r n w s e l = (λ h. omega arith, λ h. omega arith)

shortened :
    (b : Buffer) (done line : Bytes) (c w : ℕ)
    → Holds b done (line ++ (c ∷ []))
    → w ≡ (b.read_index + length done + length line) % buffer_size
    → Holds (record b { write_index = w }) done line
shortened b done line c w h e = record {
  size = h.size;
  start = h.start;
  middle = h.middle;
  end = e;
  room = omega (arith, h.room, length-append line (c ∷ []));
  bytes =
      Window-append b.circular b.read_index (done ++ line) (c ∷ [])
        (rw (append_assoc done line (c ∷ [])) h.bytes);
}

-- A backspace takes the last byte of the open line, and nothing of the complete lines.
pub backspace-Holds :
    (b : Buffer) (done line : Bytes) (c : ℕ)
    → Holds b done (line ++ (c ∷ []))
    → ((backspace b).0 ≡ true) × Holds (backspace b).1 done line
unfolding backspace
backspace-Holds b done line c h =
    let more = length-append line (c ∷ []) in
    let open_line : (b.line_index == b.write_index) ≡ false =
      ground (arith, h.middle, h.end, h.room, more) in
    let back =
      back_index b.read_index (length done + length line) b.write_index h.start
        (omega (arith, h.end, more)) (omega (arith, h.room, more)) in
    elim (Bool-cases (b.write_index == 0)) [
      | inl z ↦
          rw open_line
            (rw z (refl, shortened b done line c (buffer_size - 1) h (ground (arith, back.1, z))))
      | inr n ↦ rw open_line (
          rw n (
            refl,
            shortened b done line c ((b.write_index - 1) % buffer_size) h
                (ground (arith, back.0, n)),
          ))
    ]

pub backspace-empty : (b : Buffer) (done : Bytes) → Holds b done [] → backspace b ≡ (false, b)
unfolding backspace
backspace-empty b done h =
    let same : (b.line_index == b.write_index) ≡ true = ground (arith, h.middle, h.end) in
    rw same refl

pub end_line-Holds :
    (b : Buffer) (done line : Bytes) → Holds b done line → Holds (end_line b) (done ++ line) []
unfolding end_line
end_line-Holds b done line h =
    let all = length-append done line in
    record {
      size = h.size;
      start = h.start;
      middle = omega (arith, h.end, all);
      end = omega (arith, h.end, all);
      room = omega (arith, h.room, all);
      bytes = rw (append-nil (done ++ line)) h.bytes;
    }

-- The first complete byte is read.
pub read-Holds :
    (b : Buffer) (c : ℕ) (done line : Bytes)
    → Holds b (c ∷ done) line
    → (b' : Buffer) × (read b ≡ some (c, b')) × Holds b' done line
unfolding read
read-Holds b c done line h = (
  record b { read_index = (b.read_index + 1) % buffer_size },
  rw (h.bytes.0) refl,
  record {
    size = h.size;
    start = omega arith;
    middle = omega (arith, h.middle);
    end = omega (arith, h.end);
    room = omega (arith, h.room);
    bytes = h.bytes.1;
  },
)

pub available-empty : (b : Buffer) (line : Bytes) → Holds b [] line → (available b == 0) ≡ true
unfolding available
available-empty b line h = ground (arith, h.middle, h.start)

pub available-cons :
    (b : Buffer) (c : ℕ) (done line : Bytes) → Holds b (c ∷ done) line → (available b == 0) ≡ false
unfolding available
available-cons b c done line h = ground (arith, h.middle, h.start, h.room)

pub has_incomplete_line-eq :
    (b : Buffer) (done line : Bytes)
    → Holds b done line
    → has_incomplete_line b ≡ not (length line == 0)
unfolding has_incomplete_line
has_incomplete_line-eq b done line h = ground (arith, h.middle, h.end, h.start, h.room)

pub reset-Holds : (b : Buffer) (done line : Bytes) → Holds b done line → Holds (reset b) [] []
unfolding reset
reset-Holds b done line h = record {
  size = h.size;
  start = omega arith;
  middle = omega arith;
  end = omega arith;
  room = omega arith;
  bytes = tt;
}
