-- ===== src/Number/Value.antt =====
-- The value of a run of digits, and what the digit loops make of it.
use inwox.Base.{
  ℕ, ◌+◌, ◌-◌, ◌*◌, ◌%◌, ◌^◌, ◌≤◌, ◌<◌, ◌≡◌, refl, ap, ◌∙◌, ◌⊎◌, inl, inr, Bool, true, false, not,
  ◌&&◌, ◌||◌, none, some, [], ◌∷◌, ◌++◌, arith, ltb, leb, ◌==◌, if◌then◌else◌, length, set, All,
  Bytes,
}
use inwox.Number.{
  word_mod, subtract, multiply, get_digit_value, Scan, put_digit, add_digit, step, scan_digits,
  skip_space, read_sign, detect_base, skip_prefix, finish, empty_scan, parse, convert, strtol,
  strtoul,
}
use inwox.Str.{isspace}

-- The value that the digits of a text stand for, behind digits of value `n`.
unfoldable pub number : Bool → ℕ → ℕ → Bytes → ℕ
number signed base n [] = n
number signed base n (c ∷ cs) = number signed base (n * base + get_digit_value signed c) cs

-- Bytes that are digits in the base.
abbrev pub AllDigits : Bool → ℕ → Bytes → Type 0
AllDigits signed base = All (λ c. get_digit_value signed c < base)

-- What the loop of strtoul holds behind digits of value `n`: `n` itself, or `overflow`, and then `n`
-- is too large.
abbrev Holds : ℕ → Scan → Type 0
Holds n scan =
    (scan.result < word_mod)
    × (((scan.overflow ≡ true) × (word_mod ≤ n)) ⊎ ((scan.overflow ≡ false) × (scan.result ≡ n)))

-- One digit, where `p` is the product with the base.
adds :
    (p d : ℕ) (before : Bool)
    → d < 2 ^ 32
    → let r =
        put_digit false d
          ((2 ^ 32 - 1 + word_mod - p % word_mod) % word_mod)
          (p % word_mod)
          ((p % word_mod + d) % word_mod)
          (before || leb word_mod p) in
      (r.0 < word_mod)
      × (((before ≡ true) → r.1 ≡ true)
          × ((before ≡ false)
              → ((r.1 ≡ true) × (word_mod ≤ p + d)) ⊎ ((r.1 ≡ false) × (r.0 ≡ p + d))))
unfolding put_digit
adds p d true h = (ground arith, (λ _. ground arith, λ e. ground arith))
adds p d false h = (ground arith, (λ e. ground arith, λ _. ground arith))

step-Holds :
    (base d n : ℕ) (scan : Scan)
    → 1 ≤ base
    → d < 2 ^ 32
    → Holds n scan
    → (scan' : Scan) × (step false false base d scan ≡ some scan')
      × Holds (n * base + d) scan'
      × (scan'.count ≡ scan.count + 1)
      × (scan'.number_found ≡ true)
unfolding step multiply add_digit subtract
step-Holds base d n scan one h (b, inl (over, big)) =
    let grows : n ≤ n * base = grind arith in
    let (small, (set, _)) = adds (scan.result * base) d scan.overflow h in
    (_, refl, (small, inl (set over, omega arith)), refl, refl)
step-Holds base d n scan one h (b, inr (fine, e)) =
    let same : scan.result * base ≡ n * base = ap (λ k. k * base) e in
    let (small, (_, other)) = adds (scan.result * base) d scan.overflow h in
    (
      _,
      refl,
      (
        small,
        elim (other fine) [
          | inl (t, big) ↦ inl (t, omega arith)
          | inr (t, r) ↦ inr (t, omega arith)
        ],
      ),
      refl,
      refl,
    )

-- The loop reads all the digits and stops at the first byte that is none.
scan_digits-Holds :
    (base : ℕ) (cs : Bytes) (c : ℕ) (rest : Bytes) (n : ℕ) (scan : Scan)
    → 1 ≤ base
    → base ≤ 36
    → AllDigits false base cs
    → base ≤ get_digit_value false c
    → Holds n scan
    → (scan' : Scan) × (scan_digits false false base (cs ++ (c ∷ rest)) scan ≡ some scan')
      × Holds (number false base n cs) scan'
      × (scan'.count ≡ scan.count + length cs)
      × (scan'.number_found ≡ (scan.number_found || not (length cs == 0)))
unfolding scan_digits number
scan_digits-Holds base [] c rest n scan one le ds stop h =
    let ends : leb base (get_digit_value false c) ≡ true = ground arith in
    (scan, rw ends refl, h, omega arith, ground arith)
scan_digits-Holds base (x ∷ cs) c rest n scan one le ds stop h =
    let d = get_digit_value false x in
    let (scan₁, e₁, h₁, k₁, f₁) = step-Holds base d n scan one (omega (arith, ds.0)) h in
    let (scan₂, e₂, h₂, k₂, f₂) =
      scan_digits-Holds base cs c rest (n * base + d) scan₁ one le ds.1 stop h₁ in
    let goes : leb base d ≡ false = ground arith in
    (scan₂, rw (goes, e₁, e₂) refl, h₂, omega arith, ground arith)

pub decimal_bounds : (c : ℕ) (signed : Bool) → get_digit_value signed c < 10 → (48 ≤ c) × (c ≤ 57)
unfolding get_digit_value
decimal_bounds c true h = ground arith
decimal_bounds c false h = ground arith

-- Bytes that are all white space.
abbrev pub Blank : Bytes → Type 0
Blank = All (λ c. isspace c ≡ true)

skip_space-Blank :
    (ws : Bytes) (n c : ℕ) (rest : Bytes)
    → Blank ws
    → isspace c ≡ false
    → skip_space n (ws ++ (c ∷ rest)) ≡ some (n + length ws, c ∷ rest)
unfolding skip_space
skip_space-Blank [] n c rest b h = rw h (ap (λ k. some (k, c ∷ rest)) (omega arith))
skip_space-Blank (w ∷ ws) n c rest b h =
    rw (b.0) (skip_space-Blank ws (n + 1) c rest b.1 h ∙ ap (λ k. some (k, c ∷ rest)) (omega arith))

abbrev pub sign_of : Bool → Bytes
sign_of minus = if minus then b'-' ∷ [] else []

-- The white space and the sign are read.
pub read_sign-decimal :
    (ws : Bytes) (minus : Bool) (x : ℕ) (str : Bytes)
    → Blank ws
    → (48 ≤ x) × (x ≤ 57)
    → (skip_space 0 (ws ++ (sign_of minus ++ (x ∷ str)))
        ≡ some (length ws, sign_of minus ++ (x ∷ str)))
      × (read_sign (sign_of minus ++ (x ∷ str)) ≡ some (minus, length (sign_of minus), x ∷ str))
unfolding read_sign isspace
read_sign-decimal ws true x str b h = (
  skip_space-Blank ws 0 b'-' (x ∷ str) b refl ∙ ap (λ k. some (k, b'-' ∷ x ∷ str)) (omega arith),
  refl,
)
read_sign-decimal ws false x str b h = (
  skip_space-Blank ws 0 x str b (ground arith) ∙ ap (λ k. some (k, x ∷ str)) (omega arith),
  ground arith,
)

-- ULONG_MAX for a value that is too large, the value or its negation for the others.
abbrev pub value_of : Bool → ℕ → ℕ
value_of minus value =
    if ltb value word_mod
    then (if minus then (word_mod - value) % word_mod else value)
    else word_mod - 1

finish-Holds :
    (minus : Bool) (start len n : ℕ) (scan : Scan)
    → ((scan.overflow ≡ true) × (word_mod ≤ n)) ⊎ ((scan.overflow ≡ false) × (scan.result ≡ n))
    → scan.result < word_mod
    → scan.count ≡ 0 + len
    → scan.number_found ≡ true
    → finish false minus start scan
      ≡ record { result = value_of minus n; end = start + len; failed = not (ltb n word_mod) }
unfolding finish
finish-Holds minus start len n scan (inl (over, big)) b k f =
    let large : ltb n word_mod ≡ false = ground arith in
    rw (over, large, f, k)
      (ap (λ m. record { result = word_mod - 1; end = m; failed = true }) (omega arith))
finish-Holds true start len n scan (inr (fine, e)) b k f =
    let small : ltb n word_mod ≡ true = ground arith in
    rw (fine, small, f, k, e)
      (ap (λ m. record { result = (word_mod - n) % word_mod; end = m; failed = false })
        (omega arith))
finish-Holds false start len n scan (inr (fine, e)) b k f =
    let small : ltb n word_mod ≡ true = ground arith in
    rw (fine, small, f, k, e)
      (ap (λ m. record { result = n; end = m; failed = false }) (omega arith))

-- White space, perhaps a minus sign, and decimal digits, one at least, in front of a byte that is no
-- digit: strtoul gives the value where that is below 2^32, negated modulo 2^32 behind a minus sign,
-- and otherwise ULONG_MAX with `errno` set; the end pointer is behind the digits in each case.
pub strtoul-number :
    (ws : Bytes) (minus : Bool) (x : ℕ) (cs : Bytes) (c : ℕ) (rest : Bytes)
    → Blank ws
    → AllDigits false 10 (x ∷ cs)
    → 10 ≤ get_digit_value false c
    → let value = number false 10 0 (x ∷ cs) in
      strtoul (ws ++ (sign_of minus ++ ((x ∷ cs) ++ (c ∷ rest)))) 10
      ≡ some (record {
        result = value_of minus value;
        end = length ws + length (sign_of minus) + length (x ∷ cs);
        failed = not (ltb value word_mod);
      })
unfolding strtoul convert parse detect_base skip_prefix
strtoul-number ws minus x cs c rest blank ds stop =
    let (scan, e, (b, h), k, f) =
      scan_digits-Holds 10 (x ∷ cs) c rest 0 empty_scan (omega arith) (omega arith) ds stop
        (omega arith, inr (refl, refl)) in
    let (e₁, e₂) =
      read_sign-decimal ws minus x (cs ++ (c ∷ rest)) blank (decimal_bounds x false ds.0) in
    let unsigned : (minus && false) ≡ false = ground arith in
    rw (e₁, e₂, unsigned, e)
      (ap some (
          finish-Holds minus (length ws + length (sign_of minus) + 0) (length (x ∷ cs)) _ scan h b k
            (f ∙ (ground arith)))
        ∙ ap
            (λ n. some (record {
              result = value_of minus (number false 10 0 (x ∷ cs));
              end = n;
              failed = not (ltb (number false 10 0 (x ∷ cs)) word_mod);
            }))
            (omega arith))

-- Behind a minus sign strtol subtracts LONG_MIN from its result 0 at the first digit, which
-- overflows: no negative decimal number is read with defined behaviour.
pub strtol-negative :
    (ws : Bytes) (x : ℕ) (str : Bytes)
    → Blank ws
    → get_digit_value true x < 10
    → strtol (ws ++ (b'-' ∷ x ∷ str)) 10 ≡ none
unfolding strtol convert parse detect_base skip_prefix scan_digits step multiply add_digit subtract
strtol-negative ws x str blank d =
    let (e₁, e₂) = read_sign-decimal ws true x str blank (decimal_bounds x true d) in
    let goes : leb 10 (get_digit_value true x) ≡ false = ground arith in rw (e₁, e₂, goes) refl
