-- ===== src/Number/Signed.antt =====
-- strtol on decimal numbers that a `long` holds and that have no minus sign.
use inwox.Base.{
  ℕ, ◌+◌, ◌*◌, ◌^◌, ◌≤◌, ◌<◌, ◌≡◌, ap, ◌∙◌, Bool, true, false, not, ◌||◌, some, [], ◌∷◌, ◌++◌,
  arith, leb, ◌==◌, length, Bytes,
}
use inwox.Number.{
  subtract, multiply, get_digit_value, Scan, put_digit, add_digit, step, scan_digits, detect_base,
  skip_prefix, finish, parse, convert, strtol,
}
use inwox.Number.Value.{number, AllDigits, Blank, decimal_bounds, read_sign-decimal}

number-grows : (n : ℕ) (cs : Bytes) → n ≤ number true 10 n cs
unfolding number
number-grows n [] = omega arith
number-grows n (c ∷ cs) = omega (arith, number-grows (n * 10 + get_digit_value true c) cs)

abbrev scanned : ℕ → Bool → ℕ → Scan
scanned n found k = record { result = n; overflow = false; number_found = found; count = k }

step-fits :
    (d n k : ℕ) (found : Bool)
    → d < 10
    → n * 10 + d < 2 ^ 31
    → step true false 10 d (scanned n found k) ≡ some (scanned (n * 10 + d) true (k + 1))
unfolding step multiply add_digit subtract put_digit
step-fits d n k found h b = ground arith

scan_digits-fits :
    (cs : Bytes) (c : ℕ) (rest : Bytes) (n k : ℕ) (found : Bool)
    → AllDigits true 10 cs
    → 10 ≤ get_digit_value true c
    → number true 10 n cs < 2 ^ 31
    → scan_digits true false 10 (cs ++ (c ∷ rest)) (scanned n found k)
      ≡ some (scanned (number true 10 n cs) (found || not (length cs == 0)) (k + length cs))
unfolding scan_digits number
scan_digits-fits [] c rest n k found ds stop b =
    let ends : leb 10 (get_digit_value true c) ≡ true = ground arith in
    let same : found ≡ (found || false) = ground arith in
    rw ends (
      ap (λ f. some (scanned n f k)) same
      ∙ ap (λ m. some (scanned n (found || false) m)) (omega arith))
scan_digits-fits (x ∷ cs) c rest n k found ds stop b =
    let d = get_digit_value true x in
    let goes : leb 10 d ≡ false = ground arith in
    let found' : (true || not (length cs == 0)) ≡ (found || not (length (x ∷ cs) == 0)) =
      ground arith in
    rw (goes, step-fits d n k found ds.0 (omega (arith, number-grows (n * 10 + d) cs)))
      (scan_digits-fits cs c rest (n * 10 + d) (k + 1) true ds.1 stop b
        ∙ ap (λ m. some (scanned (number true 10 (n * 10 + d) cs) true m)) (omega arith)
        ∙ ap (λ f. some (scanned (number true 10 (n * 10 + d) cs) f (k + length (x ∷ cs)))) found')

-- White space and decimal digits, one at least, in front of a byte that is no digit: where the value
-- is at most LONG_MAX, strtol gives it, with the end pointer behind the digits and `errno` not set.
pub strtol-number :
    (ws : Bytes) (x : ℕ) (cs : Bytes) (c : ℕ) (rest : Bytes)
    → Blank ws
    → AllDigits true 10 (x ∷ cs)
    → 10 ≤ get_digit_value true c
    → number true 10 0 (x ∷ cs) < 2 ^ 31
    → strtol (ws ++ ((x ∷ cs) ++ (c ∷ rest))) 10
      ≡ some (record {
        result = number true 10 0 (x ∷ cs);
        end = length ws + length (x ∷ cs);
        failed = false;
      })
unfolding strtol convert parse detect_base skip_prefix finish
strtol-number ws x cs c rest blank ds stop fits =
    let e = scan_digits-fits (x ∷ cs) c rest 0 0 false ds stop fits in
    let (e₁, e₂) =
      read_sign-decimal ws false x (cs ++ (c ∷ rest)) blank (decimal_bounds x true ds.0) in
    let some_digits : (length (x ∷ cs) == 0) ≡ false = ground arith in
    rw (e₁, e₂, e, some_digits)
      (ap (λ n. some (record { result = number true 10 0 (x ∷ cs); end = n; failed = false }))
        (omega arith))
