-- ===== src/Str/Length.antt =====
-- `strlen` and `strnlen`.
use inwox.Base.{ℕ, ◌+◌, ◌≤◌, min, ◌≡◌, refl, none, some, [], ◌∷◌, ◌++◌, arith, length, Bytes}
use inwox.Str.{strlen_loop, strlen, strnlen_loop, strnlen}
use inwox.Str.Text.{NoNul, cstring}

strlen_loop-cstring :
    (xs rest : Bytes) (len : ℕ)
    → NoNul xs
    → strlen_loop len (cstring xs rest) ≡ some (len + length xs)
unfolding strlen_loop
strlen_loop-cstring [] rest len h = ground arith
strlen_loop-cstring (x ∷ xs) rest len h = ground (arith, strlen_loop-cstring xs rest (len + 1) h.1)

strlen_loop-none : (xs : Bytes) (len : ℕ) → NoNul xs → strlen_loop len xs ≡ none
unfolding strlen_loop
strlen_loop-none [] len h = refl
strlen_loop-none (x ∷ xs) len h = ground (arith, strlen_loop-none xs (len + 1) h.1)

-- The length of a string is the number of bytes before its terminator, whatever stands behind it.
pub strlen-cstring : (xs rest : Bytes) → NoNul xs → strlen (cstring xs rest) ≡ some (length xs)
unfolding strlen
strlen-cstring xs rest h = ground (arith, strlen_loop-cstring xs rest 0 h)

-- An object with no terminator is read beyond its end.
pub strlen-none : (xs : Bytes) → NoNul xs → strlen xs ≡ none
unfolding strlen
strlen-none xs h = strlen_loop-none xs 0 h

strnlen_loop-cstring :
    (xs rest : Bytes) (maxlen ret : ℕ)
    → NoNul xs
    → ret ≤ maxlen
    → strnlen_loop maxlen (cstring xs rest) ret ≡ some (min maxlen (ret + length xs))
unfolding strnlen_loop
strnlen_loop-cstring [] rest maxlen ret h le = ground arith
strnlen_loop-cstring (x ∷ xs) rest maxlen ret h le =
    ground (arith, strnlen_loop-cstring xs rest maxlen (ret + 1) h.1)

-- `strnlen` is the smaller of the string's length and the limit.
pub strnlen-cstring :
    (xs rest : Bytes) (maxlen : ℕ)
    → NoNul xs
    → strnlen (cstring xs rest) maxlen ≡ some (min maxlen (length xs))
unfolding strnlen
strnlen-cstring xs rest maxlen h =
    ground (arith, strnlen_loop-cstring xs rest maxlen 0 h (omega arith))

strnlen_loop-prefix :
    (xs rest : Bytes) (maxlen ret : ℕ)
    → NoNul xs
    → ret + length xs ≡ maxlen
    → strnlen_loop maxlen (xs ++ rest) ret ≡ some maxlen
unfolding strnlen_loop
strnlen_loop-prefix [] [] maxlen ret h e = ground arith
strnlen_loop-prefix [] (r ∷ rest) maxlen ret h e = ground arith
strnlen_loop-prefix (x ∷ xs) rest maxlen ret h e =
    ground (arith, strnlen_loop-prefix xs rest maxlen (ret + 1) h.1)

-- No terminator is needed within the limit: `strnlen` reads `maxlen` bytes and no more.
pub strnlen-prefix :
    (xs rest : Bytes) → NoNul xs → strnlen (xs ++ rest) (length xs) ≡ some (length xs)
unfolding strnlen
strnlen-prefix xs rest h = strnlen_loop-prefix xs rest (length xs) 0 h (omega arith)
