-- ===== src/Str/Copy.antt =====
-- `stpcpy`, `strcpy`, `memcpy`, `memset` and `strdup`: what the destination holds afterwards.
use inwox.Base.{
  ℕ, ◌+◌, ◌%◌, ◌≤◌, ◌≡◌, refl, Option, none, some, [], ◌∷◌, ◌++◌, append_assoc, arith, length,
  replicate, length-append, Bytes, ◌>>=◌,
}
use inwox.Str.{stpcpy, strcpy, memcpy, memset, strdup}
use inwox.Str.Text.{NoNul, cstring}
use inwox.Str.Length.{strlen-cstring}

-- The string is copied with its terminator, what lies behind it in the destination stays, and the
-- result points at the new terminator.
pub stpcpy-cstring :
    (xs rest front back : Bytes) (d : ℕ)
    → NoNul xs
    → length front ≡ length xs
    → stpcpy (front ++ (d ∷ back)) (cstring xs rest) ≡ some (cstring xs back, length xs)
unfolding stpcpy
stpcpy-cstring [] rest [] back d h e = refl
stpcpy-cstring [] rest (f ∷ front) back d h e = absurd (omega arith)
stpcpy-cstring (x ∷ xs) rest [] back d h e = absurd (omega arith)
stpcpy-cstring (x ∷ xs) rest (f ∷ front) back d h e =
    ground (arith, stpcpy-cstring xs rest front back d h.1)

-- A destination that is too small for the string is written beyond its end.
pub stpcpy-overflow :
    (xs rest dest : Bytes)
    → NoNul xs
    → length dest ≤ length xs
    → stpcpy dest (cstring xs rest) ≡ none
unfolding stpcpy
stpcpy-overflow [] rest [] h le = refl
stpcpy-overflow [] rest (d ∷ dest) h le = absurd (omega arith)
stpcpy-overflow (x ∷ xs) rest [] h le = refl
stpcpy-overflow (x ∷ xs) rest (d ∷ dest) h le = ground (arith, stpcpy-overflow xs rest dest h.1)

-- `strcpy` leaves the destination as `stpcpy` does, faults included.
pub strcpy-stpcpy : (dest src : Bytes) → strcpy dest src ≡ (stpcpy dest src >>= λ r. some r.0)
unfolding stpcpy strcpy
strcpy-stpcpy [] [] = refl
strcpy-stpcpy (d ∷ dest) [] = refl
strcpy-stpcpy [] (c ∷ src) = refl
strcpy-stpcpy (d ∷ dest) (c ∷ src) = ground (arith, strcpy-stpcpy dest src)

-- The range is copied, and the rest of the destination stays.
pub memcpy-append :
    (xs rest old back : Bytes)
    → length old ≡ length xs
    → memcpy (old ++ back) (xs ++ rest) (length xs) ≡ some (xs ++ back)
unfolding memcpy
memcpy-append [] rest [] back e = refl
memcpy-append [] rest (o ∷ old) back e = absurd (omega arith)
memcpy-append (x ∷ xs) rest [] back e = absurd (omega arith)
memcpy-append (x ∷ xs) rest (o ∷ old) back e =
    ground (arith, memcpy-append xs rest old back (omega arith))

-- Every byte of the range gets the value's low byte, and the rest of the destination stays.
pub memset-replicate :
    (old back : Bytes) (value : ℕ)
    → memset (old ++ back) value (length old) ≡ some (replicate (length old) (value % 256) ++ back)
unfolding memset
memset-replicate [] back value = refl
memset-replicate (o ∷ old) back value = ground (arith, memset-replicate old back value)

-- `strdup` asks for one byte more than the length, and the new object holds the string.
pub strdup-cstring :
    (malloc : ℕ → Option Bytes) (xs rest old back : Bytes)
    → NoNul xs
    → malloc (length xs + 1) ≡ some (old ++ back)
    → length old ≡ length xs + 1
    → strdup malloc (cstring xs rest) ≡ some (cstring xs back)
unfolding strdup
strdup-cstring malloc xs rest old back h e l =
    let n : length (xs ++ (0 ∷ [])) ≡ length xs + 1 = omega (arith, length-append xs (0 ∷ [])) in
    let copied = memcpy-append (xs ++ (0 ∷ [])) rest old back (omega arith) in
    let copied' = rw (append_assoc, append_assoc, n) at copied in
    rw (strlen-cstring xs rest h, e) copied'
