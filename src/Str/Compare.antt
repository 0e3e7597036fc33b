-- ===== src/Str/Compare.antt =====
-- `strcmp`, `strncmp` and `memcmp` against the lexicographic order of the contents.
use inwox.Base.{
  ℕ, zero, suc, ◌≡◌, refl, ap, ◌∙◌, ◌↔◌, some, [], ◌∷◌, ◌++◌, arith, ltb, if◌then◌else◌, length,
  take, Bytes,
}
use inwox.Base.Int.{ℤ, pos, negsuc, neg}
use inwox.Str.{strcmp, strncmp, memcmp}
use inwox.Str.Text.{NoNul, cstring}

-- The order of two byte strings as -1, 0 or 1: by the first byte that differs, a prefix first.
unfoldable pub lex : Bytes → Bytes → ℤ
lex [] [] = pos 0
lex [] (y ∷ ys) = negsuc 0
lex (x ∷ xs) [] = pos 1
lex (x ∷ xs) (y ∷ ys) =
    let rest = lex xs ys in if ltb x y then negsuc 0 else if ltb y x then pos 1 else rest

pub lex-eq-zero : (xs ys : Bytes) → lex xs ys ≡ pos 0 → xs ≡ ys
unfolding lex
lex-eq-zero [] [] h = refl
lex-eq-zero [] (y ∷ ys) h = cc
lex-eq-zero (x ∷ xs) [] h = ground arith
lex-eq-zero (x ∷ xs) (y ∷ ys) h = ground (arith, lex-eq-zero xs ys)

pub lex_refl : (xs : Bytes) → lex xs xs ≡ pos 0
unfolding lex
lex_refl [] = refl
lex_refl (x ∷ xs) = ground (arith, lex_refl xs)

pub lex-neg : (xs ys : Bytes) → lex ys xs ≡ neg (lex xs ys)
unfolding lex neg
lex-neg [] [] = refl
lex-neg [] (y ∷ ys) = refl
lex-neg (x ∷ xs) [] = refl
lex-neg (x ∷ xs) (y ∷ ys) = ground (arith, lex-neg xs ys)

-- `strcmp` gives the lexicographic order of the two contents, for every pair of strings.
pub strcmp-lex :
    (xs ys r s : Bytes)
    → NoNul xs
    → NoNul ys
    → strcmp (cstring xs r) (cstring ys s) ≡ some (lex xs ys)
unfolding strcmp lex
strcmp-lex [] [] r s h k = refl
strcmp-lex [] (y ∷ ys) r s h k = ground arith
strcmp-lex (x ∷ xs) [] r s h k = ground arith
strcmp-lex (x ∷ xs) (y ∷ ys) r s h k = ground (arith, strcmp-lex xs ys r s h.1 k.1)

-- `strcmp` is 0 exactly when the contents are equal.
pub strcmp-eq_iff :
    (xs ys r s : Bytes)
    → NoNul xs
    → NoNul ys
    → (strcmp (cstring xs r) (cstring ys s) ≡ some (pos 0)) ↔ (xs ≡ ys)
strcmp-eq_iff xs ys r s h k = (
  λ e. lex-eq-zero xs ys (cc (strcmp-lex xs ys r s h k)),
  λ e. strcmp-lex xs ys r s h k ∙ ap some (rw e (lex_refl ys)),
)

-- `strncmp` compares the first `length` bytes of the two contents.
pub strncmp-lex :
    (xs ys r s : Bytes) (n : ℕ)
    → NoNul xs
    → NoNul ys
    → strncmp (cstring xs r) (cstring ys s) n ≡ some (lex (take n xs) (take n ys))
unfolding strncmp lex
strncmp-lex [] [] r s zero h k = refl
strncmp-lex [] [] r s (suc n) h k = refl
strncmp-lex [] (y ∷ ys) r s zero h k = refl
strncmp-lex [] (y ∷ ys) r s (suc n) h k = ground arith
strncmp-lex (x ∷ xs) [] r s zero h k = refl
strncmp-lex (x ∷ xs) [] r s (suc n) h k = ground arith
strncmp-lex (x ∷ xs) (y ∷ ys) r s zero h k = refl
strncmp-lex (x ∷ xs) (y ∷ ys) r s (suc n) h k = ground (arith, strncmp-lex xs ys r s n h.1 k.1)

-- `memcmp` orders ranges of equal length, zero bytes included.
pub memcmp-lex :
    (xs ys r s : Bytes)
    → length xs ≡ length ys
    → memcmp (xs ++ r) (ys ++ s) (length xs) ≡ some (lex xs ys)
unfolding memcmp lex
memcmp-lex [] [] r s e = refl
memcmp-lex [] (y ∷ ys) r s e = absurd (omega arith)
memcmp-lex (x ∷ xs) [] r s e = absurd (omega arith)
memcmp-lex (x ∷ xs) (y ∷ ys) r s e = ground (arith, memcmp-lex xs ys r s (omega arith))
