-- ===== src/Str/Tokens.antt =====
-- libc/src/string/strtok.c: the tokens of a text that is changed as they are found.
use inwox.Base.{
  ℕ, zero, suc, ◌+◌, ◌<◌, ◌≡◌, refl, sym, ap, ◌∙◌, ◌≢◌, false, Option, none, some, [], ◌∷◌, ◌++◌,
  append_assoc, arith, ◌==◌, if◌then◌else◌, length, get_elem?, set, drop, replicate, All,
  length-append, length-replicate, Bytes,
}
use inwox.Str.{strspn, strcspn}
use inwox.Str.Text.{NoNul, cstring}
use inwox.Str.Search.{has, span_without, run_of, strspn-single, strcspn-span}

-- The object that is split, and the static pointer `next` as an offset in it; `none` is NULL.
pub record Splitting : Type 0 where
  pub text : Bytes
  pub next : Option ℕ

-- `fault` is an access beyond an object, `no_end` a `strspn` that does not end; the other is the
-- token that is returned, and what is left.
pub data Token : Type 0 where
  token : Option ℕ → Splitting → Token
  fault no_end : Token

-- On the byte behind the token.
unfoldable pub cut : ℕ → ℕ → Splitting → Option ℕ → Token
cut start end st none = fault
cut start end st (some c) =
    if c == 0
    then token (some start) (record st { next = none })
    else token (some start) (record st { text = set st.text end 0; next = some (end + 1) })

unfoldable pub cut_at : ℕ → Splitting → Option ℕ → Token
cut_at start st none = fault
cut_at start st (some n) = cut start (start + n) st (get_elem? st.text (start + n))

-- On the first byte behind the separators.
unfoldable pub find_end : Bytes → ℕ → Splitting → Option ℕ → Token
find_end seperator start st none = fault
find_end seperator start st (some c) =
    if c == 0 then token none st else cut_at start st (strcspn (drop start st.text) seperator)

unfoldable pub skip : Bytes → ℕ → Splitting → Option (Option ℕ) → Token
skip seperator p st none = fault
skip seperator p st (some none) = no_end
skip seperator p st (some (some n)) = find_end seperator (p + n) st (get_elem? st.text (p + n))

unfoldable pub start_at : ℕ → Bytes → Splitting → Option ℕ → Token
start_at fuel seperator st none = token none st
start_at fuel seperator st (some p) = skip seperator p st (strspn fuel (drop p st.text) seperator)

unfoldable pub or_next : Option ℕ → Option ℕ → Option ℕ
or_next none next = next
or_next (some p) next = some p

-- `fuel` is for `strspn`.
unfoldable pub strtok : ℕ → Option ℕ → Bytes → Splitting → Token
strtok fuel str seperator st = start_at fuel seperator st (or_next str st.next)

drop-length : (xs ys : Bytes) → drop (length xs) (xs ++ ys) ≡ ys
drop-length [] ys = refl
drop-length (x ∷ xs) ys = drop-length xs ys

get_elem?-length :
    (xs : Bytes) (y : ℕ) (ys : Bytes) → get_elem? (xs ++ (y ∷ ys)) (length xs) ≡ some y
get_elem?-length [] y ys = refl
get_elem?-length (x ∷ xs) y ys = get_elem?-length xs y ys

set-length :
    (xs : Bytes) (y c : ℕ) (ys : Bytes) → set (xs ++ (y ∷ ys)) (length xs) c ≡ xs ++ (c ∷ ys)
set-length [] y c ys = refl
set-length (x ∷ xs) y c ys = ap (λ r. x ∷ r) (set-length xs y c ys)

-- Bytes that are neither NUL nor the separator.
abbrev pub Word : ℕ → Bytes → Type 0
Word k = All (λ c. (c ≢ 0) × (c ≢ k))

run_of-replicate : (k n c : ℕ) (cs : Bytes) → c ≢ k → run_of k (replicate n k ++ (c ∷ cs)) ≡ n
unfolding run_of
run_of-replicate k zero c cs ne = ground arith
run_of-replicate k (suc n) c cs ne = ground (arith, run_of-replicate k n c cs ne)

span_without-Word :
    (k : ℕ) (cs rest : Bytes) → Word k cs → span_without (k ∷ []) (cs ++ (k ∷ rest)) ≡ length cs
unfolding span_without has
span_without-Word k [] rest h = ground arith
span_without-Word k (c ∷ cs) rest h = ground (arith, h.0.1, span_without-Word k cs rest h.1)

NoNul-words : (k : ℕ) (cs rest : Bytes) → k ≢ 0 → Word k cs → NoNul rest → NoNul (cs ++ (k ∷ rest))
NoNul-words k [] rest hk h hr = (hk, hr)
NoNul-words k (c ∷ cs) rest hk h hr = (h.0.0, NoNul-words k cs rest hk h.1 hr)

-- From the first byte of a word on.
found :
    (k : ℕ) (front cs rest r s : Bytes) (next : Option ℕ)
    → k ≢ 0
    → Word k cs
    → NoNul rest
    → cut_at
        (length front)
        (record { text = front ++ (cs ++ (k ∷ (rest ++ (0 ∷ r)))); next = next })
        (strcspn (drop (length front) (front ++ (cs ++ (k ∷ (rest ++ (0 ∷ r)))))) (k ∷ (0 ∷ s)))
      ≡ token (some (length front)) (record {
        text = front ++ (cs ++ (0 ∷ (rest ++ (0 ∷ r))));
        next = some (length front + length cs + 1);
      })
unfolding cut_at cut
found k front cs rest r s next hk h hr =
    let t = rest ++ (0 ∷ r) in
    let e1 : drop (length front) (front ++ (cs ++ (k ∷ t))) ≡ cstring (cs ++ (k ∷ rest)) r =
      drop-length front (cs ++ (k ∷ t)) ∙ sym (append_assoc cs (k ∷ rest) (0 ∷ r)) in
    let e2 : strcspn (cstring (cs ++ (k ∷ rest)) r) (k ∷ (0 ∷ s)) ≡ some (length cs) =
      strcspn-span (cs ++ (k ∷ rest)) r (k ∷ []) s (NoNul-words k cs rest hk h hr) (hk, tt)
      ∙ ap some (span_without-Word k cs rest h) in
    let e3 : (b : ℕ) → front ++ (cs ++ (b ∷ t)) ≡ (front ++ cs) ++ (b ∷ t) =
      λ b. sym (append_assoc front cs (b ∷ t)) in
    let place : length front + length cs ≡ length (front ++ cs) = sym (length-append front cs) in
    let e4 : get_elem? (front ++ (cs ++ (k ∷ t))) (length front + length cs) ≡ some k =
      rw (e3 k, place) (get_elem?-length (front ++ cs) k t) in
    let e5 : set (front ++ (cs ++ (k ∷ t))) (length front + length cs) 0
        ≡ front ++ (cs ++ (0 ∷ t)) =
      rw (e3 k, e3 0, place) (set-length (front ++ cs) k 0 t) in
    let other : (k == 0) ≡ false = ground (arith, hk) in rw (e1, e2, e4, other, e5) refl

-- With one separator, from a place on where separators and then a word that ends in a separator
-- stand: the word is returned, it ends in NUL afterwards in place of the separator, the next call
-- starts behind that, and the rest of the text is unchanged.
pub strtok-single :
    (fuel k n : ℕ) (front : Bytes) (c : ℕ) (cs rest r s : Bytes) (next : Option ℕ)
    → k ≢ 0
    → Word k (c ∷ cs)
    → NoNul rest
    → n + length cs + length rest + 2 < fuel
    → strtok fuel (some (length front)) (k ∷ (0 ∷ s)) (record {
      text = (front ++ replicate n k) ++ ((c ∷ cs) ++ (k ∷ (rest ++ (0 ∷ r))));
      next = next;
    })
      ≡ token (some (length front + n)) (record {
        text = (front ++ replicate n k) ++ ((c ∷ cs) ++ (0 ∷ (rest ++ (0 ∷ r))));
        next = some (length front + n + length (c ∷ cs) + 1);
      })
unfolding strtok or_next start_at skip find_end
strtok-single fuel k n front c cs rest r s next hk h hr enough =
    let word : Bytes = c ∷ cs in
    let before : Bytes = front ++ replicate n k in
    let t : Bytes = word ++ (k ∷ (rest ++ (0 ∷ r))) in
    let size : length (replicate n k ++ (word ++ (k ∷ rest)))
        ≡ n + (length word + (length rest + 1)) =
      omega (
        arith,
        length-append (replicate n k) (word ++ (k ∷ rest)),
        length-append word (k ∷ rest),
        length-replicate n k,
      ) in
    let e1 : drop (length front) (before ++ t) ≡ cstring (replicate n k ++ (word ++ (k ∷ rest))) r =
      ap (drop (length front)) (append_assoc front (replicate n k) t)
      ∙ (drop-length front (replicate n k ++ t)
          ∙ (ap (λ u. replicate n k ++ u) (sym (append_assoc word (k ∷ rest) (0 ∷ r)))
              ∙ sym (append_assoc (replicate n k) (word ++ (k ∷ rest)) (0 ∷ r)))) in
    let e2 : strspn fuel (cstring (replicate n k ++ (word ++ (k ∷ rest))) r) (k ∷ (0 ∷ s))
        ≡ some (some n) =
      strspn-single fuel (replicate n k ++ (word ++ (k ∷ rest))) r k s hk (omega (arith, size))
      ∙ ap (λ m. some (some m)) (run_of-replicate k n c (cs ++ (k ∷ rest)) (h.0.1)) in
    let place : length front + n ≡ length before =
      omega (arith, length-append front (replicate n k), length-replicate n k) in
    let e3 : get_elem? (before ++ t) (length before) ≡ some c =
      get_elem?-length before c (cs ++ (k ∷ (rest ++ (0 ∷ r)))) in
    let some_byte : (c == 0) ≡ false = ground (arith, h.0.0) in
    rw (e1, e2, place, e3, some_byte) (found k before word rest r s next hk h hr)
