-- ===== src/Environ/Entry.antt =====
-- Entries of the form name=value, and how they are compared and built.
use inwox.Base.{
  ℕ, zero, suc, ◌+◌, ◌-◌, ◌<◌, ◌≡◌, refl, sym, ap, ◌∙◌, ◌≢◌, inl, inr, Bool, true, false, some, [],
  ◌∷◌, ◌++◌, append_assoc, arith, ◌==◌, ==_iff, Bool-cases, length, take, drop, All, length-append,
  Bytes,
}
use inwox.Base.Int.{ℤ, pos, negsuc}
use inwox.Str.{strncmp, strcspn, stpcpy}
use inwox.Str.Text.{NoNul, cstring}
use inwox.Str.Length.{strlen-cstring}
use inwox.Str.Compare.{lex, lex-eq-zero, lex_refl, strncmp-lex}
use inwox.Str.Search.{has, span_without, strcspn-span}
use inwox.Environ.{Alloc, equals_sign, is_zero, is_entry, stpcpy_at, new_entry}

-- A byte of a name.
abbrev pub IsName : Bytes → Type 0
IsName = All (λ c. (c ≢ 0) × (c ≢ b'='))

pub IsName-NoNul : (k : Bytes) → IsName k → NoNul k
IsName-NoNul [] h = tt
IsName-NoNul (c ∷ k) h = (h.0.0, IsName-NoNul k h.1)

-- The text of an entry.
abbrev pub entry_text : Bytes → Bytes → Bytes
entry_text k v = k ++ (b'=' ∷ v)

pub entry_text-NoNul : (k v : Bytes) → IsName k → NoNul v → NoNul (entry_text k v)
entry_text-NoNul [] v h g = (omega arith, g)
entry_text-NoNul (c ∷ k) v h g = (h.0.0, entry_text-NoNul k v h.1 g)

span_without-name : (k v : Bytes) → IsName k → span_without (b'=' ∷ []) (entry_text k v) ≡ length k
unfolding span_without has
span_without-name [] v h = refl
span_without-name (c ∷ k) v h = ground (arith, h.0.1, span_without-name k v h.1)

pub strcspn-entry :
    (k v r : Bytes)
    → IsName k
    → NoNul v
    → strcspn (cstring (entry_text k v) r) equals_sign ≡ some (length k)
strcspn-entry k v r h g =
    strcspn-span (entry_text k v) r (b'=' ∷ []) [] (entry_text-NoNul k v h g) (omega arith, tt)
    ∙ ap some (span_without-name k v h)

take-prefix : (xs ys : Bytes) → take (length xs) (xs ++ ys) ≡ xs
take-prefix [] ys = refl
take-prefix (x ∷ xs) ys = ap (◌∷◌ x) (take-prefix xs ys)

pub take_all : (xs : Bytes) → take (length xs) xs ≡ xs
take_all [] = refl
take_all (x ∷ xs) = ap (◌∷◌ x) (take_all xs)

-- The names are equal.
abbrev pub same_name : Bytes → Bytes → Bool
same_name k l = is_zero (lex k l)

is_zero-true : (z : ℤ) → is_zero z ≡ true → z ≡ pos 0
unfolding is_zero
is_zero-true (pos zero) e = refl
is_zero-true (pos (suc n)) e = cc
is_zero-true (negsuc n) e = cc

pub same_name-true : (k l : Bytes) → same_name k l ≡ true → k ≡ l
same_name-true k l e = lex-eq-zero k l (is_zero-true (lex k l) e)

pub same_name_refl : (k : Bytes) → same_name k k ≡ true
unfolding is_zero
same_name_refl k = rw (lex_refl k) refl

pub is_entry-same_name :
    (k l v r s : Bytes)
    → IsName k
    → IsName l
    → NoNul v
    → is_entry (cstring l s) (length l) (cstring (entry_text k v) r) ≡ some (same_name k l)
unfolding is_entry
is_entry-same_name k l v r s h g n = elim (Bool-cases (length l == length k)) [
  | inl e ↦
      let size : length l ≡ length k = (==_iff _ _).0 e in
      let cut =
        strncmp-lex (entry_text k v) l r s (length k) (entry_text-NoNul k v h n)
          (IsName-NoNul l g) in
      let left = take-prefix k (b'=' ∷ v) in
      let right : take (length k) l ≡ l = ap (λ n. take n l) (sym size) ∙ take_all l in
      rw (strcspn-entry k v r h n, e, size, cut, left, right) refl
  | inr e ↦
      let differ : same_name k l ≡ false = elim (Bool-cases (same_name k l)) [
        | inl t ↦ absurd (ground (arith, ap length (same_name-true k l t)))
        | inr f ↦ f
      ] in
      rw (strcspn-entry k v r h n, e, differ) refl
]

take-append : (n : ℕ) (xs ys : Bytes) → length xs ≡ n → take n (xs ++ ys) ≡ xs
take-append n xs ys e = ap (λ k. take k (xs ++ ys)) (sym e) ∙ take-prefix xs ys

drop-append : (n : ℕ) (xs ys : Bytes) → length xs ≡ n → drop n (xs ++ ys) ≡ ys
drop-append zero [] ys e = refl
drop-append zero (x ∷ xs) ys e = absurd (omega arith)
drop-append (suc n) [] ys e = absurd (omega arith)
drop-append (suc n) (x ∷ xs) ys e = drop-append n xs ys (omega arith)

-- The bytes of an object that the string does not reach stay.
stpcpy-fits :
    (obj xs rest : Bytes)
    → NoNul xs
    → length xs < length obj
    → stpcpy obj (cstring xs rest) ≡ some (cstring xs (drop (length xs + 1) obj), length xs)
unfolding stpcpy
stpcpy-fits [] xs rest h l = absurd (omega arith)
stpcpy-fits (o ∷ obj) [] rest h l = refl
stpcpy-fits (o ∷ obj) (x ∷ xs) rest h l =
    let next : suc (length xs + 1) ≡ suc (length xs) + 1 = omega arith in
    let later : drop (length xs + 1) obj ≡ drop (suc (length xs) + 1) (o ∷ obj) =
      ap (λ n. drop n (o ∷ obj)) next in
    ground (arith, h.0, stpcpy-fits obj xs rest h.1 (omega arith), later)

stpcpy_at-fits :
    (done obj xs rest : Bytes) (n : ℕ)
    → NoNul xs
    → length done ≡ n
    → length xs < length obj
    → stpcpy_at (done ++ obj) n (cstring xs rest)
      ≡ some (done ++ cstring xs (drop (length xs + 1) obj), n + length xs)
unfolding stpcpy_at
stpcpy_at-fits done obj xs rest n h e l =
    rw (drop-append n done obj e, take-append n done obj e, stpcpy-fits obj xs rest h l) refl

drop_size : (n : ℕ) (xs : Bytes) → length (drop n xs) ≡ length xs - n
drop_size zero xs = omega arith
drop_size (suc n) [] = omega arith
drop_size (suc n) (x ∷ xs) = omega (arith, drop_size n xs)

-- The entry that is built holds the name, `=` and the value.
pub new_entry-entry_text :
    (malloc : Alloc) (k v fresh s : Bytes)
    → NoNul k
    → NoNul v
    → malloc (length k + length v + 2) ≡ some fresh
    → length fresh ≡ length k + length v + 2
    → (back : Bytes) × (new_entry malloc (cstring k []) (length k) (cstring v s)
        ≡ some (some (cstring (entry_text k v) back)))
unfolding new_entry
new_entry-entry_text malloc k v fresh s h g m l =
    let b = drop (length k + 1) fresh in
    let c = drop 1 b in
    let size : length b ≡ length v + 1 = omega (arith, drop_size (length k + 1) fresh) in
    let size' : length c ≡ length v = omega (arith, drop_size 1 b) in
    let first = stpcpy_at-fits [] fresh k [] 0 h refl (omega arith) in
    let second =
      stpcpy_at-fits k (0 ∷ b) (b'=' ∷ []) [] (0 + length k) (omega arith, tt) (omega arith)
        (omega arith) in
    let sign : Bytes = b'=' ∷ [] in
    let third =
      stpcpy_at-fits (k ++ sign) (0 ∷ c) v s (0 + length k + 1) g
        (omega (arith, length-append k sign)) (omega arith) in
    let third' = rw (append_assoc k sign (0 ∷ c)) at third in
    let back = drop (length v + 1) (0 ∷ c) in
    (
      back,
      rw (strlen-cstring v s g, m, first, second, third')
          (ap (λ t. some (some t))
            (append_assoc k sign (cstring v back) ∙ sym (append_assoc k (b'=' ∷ v) (0 ∷ back)))),
    )

drop-name :
    (k : Bytes) (c : ℕ) (rest : Bytes) (n : ℕ) → n ≡ length k + 1 → drop n (k ++ (c ∷ rest)) ≡ rest
drop-name [] c rest n e = rw e refl
drop-name (x ∷ k) c rest zero e = absurd (omega arith)
drop-name (x ∷ k) c rest (suc n) e = drop-name k c rest n (omega arith)

-- What stands behind the `=`.
pub drop-entry : (k v r : Bytes) → drop (length k + 1) (cstring (entry_text k v) r) ≡ cstring v r
drop-entry k v r =
    ap (drop (length k + 1)) (append_assoc k (b'=' ∷ v) (0 ∷ r))
    ∙ drop-name k b'=' (cstring v r) (length k + 1) refl

pub same_name_comm : (k l : Bytes) → same_name k l ≡ same_name l k
same_name_comm k l = elim (Bool-cases (same_name k l)) [
  | inl e ↦ let same = same_name-true k l e in rw same refl
  | inr e ↦ elim (Bool-cases (same_name l k)) [
    | inl f ↦ let same = same_name-true l k f in rw same refl
    | inr f ↦ e ∙ sym f
  ]
]

-- The comparison of `getenv`, where the lengths are equal.
pub strncmp-same_name :
    (k l v r s : Bytes)
    → IsName k
    → IsName l
    → NoNul v
    → length k ≡ length l
    → strncmp (cstring l s) (cstring (entry_text k v) r) (length k) ≡ some (lex l k)
strncmp-same_name k l v r s h g n e =
    let cut =
      strncmp-lex l (entry_text k v) s r (length k) (IsName-NoNul l g) (entry_text-NoNul k v h n) in
    let left = take-prefix k (b'=' ∷ v) in
    let right : take (length k) l ≡ l = ap (λ n. take n l) e ∙ take_all l in
    cut ∙ rw (left, right) refl

pub differ_by_length : (k l : Bytes) → length k ≢ length l → same_name k l ≡ false
differ_by_length k l ne = elim (Bool-cases (same_name k l)) [
  | inl t ↦ absurd (ne (ap length (same_name-true k l t)))
  | inr f ↦ f
]
