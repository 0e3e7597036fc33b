-- ===== src/Path/Parts.antt =====
-- The parts of a path that ends in a name.
use inwox.Base.{
  ℕ, zero, suc, ◌+◌, ◌-◌, ◌≤◌, ◌<◌, ◌≡◌, refl, sym, ap, ◌∙◌, ◌≢◌, Bool, true, false, some, [], ◌∷◌,
  ◌++◌, append_assoc, arith, ◌==◌, length, set, replicate, All, length-append, length-replicate,
  Bytes,
}
use inwox.Str.{strlen}
use inwox.Str.Text.{NoNul, cstring}
use inwox.Str.Length.{strlen-cstring}
use inwox.Path.{
  place, slash, is_slash, skip_slashes, skip_name, end_at, behind_name, behind_slashes, dir_from,
  dirname,
}

-- Bytes of a name.
abbrev pub Name : Bytes → Type 0
Name = All (λ c. (c ≢ 0) × (c ≢ slash))

-- The byte at a place behind `front`.
is_slash-behind :
    (front : Bytes) (c : ℕ) (rest : Bytes)
    → is_slash (front ++ (c ∷ rest)) (length front) ≡ some (c == slash)
unfolding is_slash
is_slash-behind [] c rest = refl
is_slash-behind (x ∷ front) c rest = is_slash-behind front c rest

is_slash-shift :
    (front ys : Bytes) (k : ℕ) → is_slash (front ++ ys) (length front + k) ≡ is_slash ys k
unfolding is_slash
is_slash-shift [] ys k = ap (λ i. is_slash ys i) (zero_add k)
  where
    zero_add : (n : ℕ) → 0 + n ≡ n
    zero_add n = omega arith
is_slash-shift (x ∷ front) ys k =
    ap (λ i. is_slash (x ∷ (front ++ ys)) i) (next_index (length front) k)
    ∙ is_slash-shift front ys k
  where
    next_index : (n m : ℕ) → suc n + m ≡ suc (n + m)
    next_index n m = omega arith

-- Every byte up to the length passes or fails the test alike.
AllSlash : Bool → Bytes → Type 0
AllSlash b xs = All (λ c. (c == slash) ≡ b) xs

is_slash-AllSlash :
    (b : Bool) (xs t : Bytes) (j : ℕ)
    → AllSlash b xs
    → j < length xs
    → is_slash (xs ++ t) j ≡ some b
unfolding is_slash AllSlash
is_slash-AllSlash b [] t j h l = absurd (omega arith)
is_slash-AllSlash b (x ∷ xs) t zero h l = rw (h.0) refl
is_slash-AllSlash b (x ∷ xs) t (suc j) h l = is_slash-AllSlash b xs t j h.1 (omega arith)

Name-AllSlash : (xs : Bytes) → Name xs → AllSlash false xs
unfolding AllSlash
Name-AllSlash [] h = tt
Name-AllSlash (x ∷ xs) h = (ground (arith, h.0.1), Name-AllSlash xs h.1)

slashes-AllSlash : (n : ℕ) → AllSlash true (replicate n slash)
unfolding AllSlash
slashes-AllSlash zero = tt
slashes-AllSlash (suc n) = (refl, slashes-AllSlash n)

stop_slashes :
    (i : ℕ) (path : Bytes) → is_slash path i ≡ some false → skip_slashes i path ≡ some (some i)
unfolding skip_slashes
stop_slashes zero path e = rw e refl
stop_slashes (suc i) path e = rw e refl

step_slashes :
    (i : ℕ) (path : Bytes)
    → is_slash path (suc i) ≡ some true
    → skip_slashes (suc i) path ≡ skip_slashes i path
unfolding skip_slashes
step_slashes i path e = rw e refl

stop_name : (i : ℕ) (path : Bytes) → is_slash path i ≡ some true → skip_name i path ≡ some (some i)
unfolding skip_name
stop_name zero path e = rw e refl
stop_name (suc i) path e = rw e refl

step_name :
    (i : ℕ) (path : Bytes)
    → is_slash path (suc i) ≡ some false
    → skip_name (suc i) path ≡ skip_name i path
unfolding skip_name
step_name i path e = rw e refl

-- The byte `j` places behind the one behind `front`.
is_slash-run :
    (b : Bool) (front : Bytes) (x : ℕ) (xs t : Bytes) (j : ℕ)
    → AllSlash b xs
    → j < length xs
    → is_slash (front ++ (x ∷ (xs ++ t))) (suc (length front + j)) ≡ some b
unfolding is_slash
is_slash-run b front x xs t j h l =
    let index : suc (length front + j) ≡ length front + suc j = omega arith in
    rw index (is_slash-shift front (x ∷ (xs ++ t)) (suc j) ∙ is_slash-AllSlash b xs t j h l)

-- A byte other than a slash, and slashes behind it.
skip_slashes-run :
    (front : Bytes) (x : ℕ) (xs t : Bytes) (j : ℕ)
    → x ≢ slash
    → AllSlash true xs
    → j ≤ length xs
    → skip_slashes (length front + j) (front ++ (x ∷ (xs ++ t))) ≡ some (some (length front))
skip_slashes-run front x xs t zero ne h l =
    let index : length front + 0 ≡ length front = omega arith in
    let other : (x == slash) ≡ false = ground (arith, ne) in
    rw index (
      stop_slashes (length front) (front ++ (x ∷ (xs ++ t)))
        (is_slash-behind front x (xs ++ t) ∙ ap some other))
skip_slashes-run front x xs t (suc j) ne h l =
    let index : length front + suc j ≡ suc (length front + j) = omega arith in
    rw index (
      step_slashes (length front + j) (front ++ (x ∷ (xs ++ t)))
        (is_slash-run true front x xs t j h (omega arith))
      ∙ skip_slashes-run front x xs t j ne h (omega arith))

-- A slash, and a name behind it.
skip_name-run :
    (front xs t : Bytes) (j : ℕ)
    → AllSlash false xs
    → j ≤ length xs
    → skip_name (length front + j) (front ++ (slash ∷ (xs ++ t))) ≡ some (some (length front))
skip_name-run front xs t zero h l =
    let index : length front + 0 ≡ length front = omega arith in
    rw index (
      stop_name (length front) (front ++ (slash ∷ (xs ++ t)))
        (is_slash-behind front slash (xs ++ t)))
skip_name-run front xs t (suc j) h l =
    let index : length front + suc j ≡ suc (length front + j) = omega arith in
    rw index (
      step_name (length front + j) (front ++ (slash ∷ (xs ++ t)))
        (is_slash-run false front slash xs t j h (omega arith))
      ∙ skip_name-run front xs t j h (omega arith))

set-behind :
    (front : Bytes) (c b : ℕ) (rest : Bytes)
    → set (front ++ (c ∷ rest)) (length front) b ≡ front ++ (b ∷ rest)
set-behind [] c b rest = refl
set-behind (x ∷ front) c b rest = ap (λ r. x ∷ r) (set-behind front c b rest)

replicate-cons : (n c : ℕ) (cs : Bytes) → replicate n c ++ (c ∷ cs) ≡ c ∷ (replicate n c ++ cs)
replicate-cons zero c cs = refl
replicate-cons (suc n) c cs = ap (λ r. c ∷ r) (replicate-cons n c cs)

Name-last : (ns : Bytes) (l : ℕ) → Name (ns ++ (l ∷ [])) → l ≢ slash
Name-last [] l h = h.0.1
Name-last (c ∷ ns) l h = Name-last ns l h.1

-- The stages of `dirname` on a directory, `m + 1` slashes, a name and `n` slashes.
module _ (ds : Bytes) (d m : ℕ) (ns : Bytes) (l n : ℕ) (rest : Bytes) where
  abbrev behind : Bytes
  behind = replicate n slash ++ (0 ∷ rest)

  abbrev rest_of_path : Bytes
  rest_of_path = replicate m slash ++ (ns ++ (l ∷ behind))

  abbrev path : Bytes
  path = ds ++ (d ∷ (slash ∷ rest_of_path))

  abbrev whole : Bytes
  whole = ds ++ (d ∷ (slash ∷ (replicate m slash ++ (ns ++ (l ∷ replicate n slash)))))

  abbrev front : Bytes
  front = ds ++ (d ∷ (slash ∷ (replicate m slash ++ ns)))

  abbrev base : Bytes
  base = ds ++ (d ∷ replicate m slash)

  whole-cstring : cstring whole rest ≡ path
  whole-cstring =
      append_assoc ds (d ∷ (slash ∷ (replicate m slash ++ (ns ++ (l ∷ replicate n slash)))))
        (0 ∷ rest)
      ∙ ap (λ u. ds ++ (d ∷ (slash ∷ u)))
          (append_assoc (replicate m slash) (ns ++ (l ∷ replicate n slash)) (0 ∷ rest)
            ∙ ap (λ u. replicate m slash ++ u) (append_assoc ns (l ∷ replicate n slash) (0 ∷ rest)))

  front-path : front ++ (l ∷ behind) ≡ path
  front-path =
      append_assoc ds (d ∷ (slash ∷ (replicate m slash ++ ns))) (l ∷ behind)
      ∙ ap (λ u. ds ++ (d ∷ (slash ∷ u))) (append_assoc (replicate m slash) ns (l ∷ behind))

  base-path : base ++ (slash ∷ ((ns ++ (l ∷ [])) ++ behind)) ≡ path
  base-path =
      append_assoc ds (d ∷ replicate m slash) (slash ∷ ((ns ++ (l ∷ [])) ++ behind))
      ∙ ap (λ u. ds ++ (d ∷ u))
          (replicate-cons m slash ((ns ++ (l ∷ [])) ++ behind)
            ∙ ap (λ u. slash ∷ (replicate m slash ++ u)) (append_assoc ns (l ∷ []) behind))

  length-front : length front ≡ length base + length (ns ++ (l ∷ []))
  length-front = omega (
    arith,
    length-append ds (d ∷ (slash ∷ (replicate m slash ++ ns))),
    length-append (replicate m slash) ns,
    length-append ds (d ∷ replicate m slash),
    length-append ns (l ∷ []),
  )

  length-whole : length whole - 1 ≡ length front + n
  length-whole = omega (
    arith,
    length-append ds (d ∷ (slash ∷ (replicate m slash ++ (ns ++ (l ∷ replicate n slash))))),
    length-append ds (d ∷ (slash ∷ (replicate m slash ++ ns))),
    length-append (replicate m slash) (ns ++ (l ∷ replicate n slash)),
    length-append (replicate m slash) ns,
    length-append ns (l ∷ replicate n slash),
    length-replicate n slash,
  )

  to_front : l ≢ slash → skip_slashes (length whole - 1) path ≡ some (some (length front))
  to_front ne =
      rw (length-whole, ← front-path)
        (skip_slashes-run front l (replicate n slash) (0 ∷ rest) n ne (slashes-AllSlash n)
          (omega (arith, length-replicate n slash)))

  to_base : Name (ns ++ (l ∷ [])) → skip_name (length front) path ≡ some (some (length base))
  to_base name =
      rw (length-front, ← base-path)
        (skip_name-run base (ns ++ (l ∷ [])) behind (length (ns ++ (l ∷ [])))
          (Name-AllSlash (ns ++ (l ∷ [])) name) (omega arith))

  to_end : d ≢ slash → skip_slashes (length base) path ≡ some (some (length ds))
  to_end ne =
      let index : length base ≡ length ds + suc m =
        omega (arith, length-append ds (d ∷ replicate m slash), length-replicate m slash) in
      rw index (
        skip_slashes-run ds d (slash ∷ replicate m slash) (ns ++ (l ∷ behind)) (suc m) ne
          (slashes-AllSlash (suc m)) (omega (arith, length-replicate m slash)))

  cut_path : set path (length ds + 1) 0 ≡ ds ++ (d ∷ (0 ∷ rest_of_path))
  cut_path =
      let index : length ds + 1 ≡ length (ds ++ (d ∷ [])) = sym (length-append ds (d ∷ [])) in
      rw
        (
          index,
          ← append_assoc ds (d ∷ []) (slash ∷ rest_of_path),
          ← append_assoc ds (d ∷ []) (0 ∷ rest_of_path),
        )
        (set-behind (ds ++ (d ∷ [])) slash 0 rest_of_path)

  -- A path of a directory that ends in another byte than a slash, then slashes, a name, and slashes
  -- at will: the result is the directory, since a NUL takes the place of the first slash behind it.
  pub dirname-place :
      d ≢ slash
      → Name (ns ++ (l ∷ []))
      → NoNul whole
      → dirname (some path) ≡ place 0 (ds ++ (d ∷ (0 ∷ rest_of_path)))
  unfolding dirname dir_from behind_slashes behind_name end_at
  dirname-place ne name plain =
      let size : strlen path ≡ some (length whole) =
        rw (← whole-cstring) (strlen-cstring whole rest plain) in
      let some_bytes : (length whole == 0) ≡ false = ground (
        arith,
        length-append ds (d ∷ (slash ∷ (replicate m slash ++ (ns ++ (l ∷ replicate n slash))))),
      ) in
      rw (size, some_bytes, to_front (Name-last ns l name), to_base name, to_end ne, cut_path) refl
