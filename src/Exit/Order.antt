-- ===== src/Exit/Order.antt =====
-- The order in which the exit handlers are called.
use inwox.Base.{
  ℕ, zero, suc, ◌+◌, ◌-◌, ◌≤◌, ◌<◌, ◌≡◌, refl, sym, ap, ◌∙◌, none, some, List, [], ◌∷◌, ◌++◌, map,
  append-nil, append_assoc, arith, length, get_elem?, replicate, length-append,
}
use inwox.Exit.{
  Table, atexit_max, empty_table, atexit, Act, call_slot, call_from, call_handlers, register,
}

-- The list from its end.
unfoldable pub backwards : List ℕ → List ℕ
backwards [] = []
backwards (x ∷ xs) = backwards xs ++ (x ∷ [])

length-backwards : (xs : List ℕ) → length (backwards xs) ≡ length xs
unfolding backwards
length-backwards [] = refl
length-backwards (x ∷ xs) =
    omega (arith, length-append (backwards xs) (x ∷ []), length-backwards xs)

-- A table whose first slots are taken, with `k` free ones behind.
abbrev pub filled : List ℕ → ℕ → Table
filled funcs k = map some funcs ++ replicate k none

atexit-filled :
    (f : ℕ) (funcs : List ℕ) (k : ℕ)
    → atexit f (filled funcs (suc k)) ≡ some (filled (funcs ++ (f ∷ [])) k)
unfolding atexit
atexit-filled f [] k = refl
atexit-filled f (g ∷ funcs) k = rw (atexit-filled f funcs k) refl

register-filled :
    (gs funcs : List ℕ) (k n : ℕ)
    → n ≡ length gs + k
    → register gs (filled funcs n) ≡ some (filled (funcs ++ gs) k)
unfolding register
register-filled [] funcs k n e =
    let same : n ≡ k = omega (arith, e) in
    ap (λ m. some (filled funcs m)) same ∙ ap (λ xs. some (filled xs k)) (sym (append-nil funcs))
register-filled (g ∷ gs) funcs k zero e = absurd (omega arith)
register-filled (g ∷ gs) funcs k (suc n) e = rw (atexit-filled g funcs n) (
    register-filled gs (funcs ++ (g ∷ [])) k n (omega arith)
    ∙ ap (λ xs. some (filled xs k)) (append_assoc funcs (g ∷ []) gs))

get_elem?-filled :
    (xs : List ℕ) (r : ℕ) (ys : List ℕ) (k n : ℕ)
    → n ≡ length xs
    → get_elem? (filled (xs ++ (r ∷ ys)) k) n ≡ some (some r)
get_elem?-filled [] r ys k zero e = refl
get_elem?-filled [] r ys k (suc n) e = absurd (omega arith)
get_elem?-filled (x ∷ xs) r ys k zero e = absurd (omega arith)
get_elem?-filled (x ∷ xs) r ys k (suc n) e = get_elem?-filled xs r ys k n (omega arith)

get_elem?-free :
    (xs : List ℕ) (k n : ℕ)
    → length xs ≤ n
    → n < length xs + k
    → get_elem? (filled xs k) n ≡ some none
get_elem?-free [] zero n h l = absurd (omega arith)
get_elem?-free [] (suc k) zero h l = refl
get_elem?-free [] (suc k) (suc n) h l = get_elem?-free [] k n (omega arith) (omega arith)
get_elem?-free (x ∷ xs) k zero h l = absurd (omega arith)
get_elem?-free (x ∷ xs) k (suc n) h l = get_elem?-free xs k n (omega arith) (omega arith)

module _ (act : Act) (keeps : (f : ℕ) (t : Table) → act f t ≡ t) where
  call_from-taken :
      (rs ys : List ℕ) (k n : ℕ)
      → n ≡ length rs
      → call_from act n (filled (backwards rs ++ ys) k) ≡ rs
  unfolding call_from call_slot backwards
  call_from-taken [] ys k zero e = refl
  call_from-taken [] ys k (suc n) e = absurd (omega arith)
  call_from-taken (r ∷ rs) ys k zero e = absurd (omega arith)
  call_from-taken (r ∷ rs) ys k (suc n) e =
      let at = get_elem?-filled (backwards rs) r ys k n (omega (arith, length-backwards rs)) in
      rw
        (append_assoc (backwards rs) (r ∷ []) ys, at, keeps r (filled (backwards rs ++ (r ∷ ys)) k))
        (ap (◌∷◌ r) (call_from-taken rs (r ∷ ys) k n (omega arith)))

  call_from-free :
      (xs : List ℕ) (k i : ℕ)
      → i ≤ k
      → call_from act (length xs + i) (filled xs k) ≡ call_from act (length xs) (filled xs k)
  unfolding call_from call_slot
  call_from-free xs k zero h = ap (λ n. call_from act n (filled xs k)) (omega arith)
  call_from-free xs k (suc i) h =
      let next : length xs + suc i ≡ suc (length xs + i) = omega arith in
      let free = get_elem?-free xs k (length xs + i) (omega arith) (omega arith) in
      ap (λ n. call_from act n (filled xs k)) next ∙ rw free (call_from-free xs k i (omega arith))

  -- Up to 32 handlers are all registered, and at exit they are called in the reverse order, each
  -- once, if none of them changes the table.
  pub call_handlers-backwards :
      (rs : List ℕ)
      → length rs ≤ atexit_max
      → (slots : Table) × (register (backwards rs) empty_table ≡ some slots)
        × (call_handlers act slots ≡ rs)
  unfolding call_handlers
  call_handlers-backwards rs h =
      let k = 32 - length rs in
      let size : 32 ≡ length (backwards rs) + k = omega (arith, length-backwards rs) in
      (
        filled (backwards rs) k,
        register-filled (backwards rs) [] k 32 size,
        ap (λ n. call_from act n (filled (backwards rs) k)) size
            ∙ call_from-free (backwards rs) k k (omega arith)
            ∙ ap (λ xs. call_from act (length (backwards rs)) (filled xs k))
                (sym (append-nil (backwards rs)))
            ∙ call_from-taken rs [] k (length (backwards rs)) (length-backwards rs),
      )

-- With every slot taken `atexit` fails.
pub atexit-full : (f : ℕ) (funcs : List ℕ) → atexit f (filled funcs 0) ≡ none
unfolding atexit
atexit-full f [] = refl
atexit-full f (g ∷ funcs) = rw (atexit-full f funcs) refl
