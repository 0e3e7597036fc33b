-- ===== src/Printf/Format/Verbatim.antt =====
-- `vcbprintf` on formats without a conversion: it is certain to return.
use inwox.Base.{
  ℕ, zero, suc, ◌+◌, ◌≤◌, ◌<◌, ◌≡◌, refl, sym, ap, ◌∙◌, ◌≢◌, true, false, List, [], ◌∷◌, ◌++◌,
  append-nil, append_assoc, arith, leb, ◌==◌, length, All, length-append, Bytes,
}
use inwox.Str.Text.{NoNul, cstring}
use inwox.Printf.Out.{returned, int_max, add_int}
use inwox.Printf.Out.Counting.{collect}
use inwox.Printf.Out.Appending.{Appends-put}
use inwox.Printf.Directive.{Arg}
use inwox.Printf.Format.{Progress, increment, put_literal, format_loop, vcbprintf}

abbrev later : Progress → ℕ → Progress
later pr n = record pr { result = pr.result + n }

put_literal-returned :
    (c : ℕ) (pr : Progress) (s : Bytes)
    → pr.result + 1 ≤ int_max
    → put_literal collect c pr s ≡ returned (later pr 1) (s ++ (c ∷ []))
unfolding put_literal increment add_int
put_literal-returned c pr s h =
    let fits : leb (pr.result + 1) int_max ≡ true = ground arith in
    rw (Appends-put (c ∷ []) s, fits) refl

-- Bytes that do not begin a conversion.
abbrev pub NoPercent : Bytes → Type 0
NoPercent = All (λ c. c ≢ b'%')

format_loop-verbatim :
    (xs rest : Bytes) (fuel : ℕ) (pr : Progress) (s : Bytes)
    → NoNul xs
    → NoPercent xs
    → length xs < fuel
    → pr.result + length xs ≤ int_max
    → format_loop collect fuel (cstring xs rest) pr s ≡ returned (later pr (length xs)) (s ++ xs)
unfolding format_loop
format_loop-verbatim xs rest zero pr s h p l b = absurd (omega arith)
format_loop-verbatim [] rest (suc fuel) pr s h p l b =
    let same : pr.result ≡ pr.result + 0 = omega arith in
    ap (λ n. returned (record pr { result = n }) s) same
    ∙ ap (returned (later pr 0)) (sym (append-nil s))
format_loop-verbatim (x ∷ xs) rest (suc fuel) pr s h p l b =
    let other : (x == 0) ≡ false = ground arith in
    let literal : (x == b'%') ≡ false = ground arith in
    rw (other, literal, put_literal-returned x pr s (omega arith))
      (format_loop-verbatim xs rest fuel (later pr 1) (s ++ (x ∷ [])) h.1 p.1 (omega arith)
          (omega arith)
        ∙ ap (λ n. returned (record pr { result = n }) ((s ++ (x ∷ [])) ++ xs)) (omega arith)
        ∙ ap (returned (later pr (suc (length xs)))) (append_assoc s (x ∷ []) xs))

-- A format that has no `%` and is at most 2147483647 bytes long is written as it stands, and the
-- result is its length.
pub vcbprintf-verbatim :
    (xs rest : Bytes) (vl : List Arg) (s : Bytes)
    → NoNul xs
    → NoPercent xs
    → length xs ≤ int_max
    → vcbprintf collect (cstring xs rest) vl s ≡ returned (length xs, []) (s ++ xs)
unfolding vcbprintf
vcbprintf-verbatim xs rest vl s h p b =
    rw
      (format_loop-verbatim xs rest (length (cstring xs rest) + 1)
        (record { result = 0; vl = vl; stored = [] }) s h p
        (omega (arith, length-append xs (0 ∷ rest))) (omega arith))
      (ap (λ n. returned (n, []) (s ++ xs)) (omega arith))
