-- ===== src/Printf/Out/Appending.antt =====
-- What a command appends to a buffer when it is certain to return.
use inwox.Base.{
  ℕ, zero, suc, ◌-◌, ◌≡◌, refl, sym, ap, ◌∙◌, Bool, true, false, [], ◌∷◌, ◌++◌, append-nil,
  append_assoc, arith, ◌==◌, if◌then◌else◌, length, replicate, Bytes,
}
use inwox.Printf.Out.{returned, Cmd, pure, and_then, ◌>>◌, put, put_times, pad}
use inwox.Printf.Out.Counting.{collect}

-- The command returns `w` after it has appended `text`, whatever the buffer holds.
abbrev pub Appends : {A : Type 0} → Cmd Bytes A → A → Bytes → Type 0
Appends m w text = (s : Bytes) → m s ≡ returned w (s ++ text)

pub Appends-pure : {A : Type 0} (a : A) → Appends (pure a) a []
Appends-pure a s = ap (returned a) (sym (append-nil s))

pub Appends-then :
    {A : Type 0} (m : Cmd Bytes (Unit {0})) (n : Cmd Bytes A) (w : A) (xs ys : Bytes)
    → Appends m tt xs
    → Appends n w ys
    → Appends (m >> n) w (xs ++ ys)
Appends-then m n w xs ys hm hn s =
    ap (λ r. and_then r (λ _. n)) (hm s) ∙ hn (s ++ xs) ∙ ap (returned w) (append_assoc s xs ys)

pub Appends-if :
    (b : Bool) (m n : Cmd Bytes (Unit {0})) (xs ys : Bytes)
    → Appends m tt xs
    → Appends n tt ys
    → Appends (if b then m else n) tt (if b then xs else ys)
Appends-if true m n xs ys hm hn = hm
Appends-if false m n xs ys hm hn = hn

pub Appends-put : (text : Bytes) → Appends (put collect text) tt text
unfolding put
Appends-put text s = let same : (length text == length text) ≡ true = ground arith in rw same refl

Appends-put_times : (n c : ℕ) → Appends (put_times collect n c) tt (replicate n c)
unfolding put_times
Appends-put_times zero c = Appends-pure tt
Appends-put_times (suc n) c =
    Appends-then (put collect (c ∷ [])) (put_times collect n c) tt (c ∷ []) (replicate n c)
      (Appends-put (c ∷ [])) (Appends-put_times n c)

pub Appends-pad : (c from to : ℕ) → Appends (pad collect c from to) tt (replicate (to - from) c)
unfolding pad
Appends-pad c from to = Appends-put_times (to - from) c
