-- ===== src/Printf/Out/Counting.antt =====
-- What a run that returns has appended to a buffer: the rules for counting bytes.
use inwox.Base.{
  ℕ, zero, suc, ◌+◌, ◌-◌, ◌≡◌, refl, Bool, true, false, [], ◌∷◌, ◌++◌, arith, ◌==◌, if◌then◌else◌,
  length, length-append, Bytes,
}
use inwox.Printf.Out.{
  Callback, Run, returned, failed, overflowed, undefined, Cmd, pure, and_then, ◌>>◌, put, put_times,
  pad,
}

-- A callback that appends what it is given to a buffer and accepts all of it.
abbrev pub collect : Callback Bytes
collect s text = (s ++ text, length text)

-- If the run returns, its value and final state meet `P`.
abbrev pub Ensures {κ} : {S A : Type 0} → (A → S → Type κ) → Run S A → Type κ
Ensures P (returned a s) = P a s
Ensures P (failed s) = Unit
Ensures P (overflowed s) = Unit
Ensures P undefined = Unit

pub Ensures-and_then :
    {S A B : Type 0} (P : A → S → Type 0) (Q : B → S → Type 0) (r : Run S A) (f : A → Cmd S B)
    → Ensures P r
    → ((a : A) (s : S) → P a s → Ensures Q (f a s))
    → Ensures Q (and_then r f)
Ensures-and_then P Q (returned a s) f h k = k a s h
Ensures-and_then P Q (failed s) f h k = tt
Ensures-and_then P Q (overflowed s) f h k = tt
Ensures-and_then P Q undefined f h k = tt

pub Ensures-mono :
    {S A : Type 0} (P Q : A → S → Type 0) (r : Run S A)
    → Ensures P r
    → ((a : A) (s : S) → P a s → Q a s)
    → Ensures Q r
Ensures-mono P Q (returned a s) h k = k a s h
Ensures-mono P Q (failed s) h k = tt
Ensures-mono P Q (overflowed s) h k = tt
Ensures-mono P Q undefined h k = tt

-- The command returns `w` if it returns, and appends `k` bytes.
abbrev pub Writes : {A : Type 0} → Cmd Bytes A → A → ℕ → Type 0
Writes m w k = (s : Bytes) → Ensures (λ a s'. (a ≡ w) × (length s' ≡ length s + k)) (m s)

pub Writes-pure : {A : Type 0} (a : A) → Writes (pure a) a 0
Writes-pure a s = (refl, omega arith)

pub Writes-then :
    {A : Type 0} (m : Cmd Bytes (Unit {0})) (n : Cmd Bytes A) (k l t : ℕ) (w : A)
    → Writes m tt k
    → Writes n w l
    → k + l ≡ t
    → Writes (m >> n) w t
Writes-then m n k l t w hm hn e s =
    Ensures-and_then (λ a s'. (a ≡ tt) × (length s' ≡ length s + k))
      (λ a s'. (a ≡ w) × (length s' ≡ length s + t)) (m s) (λ _. n) (hm s)
      λ _ s' h.
        Ensures-mono (λ a s''. (a ≡ w) × (length s'' ≡ length s' + l))
          (λ a s''. (a ≡ w) × (length s'' ≡ length s + t)) (n s') (hn s')
          λ a s'' g. (g.0, omega (arith, h.1, g.1))

pub Writes-if :
    (b : Bool) (m n : Cmd Bytes (Unit {0})) (k l : ℕ)
    → Writes m tt k
    → Writes n tt l
    → Writes (if b then m else n) tt (if b then k else l)
Writes-if true m n k l hm hn = hm
Writes-if false m n k l hm hn = hn

pub Writes-put : (text : Bytes) → Writes (put collect text) tt (length text)
unfolding put
Writes-put text s =
    let same : (length text == length text) ≡ true = ground arith in
    rw same (refl, length-append s text)

Writes-put_times : (n c : ℕ) → Writes (put_times collect n c) tt n
unfolding put_times
Writes-put_times zero c = Writes-pure tt
Writes-put_times (suc n) c =
    Writes-then (put collect (c ∷ [])) (put_times collect n c) 1 n (suc n) tt (Writes-put (c ∷ []))
      (Writes-put_times n c) (omega arith)

pub Writes-pad : (c from to : ℕ) → Writes (pad collect c from to) tt (to - from)
unfolding pad
Writes-pad c from to = Writes-put_times (to - from) c
