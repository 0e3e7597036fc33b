-- ===== src/Printf/Out.antt =====
-- Runs of the printf family over a callback, and the loops that print padding.
pub mod Counting
pub mod Appending
use inwox.Base.{
  ℕ, zero, suc, ◌+◌, ◌-◌, ◌*◌, ◌/◌, ◌%◌, ◌^◌, ◌≤◌, ◌<◌, min, ◌≡◌, refl, sym, ap, ◌∙◌, ◌≢◌, ◌↔◌, ◌⊎◌,
  inl, inr, Bool, true, false, not, ◌&&◌, ◌||◌, Option, none, some, List, [], ◌∷◌, ◌++◌, map,
  append-nil, append_assoc, arith, ltb, leb, ◌==◌, ==_iff, if◌then◌else◌, Bool-cases, Option-cases,
  length, get_elem?, set, take, drop, replicate, All, length-append, length-replicate, length-set,
  Bytes,
}

-- `callback(param, s, length)`: the state that `param` points to, and the count that is returned.
abbrev pub Callback : Type 0 → Type 0
Callback S = S → Bytes → S × ℕ

-- `returned` is a result that is not negative, `failed` a return of -1 after a callback that wrote
-- less, `overflowed` a return of -1 with EOVERFLOW. `undefined` is behaviour that C leaves open: an
-- access out of bounds, an int that overflows, an argument of another type.
pub data Run (S A : Type 0) : Type 0 where
  returned : A → S → Run S A
  failed : S → Run S A
  overflowed : S → Run S A
  undefined : Run S A

-- A command over the callback's state.
abbrev pub Cmd : Type 0 → Type 0 → Type 0
Cmd S A = S → Run S A

abbrev pub pure : {S A : Type 0} → A → Cmd S A
pure = returned

abbrev pub and_then : {S A B : Type 0} → Run S A → (A → Cmd S B) → Run S B
and_then (returned a s) f = f a s
and_then (failed s) f = failed s
and_then (overflowed s) f = overflowed s
and_then undefined f = undefined

infixl 5 ◌>>=◌ ◌>>◌
abbrev pub ◌>>=◌ : {S A B : Type 0} → Cmd S A → (A → Cmd S B) → Cmd S B
m >>= f = λ s. and_then (m s) f

abbrev pub ◌>>◌ : {S B : Type 0} → Cmd S (Unit {0}) → Cmd S B → Cmd S B
m >> k = m >>= λ _. k

abbrev pub int_max : ℕ
int_max = 2 ^ 31 - 1

-- `__builtin_add_overflow(a, b, &r)` on ints, with the exit that the code takes on overflow.
unfoldable pub add_int : {S : Type 0} → ℕ → ℕ → Cmd S ℕ
add_int a b s = if leb (a + b) int_max then returned (a + b) s else overflowed s

module _ {S : Type 0} (callback : Callback S) where
  -- `if (callback(param, text, n) != n) return -1`.
  unfoldable pub put : Bytes → Cmd S (Unit {0})
  put text s =
      let (s', written) = callback s text in
      if written == length text then returned tt s' else failed s'

  -- `for (int i = from; i < to; i++)` around the write of one byte, on the rounds left.
  unfoldable pub put_times : ℕ → ℕ → Cmd S (Unit {0})
  put_times zero c = pure tt
  put_times (suc n) c = put (c ∷ []) >> put_times n c

  unfoldable pub pad : ℕ → ℕ → ℕ → Cmd S (Unit {0})
  pad c from to = put_times (to - from) c

-- `noop_callback` accepts all that it is given.
unfoldable pub noop_callback : {S : Type 0} → Callback S
noop_callback s text = (s, length text)
