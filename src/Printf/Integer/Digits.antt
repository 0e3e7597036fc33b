-- ===== src/Printf/Integer/Digits.antt =====
-- The digits that `convert_integer` writes: their value, their number, and the write below the buffer.
use inwox.Base.{
  ℕ, zero, suc, ◌+◌, ◌-◌, ◌*◌, ◌/◌, ◌%◌, ◌^◌, ◌≤◌, ◌<◌, ◌≡◌, refl, ap, ◌∙◌, inl, inr, Bool, [], ◌∷◌,
  arith, leb, ◌==◌, ==_iff, if◌then◌else◌, Bool-cases, length, drop, Bytes,
}
use native.Mathlib.Nat.{pow-suc, div-add-mod', mod-lt, div-lt_iff_lt-mul, le_trans}
use inwox.Printf.Integer.{
  digit_char, count_digits, write_digits, convert_integer, digits_of, bits, uintmax_mod,
}

-- The value of a digit, upper or lower case.
unfoldable pub digit_value : ℕ → ℕ
digit_value c = if leb 97 c then c - 87 else if leb 65 c then c - 55 else c - 48

-- The number that a digit string stands for, behind digits of value `n`.
unfoldable pub value_from : ℕ → ℕ → Bytes → ℕ
value_from base n [] = n
value_from base n (c ∷ cs) = value_from base (n * base + digit_value c) cs

digit_value-digit_char : (upper : Bool) (d : ℕ) → d < 16 → digit_value (digit_char upper d) ≡ d
unfolding digit_value digit_char
digit_value-digit_char upper d h = ground arith

div-lt_pow :
    (least base f v : ℕ) → 0 < least → least ≤ base → v < least ^ suc f → v / base < least ^ f
div-lt_pow least base f v pos le h =
    let h' : v < least ^ f * least = rw (← pow-suc least f) h in
    let room : least ^ f * least ≤ least ^ f * base = grind arith in
    (div-lt_iff_lt-mul {k = base} (omega arith)).1 (le_trans h' room)

pub half_pow : (base f v : ℕ) → 2 ≤ base → v < 2 ^ suc f → v / base < 2 ^ f
half_pow base f v two h = div-lt_pow 2 base f v (omega arith) two h

count_digits-zero : (fuel base : ℕ) → count_digits fuel base 0 ≡ 0
unfolding count_digits
count_digits-zero zero base = refl
count_digits-zero (suc fuel) base = refl

drop_all : (xs : Bytes) (n : ℕ) → n ≡ 0 → length xs ≡ n + 1 → drop (length xs - n) xs ≡ []
drop_all [] n z e = absurd (omega arith)
drop_all (x ∷ []) n z e = rw z
drop_all (x ∷ y ∷ xs) n z e = absurd (omega arith)

module _ (upper : Bool) (base : ℕ) (two : 2 ≤ base) (sixteen : base ≤ 16) where
  digit_step : (v : ℕ) → v / base * base + digit_value (digit_char upper (v % base)) ≡ v
  digit_step v =
      let small = mod-lt v {m = base} (omega arith) in
      rw (digit_value-digit_char upper (v % base) (omega arith)) (div-add-mod' v base)

  value-write_digits :
      (fuel v : ℕ) (acc : Bytes)
      → v < 2 ^ fuel
      → value_from base 0 (write_digits fuel upper base v acc) ≡ value_from base v acc
  unfolding write_digits value_from
  value-write_digits zero v acc h = let e : 0 ≡ v = omega arith in ap (λ k. value_from base k acc) e
  value-write_digits (suc f) v acc h = elim (Bool-cases (v / base == 0)) [
    | inl last ↦
        let z : v / base ≡ 0 = (==_iff _ _).0 last in
        let e = rw z at (digit_step v) in rw last (ap (λ k. value_from base k acc) e)
    | inr more ↦ rw more (
        value-write_digits f (v / base) (digit_char upper (v % base) ∷ acc)
          (half_pow base f v two h)
        ∙ ap (λ k. value_from base k acc) (digit_step v))
  ]

  length-write_digits :
      (fuel v : ℕ) (acc : Bytes)
      → v < 2 ^ fuel
      → 0 < fuel
      → length (write_digits fuel upper base v acc)
        ≡ length acc + count_digits fuel base v + (if v == 0 then 1 else 0)
  unfolding write_digits count_digits
  length-write_digits zero v acc h pos = absurd (omega arith)
  length-write_digits (suc zero) v acc h pos = ground arith
  length-write_digits (suc (suc f)) v acc h pos = ground (
    arith,
    length-write_digits (suc f) (v / base) (digit_char upper (v % base) ∷ acc)
        (half_pow base (suc f) v two h) (omega arith),
  )

  -- `convert_integer` writes one byte more than the length that it returns exactly when the value
  -- is 0, and none more otherwise.
  pub convert_integer-written :
      (value : ℕ)
      → value < uintmax_mod
      → length (convert_integer upper base value).written
        ≡ (convert_integer upper base value).length + (if value == 0 then 1 else 0)
  unfolding convert_integer
  convert_integer-written value h = omega (arith, length-write_digits bits value [] h (omega arith))

  -- The digits that are passed on stand for the value, in either case and every base up to 16.
  pub convert_integer-value :
      (value : ℕ)
      → value < uintmax_mod
      → value_from base 0 (digits_of (convert_integer upper base value)) ≡ value
  unfolding convert_integer value_from
  convert_integer-value zero h = ap (value_from base 0) (
      drop_all (convert_integer upper base 0).written (convert_integer upper base 0).length
        (count_digits-zero bits base) (convert_integer-written zero h))
  convert_integer-value (suc v) h =
      let c = convert_integer upper base (suc v) in
      let none_below : length c.written - c.length ≡ 0 =
        ground (arith, convert_integer-written (suc v) h) in
      ap (λ k. value_from base 0 (drop k c.written)) none_below
      ∙ value-write_digits bits (suc v) [] h

  count_digits-le : (fuel k v : ℕ) → 8 ≤ base → v < 8 ^ k → count_digits fuel base v ≤ k
  unfolding count_digits
  count_digits-le zero k v eight h = omega arith
  count_digits-le (suc fuel) zero v eight h = ground arith
  count_digits-le (suc fuel) (suc k) v eight h =
      ground (
        arith,
        count_digits-le fuel k (v / base) eight (div-lt_pow 8 base k v (omega arith) eight h),
      )

  -- In the bases that are used, 22 digits are enough, and `buffer` has room for 24.
  pub convert_integer-bounds :
      (value : ℕ) → 8 ≤ base → value < uintmax_mod → (convert_integer upper base value).length ≤ 22
  unfolding convert_integer
  convert_integer-bounds value eight h = count_digits-le bits 22 value eight (omega arith)
