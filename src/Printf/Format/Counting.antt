-- ===== src/Printf/Format/Counting.antt =====
-- `vcbprintf` returns the number of bytes that it wrote.
use inwox.Base.{
  ℕ, zero, suc, ◌+◌, ◌%◌, ◌^◌, ◌<◌, ◌≡◌, refl, ap, inl, inr, Bool, true, false, ◌||◌, Option, none,
  some, List, [], ◌∷◌, arith, ltb, leb, ◌==◌, if◌then◌else◌, Bool-cases, length, take, Bytes,
}
use inwox.Printf.Out.{Run, Cmd, and_then, ◌>>=◌, ◌>>◌, int_max, add_int, put}
use inwox.Printf.Out.Counting.{collect, Ensures, Ensures-and_then, Ensures-mono, Writes-put}
use inwox.Printf.Integer.{uintmax_mod, Flags, print_string}
use inwox.Printf.Integer.Counting.{add_int-IsAdd, print_string-Writes, print_integer-CountsFrom}
use inwox.Printf.Directive.{
  Length, char_hh, short_h, int_default, long_l, long_long_ll, intmax_j, size_z, ptrdiff_t,
  long_double_l, Arg, word, dword, text, int_pointer, next_word, next_dword,
}
use inwox.Printf.Format.{
  sign_extend, word_as, unsigned_value, signed_value, fetch_value, Spec, parse_spec, Progress,
  increment, lift, overflow, alternative_only, string_size, is_unsigned, is_signed, next_text,
  next_int_pointer, number_precision, number_flags, convert_number, convert_char, convert_string,
  convert_pointer, convert_count, convert_percent, convert, put_literal, literal_loop, after_switch,
  at_specifier, directive, format_loop, vcbprintf,
}

-- The buffer has grown by the result so far, from `d` bytes.
abbrev Grown : ℕ → Progress → Bytes → Type 0
Grown d pr s = length s ≡ d + pr.result

abbrev KeepsCount : ℕ → Cmd Bytes Progress → Bytes → Type 0
KeepsCount d m s = Ensures (Grown d) (m s)

increment-Grown :
    (d x : ℕ) (vl : List Arg) (pr : Progress) (s : Bytes)
    → length s ≡ d + pr.result + x
    → KeepsCount d (increment x vl pr) s
unfolding increment
increment-Grown d x vl pr s h =
    Ensures-and_then (λ r s'. (r ≡ pr.result + x) × (s' ≡ s)) (Grown d) (add_int pr.result x s) _
      (add_int-IsAdd pr.result x s) λ r s' e. omega (arith, h, e.0, ap length e.1)

-- A number of bytes is written and then added to the result.
printed-Grown :
    (d : ℕ) (r : Run Bytes ℕ) (vl : List Arg) (pr : Progress) (s : Bytes)
    → Grown d pr s
    → Ensures (λ n s'. length s' ≡ length s + n) r
    → Ensures (Grown d) (and_then r λ n. increment n vl pr)
printed-Grown d r vl pr s g h =
    Ensures-and_then (λ n s'. length s' ≡ length s + n) (Grown d) r (λ n. increment n vl pr) h
      λ n s' e. increment-Grown d n vl pr s' (omega (arith, g, e))

put_one-Grown :
    (d c : ℕ) (vl : List Arg) (pr : Progress) (s : Bytes)
    → Grown d pr s
    → KeepsCount d (put collect (c ∷ []) >> increment 1 vl pr) s
put_one-Grown d c vl pr s g =
    Ensures-and_then (λ a s'. (a ≡ tt) × (length s' ≡ length s + 1)) (Grown d)
      (put collect (c ∷ []) s) (λ _. increment 1 vl pr) (Writes-put (c ∷ []) s)
      λ _ s' e. increment-Grown d 1 vl pr s' (omega (arith, g, e.1))

lift-Grown :
    {A : Type 0} (d : ℕ) (o : Option A) (f : A → Cmd Bytes Progress) (s : Bytes)
    → ((a : A) → o ≡ some a → KeepsCount d (f a) s)
    → KeepsCount d (lift o >>= f) s
unfolding lift
lift-Grown d none f s h = tt
lift-Grown d (some a) f s h = h a refl

print_string-counts :
    (t : Bytes) (w : ℕ) (flags : Flags) (s : Bytes)
    → Ensures (λ n s'. length s' ≡ length s + n) (print_string collect t w flags s)
print_string-counts t w flags s =
    let k = if leb w (length t) then length t else w in
    Ensures-mono (λ n s'. (n ≡ k) × (length s' ≡ length s + k)) (λ n s'. length s' ≡ length s + n) _
      (print_string-Writes t w flags s) λ n s' e. omega (arith, e.0, e.1)

sign_extend_bounds :
    (v : ℕ)
    → (sign_extend 8 v < uintmax_mod)
      × (sign_extend 16 v < uintmax_mod)
      × (sign_extend 32 v < uintmax_mod)
unfolding sign_extend
sign_extend_bounds v = (ground arith, ground arith, ground arith)

abbrev IsBounded : Option (ℕ × List Arg) → Type 0
IsBounded none = Unit
IsBounded (some (v, vl)) = v < uintmax_mod

word_as-IsBounded :
    (cast : ℕ → ℕ) (vl : List Arg)
    → ((w : ℕ) → w < 2 ^ 32 → cast w < uintmax_mod)
    → IsBounded (word_as cast vl)
unfolding word_as next_word
word_as-IsBounded cast [] h = tt
word_as-IsBounded cast (word w ∷ vl) h = h (w % 2 ^ 32) (omega arith)
word_as-IsBounded cast (dword w ∷ vl) h = tt
word_as-IsBounded cast (text w ∷ vl) h = tt
word_as-IsBounded cast (int_pointer ∷ vl) h = tt

next_word-IsBounded : (vl : List Arg) → IsBounded (next_word vl)
unfolding next_word
next_word-IsBounded [] = tt
next_word-IsBounded (word w ∷ vl) = omega arith
next_word-IsBounded (dword w ∷ vl) = tt
next_word-IsBounded (text w ∷ vl) = tt
next_word-IsBounded (int_pointer ∷ vl) = tt

next_dword-IsBounded : (vl : List Arg) → IsBounded (next_dword vl)
unfolding next_dword
next_dword-IsBounded [] = tt
next_dword-IsBounded (word w ∷ vl) = tt
next_dword-IsBounded (dword w ∷ vl) = omega arith
next_dword-IsBounded (text w ∷ vl) = tt
next_dword-IsBounded (int_pointer ∷ vl) = tt

unsigned_value-IsBounded : (l : Length) (vl : List Arg) → IsBounded (unsigned_value l vl)
unfolding unsigned_value
unsigned_value-IsBounded char_hh vl = word_as-IsBounded _ vl (λ w h. omega arith)
unsigned_value-IsBounded short_h vl = word_as-IsBounded _ vl (λ w h. omega arith)
unsigned_value-IsBounded int_default vl = word_as-IsBounded _ vl (λ w h. omega arith)
unsigned_value-IsBounded long_l vl = word_as-IsBounded _ vl (λ w h. omega arith)
unsigned_value-IsBounded long_long_ll vl = next_dword-IsBounded vl
unsigned_value-IsBounded intmax_j vl = next_dword-IsBounded vl
unsigned_value-IsBounded size_z vl = word_as-IsBounded _ vl (λ w h. omega arith)
unsigned_value-IsBounded ptrdiff_t vl =
    word_as-IsBounded (sign_extend 32) vl (λ w h. (sign_extend_bounds w).2)
unsigned_value-IsBounded long_double_l vl = omega arith

signed_value-IsBounded : (l : Length) (vl : List Arg) → IsBounded (signed_value l vl)
unfolding signed_value
signed_value-IsBounded char_hh vl =
    word_as-IsBounded (sign_extend 8) vl (λ w h. (sign_extend_bounds w).0)
signed_value-IsBounded short_h vl =
    word_as-IsBounded (sign_extend 16) vl (λ w h. (sign_extend_bounds w).1)
signed_value-IsBounded long_long_ll vl = next_dword-IsBounded vl
signed_value-IsBounded intmax_j vl = next_dword-IsBounded vl
signed_value-IsBounded long_double_l vl = omega arith
signed_value-IsBounded _ vl =
    word_as-IsBounded (sign_extend 32) vl (λ w h. (sign_extend_bounds w).2)

fetch_value-IsBounded :
    (specifier : ℕ) (l : Length) (vl : List Arg) → IsBounded (fetch_value specifier l vl)
unfolding fetch_value
fetch_value-IsBounded specifier l vl = elim (Bool-cases (is_unsigned specifier)) [
  | inl u ↦ rw u (unsigned_value-IsBounded l vl)
  | inr nu ↦ rw nu (elim (Bool-cases (is_signed specifier)) [
    | inl i ↦ rw i (signed_value-IsBounded l vl)
    | inr other ↦ rw other (omega arith)
  ])
]

convert_number-KeepsCount :
    (d specifier : ℕ) (sp : Spec) (pr : Progress) (s : Bytes)
    → Grown d pr s
    → KeepsCount d (convert_number collect specifier sp pr) s
unfolding convert_number
convert_number-KeepsCount d specifier sp pr s g =
    lift-Grown d (fetch_value specifier sp.length sp.vl) _ s λ a e. printed-Grown d _ a.1 pr s g (
      print_integer-CountsFrom specifier a.0 sp.field_width (number_precision sp.precision)
        (number_flags sp.precision sp.flags) s
        (rw e at (fetch_value-IsBounded specifier sp.length sp.vl)))

convert_char-KeepsCount :
    (d : ℕ) (sp : Spec) (pr : Progress) (s : Bytes)
    → Grown d pr s
    → KeepsCount d (convert_char collect sp pr) s
unfolding convert_char
convert_char-KeepsCount d sp pr s g = lift-Grown d (next_word sp.vl) _ s λ a e.
    printed-Grown d _ a.1 pr s g (print_string-counts ((a.0 % 256) ∷ []) sp.field_width sp.flags s)

convert_string-KeepsCount :
    (d : ℕ) (sp : Spec) (pr : Progress) (s : Bytes)
    → Grown d pr s
    → KeepsCount d (convert_string collect sp pr) s
unfolding convert_string overflow
convert_string-KeepsCount d sp pr s g = lift-Grown d (next_text sp.vl) _ s λ a e.
    lift-Grown d (string_size a.0 sp.precision) _ s λ size e'.
      elim (Bool-cases (ltb int_max size)) [
        | inl over ↦ rw over tt
        | inr fits ↦ rw fits (
            printed-Grown d _ a.1 pr s g
              (print_string-counts (take size a.0) sp.field_width sp.flags s))
      ]

convert_pointer-KeepsCount :
    (d : ℕ) (sp : Spec) (pr : Progress) (s : Bytes)
    → Grown d pr s
    → KeepsCount d (convert_pointer collect sp pr) s
unfolding convert_pointer
convert_pointer-KeepsCount d sp pr s g = lift-Grown d (next_word sp.vl) _ s λ a e.
    printed-Grown d _ a.1 pr s g (
      print_integer-CountsFrom b'x' a.0 0 1 alternative_only s
        (rw e at (next_word-IsBounded sp.vl)))

convert_count-KeepsCount :
    (d : ℕ) (sp : Spec) (pr : Progress) (s : Bytes)
    → Grown d pr s
    → KeepsCount d (convert_count collect sp pr) s
unfolding convert_count
convert_count-KeepsCount d sp pr s g = lift-Grown d (next_int_pointer sp.vl) _ s λ a e. g

abbrev ConvertKeeps : ℕ → Option (Cmd Bytes Progress) → Bytes → Type 0
ConvertKeeps d none s = Unit
ConvertKeeps d (some m) s = KeepsCount d m s

-- A branch of the switch.
ConvertKeeps-if :
    (d : ℕ) (b : Bool) (m n : Option (Cmd Bytes Progress)) (s : Bytes)
    → ConvertKeeps d m s
    → ConvertKeeps d n s
    → ConvertKeeps d (if b then m else n) s
ConvertKeeps-if d true m n s h k = h
ConvertKeeps-if d false m n s h k = k

convert-KeepsCount :
    (d specifier : ℕ) (sp : Spec) (pr : Progress) (s : Bytes)
    → Grown d pr s
    → ConvertKeeps d (convert collect specifier sp pr) s
unfolding convert convert_percent
convert-KeepsCount d specifier sp pr s g =
    ConvertKeeps-if d (is_unsigned specifier || is_signed specifier) _ _ s
      (convert_number-KeepsCount d specifier sp pr s g)
      (ConvertKeeps-if d (specifier == b'c') _ _ s (convert_char-KeepsCount d sp pr s g) (
        ConvertKeeps-if d (specifier == b's') _ _ s (convert_string-KeepsCount d sp pr s g) (
          ConvertKeeps-if d (specifier == b'p') _ _ s (convert_pointer-KeepsCount d sp pr s g) (
            ConvertKeeps-if d (specifier == b'n') _ _ s (convert_count-KeepsCount d sp pr s g) (
              ConvertKeeps-if d (specifier == b'%') (some (convert_percent collect sp pr)) none s
                (put_one-Grown d b'%' sp.vl pr s g) tt)))))

literal_loop-KeepsCount :
    (format : Bytes) (d : ℕ) (pr : Progress) (s : Bytes)
    → Grown d pr s
    → KeepsCount d (literal_loop collect format pr) s
unfolding literal_loop put_literal
literal_loop-KeepsCount [] d pr s g = tt
literal_loop-KeepsCount (c ∷ format) d pr s g = elim (Bool-cases (c == 0)) [
  | inl end ↦ rw end g
  | inr more ↦ rw more (
      Ensures-and_then (Grown d) (Grown d) _ _ (put_one-Grown d c pr.vl pr s g)
        λ pr' s' g'. literal_loop-KeepsCount format d pr' s' g')
]

-- A command for the rest of the format keeps the count.
abbrev NextKeeps : ℕ → (Bytes → Progress → Cmd Bytes Progress) → Type 0
NextKeeps d next =
    (format : Bytes) (pr : Progress) (s : Bytes) → Grown d pr s → KeepsCount d (next format pr) s

module _ (d : ℕ) (next : Bytes → Progress → Cmd Bytes Progress) (k : NextKeeps d next)
    (begin : Bytes) (pr : Progress) (s : Bytes) (g : Grown d pr s) where
  after_switch-KeepsCount :
      (m : Option (Cmd Bytes Progress)) (rest : Bytes)
      → ConvertKeeps d m s
      → KeepsCount d (after_switch collect next begin m rest pr) s
  unfolding after_switch
  after_switch-KeepsCount none rest h = literal_loop-KeepsCount begin d pr s g
  after_switch-KeepsCount (some m) rest h =
      Ensures-and_then (Grown d) (Grown d) (m s) (next rest) h λ pr' s' g'. k rest pr' s' g'

  at_specifier-KeepsCount :
      (format : Bytes) (sp : Spec) → KeepsCount d (at_specifier collect next begin format sp pr) s
  unfolding at_specifier
  at_specifier-KeepsCount [] sp = tt
  at_specifier-KeepsCount (c ∷ rest) sp =
      after_switch-KeepsCount (convert collect c sp pr) rest (convert-KeepsCount d c sp pr s g)

  directive-KeepsCount : (o : Option Spec) → KeepsCount d (directive collect next begin o pr) s
  unfolding directive
  directive-KeepsCount none = tt
  directive-KeepsCount (some sp) = at_specifier-KeepsCount sp.format sp

format_loop-KeepsCount : (fuel d : ℕ) → NextKeeps d (format_loop collect fuel)
unfolding format_loop put_literal
format_loop-KeepsCount zero d format pr s g = tt
format_loop-KeepsCount (suc fuel) d [] pr s g = tt
format_loop-KeepsCount (suc fuel) d (c ∷ format) pr s g = elim (Bool-cases (c == 0)) [
  | inl end ↦ rw end g
  | inr more ↦ rw more (elim (Bool-cases (c == b'%')) [
    | inl percent ↦ rw percent (
        directive-KeepsCount d (format_loop collect fuel) (format_loop-KeepsCount fuel d)
          (c ∷ format) pr s g (parse_spec format pr.vl))
    | inr literal ↦ rw literal (
        Ensures-and_then (Grown d) (Grown d) _ _ (put_one-Grown d c pr.vl pr s g)
          λ pr' s' g'. format_loop-KeepsCount fuel d format pr' s' g')
  ])
]

-- A call of `vcbprintf` that returns a result, not an error, returns the number of bytes that it
-- passed to the callback, for every format and all arguments.
pub vcbprintf-counts :
    (format : Bytes) (vl : List Arg) (s : Bytes)
    → Ensures (λ r s'. length s' ≡ length s + r.0) (vcbprintf collect format vl s)
unfolding vcbprintf
vcbprintf-counts format vl s =
    Ensures-and_then (Grown (length s)) (λ r s'. length s' ≡ length s + r.0) _ _
      (format_loop-KeepsCount (length format + 1) (length s) format _ s (omega arith)) λ pr s' g. g
