-- ===== src/Str/Search.antt =====
-- `strchr`, `strrchr`, `strcspn` and `strspn`.
use inwox.Base.{
  ℕ, zero, suc, ◌+◌, ◌%◌, ◌<◌, ◌≡◌, refl, ◌≢◌, Bool, false, not, ◌||◌, none, some, [], ◌∷◌, ◌++◌,
  arith, ◌==◌, if◌then◌else◌, length, Bytes,
}
use inwox.Str.{
  Found, strchr_loop, strchr, strrchr_loop, strrchr, occurs, strcspn_loop, strcspn, differs,
  strspn_loop, strspn,
}
use inwox.Str.Text.{NoNul, cstring}

-- The first place of `c`, counted from `i`.
unfoldable pub first_index : ℕ → Bytes → ℕ → Found
first_index c [] i = none
first_index c (x ∷ xs) i = if x == c then some i else first_index c xs (i + 1)

-- The last place of `c`, counted from `i`, with `found` where there is none.
unfoldable pub last_index : ℕ → Bytes → ℕ → Found → Found
last_index c [] i found = found
last_index c (x ∷ xs) i found = last_index c xs (i + 1) (if x == c then some i else found)

strchr_loop-first_index :
    (xs rest : Bytes) (c i : ℕ)
    → NoNul xs
    → strchr_loop c (cstring xs rest) i ≡ some (first_index (c % 256) (xs ++ (0 ∷ [])) i)
unfolding strchr_loop first_index
strchr_loop-first_index [] rest c i h = ground arith
strchr_loop-first_index (x ∷ xs) rest c i h =
    ground (arith, strchr_loop-first_index xs rest c (i + 1) h.1)

-- `strchr` finds the first place of the byte in the string, the terminator counted as one of its
-- bytes, and gives `NULL` if the byte does not occur.
pub strchr-first_index :
    (xs rest : Bytes) (c : ℕ)
    → NoNul xs
    → strchr (cstring xs rest) c ≡ some (first_index (c % 256) (xs ++ (0 ∷ [])) 0)
unfolding strchr
strchr-first_index xs rest c h = strchr_loop-first_index xs rest c 0 h

strrchr_loop-last_index :
    (xs rest : Bytes) (c i : ℕ) (found : Found)
    → NoNul xs
    → strrchr_loop c (cstring xs rest) i found
      ≡ some (last_index (c % 256) (xs ++ (0 ∷ [])) i found)
unfolding strrchr_loop last_index
strrchr_loop-last_index [] rest c i found h = ground arith
strrchr_loop-last_index (x ∷ xs) rest c i found h =
    ground (
      arith,
      strrchr_loop-last_index xs rest c (i + 1) (if x == c % 256 then some i else found) h.1,
    )

-- `strrchr` finds the last place of the byte, the terminator counted.
pub strrchr-last_index :
    (xs rest : Bytes) (c : ℕ)
    → NoNul xs
    → strrchr (cstring xs rest) c ≡ some (last_index (c % 256) (xs ++ (0 ∷ [])) 0 none)
unfolding strrchr
strrchr-last_index xs rest c h = strrchr_loop-last_index xs rest c 0 none h

-- Membership of a byte.
unfoldable pub has : ℕ → Bytes → Bool
has c [] = false
has c (k ∷ ks) = (c == k) || has c ks

pub occurs-has : (c : ℕ) (ks r : Bytes) → NoNul ks → occurs c (cstring ks r) ≡ some (has c ks)
unfolding occurs has
occurs-has c [] r h = refl
occurs-has c (k ∷ ks) r h = ground (arith, occurs-has c ks r h.1)

-- The length of the longest prefix whose bytes all fail the test.
unfoldable pub span_without : Bytes → Bytes → ℕ
span_without ks [] = 0
span_without ks (x ∷ xs) = if has x ks then 0 else span_without ks xs + 1

strcspn_loop-span :
    (xs rest ks r : Bytes) (n : ℕ)
    → NoNul xs
    → NoNul ks
    → strcspn_loop (cstring ks r) (cstring xs rest) n ≡ some (n + span_without ks xs)
unfolding strcspn_loop span_without
strcspn_loop-span [] rest ks r n h k = ground arith
strcspn_loop-span (x ∷ xs) rest ks r n h k =
    ground (arith, occurs-has x ks r k, strcspn_loop-span xs rest ks r (n + 1) h.1 k)

-- `strcspn` is the length of the longest prefix that holds no byte of the second string.
pub strcspn-span :
    (xs rest ks r : Bytes)
    → NoNul xs
    → NoNul ks
    → strcspn (cstring xs rest) (cstring ks r) ≡ some (span_without ks xs)
unfolding strcspn
strcspn-span xs rest ks r h k = ground (arith, strcspn_loop-span xs rest ks r 0 h k)

-- The length of the run of `k` at the front.
unfoldable pub run_of : ℕ → Bytes → ℕ
run_of k [] = 0
run_of k (x ∷ xs) = if x == k then run_of k xs + 1 else 0

differs-single : (c k : ℕ) (s r : Bytes) → k ≢ 0 → differs (c ∷ s) (k ∷ 0 ∷ r) ≡ some (not (c == k))
unfolding differs
differs-single c k s r h = ground arith

strspn_loop-single :
    (fuel : ℕ) (xs rest : Bytes) (k : ℕ) (r : Bytes) (n : ℕ)
    → k ≢ 0
    → length xs < fuel
    → strspn_loop fuel (cstring xs rest) (k ∷ 0 ∷ r) n ≡ some (some (n + run_of k xs))
unfolding strspn_loop run_of
strspn_loop-single zero xs rest k r n hk h = absurd (omega arith)
strspn_loop-single (suc fuel) [] rest k r n hk h = ground (arith, differs-single 0 k rest r hk)
strspn_loop-single (suc fuel) (x ∷ xs) rest k r n hk h = ground (
  arith,
  differs-single x k (cstring xs rest) r hk,
  strspn_loop-single fuel xs rest k r (n + 1) hk,
)

-- With one accepted byte `strspn` is the length of the run of that byte at the front, and ends
-- within one round more than the string is long.
pub strspn-single :
    (fuel : ℕ) (xs rest : Bytes) (k : ℕ) (r : Bytes)
    → k ≢ 0
    → length xs < fuel
    → strspn fuel (cstring xs rest) (k ∷ 0 ∷ r) ≡ some (some (run_of k xs))
unfolding strspn
strspn-single fuel xs rest k r hk h = ground (arith, strspn_loop-single fuel xs rest k r 0 hk h)

-- With two or more accepted bytes, the first two different, `strspn` answers 0 for every string
-- that is not empty, also where its first byte is accepted.
pub strspn-two :
    (fuel : ℕ) (x : ℕ) (s : Bytes) (k l : ℕ) (r : Bytes)
    → k ≢ 0
    → l ≢ 0
    → k ≢ l
    → strspn (suc fuel) (x ∷ s) (k ∷ l ∷ r) ≡ some (some 0)
unfolding strspn strspn_loop differs
strspn-two fuel x s k l r hk hl ne = ground arith

strspn_loop-empty : (fuel : ℕ) (s r : Bytes) (n : ℕ) → strspn_loop fuel s (0 ∷ r) n ≡ some none
unfolding strspn_loop differs
strspn_loop-empty zero s r n = refl
strspn_loop-empty (suc fuel) [] r n = ground (arith, strspn_loop-empty fuel [] r (n + 1))
strspn_loop-empty (suc fuel) (x ∷ s) r n = ground (arith, strspn_loop-empty fuel s r (n + 1))

-- With no accepted byte the loop of `strspn` never ends, whatever the string.
pub strspn-empty : (fuel : ℕ) (s r : Bytes) → strspn fuel s (0 ∷ r) ≡ some none
unfolding strspn
strspn-empty fuel s r = strspn_loop-empty fuel s r 0
