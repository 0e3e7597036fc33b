-- ===== src/Random.antt =====
-- libc/src/stdlib/rand.c and rand_r.c: the pseudorandom numbers, with the seed as a state.
use inwox.Base.{ℕ, ◌+◌, ◌*◌, ◌/◌, ◌%◌, ◌^◌, ◌<◌, ◌≡◌, arith}
use Prim.Native.Nat.{bit_and, bit_xor}

-- The number, and the seed then, which has 64 bits.
unfoldable pub rand : ℕ → ℕ × ℕ
rand seed = let next = (6364136223846793005 * seed + 73) % 2 ^ 64 in (next / 2 ^ 33, next)

unfoldable pub srand : ℕ → ℕ
srand s = s

unfoldable pub temper : ℕ → ℕ
temper x =
    let a = bit_xor x (x / 2 ^ 11) in
    let b = bit_xor a (bit_and ((a * 2 ^ 7) % 2 ^ 32) 0x9D2C5680) in
    let c = bit_xor b (bit_and ((b * 2 ^ 15) % 2 ^ 32) 0xEFC60000) in bit_xor c (c / 2 ^ 18)

unfoldable pub rand_r : ℕ → ℕ × ℕ
rand_r seed = let next = (seed * 1103515245 + 12345) % 2 ^ 32 in (temper next / 2, next)

-- A number is an int that is not negative, whatever the seed.
pub rand-lt : (seed : ℕ) → (rand seed).0 < 2 ^ 31
unfolding rand
rand-lt seed = omega arith

-- Different seeds of 64 bits have different successors.
pub rand-injective : (a b : ℕ) → a < 2 ^ 64 → b < 2 ^ 64 → (rand a).1 ≡ (rand b).1 → a ≡ b
unfolding rand
rand-injective a b ha hb e = omega (arith, e)
