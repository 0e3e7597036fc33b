-- ===== src/Str/Move.antt =====
-- `memmove` on ranges of one memory, which may overlap: the direction is chosen by the addresses.
use inwox.Base.{
  ℕ, zero, suc, ◌+◌, ◌-◌, ◌≤◌, ◌<◌, ◌≡◌, refl, inl, inr, ◌&&◌, Option, none, some, [], ◌∷◌, arith,
  ltb, leb, ◌==◌, if◌then◌else◌, Bool-cases, length, get_elem?, set, length-set, Bytes, ◌>>=◌,
}

-- `d[i] = s[i]`, where both are addresses of one memory; `none` is an access beyond it.
unfoldable pub store : Bytes → ℕ → ℕ → Option Bytes
store m p v = if ltb p (length m) then some (set m p v) else none

move_byte : ℕ → ℕ → Bytes → Option Bytes
unfolding store
move_byte d s m = get_elem? m s >>= λ v. store m d v

-- The loop from the front: `i` rises, `n` rounds are left.
move_up : ℕ → ℕ → ℕ → ℕ → Bytes → Option Bytes
unfolding move_byte
move_up zero i dest src m = some m
move_up (suc n) i dest src m =
    move_byte (dest + i) (src + i) m >>= λ m'. move_up n (i + 1) dest src m'

-- The loop from the back: `i` falls from `size` to 1.
move_down : ℕ → ℕ → ℕ → Bytes → Option Bytes
unfolding move_byte
move_down zero dest src m = some m
move_down (suc i) dest src m = move_byte (dest + i) (src + i) m >>= λ m'. move_down i dest src m'

unfoldable pub memmove : ℕ → ℕ → ℕ → Bytes → Option Bytes
unfolding move_up move_down
memmove dest src size m =
    if ltb dest src then move_up size 0 dest src m else move_down size dest src m

pub get_elem?-set :
    (m : Bytes) (p v k : ℕ)
    → p < length m
    → get_elem? (set m p v) k ≡ (if p == k then some v else get_elem? m k)
get_elem?-set [] p v k h = absurd (omega arith)
get_elem?-set (x ∷ m) zero v zero h = refl
get_elem?-set (x ∷ m) zero v (suc k) h = ground arith
get_elem?-set (x ∷ m) (suc p) v zero h = ground arith
get_elem?-set (x ∷ m) (suc p) v (suc k) h = ground (arith, get_elem?-set m p v k)

pub get_elem?-lt : (m : Bytes) (k : ℕ) → k < length m → (v : ℕ) × (get_elem? m k ≡ some v)
get_elem?-lt [] k h = absurd (omega arith)
get_elem?-lt (x ∷ m) zero h = (x, refl)
get_elem?-lt (x ∷ m) (suc k) h = get_elem?-lt m k (omega arith)

-- What one assignment does.
abbrev Moved : Bytes → ℕ → ℕ → Bytes → Type 0
Moved m d s m' =
    (length m' ≡ length m)
    × ((k : ℕ) → get_elem? m' k ≡ (if d == k then get_elem? m s else get_elem? m k))

move_byte-Moved :
    (d s : ℕ) (m : Bytes)
    → d < length m
    → s < length m
    → (m' : Bytes) × (move_byte d s m ≡ some m') × Moved m d s m'
unfolding move_byte store
move_byte-Moved d s m hd hs =
    let (v, e) = get_elem?-lt m s hs in
    (set m d v, ground arith, (length-set m d v, λ k. ground (arith, get_elem?-set m d v k)))

-- `m'` is `m` with the bytes from `src + i` to `src + n` moved to `dest + i` and on.
abbrev pub Copied : Bytes → ℕ → ℕ → ℕ → ℕ → Bytes → Type 0
Copied m dest src i n m' =
    (length m' ≡ length m)
    × ((k : ℕ)
        → get_elem? m' k ≡ (
            if leb (dest + i) k && ltb k (dest + n)
            then get_elem? m (k + src - dest)
            else get_elem? m k))

move_up-Copied :
    (n i dest src : ℕ) (m : Bytes)
    → dest < src
    → src + i + n ≤ length m
    → (m' : Bytes) × (move_up n i dest src m ≡ some m') × Copied m dest src i (i + n) m'
unfolding move_up
move_up-Copied zero i dest src m lt h = (m, refl, (refl, λ k. ground arith))
move_up-Copied (suc n) i dest src m lt h =
    let (m₁, e₁, (l₁, g₁)) = move_byte-Moved (dest + i) (src + i) m (omega arith) (omega arith) in
    let (m₂, e₂, (l₂, g₂)) = move_up-Copied n (i + 1) dest src m₁ lt (omega arith) in
    (m₂, rw e₁ e₂, (omega arith, λ k. ground (arith, g₂ k, g₁ k, g₁ (k + src - dest))))

move_down-Copied :
    (n dest src : ℕ) (m : Bytes)
    → src ≤ dest
    → dest + n ≤ length m
    → (m' : Bytes) × (move_down n dest src m ≡ some m') × Copied m dest src 0 n m'
unfolding move_down
move_down-Copied zero dest src m le h = (m, refl, (refl, λ k. ground arith))
move_down-Copied (suc n) dest src m le h =
    let (m₁, e₁, (l₁, g₁)) = move_byte-Moved (dest + n) (src + n) m (omega arith) (omega arith) in
    let (m₂, e₂, (l₂, g₂)) = move_down-Copied n dest src m₁ le (omega arith) in
    (m₂, rw e₁ e₂, (omega arith, λ k. ground (arith, g₂ k, g₁ k, g₁ (k + src - dest))))

-- Where both ranges lie in memory, `memmove` ends without a fault, the destination range holds what
-- the source range held before the call, and every other byte is unchanged, also where they overlap.
pub memmove-Copied :
    (dest src size : ℕ) (m : Bytes)
    → dest + size ≤ length m
    → src + size ≤ length m
    → (m' : Bytes) × (memmove dest src size m ≡ some m') × Copied m dest src 0 size m'
unfolding memmove
memmove-Copied dest src size m hd hs = elim (Bool-cases (ltb dest src)) [
  | inl up ↦
      let (m', e, c) = move_up-Copied size 0 dest src m (ground arith) (omega arith) in
      (m', rw up e, rw zero_add at c)
  | inr down ↦
      let (m', e, c) = move_down-Copied size dest src m (ground arith) hd in (m', rw down e, c)
]
  where
    zero_add : 0 + size ≡ size
    zero_add = omega arith
