-- ===== src/Heap/Search.antt =====
-- The search of `malloc` in the chain of one big block is first fit.
use inwox.Base.{
  ℕ, zero, suc, ◌+◌, ◌≤◌, ◌<◌, ◌≡◌, refl, ap, ◌∙◌, inl, inr, Bool, true, false, not, ◌&&◌, ◌||◌,
  Option, some, List, [], ◌∷◌, ◌++◌, arith, leb, if◌then◌else◌, Bool-cases, length, All,
}
use inwox.Heap.{Ptr, mcb, Heap, mcb_size, size_mod, Mapper, take_block, malloc_loop}
use inwox.Heap.Chain.{
  Block, magic_of, IsCell, Chain, end_of, le-end_of, SameOutside, IsMapped, load_lem,
  SameOutside-widen,
}
use inwox.Heap.Split.{place, take_block-Chain}

-- A block that can serve `n` bytes.
abbrev pub fits : ℕ → Block → Bool
fits n (u, s) = not u && leb n s

-- Is there such a block?
unfoldable pub any_fits : ℕ → List Block → Bool
any_fits n [] = false
any_fits n (b ∷ bs) = fits n b || any_fits n bs

-- The blocks after the first that fits was taken.
unfoldable pub first_fit : ℕ → List Block → List Block
first_fit n [] = []
first_fit n (b ∷ bs) = if fits n b then place n b.1 ++ bs else b ∷ first_fit n bs

-- The address of the control block of the first that fits, where the first block stands at `p`.
unfoldable pub fit_address : ℕ → Ptr → List Block → Ptr
fit_address n p [] = p
fit_address n p (b ∷ bs) = if fits n b then p else fit_address n (p + mcb_size + b.1) bs

abbrev pub IsSized : List Block → Type 0
IsSized = All (λ b. b.1 < size_mod)

module _ (answer : Mapper) (n total big : ℕ) (h : Heap) where
  step_along :
      (f : ℕ) (u : Bool) (prv p s : ℕ)
      → IsCell h p (mcb (magic_of u) s prv (p + mcb_size + s))
      → fits n (u, s) ≡ false
      → malloc_loop answer (suc f) n total big p h
        ≡ malloc_loop answer f n total big (p + mcb_size + s) h
  unfolding malloc_loop
  step_along f true prv p s c miss = rw (load_lem h p c.0, c.1)
  step_along f false prv p s c miss = rw (load_lem h p c.0, c.1, miss)

  step_take :
      (f : ℕ) (prv p s : ℕ)
      → IsCell h p (mcb (magic_of false) s prv (p + mcb_size + s))
      → leb n s ≡ true
      → malloc_loop answer (suc f) n total big p h ≡ take_block p s n total h
  unfolding malloc_loop
  step_take f prv p s c hit = rw (load_lem h p c.0, c.1, hit)

  -- With no block that fits, the loop comes to the end block with the heap as it was.
  pub search_on :
      (bs : List Block) (k f prv p : ℕ)
      → Chain h prv p bs
      → any_fits n bs ≡ false
      → length bs + f ≡ k
      → malloc_loop answer k n total big p h ≡ malloc_loop answer f n total big (end_of p bs) h
  unfolding any_fits
  search_on [] k f prv p c none_fits e =
      let e' : k ≡ f = omega arith in ap (λ j. malloc_loop answer j n total big p h) e'
  search_on ((u, s) ∷ bs) zero f prv p c none_fits e = absurd (omega arith)
  search_on ((u, s) ∷ bs) (suc k) f prv p c none_fits e =
      step_along k u prv p s c.0 (ground arith)
      ∙ search_on bs k f p (p + mcb_size + s) c.1 (ground arith) (omega arith)

-- What a search that succeeds leaves: `n` bytes are served from the first block that fits.
abbrev pub Served : ℕ → Ptr → Ptr → List Block → Heap → Option (Ptr × Heap) → Type 0
Served n prv p bs h r =
    (h' : Heap) × (r ≡ some (fit_address n p bs + mcb_size, h'))
    × Chain h' prv p (first_fit n bs)
    × SameOutside p (end_of p bs) h h'

abbrev Search : Mapper → ℕ → Ptr → ℕ → Heap → Ptr → Ptr → List Block → Type 0
Search answer n big f h prv p bs =
    Served n prv p bs h (malloc_loop answer f n (mcb_size + n) big p h)

module _ (answer : Mapper) (n big f : ℕ) (h : Heap) (prv p s : ℕ) (bs : List Block)
    (m : IsMapped p (end_of (p + mcb_size + s) bs) h) where
  found_here :
      Chain h prv p ((false, s) ∷ bs)
      → s < size_mod
      → leb n s ≡ true
      → Search answer n big (suc f) h prv p ((false, s) ∷ bs)
  unfolding first_fit fit_address
  found_here c w hit =
      let after = le-end_of bs (p + mcb_size + s) in
      let (h', e, c', o) = take_block-Chain h prv p n s bs c w (λ a lo hi. m a lo (omega arith)) in
      (
        h',
        step_take answer n (mcb_size + n) big h f prv p s c.0 hit ∙ (rw hit e),
        rw hit c',
        SameOutside-widen p (p + mcb_size + s) p (end_of (p + mcb_size + s) bs) h h' (omega arith)
            (omega arith) o,
      )

  found_later :
      (u : Bool)
      → Chain h prv p ((u, s) ∷ bs)
      → fits n (u, s) ≡ false
      → Search answer n big f h p (p + mcb_size + s) bs
      → Search answer n big (suc f) h prv p ((u, s) ∷ bs)
  unfolding first_fit fit_address
  found_later u c miss (h', e, c', o) = (
    h',
    step_along answer n (mcb_size + n) big h f u prv p s c.0 miss ∙ (rw miss e),
    rw miss ((o.0 p ∙ c.0.0, o.1 p (ground arith) ∙ c.0.1), c'),
    SameOutside-widen (p + mcb_size + s) (end_of (p + mcb_size + s) bs) p
        (end_of (p + mcb_size + s) bs) h h' (omega arith) (omega arith) o,
  )

-- With a block that fits, the loop takes the first such.
pub found_at :
    (answer : Mapper) (n big : ℕ) (bs : List Block) (f : ℕ) (h : Heap) (prv p : ℕ)
    → Chain h prv p bs
    → any_fits n bs ≡ true
    → IsSized bs
    → IsMapped p (end_of p bs) h
    → length bs ≤ f
    → Search answer n big f h prv p bs
unfolding any_fits
found_at answer n big [] f h prv p c found sized m le = cc
found_at answer n big (b ∷ bs) zero h prv p c found sized m le = absurd (omega arith)
found_at answer n big ((true, s) ∷ bs) (suc f) h prv p c found sized m le =
    found_later answer n big f h prv p s bs m true c refl (
      found_at answer n big bs f h p (p + mcb_size + s) c.1 found sized.1
        (λ a lo hi. m a (omega arith) hi) (omega arith))
found_at answer n big ((false, s) ∷ bs) (suc f) h prv p c found sized m le =
    elim (Bool-cases (leb n s)) [
      | inl hit ↦ found_here answer n big f h prv p s bs m c sized.0 hit
      | inr miss ↦ found_later answer n big f h prv p s bs m false c miss (
          found_at answer n big bs f h p (p + mcb_size + s) c.1 (rw miss at found) sized.1
            (λ a lo hi. m a (omega arith) hi) (omega arith))
    ]

pub end-is_given : (bs : List Block) (p : Ptr) → end_of p bs < size_mod → IsSized bs
end-is_given [] p h = tt
end-is_given ((u, s) ∷ bs) p h =
    (omega (arith, le-end_of bs (p + mcb_size + s)), end-is_given bs (p + mcb_size + s) h)
