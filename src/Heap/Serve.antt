-- ===== src/Heap/Serve.antt =====
-- `malloc` where some block fits: first fit over all big blocks keeps the invariant.
use inwox.Base.{
  ℕ, suc, ◌+◌, ◌-◌, ◌%◌, ◌≤◌, ◌<◌, ◌≡◌, refl, ap, ◌∙◌, ◌≢◌, inl, inr, Bool, true, false, ◌||◌,
  Option, some, List, [], ◌∷◌, arith, ltb, ◌==◌, if◌then◌else◌, Bool-cases, length,
}
use inwox.Heap.{
  Ptr, null, mcb, Heap, magic_end, mcb_size, size_mod, Mapper, round_up, malloc_loop, malloc,
}
use inwox.Heap.Chain.{Block, IsCell, end_of, le-end_of, load_lem, SameOutside-widen, Chain-end}
use inwox.Heap.Search.{fits, any_fits, first_fit, fit_address, end-is_given, search_on, found_at}
use inwox.Heap.Bigs.{
  Big, last_cell, head_of, BigChain, AllApart, IsApart, IsHeap, Spares, IsBig-frame, BigChain-frame,
}

-- The end block does not move.
pub end_of-first_fit : (n : ℕ) (bs : List Block) (p : Ptr) → end_of p (first_fit n bs) ≡ end_of p bs
unfolding first_fit
end_of-first_fit n [] p = refl
end_of-first_fit n ((u, s) ∷ bs) p = elim (Bool-cases (fits n (u, s))) [
  | inl hit ↦ rw hit (elim (Bool-cases (ltb (mcb_size + n) s)) [
    | inl cut ↦
        let e : p + mcb_size + n + mcb_size + (s - mcb_size - n) ≡ p + mcb_size + s =
          ground arith in
        rw (cut, e)
    | inr whole ↦ rw whole
  ])
  | inr miss ↦ rw miss (end_of-first_fit n bs (p + mcb_size + s))
]

-- Some big block has a block that fits.
unfoldable pub any_big_fits : ℕ → List Big → Bool
any_big_fits n [] = false
any_big_fits n ((b, bs) ∷ bigs) = any_fits n bs || any_big_fits n bigs

-- The heap after the first block that fits was taken, and the address that its user gets.
unfoldable pub serve : ℕ → List Big → List Big
serve n [] = []
serve n ((b, bs) ∷ bigs) =
    if any_fits n bs then (b, first_fit n bs) ∷ bigs else (b, bs) ∷ serve n bigs

unfoldable pub serve_address : ℕ → List Big → Ptr
serve_address n [] = null
serve_address n ((b, bs) ∷ bigs) =
    if any_fits n bs then fit_address n (b + mcb_size) bs + mcb_size else serve_address n bigs

head_of-serve : (n : ℕ) (bigs : List Big) → head_of (serve n bigs) ≡ head_of bigs
unfolding serve
head_of-serve n [] = refl
head_of-serve n ((b, bs) ∷ bigs) = ground arith

-- The rounds that the loop takes at most.
abbrev pub rounds : List Big → ℕ
rounds [] = 0
rounds ((b, bs) ∷ bigs) = suc (length bs) + rounds bigs

-- At the end block the loop goes on with the next big block, if there is one.
step_enter :
    (answer : Mapper) (n total : ℕ) (h : Heap) (g b p last nxt : ℕ)
    → IsCell h p (mcb magic_end 0 last null)
    → h.mapped b ≡ true
    → (h.cell b).next ≡ nxt
    → nxt ≢ null
    → malloc_loop answer (suc g) n total b p h ≡ malloc_loop answer g n total nxt (nxt + mcb_size) h
unfolding malloc_loop
step_enter answer n total h g b p last nxt c m e ne =
    let not_null : (nxt == null) ≡ false = ground arith in
    rw (load_lem h p c.0, c.1, load_lem h b m, e, not_null)

-- What a call that finds a block leaves.
abbrev Result : ℕ → Ptr → List Big → Heap → Option (Ptr × Heap) → Type 0
Result n prv bigs h r =
    (h' : Heap) × (r ≡ some (serve_address n bigs, h'))
    × BigChain h' prv (serve n bigs)
    × ((a : Ptr) → h'.mapped a ≡ h.mapped a)
    × Spares bigs h h'

module _ (answer : Mapper) (n : ℕ) (h : Heap) (prv b : Ptr) (bs : List Block) (bigs : List Big)
    (c : BigChain h prv ((b, bs) ∷ bigs)) (away : AllApart b (last_cell b bs) bigs) where
  in_first :
      (f : ℕ)
      → any_fits n bs ≡ true
      → rounds ((b, bs) ∷ bigs) ≤ f
      → Result n prv ((b, bs) ∷ bigs) h (malloc_loop answer f n (mcb_size + n) b (b + mcb_size) h)
  unfolding serve serve_address
  in_first f hit le =
      let big = c.0 in
      let after = le-end_of bs (b + mcb_size) in
      let (h', e, c', o) =
        found_at answer n b bs f h null (b + mcb_size) big.chain hit
          (end-is_given bs (b + mcb_size) big.below)
          (λ a lo hi. big.mapped a (omega arith) (omega arith)) (omega arith) in
      let wide =
        SameOutside-widen (b + mcb_size) (last_cell b bs) b (last_cell b bs) h h' (omega arith)
          (omega arith) o in
      (
        h',
        rw hit e,
        rw hit (
          record {
            not_null = big.not_null;
            cell =
                rw (end_of-first_fit n bs (b + mcb_size))
                  (o.0 b ∙ big.cell.0, o.1 b (ground arith) ∙ big.cell.1);
            chain = c';
            mapped =
                rw (end_of-first_fit n bs (b + mcb_size)) (λ a lo hi. o.0 a ∙ big.mapped a lo hi);
            below = rw (end_of-first_fit n bs (b + mcb_size)) big.below;
          },
          BigChain-frame bigs h h' b b (last_cell b bs) c.1 wide away,
        ),
        o.0,
        (λ lo hi ap a l r. (o.0 a, o.1 a (ground (arith, ap.0)))),
      )

  in_later :
      (f : ℕ)
      → any_fits n bs ≡ false
      → rounds ((b, bs) ∷ bigs) ≤ f
      → head_of bigs ≢ null
      → ((g : ℕ)
          → rounds bigs ≤ g
          → Result n b bigs h
              (malloc_loop answer g n (mcb_size + n) (head_of bigs) (head_of bigs + mcb_size) h))
      → Result n prv ((b, bs) ∷ bigs) h (malloc_loop answer f n (mcb_size + n) b (b + mcb_size) h)
  unfolding serve serve_address
  in_later f miss le ne rest =
      let big = c.0 in
      let after = le-end_of bs (b + mcb_size) in
      let g = f - length bs - 1 in
      let (h', e, c', m, o) = rest g (omega arith) in
      let past =
        search_on answer n (mcb_size + n) b h bs f (suc g) null (b + mcb_size) big.chain miss
          (omega arith) in
      let (last, final) = Chain-end bs h null (b + mcb_size) big.chain in
      let next_big : (h.cell b).next ≡ head_of bigs = ap (λ k. k.next) big.cell.1 in
      let entered =
        step_enter answer n (mcb_size + n) h g b (last_cell b bs) last (head_of bigs) final
          big.cell.0 next_big ne in
      (
        h',
        rw miss (past ∙ entered ∙ e),
        rw miss (
          rw (head_of-serve n bigs)
              (IsBig-frame h h' prv (head_of bigs) b bs big m (o b (last_cell b bs) away)),
          c',
        ),
        m,
        (λ lo hi ap a l r. o lo hi ap.1 a l r),
      )

serve_chain :
    (answer : Mapper) (n : ℕ) (h : Heap) (bigs : List Big) (prv f : ℕ)
    → BigChain h prv bigs
    → IsApart bigs
    → any_big_fits n bigs ≡ true
    → rounds bigs ≤ f
    → Result n prv bigs h
        (malloc_loop answer f n (mcb_size + n) (head_of bigs) (head_of bigs + mcb_size) h)
unfolding any_big_fits
serve_chain answer n h [] prv f c away hit le = cc
serve_chain answer n h ((b, bs) ∷ []) prv f c away hit le =
    in_first answer n h prv b bs [] c tt f (ground arith) le
serve_chain answer n h ((b, bs) ∷ (d, ds) ∷ bigs) prv f c away hit le =
    elim (Bool-cases (any_fits n bs)) [
      | inl here ↦ in_first answer n h prv b bs ((d, ds) ∷ bigs) c away.0 f here le
      | inr miss ↦
          in_later answer n h prv b bs ((d, ds) ∷ bigs) c away.0 f miss le c.1.0.not_null
            (λ g k. serve_chain answer n h ((d, ds) ∷ bigs) b g c.1 away.1 (rw miss at hit) k)
    ]

AllApart-serve :
    (n lo hi : ℕ) (bigs : List Big) → AllApart lo hi bigs → AllApart lo hi (serve n bigs)
unfolding serve
AllApart-serve n lo hi [] a = tt
AllApart-serve n lo hi ((b, bs) ∷ bigs) a = elim (Bool-cases (any_fits n bs)) [
  | inl here ↦ rw here (rw (end_of-first_fit n bs (b + mcb_size)) a.0, a.1)
  | inr miss ↦ rw miss (a.0, AllApart-serve n lo hi bigs a.1)
]

IsApart-serve : (n : ℕ) (bigs : List Big) → IsApart bigs → IsApart (serve n bigs)
unfolding serve
IsApart-serve n [] a = tt
IsApart-serve n ((b, bs) ∷ bigs) a = elim (Bool-cases (any_fits n bs)) [
  | inl here ↦ rw here (rw (end_of-first_fit n bs (b + mcb_size)) a.0, a.1)
  | inr miss ↦ rw miss (AllApart-serve n b (last_cell b bs) bigs a.0, IsApart-serve n bigs a.1)
]

-- A request that some block can serve, in a heap that meets the invariant: `malloc` ends, returns
-- the address of the first block that fits, and the heap meets the invariant with that block taken.
-- The kernel is not asked for memory, and nothing outside the big blocks changes. `n` is the
-- rounded size, and leaves room for a control block below 2^32.
pub malloc-serve :
    (answer : Mapper) (fuel first size : ℕ) (h : Heap) (bigs : List Big)
    → IsHeap h first bigs
    → any_big_fits (round_up size) bigs ≡ true
    → mcb_size + round_up size < size_mod
    → rounds bigs ≤ fuel
    → (h' : Heap) × (malloc answer fuel first size h
        ≡ some (serve_address (round_up size) bigs, h'))
      × IsHeap h' first (serve (round_up size) bigs)
      × ((a : Ptr) → h'.mapped a ≡ h.mapped a)
      × Spares bigs h h'
unfolding malloc
malloc-serve answer fuel first size h bigs v hit small le =
    let n = round_up size in
    let total : (mcb_size + n) % size_mod ≡ mcb_size + n = omega arith in
    let (h', e, c, m, o) = serve_chain answer n h bigs null fuel v.chain v.apart hit le in
    (
      h',
      rw (total, ← v.starts) e,
      record {
        starts = head_of-serve n bigs ∙ v.starts;
        not_null = v.not_null;
        chain = c;
        apart = IsApart-serve n bigs v.apart;
      },
      m,
      o,
    )
