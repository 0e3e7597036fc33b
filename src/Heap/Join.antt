-- ===== src/Heap/Join.antt =====
-- `free`: what joining with the neighbours does to a chain.
use inwox.Base.{
  ℕ, ◌+◌, ◌%◌, ◌<◌, ◌≡◌, refl, ap, ◌≢◌, Bool, true, false, Option, some, List, [], ◌∷◌, arith, ◌==◌,
}
use inwox.Heap.{
  Ptr, null, Mcb, mcb, Heap, mcb_size, size_mod, set_prev, set_next, unify_blocks, unify_back,
  unify_on,
}
use inwox.Heap.Chain.{
  Block, magic_of, Chain, end_of, le-end_of, SameOutside, Chain-set_prev, Chain-mapped, written,
  load_lem, modify_lem, SameOutside-widen,
}

-- The three writes of `unify_blocks`.
abbrev grown : ℕ → Mcb → Mcb
grown t f = record f { size = (f.size + mcb_size + t) % size_mod }

abbrev relinked : Heap → Ptr → Ptr → Heap
relinked h p q = written h p (set_next (h.cell q).next)

abbrev unified : Heap → Ptr → Ptr → Heap
unified h p q =
    written (written (relinked h p q) p (grown (h.cell q).size)) (h.cell q).next (set_prev p)

module _ (h : Heap) (prv p s t : ℕ) (u v : Bool) (bs : List Block)
    (c : Chain h prv p ((u, s) ∷ (v, t) ∷ bs)) where
  unified_cells :
      s + mcb_size + t < size_mod
      → ((unified h p (p + mcb_size + s)).cell p
          ≡ mcb (magic_of u) (s + mcb_size + t) prv (p + mcb_size + s + mcb_size + t))
        × ((unified h p (p + mcb_size + s)).cell (p + mcb_size + s + mcb_size + t)
            ≡ record (h.cell (p + mcb_size + s + mcb_size + t)) { prev = p })
  unified_cells w = (ground arith, ground arith)

  unified_others :
      (a : Ptr)
      → a ≢ p
      → a ≢ p + mcb_size + s + mcb_size + t
      → (unified h p (p + mcb_size + s)).cell a ≡ h.cell a
  unified_others a ne ne' = ground arith

  unify_blocks-unified :
      unify_blocks p (p + mcb_size + s) h ≡ some (p, unified h p (p + mcb_size + s))
  unfolding unify_blocks
  unify_blocks-unified =
      let q = p + mcb_size + s in
      let r = (h.cell q).next in
      let next_mapped : h.mapped r ≡ true =
        ground (arith, Chain-mapped bs h q (q + mcb_size + t) c.1.1) in
      rw (
        load_lem h q c.1.0.0,
        modify_lem h p (set_next r) c.0.0,
        modify_lem (relinked h p q) p (grown (h.cell q).size) c.0.0,
        modify_lem (written (relinked h p q) p (grown (h.cell q).size)) r (set_prev p) next_mapped,
      )

  -- Two neighbours become one block that takes the room of both and of the second's control block.
  pub unify_blocks-Chain :
      s + mcb_size + t < size_mod
      → (h' : Heap) × (unify_blocks p (p + mcb_size + s) h ≡ some (p, h'))
        × Chain h' prv p ((u, s + mcb_size + t) ∷ bs)
        × SameOutside p (p + mcb_size + s + mcb_size + t) h h'
  unify_blocks-Chain w =
      let q = p + mcb_size + s in
      let h' = unified h p q in
      let r = q + mcb_size + t in
      let cells = unified_cells w in
      let e : p + mcb_size + (s + mcb_size + t) ≡ r = omega arith in
      let tail =
        Chain-set_prev bs h h' q p r c.1.1 refl cells.1
          (λ a lo hi. (refl, unified_others a (omega arith) (omega arith))) in
      (
        h',
        unify_blocks-unified,
        rw e ((c.0.0, cells.0), tail),
        (λ a. refl, λ a out. unified_others a (ground arith) (ground arith)),
      )

-- A free block of size `s` and what follows it, joined with a free block right behind.
unfoldable pub merge_next : ℕ → List Block → List Block
merge_next s [] = (false, s) ∷ []
merge_next s ((true, t) ∷ bs) = (false, s) ∷ (true, t) ∷ bs
merge_next s ((false, t) ∷ bs) = (false, s + mcb_size + t) ∷ bs

pub end_of-merge_next :
    (s : ℕ) (bs : List Block) (p : Ptr) → end_of p (merge_next s bs) ≡ end_of (p + mcb_size + s) bs
unfolding merge_next
end_of-merge_next s [] p = refl
end_of-merge_next s ((true, t) ∷ bs) p = refl
end_of-merge_next s ((false, t) ∷ bs) p =
    let e : p + mcb_size + (s + mcb_size + t) ≡ p + mcb_size + s + mcb_size + t = omega arith in
    ap (λ k. end_of k bs) e

-- What a step of `free` leaves: the block at `q` is the free one, and the chain is `bs`.
abbrev pub Leaves : Ptr → Ptr → Ptr → List Block → Ptr → Heap → Option (Ptr × Heap) → Type 0
Leaves q prv p bs hi h r =
    (h' : Heap) × (r ≡ some (q, h')) × Chain h' prv p bs × SameOutside p hi h h'

pub unify_on-Leaves :
    (bs : List Block) (h : Heap) (prv p s : ℕ)
    → Chain h prv p ((false, s) ∷ bs)
    → end_of (p + mcb_size + s) bs < size_mod
    → Leaves p prv p (merge_next s bs) (end_of (p + mcb_size + s) bs) h (unify_on p h)
unfolding unify_on merge_next
unify_on-Leaves [] h prv p s c w = (
  h,
  rw (load_lem h p c.0.0, c.0.1, load_lem h (p + mcb_size + s) c.1.0, c.1.1),
  c,
  (λ a. refl, λ a out. refl),
)
unify_on-Leaves ((true, t) ∷ bs) h prv p s c w = (
  h,
  rw (load_lem h p c.0.0, c.0.1, load_lem h (p + mcb_size + s) c.1.0.0, c.1.0.1),
  c,
  (λ a. refl, λ a out. refl),
)
unify_on-Leaves ((false, t) ∷ bs) h prv p s c w =
    let after = le-end_of bs (p + mcb_size + s + mcb_size + t) in
    let (h', e, c', o) = unify_blocks-Chain h prv p s t false false bs c (omega arith) in
    (
      h',
      rw (load_lem h p c.0.0, c.0.1, load_lem h (p + mcb_size + s) c.1.0.0, c.1.0.1) e,
      c',
      SameOutside-widen p (p + mcb_size + s + mcb_size + t) p
          (end_of (p + mcb_size + s + mcb_size + t) bs) h h' (omega arith) (omega arith) o,
    )

-- The first block of a chain has nothing to join with in front of it.
pub unify_back_first :
    (h : Heap) (p s : ℕ) (bs : List Block)
    → Chain h null p ((false, s) ∷ bs)
    → unify_back p h ≡ some (p, h)
unfolding unify_back
unify_back_first h p s bs c = rw (load_lem h p c.0.0, c.0.1)

pub unify_back_used :
    (h : Heap) (prv p t s : ℕ) (bs : List Block)
    → p ≢ null
    → Chain h prv p ((true, t) ∷ (false, s) ∷ bs)
    → unify_back (p + mcb_size + t) h ≡ some (p + mcb_size + t, h)
unfolding unify_back
unify_back_used h prv p t s bs ne c =
    let not_null : (p == null) ≡ false = ground arith in
    rw (load_lem h (p + mcb_size + t) c.1.0.0, c.1.0.1, not_null, load_lem h p c.0.0, c.0.1)

pub unify_back_free :
    (h : Heap) (prv p t s : ℕ) (bs : List Block)
    → p ≢ null
    → Chain h prv p ((false, t) ∷ (false, s) ∷ bs)
    → unify_back (p + mcb_size + t) h ≡ unify_blocks p (p + mcb_size + t) h
unfolding unify_back
unify_back_free h prv p t s bs ne c =
    let not_null : (p == null) ≡ false = ground arith in
    rw (load_lem h (p + mcb_size + t) c.1.0.0, c.1.0.1, not_null, load_lem h p c.0.0, c.0.1)
