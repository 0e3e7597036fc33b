-- ===== src/Heap/Split.antt =====
-- `split_block` and `take_block` on a chain.
use inwox.Base.{
  ℕ, ◌+◌, ◌-◌, ◌*◌, ◌%◌, ◌<◌, ◌≡◌, refl, ◌≢◌, inl, inr, true, false, some, List, [], ◌∷◌, ◌++◌,
  arith, ltb, if◌then◌else◌, Bool-cases,
}
use inwox.Heap.{
  Ptr, mcb, Heap, magic_free, mcb_size, size_mod, set_size, set_prev, set_next, split_block,
  take_block,
}
use inwox.Heap.Chain.{
  Block, Chain, SameOutside, Chain-set_prev, Chain-mapped, written, load_lem, modify_lem,
  SameOutside-trans, SameOutside-widen, IsMapped, modify-magic,
}

-- The four writes that `split_block` makes.
abbrev cut_size : Heap → ℕ → ℕ → ℕ
cut_size h p n = ((h.cell p).size + 2 * size_mod - mcb_size - n) % size_mod

abbrev new_block : Heap → ℕ → ℕ → Heap
new_block h p n =
    written h (p + mcb_size + n) (λ _. mcb magic_free (cut_size h p n) p (h.cell p).next)

abbrev shrunk : Heap → ℕ → ℕ → Heap
shrunk h p n = written (new_block h p n) p (set_size n)

abbrev split_heap : Heap → ℕ → ℕ → Heap
split_heap h p n =
    let q = p + mcb_size + n in
    written (written (shrunk h p n) (h.cell p).next (set_prev q)) p (set_next q)

module _ (h : Heap) (prv p n s : ℕ) (bs : List Block) (c : Chain h prv p ((false, s) ∷ bs))
    (lt : n + mcb_size < s) (w : s < size_mod) where
  split_cells :
      ((split_heap h p n).cell p ≡ mcb magic_free n prv (p + mcb_size + n))
      × ((split_heap h p n).cell (p + mcb_size + n)
          ≡ mcb magic_free (s - mcb_size - n) p (p + mcb_size + s))
      × ((split_heap h p n).cell (p + mcb_size + s)
          ≡ record (h.cell (p + mcb_size + s)) { prev = p + mcb_size + n })
  split_cells =
      let sz : cut_size h p n ≡ s - mcb_size - n = rw c.0.1 (omega arith) in
      (ground arith, ground arith, ground arith)

  split_others :
      (a : Ptr)
      → a ≢ p
      → a ≢ p + mcb_size + n
      → a ≢ p + mcb_size + s
      → (split_heap h p n).cell a ≡ h.cell a
  split_others a ne₁ ne₂ ne₃ = ground arith

  split_block-split_heap :
      h.mapped (p + mcb_size + n) ≡ true → split_block p n h ≡ some (tt, split_heap h p n)
  unfolding split_block
  split_block-split_heap m =
      let q = p + mcb_size + n in
      let r = (h.cell p).next in
      let next_mapped : h.mapped r ≡ true =
        ground (arith, Chain-mapped bs h p (p + mcb_size + s) c.1) in
      rw (
        load_lem h p c.0.0,
        modify_lem h q (λ _. mcb magic_free (cut_size h p n) p r) m,
        modify_lem (new_block h p n) p (set_size n) c.0.0,
        modify_lem (shrunk h p n) r (set_prev q) next_mapped,
        modify_lem (written (shrunk h p n) r (set_prev q)) p (set_next q) c.0.0,
      )

-- A free block is cut in two free blocks, the first of size `n`. Nothing outside the block and the
-- control block behind it changes.
pub split_block-Chain :
    (h : Heap) (prv p n s : ℕ) (bs : List Block)
    → Chain h prv p ((false, s) ∷ bs)
    → n + mcb_size < s
    → s < size_mod
    → h.mapped (p + mcb_size + n) ≡ true
    → (h' : Heap) × (split_block p n h ≡ some (tt, h'))
      × Chain h' prv p ((false, n) ∷ (false, s - mcb_size - n) ∷ bs)
      × SameOutside p (p + mcb_size + s) h h'
split_block-Chain h prv p n s bs c lt w m =
    let e : p + mcb_size + n + mcb_size + (s - mcb_size - n) ≡ p + mcb_size + s = omega arith in
    let cells = split_cells h prv p n s bs c lt w in
    let others = split_others h prv p n s bs c lt w in
    let tail =
      Chain-set_prev bs h (split_heap h p n) p (p + mcb_size + n) (p + mcb_size + s) c.1 refl
        cells.2 (λ a lo hi. (refl, others a (omega arith) (omega arith) (omega arith))) in
    (
      split_heap h p n,
      split_block-split_heap h prv p n s bs c lt w m,
      ((c.0.0, cells.0), rw e ((m, cells.1), tail)),
      (λ a. refl, λ a out. others a (ground arith) (ground arith) (ground arith)),
    )

-- What becomes of a free block of size `s` when `n` bytes are taken from it: it is cut where the
-- rest has room for a control block and more, and is taken whole otherwise.
abbrev pub place : ℕ → ℕ → List Block
place n s =
    if ltb (mcb_size + n) s then (true, n) ∷ (false, s - mcb_size - n) ∷ [] else (true, s) ∷ []

-- The block that `malloc` found is taken, and its user gets the address behind the control block.
pub take_block-Chain :
    (h : Heap) (prv p n s : ℕ) (bs : List Block)
    → Chain h prv p ((false, s) ∷ bs)
    → s < size_mod
    → IsMapped p (p + mcb_size + s) h
    → (h' : Heap) × (take_block p s n (mcb_size + n) h ≡ some (p + mcb_size, h'))
      × Chain h' prv p (place n s ++ bs)
      × SameOutside p (p + mcb_size + s) h h'
unfolding take_block
take_block-Chain h prv p n s bs c w m = elim (Bool-cases (ltb (mcb_size + n) s)) [
  | inl cut ↦
      let (h₁, e₁, c₁, o₁) =
        split_block-Chain h prv p n s bs c (ground arith) w
          (m (p + mcb_size + n) (omega arith) (ground arith)) in
      let (h₂, e₂, c₂, o₂) =
        modify-magic h₁ prv p n false true ((false, s - mcb_size - n) ∷ bs) c₁ in
      (
        h₂,
        rw (cut, e₁, e₂),
        rw cut c₂,
        SameOutside-trans p (p + mcb_size + s) h h₁ h₂ o₁
            (SameOutside-widen p p p (p + mcb_size + s) h₁ h₂ (omega arith) (omega arith) o₂),
      )
  | inr whole ↦
      let (h₁, e₁, c₁, o₁) = modify-magic h prv p s false true bs c in
      (
        h₁,
        rw (whole, e₁),
        rw whole c₁,
        SameOutside-widen p p p (p + mcb_size + s) h h₁ (omega arith) (omega arith) o₁,
      )
]
