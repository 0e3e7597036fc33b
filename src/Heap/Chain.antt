-- ===== src/Heap/Chain.antt =====
-- The chain of blocks of one big block, as a predicate on the heap, and what leaves it alone.
use inwox.Base.{
  ℕ, ◌+◌, ◌≤◌, ◌<◌, ◌≡◌, refl, ◌∙◌, Bool, true, false, ◌&&◌, some, List, [], ◌∷◌, arith, leb, ◌==◌,
  if◌then◌else◌,
}
use inwox.Heap.{
  Ptr, null, Mcb, mcb, Heap, magic_free, magic_used, magic_end, mcb_size, load, modify, set_magic,
}

-- A block as its owner sees it: in use or free, and its size without the control block.
abbrev pub Block : Type 0
Block = Bool × ℕ

abbrev pub magic_of : Bool → ℕ
magic_of true = magic_used
magic_of false = magic_free

abbrev pub IsCell : Heap → Ptr → Mcb → Type 0
IsCell h p c = (h.mapped p ≡ true) × (h.cell p ≡ c)

-- From `p` on there lie the blocks `bs`, each right behind the one before, linked both ways, and an
-- end block behind the last. `prv` is the address of the block before `p`, `null` for the first.
abbrev pub Chain : Heap → Ptr → Ptr → List Block → Type 0
Chain h prv p [] = IsCell h p (mcb magic_end 0 prv null)
Chain h prv p ((u, s) ∷ bs) =
    IsCell h p (mcb (magic_of u) s prv (p + mcb_size + s)) × Chain h p (p + mcb_size + s) bs

-- The address of the end block.
abbrev pub end_of : Ptr → List Block → Ptr
end_of p [] = p
end_of p ((u, s) ∷ bs) = end_of (p + mcb_size + s) bs

pub le-end_of : (bs : List Block) (p : Ptr) → p ≤ end_of p bs
le-end_of [] p = omega arith
le-end_of ((u, s) ∷ bs) p = omega (arith, le-end_of bs (p + mcb_size + s))

abbrev pub Agree : Heap → Heap → Ptr → Type 0
Agree h h' a = (h'.mapped a ≡ h.mapped a) × (h'.cell a ≡ h.cell a)

-- The two heaps agree at every address outside `lo`, …, `hi`, and on what is mapped.
abbrev pub SameOutside : Ptr → Ptr → Heap → Heap → Type 0
SameOutside lo hi h h' =
    ((a : Ptr) → h'.mapped a ≡ h.mapped a)
    × ((a : Ptr) → (leb lo a && leb a hi) ≡ false → h'.cell a ≡ h.cell a)

pub Chain-frame :
    (bs : List Block) (h h' : Heap) (prv p : Ptr)
    → Chain h prv p bs
    → ((a : Ptr) → p ≤ a → a ≤ end_of p bs → Agree h h' a)
    → Chain h' prv p bs
Chain-frame [] h h' prv p c same = let k = same p (omega arith) (omega arith) in ground arith
Chain-frame ((u, s) ∷ bs) h h' prv p c same =
    let k = same p (omega arith) (omega (arith, le-end_of bs (p + mcb_size + s))) in
    (
      ground arith,
      Chain-frame bs h h' p (p + mcb_size + s) c.1 (λ a lo hi. same a (omega arith) hi),
    )

-- A chain whose first block gets another predecessor.
pub Chain-set_prev :
    (bs : List Block) (h h' : Heap) (prv prv' p : Ptr)
    → Chain h prv p bs
    → h'.mapped p ≡ h.mapped p
    → h'.cell p ≡ record (h.cell p) { prev = prv' }
    → ((a : Ptr) → p < a → a ≤ end_of p bs → Agree h h' a)
    → Chain h' prv' p bs
Chain-set_prev [] h h' prv prv' p c m e same = ground arith
Chain-set_prev ((u, s) ∷ bs) h h' prv prv' p c m e same = (
  ground arith,
  Chain-frame bs h h' p (p + mcb_size + s) c.1 (λ a lo hi. same a (omega arith) hi),
)

-- Every block of a chain starts with a mapped control block.
pub Chain-mapped : (bs : List Block) (h : Heap) (prv p : Ptr) → Chain h prv p bs → h.mapped p ≡ true
Chain-mapped [] h prv p c = c.0
Chain-mapped ((u, s) ∷ bs) h prv p c = c.0.0

pub load_lem : (h : Heap) (p : Ptr) → h.mapped p ≡ true → load p h ≡ some (h.cell p, h)
unfolding load
load_lem h p m = rw m

abbrev pub written : Heap → Ptr → (Mcb → Mcb) → Heap
written h p f = record h { cell = λ a. if a == p then f (h.cell p) else h.cell a }

pub modify_lem :
    (h : Heap) (p : Ptr) (f : Mcb → Mcb)
    → h.mapped p ≡ true
    → modify p f h ≡ some (tt, written h p f)
unfolding modify
modify_lem h p f m = rw m

pub SameOutside-trans :
    (lo hi : Ptr) (h h' h'' : Heap)
    → SameOutside lo hi h h'
    → SameOutside lo hi h' h''
    → SameOutside lo hi h h''
SameOutside-trans lo hi h h' h'' s t = (λ a. t.0 a ∙ s.0 a, λ a out. t.1 a out ∙ s.1 a out)

pub SameOutside-widen :
    (lo hi lo' hi' : Ptr) (h h' : Heap)
    → lo' ≤ lo
    → hi ≤ hi'
    → SameOutside lo hi h h'
    → SameOutside lo' hi' h h'
SameOutside-widen lo hi lo' hi' h h' l r s = (s.0, λ a out. s.1 a (ground arith))

-- Every address of a range is mapped.
abbrev pub IsMapped : Ptr → Ptr → Heap → Type 0
IsMapped lo hi h = (a : Ptr) → lo ≤ a → a < hi → h.mapped a ≡ true

-- The magic number of the first block is changed.
pub modify-magic :
    (h : Heap) (prv p s : ℕ) (u v : Bool) (bs : List Block)
    → Chain h prv p ((u, s) ∷ bs)
    → (h' : Heap) × (modify p (set_magic (magic_of v)) h ≡ some (tt, h'))
      × Chain h' prv p ((v, s) ∷ bs)
      × SameOutside p p h h'
modify-magic h prv p s u v bs c =
    let h' = written h p (set_magic (magic_of v)) in
    (
      h',
      modify_lem h p (set_magic (magic_of v)) c.0.0,
      (
        (c.0.0, ground arith),
        Chain-frame bs h h' p (p + mcb_size + s) c.1 (λ a lo hi. (refl, ground arith)),
      ),
      (λ a. refl, λ a out. ground arith),
    )

-- The chain ends in an end block.
pub Chain-end :
    (bs : List Block) (h : Heap) (prv p : Ptr)
    → Chain h prv p bs
    → (last : Ptr) × IsCell h (end_of p bs) (mcb magic_end 0 last null)
Chain-end [] h prv p c = (prv, c)
Chain-end ((u, s) ∷ bs) h prv p c = Chain-end bs h p (p + mcb_size + s) c.1
