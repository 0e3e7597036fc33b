-- ===== src/Heap/Bigs.antt =====
-- The list of big blocks, each with its chain, and the invariant of the whole heap.
use inwox.Base.{◌+◌, ◌-◌, ◌≤◌, ◌<◌, ◌≡◌, ap, ◌∙◌, ◌≢◌, ◌⊎◌, List, [], ◌∷◌, arith}
use inwox.Heap.{Ptr, null, mcb, Heap, magic_big, mcb_size, size_mod}
use inwox.Heap.Chain.{
  Block, IsCell, Chain, end_of, le-end_of, Agree, SameOutside, IsMapped, Chain-frame,
}

-- A big block: its address and its blocks.
abbrev pub Big : Type 0
Big = Ptr × List Block

-- The address of the end block of a big block.
abbrev pub last_cell : Ptr → List Block → Ptr
last_cell b bs = end_of (b + mcb_size) bs

abbrev pub head_of : List Big → Ptr
head_of [] = null
head_of ((b, bs) ∷ bigs) = b

-- The big block at `b` holds the blocks `bs`, and its size is the room from its control block to
-- its end block.
pub record IsBig (h : Heap) (prv nxt b : Ptr) (bs : List Block) : Type 0 where
  pub not_null : b ≢ null
  pub cell : IsCell h b (mcb magic_big (last_cell b bs + mcb_size - b) prv nxt)
  pub chain : Chain h null (b + mcb_size) bs
  pub mapped : IsMapped b (last_cell b bs + mcb_size) h
  pub below : last_cell b bs < size_mod

abbrev pub BigChain : Heap → Ptr → List Big → Type 0
BigChain h prv [] = Unit
BigChain h prv ((b, bs) ∷ bigs) = IsBig h prv (head_of bigs) b bs × BigChain h b bigs

-- No big block of the list touches the addresses `lo`, …, `hi`.
abbrev pub AllApart : Ptr → Ptr → List Big → Type 0
AllApart lo hi [] = Unit
AllApart lo hi ((c, cs) ∷ bigs) = ((hi < c) ⊎ (last_cell c cs < lo)) × AllApart lo hi bigs

abbrev pub IsApart : List Big → Type 0
IsApart [] = Unit
IsApart ((b, bs) ∷ bigs) = AllApart b (last_cell b bs) bigs × IsApart bigs

-- The invariant: from `first` on, the big blocks `bigs` are linked both ways, with well-formed
-- chains, in mapped memory below 2^32 that they do not share.
pub record IsHeap (h : Heap) (first : Ptr) (bigs : List Big) : Type 0 where
  pub starts : head_of bigs ≡ first
  pub not_null : first ≢ null
  pub chain : BigChain h null bigs
  pub apart : IsApart bigs

-- The heaps agree wherever the big blocks are not.
abbrev pub Spares : List Big → Heap → Heap → Type 0
Spares bigs h h' = (lo hi : Ptr) → AllApart lo hi bigs → (a : Ptr) → lo ≤ a → a ≤ hi → Agree h h' a

pub IsBig-frame :
    (h h' : Heap) (prv nxt b : Ptr) (bs : List Block)
    → IsBig h prv nxt b bs
    → ((a : Ptr) → h'.mapped a ≡ h.mapped a)
    → ((a : Ptr) → b ≤ a → a ≤ last_cell b bs → Agree h h' a)
    → IsBig h' prv nxt b bs
IsBig-frame h h' prv nxt b bs big m same =
    let after = le-end_of bs (b + mcb_size) in
    record {
      not_null = big.not_null;
      cell = let k = same b (omega arith) (omega arith) in (k.0 ∙ big.cell.0, k.1 ∙ big.cell.1);
      chain = Chain-frame bs h h' null (b + mcb_size) big.chain λ a lo hi. same a (omega arith) hi;
      mapped = λ a lo hi. m a ∙ big.mapped a lo hi;
      below = big.below;
    }

pub BigChain-frame :
    (bigs : List Big) (h h' : Heap) (prv lo hi : Ptr)
    → BigChain h prv bigs
    → SameOutside lo hi h h'
    → AllApart lo hi bigs
    → BigChain h' prv bigs
BigChain-frame [] h h' prv lo hi c o ap = tt
BigChain-frame ((b, bs) ∷ bigs) h h' prv lo hi c o away = (
  IsBig-frame h h' prv (head_of bigs) b bs c.0 o.0
      (λ a l r. (o.0 a, o.1 a (ground (arith, away.0)))),
  BigChain-frame bigs h h' b lo hi c.1 o away.1,
)
