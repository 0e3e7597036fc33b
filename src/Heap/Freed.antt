-- ===== src/Heap/Freed.antt =====
-- `free` in a chain: the freed block joins both neighbours that are free.
use inwox.Base.{ℕ, ◌+◌, ◌<◌, ◌≡◌, ◌∙◌, ◌≢◌, true, false, List, [], ◌∷◌, ◌++◌, arith}
use inwox.Heap.{Ptr, null, mcb, Heap, mcb_size, size_mod, join}
use inwox.Heap.Chain.{
  Block, magic_of, IsCell, Chain, end_of, le-end_of, SameOutside-trans, SameOutside-widen,
  modify-magic,
}
use inwox.Heap.Join.{
  unify_blocks-Chain, merge_next, Leaves, unify_on-Leaves, unify_back_first, unify_back_used,
  unify_back_free,
}

-- The blocks after the block of size `s` between `pre` and `post` was freed.
unfoldable pub freed : List Block → ℕ → List Block → List Block
freed [] s post = merge_next s post
freed ((true, t) ∷ []) s post = (true, t) ∷ merge_next s post
freed ((false, t) ∷ []) s post = merge_next (t + mcb_size + s) post
freed (b ∷ c ∷ pre) s post = b ∷ freed (c ∷ pre) s post

-- The address of the free block that results.
unfoldable pub joined : Ptr → List Block → Ptr
joined p [] = p
joined p ((true, t) ∷ []) = p + mcb_size + t
joined p ((false, t) ∷ []) = p
joined p (b ∷ c ∷ pre) = joined (p + mcb_size + b.1) (c ∷ pre)

pub join_first :
    (h : Heap) (p s : ℕ) (post : List Block)
    → Chain h null p ((true, s) ∷ post)
    → end_of (p + mcb_size + s) post < size_mod
    → Leaves p null p (merge_next s post) (end_of (p + mcb_size + s) post) h (join p h)
unfolding join
join_first h p s post c w =
    let after = le-end_of post (p + mcb_size + s) in
    let (h₁, e₁, c₁, o₁) = modify-magic h null p s true false post c in
    let (h₂, e₂, c₂, o₂) = unify_on-Leaves post h₁ null p s c₁ w in
    (
      h₂,
      rw (e₁, unify_back_first h₁ p s post c₁) e₂,
      c₂,
      SameOutside-trans p (end_of (p + mcb_size + s) post) h h₁ h₂
          (SameOutside-widen p p p (end_of (p + mcb_size + s) post) h h₁ (omega arith) (omega arith)
            o₁)
          o₂,
    )

module _ (h : Heap) (prv p t s : ℕ) (post : List Block) (ne : p ≢ null)
    (w : end_of (p + mcb_size + t + mcb_size + s) post < size_mod) where
  join_behind_used :
      Chain h prv p ((true, t) ∷ (true, s) ∷ post)
      → Leaves
          (p + mcb_size + t)
          prv
          p
          ((true, t) ∷ merge_next s post)
          (end_of (p + mcb_size + t + mcb_size + s) post)
          h
          (join (p + mcb_size + t) h)
  unfolding join
  join_behind_used c =
      let q = p + mcb_size + t in
      let hi = end_of (q + mcb_size + s) post in
      let after = le-end_of post (q + mcb_size + s) in
      let (h₁, e₁, c₁, o₁) = modify-magic h p q s true false post c.1 in
      let cell₁ : IsCell h₁ p (mcb (magic_of true) t prv q) =
        (o₁.0 p ∙ c.0.0, o₁.1 p (ground arith) ∙ c.0.1) in
      let (h₂, e₂, c₂, o₂) = unify_on-Leaves post h₁ p q s c₁ w in
      (
        h₂,
        rw (e₁, unify_back_used h₁ prv p t s post ne (cell₁, c₁)) e₂,
        ((o₂.0 p ∙ cell₁.0, o₂.1 p (ground arith) ∙ cell₁.1), c₂),
        SameOutside-widen q hi p hi h h₂ (omega arith) (omega arith) (
            SameOutside-trans q hi h h₁ h₂
              (SameOutside-widen q q q hi h h₁ (omega arith) (omega arith) o₁) o₂),
      )

  join_behind_free :
      Chain h prv p ((false, t) ∷ (true, s) ∷ post)
      → Leaves p prv p
          (merge_next (t + mcb_size + s) post)
          (end_of (p + mcb_size + t + mcb_size + s) post)
          h
          (join (p + mcb_size + t) h)
  unfolding join
  join_behind_free c =
      let q = p + mcb_size + t in
      let hi = end_of (q + mcb_size + s) post in
      let after = le-end_of post (q + mcb_size + s) in
      let (h₁, e₁, c₁, o₁) = modify-magic h p q s true false post c.1 in
      let cell₁ : IsCell h₁ p (mcb (magic_of false) t prv q) =
        (o₁.0 p ∙ c.0.0, o₁.1 p (ground arith) ∙ c.0.1) in
      let (h₂, e₂, c₂, o₂) =
        unify_blocks-Chain h₁ prv p t s false false post (cell₁, c₁) (omega arith) in
      let r : p + mcb_size + (t + mcb_size + s) ≡ q + mcb_size + s = omega arith in
      let (h₃, e₃, c₃, o₃) = unify_on-Leaves post h₂ prv p (t + mcb_size + s) c₂ (rw r w) in
      (
        h₃,
        rw (e₁, unify_back_free h₁ prv p t s post ne (cell₁, c₁), e₂) e₃,
        c₃,
        SameOutside-trans p hi h h₁ h₃
            (SameOutside-widen q q p hi h h₁ (omega arith) (omega arith) o₁)
            (SameOutside-trans p hi h₁ h₂ h₃
              (SameOutside-widen p (q + mcb_size + s) p hi h₁ h₂ (omega arith) (omega arith) o₂)
              (rw r at o₃)),
      )

-- A block that has a block in front of it.
pub join_behind :
    (pre : List Block) (b : Block) (h : Heap) (prv p s : ℕ) (post : List Block)
    → p ≢ null
    → Chain h prv p ((b ∷ pre) ++ ((true, s) ∷ post))
    → end_of p ((b ∷ pre) ++ ((true, s) ∷ post)) < size_mod
    → Leaves
        (joined p (b ∷ pre))
        prv
        p
        (freed (b ∷ pre) s post)
        (end_of p ((b ∷ pre) ++ ((true, s) ∷ post)))
        h
        (join (end_of p (b ∷ pre)) h)
unfolding freed joined
join_behind [] (true, t) h prv p s post ne c w = join_behind_used h prv p t s post ne w c
join_behind [] (false, t) h prv p s post ne c w = join_behind_free h prv p t s post ne w c
join_behind (b' ∷ pre) (u, t) h prv p s post ne c w =
    let q = p + mcb_size + t in
    let hi = end_of q ((b' ∷ pre) ++ ((true, s) ∷ post)) in
    let after = le-end_of ((b' ∷ pre) ++ ((true, s) ∷ post)) q in
    let (h', e, c', o) = join_behind pre b' h p q s post (omega arith) c.1 w in
    (
      h',
      e,
      ((o.0 p ∙ c.0.0, o.1 p (ground arith) ∙ c.0.1), c'),
      SameOutside-widen q hi p hi h h' (omega arith) (omega arith) o,
    )
