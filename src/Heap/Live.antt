-- ===== src/Heap/Live.antt =====
-- The objects that users hold: what a call of `malloc` promises them.
use inwox.Base.{
  ℕ, ◌+◌, ◌-◌, ◌%◌, ◌≤◌, ◌<◌, ◌≡◌, refl, sym, inl, inr, true, false, some, List, [], ◌∷◌, ◌++◌,
  append_assoc, arith, ltb, leb, if◌then◌else◌, Bool-cases,
}
use inwox.Heap.{Ptr, Heap, mcb_size, size_mod, max_align, Mapper, round_up, malloc}
use inwox.Heap.Chain.{Block}
use inwox.Heap.Search.{any_fits, first_fit, fit_address}
use inwox.Heap.Bigs.{Big, IsHeap}
use inwox.Heap.Serve.{any_big_fits, serve, serve_address, rounds, malloc-serve}

-- Address and size of each block in use.
abbrev pub Object : Type 0
Object = Ptr × ℕ

unfoldable pub objects : Ptr → List Block → List Object
objects p [] = []
objects p ((u, s) ∷ bs) =
    let rest = objects (p + mcb_size + s) bs in if u then (p + mcb_size, s) ∷ rest else rest

unfoldable pub live : List Big → List Object
live [] = []
live ((b, bs) ∷ bigs) = objects (b + mcb_size) bs ++ live bigs

-- `after` is `before` with one more object at `p`, of at least `n` bytes, and of fewer than would
-- leave room for another block: `n` where what is left over is a block of its own.
abbrev pub Adds : Ptr → ℕ → List Object → List Object → Type 0
Adds p n before after =
    (xs : List Object) × (ys : List Object) × (s : ℕ) × (before ≡ xs ++ ys)
    × (after ≡ xs ++ ((p, s) ∷ ys))
    × (n ≤ s)
    × (s ≤ mcb_size + n)

Adds-append :
    (p n : ℕ) (front before after back : List Object)
    → Adds p n before after
    → Adds p n (front ++ (before ++ back)) (front ++ (after ++ back))
Adds-append p n front before after back (xs, ys, s, e, e', le, ge) =
    (front ++ xs, ys ++ back, s, rw e (simp append_assoc), rw e' (simp append_assoc), le, ge)

objects-first_fit :
    (n : ℕ) (bs : List Block) (p : Ptr)
    → any_fits n bs ≡ true
    → Adds (fit_address n p bs + mcb_size) n (objects p bs) (objects p (first_fit n bs))
unfolding any_fits first_fit fit_address objects
objects-first_fit n [] p h = cc
objects-first_fit n ((true, s) ∷ bs) p h =
    let (xs, ys, t, e, e', le, ge) = objects-first_fit n bs (p + mcb_size + s) h in
    ((p + mcb_size, s) ∷ xs, ys, t, rw e, rw e', le, ge)
objects-first_fit n ((false, s) ∷ bs) p h = elim (Bool-cases (leb n s)) [
  | inl hit ↦ rw hit (elim (Bool-cases (ltb (mcb_size + n) s)) [
    | inl cut ↦
        let e : p + mcb_size + n + mcb_size + (s - mcb_size - n) ≡ p + mcb_size + s =
          ground arith in
        rw (cut, e) ([], objects (p + mcb_size + s) bs, n, refl, refl, omega arith, omega arith)
    | inr whole ↦
        rw whole ([], objects (p + mcb_size + s) bs, s, refl, refl, ground arith, ground arith)
  ])
  | inr miss ↦ rw miss (objects-first_fit n bs (p + mcb_size + s) (rw miss at h))
]

live-serve :
    (n : ℕ) (bigs : List Big)
    → any_big_fits n bigs ≡ true
    → Adds (serve_address n bigs) n (live bigs) (live (serve n bigs))
unfolding any_big_fits serve serve_address live
live-serve n [] h = cc
live-serve n ((b, bs) ∷ bigs) h = elim (Bool-cases (any_fits n bs)) [
  | inl here ↦ rw here (
      Adds-append (fit_address n (b + mcb_size) bs + mcb_size) n [] (objects (b + mcb_size) bs)
        (objects (b + mcb_size) (first_fit n bs)) (live bigs)
        (objects-first_fit n bs (b + mcb_size) here))
  | inr miss ↦ rw miss (
      let (xs, ys, t, e, e', le, ge) = live-serve n bigs (rw miss at h) in
      (
        objects (b + mcb_size) bs ++ xs,
        ys,
        t,
        rw e (sym (append_assoc (objects (b + mcb_size) bs) xs ys)),
        rw e' (sym (append_assoc (objects (b + mcb_size) bs) xs ((serve_address n bigs, t) ∷ ys))),
        le,
        ge,
      ))
]

-- A request that some block can serve: `malloc` ends, the heap meets the invariant again, and the
-- live objects are those before and one new object at the address returned. Its size is at least the
-- size rounded up, and exceeds it by the size of a control block at most: a block that is larger is
-- split.
pub malloc-Adds :
    (answer : Mapper) (fuel first size : ℕ) (h : Heap) (bigs : List Big)
    → IsHeap h first bigs
    → any_big_fits (round_up size) bigs ≡ true
    → mcb_size + round_up size < size_mod
    → rounds bigs ≤ fuel
    → (p : Ptr) × (h' : Heap) × (bigs' : List Big) × (malloc answer fuel first size h
        ≡ some (p, h'))
      × IsHeap h' first bigs'
      × Adds p (round_up size) (live bigs) (live bigs')
malloc-Adds answer fuel first size h bigs v hit small le =
    let (h', e, v', m, o) = malloc-serve answer fuel first size h bigs v hit small le in
    let n = round_up size in (serve_address n bigs, h', serve n bigs, e, v', live-serve n bigs hit)

-- The rounded size is a multiple of the alignment and at least the size asked for, as long as
-- rounding does not pass 2^32.
pub round_up_bounds :
    (size : ℕ)
    → size + max_align ≤ size_mod
    → (round_up size % max_align ≡ 0)
      × (size ≤ round_up size)
      × (round_up size < size + 1 + max_align)
unfolding round_up
round_up_bounds size h = (ground arith, ground arith, ground arith)

-- A size within 15 bytes of 2^32 is rounded to 0.
pub round_up_wraps : (size : ℕ) → size < size_mod → size_mod < size + max_align → round_up size ≡ 0
unfolding round_up
round_up_wraps size h k = ground arith
