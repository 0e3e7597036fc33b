-- ===== src/Memory/Frames/Usable/Collected.antt =====
-- The frames that are free at the start, by the tests that the code makes.
use inwox.Base.{
  ℕ, zero, suc, ◌+◌, ◌/◌, ◌%◌, ◌^◌, ◌≤◌, ◌≡◌, refl, ap, inl, inr, true, Option, some, List, [], ◌∷◌,
  ◌++◌, arith, ◌==◌, if◌then◌else◌, Bool-cases, Option-cases, length, All, Bytes, ◌>>=◌,
}
use inwox.Memory.Paging.{page_size}
use inwox.Memory.Frames.{address_mod, Frames, push_page_frame}
use inwox.Memory.Frames.Bag.{Bag, push_page_frame-Bag}
use inwox.Memory.Frames.Usable.{
  Layout, MmapEntry, is_used, push_region, is_available, page_count, push_entries, initialize,
}

-- `n` addresses, a page apart.
unfoldable pub pages_from : ℕ → ℕ → Bytes
pages_from zero a = []
pages_from (suc n) a = a ∷ pages_from n ((a + page_size) % address_mod)

unfoldable pub keep_free : Layout → Bytes → Bytes
keep_free l [] = []
keep_free l (a ∷ rest) = if is_used l a then keep_free l rest else a ∷ keep_free l rest

-- The pages of all available entries.
unfoldable pub available_pages : List MmapEntry → Bytes
available_pages [] = []
available_pages (e ∷ es) =
    if is_available e
    then pages_from (page_count e.length) (e.base_addr % address_mod) ++ available_pages es
    else available_pages es

unfoldable pub push_all : Bytes → Frames → Option Frames
push_all [] f = some f
push_all (p ∷ ps) f = push_page_frame p f >>= push_all ps

push_all-append :
    (ps qs : Bytes) (f : Frames) → push_all (ps ++ qs) f ≡ (push_all ps f >>= push_all qs)
unfolding push_all
push_all-append [] qs f = refl
push_all-append (p ∷ ps) qs f = elim (Option-cases (push_page_frame p f)) [
  | inl e ↦ rw e refl
  | inr (f', e) ↦ rw e (push_all-append ps qs f')
]

keep_free-append :
    (l : Layout) (ps qs : Bytes) → keep_free l (ps ++ qs) ≡ keep_free l ps ++ keep_free l qs
unfolding keep_free
keep_free-append l [] qs = refl
keep_free-append l (p ∷ ps) qs = elim (Bool-cases (is_used l p)) [
  | inl e ↦ rw e (keep_free-append l ps qs)
  | inr e ↦ rw e (ap (λ r. p ∷ r) (keep_free-append l ps qs))
]

push_region-keep_free :
    (l : Layout) (n a : ℕ) (f : Frames)
    → push_region l n a f ≡ push_all (keep_free l (pages_from n a)) f
unfolding push_region push_all keep_free pages_from
push_region-keep_free l zero a f = refl
push_region-keep_free l (suc n) a f =
    let next = (a + page_size) % address_mod in
    elim (Bool-cases (is_used l a)) [
      | inl e ↦ rw e (push_region-keep_free l n next f)
      | inr e ↦ rw e (elim (Option-cases (push_page_frame a f)) [
        | inl e' ↦ rw e' refl
        | inr (f', e') ↦ rw e' (push_region-keep_free l n next f')
      ])
    ]

push_entries-keep_free :
    (l : Layout) (es : List MmapEntry) (f : Frames)
    → push_entries l es f ≡ push_all (keep_free l (available_pages es)) f
unfolding push_entries available_pages keep_free push_all
push_entries-keep_free l [] f = refl
push_entries-keep_free l (e ∷ es) f = elim (Bool-cases (is_available e)) [
  | inl avail ↦
      let ps = pages_from (page_count e.length) (e.base_addr % address_mod) in
      rw
        (
          avail,
          push_region-keep_free l (page_count e.length) (e.base_addr % address_mod) f,
          keep_free-append l ps (available_pages es),
          push_all-append (keep_free l ps) (keep_free l (available_pages es)) f,
        )
        (elim (Option-cases (push_all (keep_free l ps) f)) [
          | inl e' ↦ rw e' refl
          | inr (f', e') ↦ rw e' (push_entries-keep_free l es f')
        ])
  | inr other ↦ rw other (push_entries-keep_free l es f)
]

abbrev Aligned : ℕ → Type 0
Aligned p = p % page_size ≡ 0

-- The list with others before it, each of which was put in front.
unfoldable pub put_all : Bytes → Bytes → Bytes
put_all [] frames = frames
put_all (p ∷ ps) frames = put_all ps (p ∷ frames)

push_all-Bag :
    (ps : Bytes) (f : Frames) (frames : Bytes)
    → Bag f frames
    → All Aligned ps
    → length ps + length frames ≤ 2 ^ 20
    → (f' : Frames) × (push_all ps f ≡ some f') × Bag f' (put_all ps frames)
unfolding push_all put_all
push_all-Bag [] f frames b aligned few = (f, refl, b)
push_all-Bag (p ∷ ps) f frames b (a, aligned) few =
    let (f1, e1, b1) = push_page_frame-Bag p f frames b a (omega arith) in
    let (f2, e2, b2) = push_all-Bag ps f1 (p ∷ frames) b1 aligned (omega arith) in
    (f2, rw e1 e2, b2)

pages_from-Aligned : (n a : ℕ) → Aligned a → All Aligned (pages_from n a)
unfolding pages_from
pages_from-Aligned zero a h = tt
pages_from-Aligned (suc n) a h =
    (h, pages_from-Aligned n ((a + page_size) % address_mod) (omega arith))

All-append : (ps qs : Bytes) → All Aligned ps → All Aligned qs → All Aligned (ps ++ qs)
All-append [] qs h k = k
All-append (p ∷ ps) qs h k = (h.0, All-append ps qs h.1 k)

available_pages-Aligned :
    (es : List MmapEntry) → All (λ e. Aligned e.base_addr) es → All Aligned (available_pages es)
unfolding available_pages
available_pages-Aligned [] h = tt
available_pages-Aligned (e ∷ es) h = elim (Bool-cases (is_available e)) [
  | inl avail ↦
      let base : Aligned (e.base_addr % address_mod) = omega (arith, h.0) in
      rw avail (
        All-append _ (available_pages es)
          (pages_from-Aligned (page_count e.length) (e.base_addr % address_mod) base)
          (available_pages-Aligned es h.1))
  | inr other ↦ rw other (available_pages-Aligned es h.1)
]

keep_free-Aligned : (l : Layout) (ps : Bytes) → All Aligned ps → All Aligned (keep_free l ps)
unfolding keep_free
keep_free-Aligned l [] h = tt
keep_free-Aligned l (p ∷ ps) h = elim (Bool-cases (is_used l p)) [
  | inl e ↦ rw e (keep_free-Aligned l ps h.1)
  | inr e ↦ rw e (h.0, keep_free-Aligned l ps h.1)
]

pub initialize-put_all :
    (flags : ℕ) (l : Layout) (es : List MmapEntry) (f : Frames) (frames : Bytes)
    → Bag f frames
    → flags % 2 ≡ 1
    → (flags / 64) % 2 ≡ 1
    → All (λ e. e.base_addr % page_size ≡ 0) es
    → length (keep_free l (available_pages es)) + length frames ≤ 2 ^ 20
    → (f' : Frames) × (initialize flags l es f ≡ some f')
      × Bag f' (put_all (keep_free l (available_pages es)) frames)
unfolding initialize
initialize-put_all flags l es f frames b low high aligned few =
    let first : (flags % 2 == 1) ≡ true = ground (arith, low) in
    let second : ((flags / 64) % 2 == 1) ≡ true = ground (arith, high) in
    rw (first, second, push_entries-keep_free l es f)
      (push_all-Bag (keep_free l (available_pages es)) f frames b
        (keep_free-Aligned l (available_pages es) (available_pages-Aligned es aligned)) few)
