-- ===== src/Memory/Segments/Ordered.antt =====
-- Segments in the order of their addresses, without overlap.
use inwox.Base.{
  ℕ, ◌+◌, ◌%◌, ◌≤◌, ◌<◌, ◌≡◌, refl, sym, ap, ◌∙◌, ◌↔◌, inl, inr, true, false, Option, none, some,
  List, [], ◌∷◌, ◌++◌, append_assoc, arith, ltb, leb, Bool-cases,
}
use inwox.Memory.Segments.{
  address_mod, Segment, segment_end, get_free_space_after, find_free_segment, insert_after,
  add_segment, find_and_add_new_segment,
}

-- Each segment ends where the next begins or before, and the last ends with the address space or
-- before.
abbrev pub Ordered : Segment → List Segment → Type 0
Ordered s [] = s.address + s.size ≤ address_mod
Ordered s (next ∷ rest) =
    (s.address + s.size ≤ next.address) × (next.address < address_mod) × Ordered next rest

abbrev pub OrderedAll : List Segment → Type 0
OrderedAll [] = Unit
OrderedAll (s ∷ rest) = Ordered s rest

-- No two neighbours have `size` bytes between them.
abbrev pub NoGap : ℕ → Segment → List Segment → Type 0
NoGap size s [] = Unit
NoGap size s (next ∷ rest) = (next.address < s.address + s.size + size) × NoGap size next rest

abbrev pub NoGapAll : ℕ → List Segment → Type 0
NoGapAll size [] = Unit
NoGapAll size (s ∷ rest) = NoGap size s rest

-- The first gap of `size` bytes, as a split of the list.
pub record Gap (size : ℕ) (l : List Segment) (a : ℕ) : Type 0 where
  pub before : List Segment
  pub last : Segment
  pub next : Segment
  pub after : List Segment
  pub split : l ≡ before ++ (last ∷ (next ∷ after))
  pub place : last.address + last.size ≡ a
  pub room : a + size ≤ next.address
  pub first : NoGapAll size (before ++ (last ∷ []))

abbrev first_address : Segment → List Segment → ℕ
first_address s [] = s.address
first_address s (next ∷ rest) = next.address

-- A segment in front of a list that begins with `next`, and the small gap between the two.
NoGapAll-cons :
    (size : ℕ) (s next : Segment) (rest before : List Segment) (last : Segment)
    (after : List Segment)
    → next ∷ rest ≡ before ++ (last ∷ after)
    → next.address < s.address + s.size + size
    → NoGapAll size (before ++ (last ∷ []))
    → NoGapAll size (s ∷ (before ++ (last ∷ [])))
NoGapAll-cons size s next rest [] last after e small h =
    (rw (ap (first_address next) e) at small, tt)
NoGapAll-cons size s next rest (b ∷ before) last after e small h =
    (rw (ap (first_address next) e) at small, h)

find_free_segment-Gap :
    (size : ℕ) (s : Segment) (rest : List Segment) (a : ℕ)
    → Ordered s rest
    → find_free_segment size s rest ≡ some a
    → Gap size (s ∷ rest) a
unfolding find_free_segment get_free_space_after segment_end
find_free_segment-Gap size s [] a h e = absurd (ground (arith, e))
find_free_segment-Gap size s (next ∷ rest) a h e =
    elim (Bool-cases (ltb (get_free_space_after s next) size)) [
      | inl small ↦
          let g = find_free_segment-Gap size next rest a h.2 (rw small at e) in
          record {
            before = s ∷ g.before;
            last = g.last;
            next = g.next;
            after = g.after;
            split = ap (λ l. s ∷ l) g.split;
            place = g.place;
            room = g.room;
            first =
                NoGapAll-cons size s next rest g.before g.last (g.next ∷ g.after) g.split
                  (ground (arith, h, small)) g.first;
          }
      | inr fits ↦
          let at_end = rw fits at e in
          record {
            before = [];
            last = s;
            next = next;
            after = rest;
            split = refl;
            place = ground (arith, at_end, h);
            room = ground (arith, at_end, h, fits);
            first = tt;
          }
    ]

-- The segments before a place have addresses below it.
Ordered-below :
    (s : Segment) (before : List Segment) (last : Segment) (rest : List Segment)
    → Ordered s (before ++ (last ∷ rest))
    → s.address + s.size ≤ last.address
Ordered-below s [] last rest h = h.0
Ordered-below s (b ∷ before) last rest h =
    let below = Ordered-below b before last rest h.2 in omega (arith, h.0, below)

at_place :
    (new last next : Segment) (after : List Segment)
    → last.address + last.size ≡ new.address
    → new.address + new.size ≤ next.address
    → next.address < address_mod
    → add_segment new last (next ∷ after) ≡ some (last ∷ (new ∷ (next ∷ after)))
unfolding add_segment insert_after segment_end
at_place new last next after place room low =
    let stop : ltb next.address ((new.address + new.size) % address_mod) ≡ false = ground arith in
    let ok : leb ((last.address + last.size) % address_mod) new.address ≡ true = ground arith in
    rw (stop, ok) refl

OrderedAll-split :
    (before : List Segment) (last next : Segment) (after : List Segment)
    → OrderedAll (before ++ (last ∷ (next ∷ after)))
    → Ordered last (next ∷ after)
OrderedAll-split [] last next after h = h
OrderedAll-split (b ∷ []) last next after h = h.2
OrderedAll-split (b ∷ (b' ∷ before)) last next after h =
    OrderedAll-split (b' ∷ before) last next after h.2

-- The walk stops at the gap.
add_segment-place :
    (new s : Segment) (before : List Segment) (last next : Segment) (after : List Segment)
    → Ordered s (before ++ (last ∷ (next ∷ after)))
    → last.address + last.size ≡ new.address
    → new.address + new.size ≤ next.address
    → 0 < new.size
    → add_segment new s (before ++ (last ∷ (next ∷ after)))
      ≡ some (s ∷ (before ++ (last ∷ (new ∷ (next ∷ after)))))
unfolding add_segment segment_end
add_segment-place new s [] last next after h place room some_size =
    let walk : ltb last.address ((new.address + new.size) % address_mod) ≡ true =
      ground (arith, h) in
    rw walk (rw (at_place new last next after place room h.2.1) refl)
add_segment-place new s (b ∷ before) last next after h place room some_size =
    let below = Ordered-below b before last (next ∷ after) h.2 in
    let low = (OrderedAll-split (b ∷ before) last next after h.2).1 in
    let walk : ltb b.address ((new.address + new.size) % address_mod) ≡ true =
      ground (arith, below, low) in
    rw walk (rw (add_segment-place new b before last next after h.2 place room some_size) refl)

Ordered-insert :
    (new s : Segment) (before : List Segment) (last next : Segment) (after : List Segment)
    → Ordered s (before ++ (last ∷ (next ∷ after)))
    → last.address + last.size ≡ new.address
    → new.address + new.size ≤ next.address
    → Ordered s (before ++ (last ∷ (new ∷ (next ∷ after))))
Ordered-insert new s [] last next after h place room =
    (h.0, h.1, (omega (arith, place), omega (arith, h.2.1), (room, h.2.1, h.2.2)))
Ordered-insert new s (b ∷ before) last next after h place room =
    (h.0, h.1, Ordered-insert new b before last next after h.2 place room)

abbrev add_to : Segment → List Segment → Option (List Segment)
add_to new [] = none
add_to new (s ∷ rest) = add_segment new s rest

add_to-place :
    (new : Segment) (before : List Segment) (last next : Segment) (after : List Segment)
    → OrderedAll (before ++ (last ∷ (next ∷ after)))
    → last.address + last.size ≡ new.address
    → new.address + new.size ≤ next.address
    → 0 < new.size
    → (add_to new (before ++ (last ∷ (next ∷ after)))
        ≡ some (before ++ (last ∷ (new ∷ (next ∷ after)))))
      × OrderedAll (before ++ (last ∷ (new ∷ (next ∷ after))))
add_to-place new [] last next after h place room some_size = (
  at_place new last next after place room h.1,
  (omega (arith, place), omega (arith, h.1), (room, h.1, h.2)),
)
add_to-place new (s ∷ before) last next after h place room some_size = (
  add_segment-place new s before last next after h place room some_size,
  Ordered-insert new s before last next after h place room,
)

-- When a gap is found, the new segment of one byte or more is put in the first one that has room for
-- it: the other segments stay as they are, around it, those before it have no gap of its size between
-- them, and all are in order and disjoint as before.
pub find_and_add_new_segment-Ordered :
    (size protection : ℕ) (s : Segment) (rest : List Segment) (a : ℕ)
    → Ordered s rest
    → 0 < size
    → find_free_segment size s rest ≡ some a
    → let new : Segment = record { address = a; size = size; flags = protection } in
      (before after : List Segment) × (s ∷ rest ≡ before ++ after)
      × (find_and_add_new_segment size protection s rest ≡ some (a, before ++ (new ∷ after)))
      × OrderedAll (before ++ (new ∷ after))
      × NoGapAll size before
unfolding find_and_add_new_segment
find_and_add_new_segment-Ordered size protection s rest a h some_size e =
    let new : Segment = record { address = a; size = size; flags = protection } in
    let g = find_free_segment-Gap size s rest a h e in
    let l = g.before ++ (g.last ∷ (g.next ∷ g.after)) in
    let ordered : OrderedAll l = rw (← g.split) h in
    let (added, good) =
      add_to-place new g.before g.last g.next g.after ordered g.place g.room some_size in
    let here : add_to new (s ∷ rest) ≡ add_to new l = ap (add_to new) g.split in
    let shift = append_assoc g.before (g.last ∷ []) (new ∷ (g.next ∷ g.after)) in
    (
      g.before ++ (g.last ∷ []),
      g.next ∷ g.after,
      g.split ∙ sym (append_assoc g.before (g.last ∷ []) (g.next ∷ g.after)),
      rw e (rw (here ∙ added) (rw shift refl)),
      rw shift good,
      g.first,
    )

-- When no gap is large enough the search reads behind the last segment, and otherwise it finds one.
pub find_free_segment-NoGap :
    (size : ℕ) (s : Segment) (rest : List Segment)
    → Ordered s rest
    → (find_free_segment size s rest ≡ none) ↔ NoGap size s rest
unfolding find_free_segment get_free_space_after segment_end
find_free_segment-NoGap size s [] h = ground arith
find_free_segment-NoGap size s (next ∷ rest) h =
    let ih = find_free_segment-NoGap size next rest h.2 in ground (arith, h, ih)
