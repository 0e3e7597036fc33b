-- ===== src/Memory/Segments.antt =====
-- kernel/src/memorysegment.cpp: the segments of an address space, in the order of their `next`
-- pointers. Where a segment is stored (`allocateSegment`, `verifySegmentList`) and `removeSegment`,
-- which follows `prev`, are not modelled.
pub mod Ordered
use inwox.Base.{
  ℕ, zero, suc, ◌+◌, ◌-◌, ◌*◌, ◌/◌, ◌%◌, ◌^◌, ◌≤◌, ◌<◌, min, ◌≡◌, refl, sym, ap, ◌∙◌, ◌≢◌, ◌↔◌, ◌⊎◌,
  inl, inr, Bool, true, false, not, ◌&&◌, ◌||◌, Option, none, some, List, [], ◌∷◌, ◌++◌, map,
  append-nil, append_assoc, arith, ltb, leb, ◌==◌, ==_iff, if◌then◌else◌, Bool-cases, Option-cases,
  length, get_elem?, set, take, drop, replicate, All, length-append, length-replicate, length-set,
  Bytes, ◌>>=◌,
}

abbrev pub address_mod : ℕ
address_mod = 2 ^ 32

pub record Segment : Type 0 where
  pub address : ℕ
  pub size : ℕ
  pub flags : ℕ

unfoldable pub segment_end : Segment → ℕ
segment_end s = (s.address + s.size) % address_mod

-- The space between a segment and the next.
unfoldable pub get_free_space_after : Segment → Segment → ℕ
get_free_space_after s next = (next.address + (address_mod - segment_end s)) % address_mod

-- On the current segment and those behind it. At the last segment the code reads the address of the
-- segment at the null pointer: that is `none`.
unfoldable pub find_free_segment : ℕ → Segment → List Segment → Option ℕ
find_free_segment size s [] = none
find_free_segment size s (next ∷ rest) =
    if ltb (get_free_space_after s next) size
    then find_free_segment size next rest
    else some (segment_end s)

-- The new segment between the current one and the rest; `none` is an assertion that fails.
unfoldable pub insert_after : Segment → Segment → List Segment → Option (List Segment)
insert_after new s rest = if leb (segment_end s) new.address then some (s ∷ new ∷ rest) else none

unfoldable pub add_segment : Segment → Segment → List Segment → Option (List Segment)
add_segment new s [] = insert_after new s []
add_segment new s (next ∷ rest) =
    if ltb next.address (segment_end new)
    then (add_segment new next rest >>= λ l. some (s ∷ l))
    else insert_after new s (next ∷ rest)

-- The address of the new segment, and the segments then.
unfoldable pub find_and_add_new_segment : ℕ → ℕ → Segment → List Segment → Option (ℕ × List Segment)
find_and_add_new_segment size protection s rest = find_free_segment size s rest >>= λ address.
    add_segment (record { address = address; size = size; flags = protection }) s rest >>= λ l.
    some (address, l)
