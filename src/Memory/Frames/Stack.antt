-- ===== src/Memory/Frames/Stack.antt =====
-- The stack as the free frames on it and the frames of its own pages.

use inwox.Base.{
  ℕ, ◌+◌, ◌-◌, ◌*◌, ◌/◌, ◌%◌, ◌^◌, ◌≤◌, ◌<◌, ◌≡◌, refl, ◌∙◌, ◌≢◌, true, false, Option, none, some,
  [], ◌∷◌, arith, ltb, ◌==◌, if◌then◌else◌, length, All, Bytes,
}
use inwox.Memory.Paging.{page_size, Paging, directory, map_at, unmap, get_physical_address}
use inwox.Memory.Paging.Translate.{Separate}
use inwox.Memory.Paging.Mapped.{IsPage, map_at-get_physical_address, unmap-get_physical_address}
use inwox.Memory.Frames.{
  stack_base, address_mod, Frames, read_write, push_page_frame, pop_stack_page, pop_page_frame,
}

abbrev pub Entries : (ℕ → ℕ) → Bytes → Type 0
Entries words [] = Unit
Entries words (x ∷ xs) = (words (length xs + 1) ≡ x) × Entries words xs

abbrev pub Pages : Paging → Bytes → Type 0
Pages m [] = Unit
Pages m (p ∷ ps) =
    (get_physical_address 0 (stack_base - (length ps + 1) * page_size) m ≡ some p) × Pages m ps

-- `entries` are on the stack, and the stack has the pages `pages`, both with the newest first. The
-- page table for the 4 MB of the stack is there from the start.
pub record Stacked (f : Frames) (entries pages : Bytes) : Type 0 where
  pub used : f.used ≡ length entries
  pub total : f.used + f.left ≡ 1024 * length pages
  pub limit : length pages ≤ 1024
  pub stored : Entries f.words entries
  pub mapped : Pages f.paging pages
  pub table : directory f.paging 0 1022 ≢ 0
  pub spaces : All (λ s. s ≢ 0) f.paging.spaces
  pub separate : Separate 0 f.paging

Entries-later :
    (words : ℕ → ℕ) (xs : Bytes) (i p : ℕ)
    → length xs < i
    → Entries words xs
    → Entries (λ k. if k == i then p else words k) xs
Entries-later words [] i p later h = tt
Entries-later words (x ∷ xs) i p later h =
    let other : (length xs + 1 == i) ≡ false = ground arith in
    (rw other h.0, Entries-later words xs i p (omega arith) h.1)

Pages-same :
    (m m' : Paging) (ps : Bytes) (v : ℕ) (o : Option ℕ)
    → length ps ≤ 1024
    → v + length ps * page_size < stack_base
    → ((u : ℕ)
        → IsPage u
        → get_physical_address 0 u m' ≡ (if u == v then o else get_physical_address 0 u m))
    → Pages m ps
    → Pages m' ps
Pages-same m m' [] v o limit below same h = tt
Pages-same m m' (p ∷ ps) v o limit below same h =
    let u = stack_base - (length ps + 1) * page_size in
    let other : (u == v) ≡ false = ground arith in
    let here : get_physical_address 0 u m' ≡ get_physical_address 0 u m =
      same u (omega arith, omega arith, λ z. omega (arith, z)) ∙ rw other refl in
    (here ∙ h.0, Pages-same m m' ps v o (omega arith) (omega arith) same h.1)

-- A frame that is pushed while the stack has room is its first entry.
pub push-entry :
    (p : ℕ) (f : Frames) (entries pages : Bytes)
    → Stacked f entries pages
    → f.left ≢ 0
    → (f' : Frames) × (push_page_frame p f ≡ some f') × Stacked f' (p ∷ entries) pages
unfolding push_page_frame
push-entry p f entries pages h ne =
    let room : (f.left == 0) ≡ false = ground (arith, ne) in
    let self : (length entries + 1 == f.used + 1) ≡ true = ground (arith, h.used) in
    (
      record f {
        words = λ k. if k == f.used + 1 then p else f.words k;
        used = f.used + 1;
        left = f.left - 1;
      },
      rw room refl,
      record {
        used = omega (arith, h.used);
        total = omega (arith, h.total, ne);
        limit = h.limit;
        stored = (
          rw self refl,
          Entries-later f.words entries (f.used + 1) p (omega (arith, h.used)) h.stored,
        );
        mapped = h.mapped;
        table = h.table;
        spaces = h.spaces;
        separate = h.separate;
      },
    )

push_lem :
    (p v : ℕ) (f : Frames) (m : Paging)
    → f.left ≡ 0
    → (stack_base + address_mod - (f.used * 4) % address_mod - page_size) % address_mod ≡ v
    → map_at 0 v p read_write none f.paging ≡ some (v, m)
    → push_page_frame p f ≡ some (record f { left = f.left + 1024; paging = m })
unfolding push_page_frame
push_lem p v f m full place e =
    let is_full : (f.left == 0) ≡ true = ground (arith, full) in rw (is_full, place, e) refl

pop_lem :
    (p v : ℕ) (f : Frames) (m : Paging)
    → f.used ≡ 0
    → 0 < f.left
    → (stack_base + address_mod - (f.left * 4) % address_mod) % address_mod ≡ v
    → get_physical_address 0 v f.paging ≡ some p
    → unmap 0 v none f.paging ≡ some (v, m)
    → pop_page_frame f ≡ some (p, record f { left = f.left - 1024; paging = m })
unfolding pop_page_frame pop_stack_page
pop_lem p v f m empty left place here e =
    let none_used : (f.used == 0) ≡ true = ground (arith, empty) in
    let some_left : ltb 0 f.left ≡ true = ground (arith, left) in
    rw (none_used, some_left, place, here, e) refl

-- A frame that is pushed on a full stack makes the stack longer.
pub push-page :
    (p : ℕ) (f : Frames) (entries pages : Bytes)
    → Stacked f entries pages
    → f.left ≡ 0
    → p % page_size ≡ 0
    → length pages < 1024
    → (f' : Frames) × (push_page_frame p f ≡ some f') × Stacked f' entries (p ∷ pages)
push-page p f entries pages h full aligned few =
    let v = stack_base - (length pages + 1) * page_size in
    let place : (stack_base + address_mod - (f.used * 4) % address_mod - page_size) % address_mod
        ≡ v =
      omega (arith, h.total) in
    let index : v / 2 ^ 22 ≡ 1022 = omega arith in
    let page : IsPage v = (omega arith, omega arith, λ z. omega (arith, z)) in
    let (m, e, same, apart, spaces, kept) =
      map_at-get_physical_address 0 v p read_write none f.paging page aligned h.separate
        (rw index h.table) in
    let self : (v == v) ≡ true = ground arith in
    (
      record f { left = f.left + 1024; paging = m },
      push_lem p v f m full place e,
      record {
        used = h.used;
        total = omega (arith, h.total);
        limit = omega arith;
        stored = h.stored;
        mapped = (
          same v page ∙ rw self refl,
          Pages-same f.paging m pages v (some p) h.limit (omega arith) same h.mapped,
        );
        table = kept 1022 h.table;
        spaces = rw spaces h.spaces;
        separate = apart;
      },
    )

-- The newest entry is popped.
pub pop-entry :
    (x : ℕ) (f : Frames) (entries pages : Bytes)
    → Stacked f (x ∷ entries) pages
    → (f' : Frames) × (pop_page_frame f ≡ some (x, f')) × Stacked f' entries pages
unfolding pop_page_frame
pop-entry x f entries pages h =
    let some_used : (f.used == 0) ≡ false = ground (arith, h.used) in
    let newest : f.used ≡ length entries + 1 = omega (arith, h.used) in
    let top : f.words f.used ≡ x = rw newest h.stored.0 in
    (
      record f { used = f.used - 1; left = f.left + 1 },
      rw (some_used, top) refl,
      record {
        used = omega (arith, h.used);
        total = omega (arith, h.used, h.total);
        limit = h.limit;
        stored = h.stored.1;
        mapped = h.mapped;
        table = h.table;
        spaces = h.spaces;
        separate = h.separate;
      },
    )

-- Without entries, the frame of the newest page of the stack is popped.
pub pop-page :
    (p : ℕ) (f : Frames) (pages : Bytes)
    → Stacked f [] (p ∷ pages)
    → (f' : Frames) × (pop_page_frame f ≡ some (p, f')) × Stacked f' [] pages
pop-page p f pages h =
    let v = stack_base - (length pages + 1) * page_size in
    let place : (stack_base + address_mod - (f.left * 4) % address_mod) % address_mod ≡ v =
      omega (arith, h.used, h.total, h.limit) in
    let index : v / 2 ^ 22 ≡ 1022 = omega (arith, h.limit) in
    let (m, e, same, apart, spaces, kept) =
      unmap-get_physical_address 0 v none f.paging
        (omega (arith, h.limit), omega arith, λ z. omega (arith, z, h.limit)) h.separate
        (rw index h.table) in
    (
      record f { left = f.left - 1024; paging = m },
      pop_lem p v f m h.used (omega (arith, h.used, h.total)) place h.mapped.0 e,
      record {
        used = h.used;
        total = omega (arith, h.used, h.total);
        limit = omega (arith, h.limit);
        stored = tt;
        mapped =
            Pages-same f.paging m pages v (some 0) (omega (arith, h.limit)) (omega (arith, h.limit))
              same h.mapped.1;
        table = kept 1022 h.table;
        spaces = rw spaces h.spaces;
        separate = apart;
      },
    )

-- When there is nothing left the result is 0.
pub pop-empty : (f : Frames) → Stacked f [] [] → pop_page_frame f ≡ some (0, f)
unfolding pop_page_frame
pop-empty f h =
    let none_used : (f.used == 0) ≡ true = ground (arith, h.used) in
    let none_left : ltb 0 f.left ≡ false = ground (arith, h.used, h.total) in
    rw (none_used, none_left) refl
