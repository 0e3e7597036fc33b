-- ===== src/Memory/Paging/Mapped.antt =====
-- A page that is mapped is translated to its frame, and no other page changes.
use inwox.Base.{
  ℕ, ◌+◌, ◌*◌, ◌/◌, ◌%◌, ◌^◌, ◌<◌, ◌≡◌, refl, sym, ◌∙◌, ◌≢◌, inl, inr, true, false, ◌&&◌, Option,
  none, some, arith, leb, ◌==◌, if◌then◌else◌, Bool-cases,
}
use inwox.Memory.Paging.{
  page_size, Paging, directory, address_to_index, index_to_address, Protection, protection_to_flags,
  user_flag, with_table, need_table, set_entry, map_at_with_flags, map_at, unmap,
  get_physical_address,
}
use inwox.Memory.Paging.Translate.{self_index, Separate, CanMap, lookup, translate, frame_of-flags}
use inwox.Memory.Paging.NewTable.{with_table-directory, with_table-translate, with_table-Separate}
use inwox.Memory.Paging.Entry.{
  set_entry-directory, set_entry-spaces, set_entry-Separate, set_entry-translate,
}

abbrev Ready : ℕ → ℕ → Paging → Paging → Type 0
Ready space pd m m' =
    (directory m' space pd ≢ 0)
    × Separate space m'
    × ((i j : ℕ) → i ≢ self_index → translate space i j m' ≡ translate space i j m)
    × (m'.spaces ≡ m.spaces)
    × ((i : ℕ) → directory m space i ≢ 0 → directory m' space i ≢ 0)

need_table-Ready :
    (space pd : ℕ) (frame : Option ℕ) (m : Paging)
    → Separate space m
    → CanMap space pd frame m
    → (m' : Paging) × (need_table space pd frame m ≡ some m') × Ready space pd m m'
unfolding need_table with_table
need_table-Ready space pd none m sep can =
    let there : (directory m space pd == 0) ≡ false = ground (arith, can) in
    (m, rw there refl, (can, sep, λ i j ne. refl, refl, λ i z. z))
need_table-Ready space pd (some frame) m sep can = elim (Bool-cases (directory m space pd == 0)) [
  | inl e ↦
      let self : (pd == pd) ≡ true = ground arith in
      let own : directory (with_table space pd frame m) space pd ≡ frame + (3 + user_flag space) =
        with_table-directory space pd frame m can pd ∙ rw self refl in
      (
        with_table space pd frame m,
        rw e refl,
        (
          λ z. ground (arith, own, z),
          with_table-Separate space pd frame m can sep,
          with_table-translate space pd frame m (ground (arith, e)) sep can,
          refl,
          λ i z q. let d = with_table-directory space pd frame m can i in ground (arith, d, q, z),
        ),
      )
  | inr e ↦ (m, rw e refl, (λ z. ground (arith, e, z), sep, λ i j ne. refl, refl, λ i z. z))
]

get_physical_address-translate :
    (space v : ℕ) (m : Paging)
    → v % page_size ≡ 0
    → get_physical_address space v m ≡ some (translate space (v / 2 ^ 22) ((v / 2 ^ 12) % 1024) m)
unfolding get_physical_address translate lookup address_to_index
get_physical_address-translate space v m aligned =
    let even : (v % page_size == 0) ≡ true = ground (arith, aligned) in
    elim (Bool-cases (directory m space (v / 2 ^ 22) == 0)) [
      | inl e ↦ rw (even, e) refl
      | inr e ↦ rw (even, e) refl
    ]

same_page :
    (u v : ℕ)
    → u % page_size ≡ 0
    → v % page_size ≡ 0
    → (u / 2 ^ 22 == v / 2 ^ 22 && (u / 2 ^ 12) % 1024 == (v / 2 ^ 12) % 1024) ≡ (u == v)
same_page u v hu hv = ground (arith, hu, hv)

-- An address is the one that its indices give back.
index_to_address-address_to_index :
    (v : ℕ)
    → v < 2 ^ 32
    → v % page_size ≡ 0
    → (pd pt : ℕ) × (address_to_index v ≡ some (pd, pt)) × (index_to_address pd pt ≡ some v)
unfolding address_to_index index_to_address
index_to_address-address_to_index v small aligned =
    let even : (v % page_size == 0) ≡ true = ground (arith, aligned) in
    let low : (leb (v / 2 ^ 22) 1023 && leb ((v / 2 ^ 12) % 1024) 1023) ≡ true = ground arith in
    let back : v / 2 ^ 22 * 2 ^ 22 + (v / 2 ^ 12) % 1024 * 2 ^ 12 ≡ v = omega arith in
    (v / 2 ^ 22, (v / 2 ^ 12) % 1024, rw even refl, rw (low, back) refl)

-- A page below the recursive mapping, and not the one where the code maps a table for a moment.
abbrev pub IsPage : ℕ → Type 0
IsPage v = (v % page_size ≡ 0) × (v < 0xFFC00000) × (v ≢ 0xFF7FF000)

-- A page's mapping to a word, through either operation.
abbrev Maps : ℕ → ℕ → ℕ → Option (ℕ × Paging) → Paging → Type 0
Maps space v physical r m =
    (m' : Paging) × (r ≡ some (v, m'))
    × ((u : ℕ)
        → IsPage u
        → get_physical_address space u m'
          ≡ (if u == v then some physical else get_physical_address space u m))
    × Separate space m'
    × (m'.spaces ≡ m.spaces)
    × ((i : ℕ) → directory m space i ≢ 0 → directory m' space i ≢ 0)

map_at_with_flags-Maps :
    (space v physical flags : ℕ) (frame : Option ℕ) (m : Paging)
    → IsPage v
    → physical % page_size ≡ 0
    → flags < page_size
    → Separate space m
    → CanMap space (v / 2 ^ 22) frame m
    → Maps space v physical
        (map_at_with_flags space (v / 2 ^ 22) ((v / 2 ^ 12) % 1024) physical flags frame m)
        m
unfolding map_at_with_flags index_to_address
map_at_with_flags-Maps space v physical flags frame m (aligned, low, other) even lower sep can =
    let pd = v / 2 ^ 22 in
    let pt = (v / 2 ^ 12) % 1024 in
    let (m1, e, (there, apart, same, spaces, kept)) = need_table-Ready space pd frame m sep can in
    let usual : pd ≢ self_index = λ z. omega (arith, z) in
    let inside : (leb pd 1023 && leb pt 1023) ≡ true = ground arith in
    let back : pd * 2 ^ 22 + pt * 2 ^ 12 ≡ v = omega arith in
    (
      set_entry space pd pt (physical + flags) m1,
      rw e (rw (inside, back) refl),
      λ u hu.
          let i = u / 2 ^ 22 in
          let j = (u / 2 ^ 12) % 1024 in
          let i_usual : i ≢ self_index = λ z. omega (arith, z, hu.1) in
          rw
            (
              get_physical_address-translate space u _ hu.0,
              get_physical_address-translate space u m hu.0,
            )
            (rw
              (
                set_entry-translate space pd pt (physical + flags) m1 apart (usual, there) i j
                    i_usual,
                same i j i_usual,
                same_page u v hu.0 aligned,
                frame_of-flags physical flags even lower,
              )
              (elim (Bool-cases (u == v)) [ inl q ↦ rw q refl | inr q ↦ rw q refl ])),
      set_entry-Separate space pd pt (physical + flags) m1 apart (usual, there),
      set_entry-spaces space pd pt (physical + flags) m1 ∙ spaces,
      λ i z q.
          kept i z (
            sym (set_entry-directory space pd pt (physical + flags) m1 apart (usual, there) i) ∙ q),
    )

protection_to_flags-lt :
    (space : ℕ) (p : Protection) → protection_to_flags p + user_flag space < page_size
unfolding protection_to_flags user_flag
protection_to_flags-lt space p = ground arith

pub map_at-get_physical_address :
    (space v physical : ℕ) (p : Protection) (frame : Option ℕ) (m : Paging)
    → IsPage v
    → physical % page_size ≡ 0
    → Separate space m
    → CanMap space (v / 2 ^ 22) frame m
    → (m' : Paging) × (map_at space v physical p frame m ≡ some (v, m'))
      × ((u : ℕ)
          → IsPage u
          → get_physical_address space u m'
            ≡ (if u == v then some physical else get_physical_address space u m))
      × Separate space m'
      × (m'.spaces ≡ m.spaces)
      × ((i : ℕ) → directory m space i ≢ 0 → directory m' space i ≢ 0)
unfolding map_at address_to_index
map_at-get_physical_address space v physical p frame m page even sep can =
    let ok : (v % page_size == 0) ≡ true = ground (arith, page.0) in
    let whole : (physical % page_size == 0) ≡ true = ground (arith, even) in
    rw (ok, whole)
      (map_at_with_flags-Maps space v physical _ frame m page even (protection_to_flags-lt space p)
        sep can)

-- The same page without a mapping: its address is translated to 0, and every other page as before,
-- with the tables as above.
pub unmap-get_physical_address :
    (space v : ℕ) (frame : Option ℕ) (m : Paging)
    → IsPage v
    → Separate space m
    → CanMap space (v / 2 ^ 22) frame m
    → (m' : Paging) × (unmap space v frame m ≡ some (v, m'))
      × ((u : ℕ)
          → IsPage u
          → get_physical_address space u m'
            ≡ (if u == v then some 0 else get_physical_address space u m))
      × Separate space m'
      × (m'.spaces ≡ m.spaces)
      × ((i : ℕ) → directory m space i ≢ 0 → directory m' space i ≢ 0)
unfolding unmap address_to_index
unmap-get_physical_address space v frame m page sep can =
    let ok : (v % page_size == 0) ≡ true = ground (arith, page.0) in
    rw ok (map_at_with_flags-Maps space v 0 0 frame m page (ground arith) (ground arith) sep can)
