-- ===== src/Tests/Memory.antt =====
-- The kernel's memory at small address spaces.
use inwox.Base.{
  ℕ, ◌≡◌, refl, ◌↔◌, true, false, ◌||◌, none, some, List, [], ◌∷◌, ◌++◌, arith, ◌==◌, if◌then◌else◌,
  ◌>>=◌,
}
use mathlib.Core.List.Perm
use inwox.Memory.Segments.{
  Segment, segment_end, get_free_space_after, find_free_segment, find_and_add_new_segment,
}
use inwox.Memory.Segments.Ordered.{
  Ordered, OrderedAll, NoGap, NoGapAll, find_and_add_new_segment-Ordered, find_free_segment-NoGap,
}
use inwox.Memory.Paging.{
  Paging, Protection, map_at, map_at_with_flags, need_table, with_table, share, set_entry, set_at,
  set_table, set_word, get_physical_address, address_to_index, index_to_address,
  protection_to_flags, user_flag, frame_of,
}
use inwox.Memory.Paging.Translate.{Separate}
use inwox.Memory.Frames.{Frames, push_page_frame}
use inwox.Memory.Frames.Bag.{Bag, Pops, push_page_frame-Bag, pop_page_frame-Bag}
use inwox.Memory.Frames.Usable.{Layout, MmapEntry, initialize}
use inwox.Memory.Frames.Usable.Ranges.{
  used_ranges, is_outside, keep_outside, pages_at, memory_pages, initialize-Bag,
}

-- The first page, a page at 0x3000, and the kernel's half.
abbrev segment : ℕ → ℕ → Segment
segment a n = record { address = a; size = n; flags = 0 }

abbrev later_segments : List Segment
later_segments = segment 0x3000 0x1000 ∷ (segment 0xC0000000 0x40000000 ∷ [])

later-Ordered : Ordered (segment 0 0x1000) later_segments
later-Ordered = (omega arith, omega arith, (omega arith, omega arith, omega arith))

-- Three pages do not fit in front of the second segment.
find_free_segment_runs : find_free_segment 0x3000 (segment 0 0x1000) later_segments ≡ some 0x4000
unfolding find_free_segment get_free_space_after segment_end
find_free_segment_runs = refl

find_and_add_new_segment-Ordered_example :
    let new : Segment = record { address = 0x4000; size = 0x3000; flags = 3 } in
    (before after : List Segment) × (segment 0 0x1000 ∷ later_segments ≡ before ++ after)
    × (find_and_add_new_segment 0x3000 3 (segment 0 0x1000) later_segments
        ≡ some (0x4000, before ++ (new ∷ after)))
    × OrderedAll (before ++ (new ∷ after))
    × NoGapAll 0x3000 before
find_and_add_new_segment-Ordered_example =
    find_and_add_new_segment-Ordered 0x3000 3 (segment 0 0x1000) later_segments 0x4000 later-Ordered
      (omega arith) find_free_segment_runs

find_free_segment-NoGap_example :
    (find_free_segment 0xC0000000 (segment 0 0x1000) later_segments ≡ none)
    ↔ NoGap 0xC0000000 (segment 0 0x1000) later_segments
find_free_segment-NoGap_example =
    find_free_segment-NoGap 0xC0000000 (segment 0 0x1000) later_segments later-Ordered

-- The directories of the kernel's space and of another, at 0x1000 and 0x2000, have one table, at
-- 0x5000, for the addresses from 0xFF800000 on, and the kernel's directory itself as the last.
abbrev one_table : Paging
one_table = record {
  spaces = 1 ∷ [];
  page_dir = λ s. if s == 0 then 0x1000 else 0x2000;
  memory = λ a i.
      if a == 0x1000 || a == 0x2000
      then (if i == 1022 then 0x5003 else if i == 1023 then 0x1003 else 0)
      else 0;
}

kernel-Separate : Separate 0 one_table
unfolding frame_of
kernel-Separate = record {
  apart = λ i j ti tj ne q. ground (arith, ti.0, ti.1, tj.0, tj.1);
  own = λ i ti q. ground (arith, ti.0, ti.1);
}

abbrev user_protection : Protection
user_protection = record { readable = true; writable = false; executable = true }

-- A new table of the kernel is seen in the recursive mapping: its page there is translated to it.
recursive_mapping_runs :
    (map_at 0 0x1000 0x9000 user_protection (some 0x7000) one_table >>= λ (v, m).
    get_physical_address 0 0xFFC00000 m)
    ≡ some 0x7000
unfolding map_at map_at_with_flags need_table with_table share set_entry set_at set_table set_word
    frame_of get_physical_address address_to_index index_to_address protection_to_flags user_flag
recursive_mapping_runs = refl

abbrev no_frames : Frames
no_frames = record { words = λ k. 0; used = 0; left = 0; paging = one_table }

no_frames-Bag : Bag no_frames []
no_frames-Bag = record {
  entries = [];
  pages = [];
  stack = record {
    used = refl;
    total = refl;
    limit = omega arith;
    stored = tt;
    mapped = tt;
    table = omega arith;
    spaces = (omega arith, tt);
    separate = kernel-Separate;
  };
  same = Perm.refl [];
}

push_page_frame-Bag_example :
    (f' : Frames) × (push_page_frame 0x8000 no_frames ≡ some f') × Bag f' (0x8000 ∷ [])
push_page_frame-Bag_example =
    push_page_frame-Bag 0x8000 no_frames [] no_frames-Bag (omega arith) (omega arith)

pop_page_frame-Bag_example : Pops no_frames []
pop_page_frame-Bag_example = pop_page_frame-Bag no_frames [] no_frames-Bag

-- Four pages from 0x100000 on, of which the kernel uses the first and a module the third.
abbrev small_layout : Layout
small_layout = record {
  bootstrap_begin = 0;
  bootstrap_end = 0;
  kernel_begin = 0x100000;
  kernel_end = 0x100800;
  modules = (0x102000, 0x102100) ∷ [];
  mmap_addr = 0x9000;
  mmap_length = 24;
  mods_addr = 0xA000;
  mods_count = 1;
}

abbrev small_map : List MmapEntry
small_map = record { base_addr = 0x100000; length = 0x4000; kind = 1 } ∷ []

-- The second and the fourth page are free.
keep_outside_runs :
    keep_outside (used_ranges small_layout) (memory_pages small_map) ≡ 0x101000 ∷ (0x103000 ∷ [])
unfolding keep_outside used_ranges is_outside memory_pages pages_at
keep_outside_runs = refl

initialize-Bag_example :
    (f' : Frames) × (initialize 65 small_layout small_map no_frames ≡ some f')
    × Bag f' (keep_outside (used_ranges small_layout) (memory_pages small_map) ++ [])
initialize-Bag_example =
    initialize-Bag 65 small_layout small_map no_frames [] no_frames-Bag refl refl
      ((omega arith, omega arith), tt) (rw keep_outside_runs (omega arith))
