-- ===== src/Label.antt =====
-- src/pi/label_mgr.c: the MPLS label allocator, a bitmap over [label_min, label_max] searched
-- round-robin from label_next. The file's static variables are the record `LabelMgr`; a function
-- that changes them returns the new record beside its result.
pub mod Bitmap
pub mod Inv
pub mod Alloc
pub mod History
mod Tests
use rsvp_te.Prelude.{
  ℕ, zero, suc, ◌+◌, ◌-◌, ◌/◌, ◌%◌, ◌^◌, Bool, true, false, not, ◌&&◌, ◌||◌, Option, none, some,
  List, ltb, leb, if◌then◌else◌, get_or, set, replicate, test_bit, set_bit, clear_bit,
}

pub record LabelMgr : Type 0 where
  pub label_min : ℕ
  pub label_max : ℕ
  pub label_next : ℕ
  pub label_bitmap : Option (List ℕ)
  pub label_bitmap_size : ℕ

abbrev pub u32 : ℕ
u32 = 2 ^ 32

abbrev pub size_t : ℕ
size_t = 2 ^ 64

-- The static initialisers, before `label_mgr_init` is called.
abbrev pub at_start : LabelMgr
at_start = record {
  label_min = 1000;
  label_max = 2000;
  label_next = 1000;
  label_bitmap = none;
  label_bitmap_size = 0;
}

unfoldable pub label_in_range : LabelMgr → ℕ → Bool
label_in_range m label = leb m.label_min label && leb label m.label_max

-- Bit i of the bitmap, `(bm[i / 8] >> (i % 8)) & 1`.
abbrev pub bit_at : List ℕ → ℕ → Bool
bit_at bm i = test_bit (get_or bm (i / 8) 0) (i % 8)

unfoldable pub label_is_allocated : LabelMgr → ℕ → Bool
unfolding label_in_range
label_is_allocated m label = elim m.label_bitmap [
  | none ↦ false
  | some bm ↦ if not (label_in_range m label) then false else bit_at bm (label - m.label_min)
]

abbrev pub update_bit : (ℕ → ℕ → ℕ) → List ℕ → ℕ → List ℕ
update_bit f bm i = set bm (i / 8) (f (get_or bm (i / 8) 0) (i % 8))

unfoldable pub label_set_allocated : LabelMgr → ℕ → LabelMgr
unfolding label_in_range
label_set_allocated m label = elim m.label_bitmap [
  | none ↦ m
  | some bm ↦
      if not (label_in_range m label)
      then m
      else record m { label_bitmap = some (update_bit set_bit bm (label - m.label_min)) }
]

unfoldable pub label_clear_allocated : LabelMgr → ℕ → LabelMgr
unfolding label_in_range
label_clear_allocated m label = elim m.label_bitmap [
  | none ↦ m
  | some bm ↦
      if not (label_in_range m label)
      then m
      else record m { label_bitmap = some (update_bit clear_bit bm (label - m.label_min)) }
]

-- `(size_t)max - (size_t)min + 1`
abbrev pub label_count : ℕ → ℕ → ℕ
label_count lo hi = (hi + size_t - lo + 1) % size_t

-- `calloc_ok` is whether the C library's `calloc` had the memory.
unfoldable pub label_mgr_init : LabelMgr → ℕ → ℕ → Bool → LabelMgr
label_mgr_init m lo hi calloc_ok =
    let size = (label_count lo hi + 7) % size_t / 8 in
    record {
      label_min = lo;
      label_max = hi;
      label_next = lo;
      label_bitmap = if calloc_ok then some (replicate size 0) else none;
      label_bitmap_size = size;
    }

-- The label that round `offset` of the search looks at; sums are truncated to `uint32_t`.
unfoldable pub candidate : LabelMgr → ℕ → ℕ
candidate m offset =
    let label = (m.label_next + offset) % u32 in
    if ltb m.label_max label then (m.label_min + (label - m.label_max - 1)) % u32 else label

-- The search loop, with the rounds that are left.
unfoldable pub search_free : LabelMgr → ℕ → ℕ → Option ℕ
search_free m zero offset = none
search_free m (suc left) offset = elim (label_is_allocated m (candidate m offset)) [
  | true ↦ search_free m left (offset + 1)
  | false ↦ some (candidate m offset)
]

-- `label_next = label + 1`, back to `label_min` past the end.
unfoldable pub next_after : LabelMgr → ℕ → ℕ
next_after m label =
    let next = (label + 1) % u32 in if ltb m.label_max next then m.label_min else next

abbrev pub no_bitmap : Option (List ℕ) → Bool
no_bitmap none = true
no_bitmap (some bm) = false

-- The body of the `if` that ends the search.
unfoldable pub take_label : LabelMgr → ℕ → ℕ × LabelMgr
take_label m label =
    (label, record (label_set_allocated m label) { label_next = next_after m label })

unfoldable pub label_mgr_alloc : LabelMgr → ℕ × LabelMgr
label_mgr_alloc m =
    if no_bitmap m.label_bitmap || ltb m.label_max m.label_min
    then (0, m)
    else elim (search_free m (label_count m.label_min m.label_max) 0) [
      | none ↦ (0, m)
      | some label ↦ take_label m label
    ]

-- What `label_mgr_free` does past its two early returns.
unfoldable pub release_label : LabelMgr → ℕ → LabelMgr
release_label m label = record (label_clear_allocated m label) {
  label_next = if ltb label m.label_next then label else m.label_next;
}

unfoldable pub label_mgr_free : LabelMgr → ℕ → LabelMgr
label_mgr_free m label =
    if not (label_in_range m label)
    then m
    else if not (label_is_allocated m label)
    then m
    else release_label m label
