-- ===== src/Label/Inv.antt =====
-- The invariant of src/pi/label_mgr.c after `label_mgr_init`, and the bitmap as the set of the
-- labels that are out.
use rsvp_te.Prelude.{
  ℕ, zero, suc, ◌+◌, ◌-◌, ◌/◌, ◌%◌, ◌^◌, ◌≤◌, ◌<◌, ◌≡◌, refl, Bool, true, false, Option, none, some,
  List, arith, ◌==◌, if◌then◌else◌, get_or, length-set, length-replicate, AllBytes-replicate,
  replicate, set_bit, clear_bit, set_bit-lt, clear_bit-lt, test_bit-set_bit, test_bit-clear_bit,
  get_or,
}
use rsvp_te.Label.{
  LabelMgr, label_is_allocated, label_set_allocated, label_clear_allocated, label_count,
  label_mgr_init,
}
use rsvp_te.Label.Bitmap.{IsBitmap, update_bit-AllBytes, bit_at-update_bit}

-- Labels stay below 2 ^ 31, so that no sum of two of them wraps; MPLS labels have 20 bits.
pub record IsValid (m : LabelMgr) : Type 0 where
  pub positive : 0 < m.label_min
  pub ordered : m.label_min ≤ m.label_max
  pub small : m.label_max < 2 ^ 31
  pub next_low : m.label_min ≤ m.label_next
  pub next_high : m.label_next ≤ m.label_max
  pub bitmap : IsBitmap ((m.label_max - m.label_min + 8) / 8) m.label_bitmap

pub init-IsValid :
    (m : LabelMgr) (lo hi : ℕ)
    → 0 < lo
    → lo ≤ hi
    → hi < 2 ^ 31
    → IsValid (label_mgr_init m lo hi true)
unfolding label_mgr_init
init-IsValid m lo hi p o s =
    let size : (label_count lo hi + 7) % 2 ^ 64 / 8 ≡ (hi - lo + 8) / 8 = omega arith in
    record {
      positive = p;
      ordered = o;
      small = s;
      next_low = omega arith;
      next_high = o;
      bitmap = (
        rw (length-replicate {A = ℕ} ((label_count lo hi + 7) % 2 ^ 64 / 8) 0) size,
        AllBytes-replicate _,
      );
    }

get_or-replicate : (n i : ℕ) → get_or {A = ℕ} (replicate n 0) i 0 ≡ 0
get_or-replicate zero i = refl
get_or-replicate (suc n) zero = refl
get_or-replicate (suc n) (suc i) = get_or-replicate n i

-- No label is out after `label_mgr_init`.
pub init-free :
    (m : LabelMgr) (lo hi label : ℕ) (ok : Bool)
    → label_is_allocated (label_mgr_init m lo hi ok) label ≡ false
unfolding label_is_allocated label_mgr_init
init-free m lo hi label true =
    rw (get_or-replicate ((label_count lo hi + 7) % 2 ^ 64 / 8) ((label - lo) / 8)) (ground arith)
init-free m lo hi label false = refl

-- Only labels of the range are ever out.
pub allocated-range :
    (m : LabelMgr) (label : ℕ)
    → label_is_allocated m label ≡ true
    → (m.label_min ≤ label) × (label ≤ m.label_max)
unfolding label_is_allocated
allocated-range m label h = ground arith

abbrev pub map_bytes : LabelMgr → ℕ
map_bytes m = (m.label_max - m.label_min + 8) / 8

module _ (m : LabelMgr) (v : IsValid m) (label : ℕ) (lo : m.label_min ≤ label)
    (hi : label ≤ m.label_max) where
  set_IsBitmap :
      (o : Option (List ℕ))
      → m.label_bitmap ≡ o
      → IsBitmap (map_bytes m) o
      → IsBitmap (map_bytes m) (label_set_allocated m label).label_bitmap
  unfolding label_set_allocated
  set_IsBitmap none e b = absurd b
  set_IsBitmap (some bm) e b =
      rw (e, label_set_allocated)
        (ground (
          arith,
          length-set bm ((label - m.label_min) / 8)
              (set_bit (get_or bm ((label - m.label_min) / 8) 0) ((label - m.label_min) % 8)),
          update_bit-AllBytes set_bit true set_bit-lt test_bit-set_bit bm (label - m.label_min) b.1,
        ))

  set_at :
      (j : ℕ) (o : Option (List ℕ))
      → m.label_bitmap ≡ o
      → IsBitmap (map_bytes m) o
      → label_is_allocated (label_set_allocated m label) j
        ≡ (if label == j then true else label_is_allocated m j)
  unfolding label_set_allocated label_is_allocated
  set_at j none e b = absurd b
  set_at j (some bm) e b = ground (
    arith,
    bit_at-update_bit set_bit true set_bit-lt test_bit-set_bit bm (label - m.label_min)
        (j - m.label_min) b.1,
  )

  clear_at :
      (j : ℕ) (o : Option (List ℕ))
      → m.label_bitmap ≡ o
      → IsBitmap (map_bytes m) o
      → label_is_allocated (label_clear_allocated m label) j
        ≡ (if label == j then false else label_is_allocated m j)
  unfolding label_clear_allocated label_is_allocated
  clear_at j none e b = absurd b
  clear_at j (some bm) e b = ground (
    arith,
    bit_at-update_bit clear_bit false clear_bit-lt test_bit-clear_bit bm (label - m.label_min)
        (j - m.label_min) b.1,
  )

  -- Marking a label puts that label in the set, and clearing takes it out.
  pub is_allocated-set_allocated :
      (j : ℕ)
      → label_is_allocated (label_set_allocated m label) j
        ≡ (if label == j then true else label_is_allocated m j)
  is_allocated-set_allocated j = set_at j m.label_bitmap refl v.bitmap

  pub is_allocated-clear_allocated :
      (j : ℕ)
      → label_is_allocated (label_clear_allocated m label) j
        ≡ (if label == j then false else label_is_allocated m j)
  is_allocated-clear_allocated j = clear_at j m.label_bitmap refl v.bitmap

  clear_IsBitmap :
      (o : Option (List ℕ))
      → m.label_bitmap ≡ o
      → IsBitmap (map_bytes m) o
      → IsBitmap (map_bytes m) (label_clear_allocated m label).label_bitmap
  unfolding label_clear_allocated
  clear_IsBitmap none e b = absurd b
  clear_IsBitmap (some bm) e b =
      rw (e, label_clear_allocated)
        (ground (
          arith,
          length-set bm ((label - m.label_min) / 8)
              (clear_bit (get_or bm ((label - m.label_min) / 8) 0) ((label - m.label_min) % 8)),
          update_bit-AllBytes clear_bit false clear_bit-lt test_bit-clear_bit bm
              (label - m.label_min) b.1,
        ))

  pub set_allocated-IsBitmap : IsBitmap (map_bytes m) (label_set_allocated m label).label_bitmap
  set_allocated-IsBitmap = set_IsBitmap m.label_bitmap refl v.bitmap

  pub clear_allocated-IsBitmap : IsBitmap (map_bytes m) (label_clear_allocated m label).label_bitmap
  clear_allocated-IsBitmap = clear_IsBitmap m.label_bitmap refl v.bitmap

-- The two updates leave the bounds alone.
pub set_allocated_bounds :
    (m : LabelMgr) (label : ℕ)
    → ((label_set_allocated m label).label_min ≡ m.label_min)
      × ((label_set_allocated m label).label_max ≡ m.label_max)
unfolding label_set_allocated
set_allocated_bounds m label = ground arith

pub clear_allocated_bounds :
    (m : LabelMgr) (label : ℕ)
    → ((label_clear_allocated m label).label_min ≡ m.label_min)
      × ((label_clear_allocated m label).label_max ≡ m.label_max)
      × ((label_clear_allocated m label).label_next ≡ m.label_next)
unfolding label_clear_allocated
clear_allocated_bounds m label = ground arith
