-- ===== src/Label/Alloc.antt =====
-- `label_mgr_alloc` and `label_mgr_free` of src/pi/label_mgr.c: which label, when none, and what
-- becomes of the others.
use rsvp_te.Prelude.{
  ℕ, zero, suc, ◌+◌, ◌-◌, ◌≤◌, ◌<◌, ◌≡◌, refl, ◌≢◌, true, false, Option, none, some, List, arith,
  ◌==◌, if◌then◌else◌, Bool-cases, Option-cases, inl, inr, ap, subst, ◌∙◌, ltb, ◌↔◌, ◌||◌, ◌⊎◌,
}
use rsvp_te.Label.{
  LabelMgr, label_in_range, label_is_allocated, label_set_allocated, label_clear_allocated,
  label_count, candidate, search_free, next_after, take_label, no_bitmap, label_mgr_alloc,
  label_mgr_free, release_label,
}
use rsvp_te.Label.Bitmap.{IsBitmap}
use rsvp_te.Label.Inv.{
  IsValid, map_bytes, is_allocated-set_allocated, is_allocated-clear_allocated,
  set_allocated-IsBitmap, clear_allocated-IsBitmap, set_allocated_bounds, clear_allocated_bounds,
  allocated-range,
}

-- Every round of the search looks at a label of the range, though the sum is truncated.
candidate_range :
    (m : LabelMgr) (k : ℕ)
    → IsValid m
    → k < label_count m.label_min m.label_max
    → (m.label_min ≤ candidate m k) × (candidate m k ≤ m.label_max)
unfolding candidate
candidate_range m k v h = ground arith

-- The round that looks at `label`.
round_of : LabelMgr → ℕ → ℕ
round_of m label =
    if ltb label m.label_next
    then label - m.label_min + (m.label_max - m.label_next) + 1
    else label - m.label_next

-- The rounds go over the whole range.
candidate-round_of :
    (m : LabelMgr) (label : ℕ)
    → IsValid m
    → m.label_min ≤ label
    → label ≤ m.label_max
    → (round_of m label < label_count m.label_min m.label_max)
      × (candidate m (round_of m label) ≡ label)
unfolding candidate round_of
candidate-round_of m label v lo hi = ground arith

search_none :
    (m : LabelMgr) (left offset k : ℕ)
    → search_free m left offset ≡ none
    → offset ≤ k
    → k < offset + left
    → label_is_allocated m (candidate m k) ≡ true
unfolding search_free
search_none m zero offset k e lo hi = absurd (omega arith)
search_none m (suc left) offset k e lo hi = elim (Bool-cases (k == offset)) [
  | inl here ↦ ground arith
  | inr later ↦ ground (arith, search_none m left (offset + 1) k)
]

search_some :
    (m : LabelMgr) (left offset label : ℕ)
    → search_free m left offset ≡ some label
    → (k : ℕ) × (k < offset + left) × (candidate m k ≡ label) × (label_is_allocated m label ≡ false)
unfolding search_free
search_some m zero offset label e = cc
search_some m (suc left) offset label e =
    elim (Bool-cases (label_is_allocated m (candidate m offset))) [
      | inl taken ↦
          let (k, h, c, f) = search_some m left (offset + 1) label (rw (taken, search_free) at e) in
          (k, omega arith, c, f)
      | inr free ↦ (offset, omega arith, ground arith, ground arith)
    ]

alloc_guard :
    (m : LabelMgr) → IsValid m → no_bitmap m.label_bitmap || ltb m.label_max m.label_min ≡ false
alloc_guard m v = go m.label_bitmap v.bitmap
  where
    go :
        (o : Option (List ℕ))
        → IsBitmap (map_bytes m) o
        → no_bitmap o || ltb m.label_max m.label_min ≡ false
    go none b = absurd b
    go (some bm) b = ground arith

-- The two ways `label_mgr_alloc` ends on a manager that has been set up.
pub data Outcome (m : LabelMgr) : Type 0 where
  full :
      label_mgr_alloc m ≡ (0, m)
      → ((label : ℕ)
          → m.label_min ≤ label
          → label ≤ m.label_max
          → label_is_allocated m label ≡ true)
      → Outcome m
  found :
      (label : ℕ)
      → label_mgr_alloc m ≡ take_label m label
      → m.label_min ≤ label
      → label ≤ m.label_max
      → label_is_allocated m label ≡ false
      → Outcome m

pub alloc-Outcome : (m : LabelMgr) → IsValid m → Outcome m
unfolding label_mgr_alloc
alloc-Outcome m v = elim (Option-cases (search_free m (label_count m.label_min m.label_max) 0)) [
  | inl e ↦ full (rw (alloc_guard m v, e, label_mgr_alloc)) λ label lo hi.
      let (h, c) = candidate-round_of m label v lo hi in
      subst (λ (l : ℕ). label_is_allocated m l ≡ true) c
        (search_none m (label_count m.label_min m.label_max) 0 (round_of m label) e (omega arith)
          (omega arith))
  | inr (label, e) ↦
      let (k, h, c, f) = search_some m (label_count m.label_min m.label_max) 0 label e in
      let (lo, hi) = candidate_range m k v (omega arith) in
      found label (rw (alloc_guard m v, e, label_mgr_alloc)) (omega arith) (omega arith) f
]

next_after-le :
    (m : LabelMgr) (label : ℕ)
    → IsValid m
    → label ≤ m.label_max
    → m.label_min ≤ label
    → (m.label_min ≤ next_after m label) × (next_after m label ≤ m.label_max)
unfolding next_after
next_after-le m label v hi lo = ground arith

take_label-IsValid :
    (m : LabelMgr) (label : ℕ)
    → IsValid m
    → m.label_min ≤ label
    → label ≤ m.label_max
    → IsValid (take_label m label).1
unfolding take_label
take_label-IsValid m label v lo hi =
    let bounds = set_allocated_bounds m label in
    let next = next_after-le m label v hi lo in
    record {
      positive = omega arith;
      ordered = omega arith;
      small = omega arith;
      next_low = omega arith;
      next_high = omega arith;
      bitmap = rw (bounds.0, bounds.1) (set_allocated-IsBitmap m v label lo hi);
    }

-- `label_mgr_alloc` keeps the invariant of a manager that has been set up.
pub alloc-IsValid : (m : LabelMgr) → IsValid m → IsValid (label_mgr_alloc m).1
alloc-IsValid m v = elim (alloc-Outcome m v) [
  | full e _ ↦ rw e v
  | found label e lo hi _ ↦ rw e (take_label-IsValid m label v lo hi)
]

free_cases :
    (m : LabelMgr) (label : ℕ)
    → ((label_is_allocated m label ≡ false) × (label_mgr_free m label ≡ m))
      ⊎ ((label_is_allocated m label ≡ true) × (label_mgr_free m label ≡ release_label m label))
unfolding label_mgr_free label_in_range
free_cases m label = elim (Bool-cases (label_is_allocated m label)) [
  | inl out ↦ inr (out, ground (arith, allocated-range m label out))
  | inr free ↦ inl (free, ground arith)
]

release_label-IsValid :
    (m : LabelMgr) (label : ℕ)
    → IsValid m
    → m.label_min ≤ label
    → label ≤ m.label_max
    → IsValid (release_label m label)
unfolding release_label
release_label-IsValid m label v lo hi =
    let bounds = clear_allocated_bounds m label in
    record {
      positive = omega arith;
      ordered = omega arith;
      small = omega arith;
      next_low = ground arith;
      next_high = ground arith;
      bitmap = rw (bounds.0, bounds.1) (clear_allocated-IsBitmap m v label lo hi);
    }

-- `label_mgr_free` keeps the invariant, whatever label it is given.
pub free-IsValid : (m : LabelMgr) (label : ℕ) → IsValid m → IsValid (label_mgr_free m label)
free-IsValid m label v = elim (free_cases m label) [
  | inl (_, e) ↦ rw e v
  | inr (out, e) ↦
      let (lo, hi) = allocated-range m label out in rw e (release_label-IsValid m label v lo hi)
]

-- On a manager that has been set up, `label_mgr_alloc` answers 0 exactly when every label of the
-- range is out.
pub alloc-eq-zero_iff :
    (m : LabelMgr)
    → IsValid m
    → ((label_mgr_alloc m).0 ≡ 0) ↔ (
        (label : ℕ) → m.label_min ≤ label → label ≤ m.label_max → label_is_allocated m label ≡ true)
unfolding take_label
alloc-eq-zero_iff m v = elim (alloc-Outcome m v) [
  | full e all ↦ (λ _. all, λ _. ap (λ (r : ℕ × LabelMgr). r.0) e)
  | found label e lo hi f ↦ (
    λ z. absurd (omega (arith, ap (λ (r : ℕ × LabelMgr). r.0) e, v.positive)),
    λ all. cc (f, all label lo hi),
  )
]

-- A call that fails changes nothing.
pub alloc_failed :
    (m : LabelMgr) → IsValid m → (label_mgr_alloc m).0 ≡ 0 → label_mgr_alloc m ≡ (0, m)
unfolding take_label
alloc_failed m v z = elim (alloc-Outcome m v) [
  | full e all ↦ e
  | found label e lo hi f ↦ absurd (omega (arith, ap (λ (r : ℕ × LabelMgr). r.0) e, v.positive))
]

is_allocated-next :
    (m : LabelMgr) (n label : ℕ)
    → label_is_allocated (record m { label_next = n }) label ≡ label_is_allocated m label
unfolding label_is_allocated
is_allocated-next m n label = refl

-- On a manager that has been set up, a label that `label_mgr_alloc` hands out lies in the range and
-- was not out before; afterwards it is out, and every other label is out or free as it was.
pub alloc_fresh :
    (m : LabelMgr)
    → IsValid m
    → (label_mgr_alloc m).0 ≢ 0
    → let (label, m') = label_mgr_alloc m in
      (m.label_min ≤ label)
      × (label ≤ m.label_max)
      × (label_is_allocated m label ≡ false)
      × ((j : ℕ) → label_is_allocated m' j ≡ (if label == j then true else label_is_allocated m j))
unfolding take_label
alloc_fresh m v ne = elim (alloc-Outcome m v) [
  | full e all ↦ absurd (ne (ap (λ (r : ℕ × LabelMgr). r.0) e))
  | found label e lo hi f ↦ rw e (
    lo,
    hi,
    f,
    λ j.
        is_allocated-next (label_set_allocated m label) (next_after m label) j
        ∙ is_allocated-set_allocated m v label lo hi j,
  )
]

-- `label_mgr_free` takes exactly the label it is given out of the set, for any label at all.
pub free_lem :
    (m : LabelMgr) (label j : ℕ)
    → IsValid m
    → label_is_allocated (label_mgr_free m label) j
      ≡ (if label == j then false else label_is_allocated m j)
unfolding release_label
free_lem m label j v = elim (free_cases m label) [
  | inl (f, e) ↦ rw e (ground arith)
  | inr (out, e) ↦
      let (lo, hi) = allocated-range m label out in
      rw e (
        is_allocated-next (label_clear_allocated m label)
          (if ltb label m.label_next then label else m.label_next) j
        ∙ is_allocated-clear_allocated m v label lo hi j)
]
