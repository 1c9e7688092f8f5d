-- ===== src/Label/Tests.antt =====
-- src/pi/label_mgr.c at concrete inputs: a manager of the labels 16 to 18.
use rsvp_te.Prelude.{
  ℕ, ◌≤◌, ◌≡◌, ◌↔◌, refl, true, false, List, [], ◌∷◌, some, arith, ◌==◌, if◌then◌else◌, set_bit,
  clear_bit, Distinct, contains,
}
use rsvp_te.Label.{
  LabelMgr, at_start, label_is_allocated, label_set_allocated, candidate, search_free, next_after,
  take_label, label_mgr_init, label_mgr_alloc, label_mgr_free, label_clear_allocated, release_label,
}
use rsvp_te.Label.Inv.{IsValid}
use rsvp_te.Label.Alloc.{alloc-eq-zero_iff, free_lem}
use rsvp_te.Label.History.{Call, run, step, start, run-Distinct}

-- 16 and 18 are out.
abbrev two_out : LabelMgr
two_out = record {
  label_min = 16;
  label_max = 18;
  label_next = 16;
  label_bitmap = some (5 ∷ []);
  label_bitmap_size = 1;
}

abbrev script : List Call
script = Call.alloc ∷ Call.alloc ∷ Call.free 16 ∷ Call.alloc ∷ Call.alloc ∷ Call.alloc ∷ []

two_out-IsValid : IsValid two_out
two_out-IsValid = omega arith

wraps_to_free : (label_mgr_alloc two_out).0 ≡ 17
unfolding label_mgr_alloc search_free candidate label_is_allocated take_label next_after
    label_set_allocated
wraps_to_free = refl

script_held : (run (start at_start 16 18) script).held ≡ 18 ∷ 16 ∷ 17 ∷ []
unfolding set_bit clear_bit run step label_mgr_init label_mgr_alloc search_free candidate
    label_is_allocated take_label next_after label_set_allocated label_mgr_free
    label_clear_allocated release_label
script_held = refl

alloc-eq-zero_iff_example :
    ((label_mgr_alloc two_out).0 ≡ 0)
    ↔ ((label : ℕ) → 16 ≤ label → label ≤ 18 → label_is_allocated two_out label ≡ true)
alloc-eq-zero_iff_example = alloc-eq-zero_iff two_out two_out-IsValid

free_lem_example :
    label_is_allocated (label_mgr_free two_out 18) 16
    ≡ (if 18 == 16 then false else label_is_allocated two_out 16)
free_lem_example = free_lem two_out 18 16 two_out-IsValid

run-Distinct_example :
    let w = run (start at_start 16 18) script in
    Distinct w.held × ((l : ℕ) → label_is_allocated w.mgr l ≡ contains l w.held)
run-Distinct_example = run-Distinct at_start 16 18 script (omega arith) (omega arith) (omega arith)
