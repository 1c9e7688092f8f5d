-- ===== src/Label/History.antt =====
-- Any sequence of calls of src/pi/label_mgr.c after `label_mgr_init`, as its clients see it.
use rsvp_te.Prelude.{
  ℕ, ◌≤◌, ◌<◌, ◌^◌, ◌≡◌, true, false, List, [], ◌∷◌, arith, ◌==◌, inl, inr, if◌then◌else◌,
  Bool-cases, contains, Distinct,
}
use rsvp_te.Label.{LabelMgr, label_is_allocated, label_mgr_init, label_mgr_alloc, label_mgr_free}
use rsvp_te.Label.Inv.{IsValid, init-IsValid, init-free}
use rsvp_te.Label.Alloc.{alloc-IsValid, free-IsValid, alloc_failed, alloc_fresh, free_lem}

pub data Call : Type 0 where
  alloc : Call
  free : ℕ → Call

-- The labels that were handed out and not given back since, newest first.
pub record World : Type 0 where
  pub mgr : LabelMgr
  pub held : List ℕ

abbrev pub without : ℕ → List ℕ → List ℕ
without l [] = []
without l (x ∷ xs) = let rest = without l xs in if x == l then rest else x ∷ rest

unfoldable pub step : World → Call → World
step w alloc =
    let (label, m') = label_mgr_alloc w.mgr in
    record { mgr = m'; held = if label == 0 then w.held else label ∷ w.held }
step w (free l) = record { mgr = label_mgr_free w.mgr l; held = without l w.held }

unfoldable pub run : World → List Call → World
run w [] = w
run w (c ∷ cs) = run (step w c) cs

pub record Agrees (w : World) : Type 0 where
  pub valid : IsValid w.mgr
  pub same : (l : ℕ) → label_is_allocated w.mgr l ≡ contains l w.held
  pub distinct : Distinct w.held

contains-without :
    (l j : ℕ) (xs : List ℕ) → contains j (without l xs) ≡ (if l == j then false else contains j xs)
contains-without l j [] = ground arith
contains-without l j (x ∷ xs) = ground (arith, contains-without l j xs)

without-Distinct : (l : ℕ) (xs : List ℕ) → Distinct xs → Distinct (without l xs)
without-Distinct l [] d = tt
without-Distinct l (x ∷ xs) d = ground (arith, contains-without l x xs, without-Distinct l xs d.1)

alloc_step-Agrees :
    (m : LabelMgr) (held : List ℕ)
    → Agrees (record { mgr = m; held = held })
    → Agrees (step (record { mgr = m; held = held }) alloc)
unfolding step
alloc_step-Agrees m held a = elim (Bool-cases ((label_mgr_alloc m).0 == 0)) [
  | inl z ↦ rw (alloc_failed m a.valid (ground arith)) a
  | inr ok ↦
      let (lo, hi, new, after) = alloc_fresh m a.valid (ground arith) in
      rw ok (record {
        valid = alloc-IsValid m a.valid;
        same = λ j. ground (arith, after j, a.same j);
        distinct = (ground (arith, a.same (label_mgr_alloc m).0), a.distinct);
      })
]

step-Agrees : (w : World) (c : Call) → Agrees w → Agrees (step w c)
unfolding step
step-Agrees w alloc a = alloc_step-Agrees w.mgr w.held a
step-Agrees w (free l) a = record {
  valid = free-IsValid w.mgr l a.valid;
  same = λ j. ground (arith, free_lem w.mgr l j a.valid, contains-without l j w.held, a.same j);
  distinct = without-Distinct l w.held a.distinct;
}

run-Agrees : (w : World) (cs : List Call) → Agrees w → Agrees (run w cs)
unfolding run
run-Agrees w [] a = a
run-Agrees w (c ∷ cs) a = run-Agrees (step w c) cs (step-Agrees w c a)

abbrev pub start : LabelMgr → ℕ → ℕ → World
start m lo hi = record { mgr = label_mgr_init m lo hi true; held = [] }

-- After `label_mgr_init` over labels 0 < lo ≤ hi < 2 ^ 31 that had its memory, and any sequence of
-- calls, no label is held twice, and a label is marked in the bitmap exactly when it is held.
pub run-Distinct :
    (m : LabelMgr) (lo hi : ℕ) (cs : List Call)
    → 0 < lo
    → lo ≤ hi
    → hi < 2 ^ 31
    → let w = run (start m lo hi) cs in
      Distinct w.held × ((l : ℕ) → label_is_allocated w.mgr l ≡ contains l w.held)
run-Distinct m lo hi cs p o s =
    let a = run-Agrees (start m lo hi) cs (record {
      valid = init-IsValid m lo hi p o s;
      same = λ l. init-free m lo hi l true;
      distinct = tt;
    }) in
    (a.distinct, a.same)
