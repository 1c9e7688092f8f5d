-- ===== src/Machine/Ownership.antt =====
-- Label ownership in src/pi/rsvp_state_machine.c: what it is for each RSB to have its incoming label to itself
-- and for the label manager to have that label out.
use rsvp_te.Prelude.{
  ℕ, ◌≡◌, ◌≢◌, sym, subst, ◌∙◌, true, false, ◌⊎◌, inl, inr, Option, none, some, Bool-cases, ◌==◌,
  if◌then◌else◌, arith,
}
use mathlib.Core.Path.{fun_ext}
use rsvp_te.Label.{LabelMgr, label_is_allocated, label_mgr_alloc, label_mgr_free}
use rsvp_te.Label.Inv.{IsValid}
use rsvp_te.Label.Alloc.{alloc-IsValid, free-IsValid, alloc_fresh, alloc_failed, free_lem}
use rsvp_te.StateDb.{Db}
use rsvp_te.StateDb.Blocks.{Rsb}
use rsvp_te.Machine.{Machine}

abbrev pub label_of_block : Option Rsb → ℕ
label_of_block none = 0
label_of_block (some rsb) = rsb.label_in

-- The incoming label of the RSB at an address, 0 for none.
abbrev pub db_label : Db → ℕ → ℕ
db_label db r = label_of_block (db.rsbs.heap r)

-- `f r` is the label of `r`.
pub record Owned (l : LabelMgr) (f : ℕ → ℕ) : Type 0 where
  pub valid : IsValid l
  pub allocated : (r : ℕ) → f r ≢ 0 → label_is_allocated l (f r) ≡ true
  pub unique : (r s : ℕ) → f r ≢ 0 → f r ≡ f s → r ≡ s

-- Owners keep their label or lose it.
fewer-Owned :
    (l : LabelMgr) (f g : ℕ → ℕ) → ((r : ℕ) → (g r ≡ f r) ⊎ (g r ≡ 0)) → Owned l f → Owned l g
fewer-Owned l f g h ok = record {
  valid = ok.valid;
  allocated = λ r ne. elim (h r) [
    | inr z ↦ absurd (ne z)
    | inl e ↦ rw e (ok.allocated r (λ z. ne (e ∙ z)))
  ];
  unique = λ r s ne eq. elim (h r) [
    | inr z ↦ absurd (ne z)
    | inl e ↦ elim (h s) [
      | inr z ↦ absurd (ne (eq ∙ z))
      | inl e' ↦ ok.unique r s (λ z. ne (e ∙ z)) (sym e ∙ eq ∙ e')
    ]
  ];
}

cleared :
    (f : ℕ → ℕ) (r s : ℕ) → ((if r == s then 0 else f s) ≡ f s) ⊎ ((if r == s then 0 else f s) ≡ 0)
cleared f r s = elim (Bool-cases (r == s)) [ inl e ↦ inr (rw e) | inr e ↦ inl (rw e) ]

-- A fresh label `n` for `r`.
module _ (l l' : LabelMgr) (f : ℕ → ℕ) (r n : ℕ) (ok : Owned l f)
    (fresh : label_is_allocated l n ≡ false)
    (out : (j : ℕ)
      → label_is_allocated l' j ≡ (if n == j then true else label_is_allocated l j)) where
  taken_allocated :
      (s : ℕ)
      → (if r == s then n else f s) ≢ 0
      → label_is_allocated l' (if r == s then n else f s) ≡ true
  taken_allocated s = ground (arith, ok.allocated s, out n, out (f s))

  taken_unique :
      (s t : ℕ)
      → (if r == s then n else f s) ≢ 0
      → (if r == s then n else f s) ≡ (if r == t then n else f t)
      → s ≡ t
  taken_unique s t = ground (arith, ok.allocated s, ok.allocated t, ok.unique s t, fresh)

-- The label of `r` is free again.
module _ (l l' : LabelMgr) (f : ℕ → ℕ) (r : ℕ) (ok : Owned l f) (has : f r ≢ 0)
    (free : (j : ℕ)
      → label_is_allocated l' j ≡ (if f r == j then false else label_is_allocated l j)) where
  released_allocated :
      (s : ℕ)
      → (if r == s then 0 else f s) ≢ 0
      → label_is_allocated l' (if r == s then 0 else f s) ≡ true
  released_allocated s = ground (arith, ok.allocated s, free (f s), ok.unique r s)

  released_unique :
      (s t : ℕ)
      → (if r == s then 0 else f s) ≢ 0
      → (if r == s then 0 else f s) ≡ (if r == t then 0 else f t)
      → s ≡ t
  released_unique s t = ground (arith, ok.unique s t)

pub record LabelsOk (m : Machine) : Type 0 where
  pub owned : Owned m.labels (db_label m.db)

-- An operation that leaves the label manager alone, and takes labels from RSBs at most.
pub fewer-LabelsOk :
    (m m' : Machine)
    → m'.labels ≡ m.labels
    → ((r : ℕ) → (db_label m'.db r ≡ db_label m.db r) ⊎ (db_label m'.db r ≡ 0))
    → LabelsOk m
    → LabelsOk m'
fewer-LabelsOk m m' l h ok = record {
  owned =
      subst (λ k. Owned k (db_label m'.db)) (sym l)
        (fewer-Owned m.labels (db_label m.db) (db_label m'.db) h ok.owned);
}

-- An RSB without a label gets the one that the label manager hands out.
pub taken-LabelsOk :
    (m m' : Machine) (r : ℕ)
    → m'.labels ≡ (label_mgr_alloc m.labels).1
    → db_label m.db r ≡ 0
    → ((s : ℕ)
        → db_label m'.db s ≡ (if r == s then (label_mgr_alloc m.labels).0 else db_label m.db s))
    → LabelsOk m
    → LabelsOk m'
taken-LabelsOk m m' r l unlabelled h ok =
    let n = (label_mgr_alloc m.labels).0 in
    let f = db_label m.db in
    let v = ok.owned.valid in
    record {
      owned =
          subst (λ k. Owned k (db_label m'.db)) (sym l)
            (subst (Owned (label_mgr_alloc m.labels).1) (sym (fun_ext h))
              (elim (Bool-cases (n == 0)) [
                | inl none_left ↦
                    let z : n ≡ 0 = ground arith in
                    subst (λ (p : ℕ × LabelMgr). Owned p.1 (λ s. if r == s then p.0 else f s))
                      (sym (alloc_failed m.labels v z))
                      (fewer-Owned m.labels f (λ s. if r == s then 0 else f s) (cleared f r)
                        ok.owned)
                | inr some_left ↦
                    let fresh = alloc_fresh m.labels v (λ z. ground arith) in
                    record {
                      valid = alloc-IsValid m.labels v;
                      allocated = taken_allocated m.labels _ f r n ok.owned fresh.2 fresh.3;
                      unique = taken_unique m.labels _ f r n ok.owned fresh.2 fresh.3;
                    }
              ]));
    }

-- The label of an RSB goes back to the label manager.
pub released-LabelsOk :
    (m m' : Machine) (r : ℕ)
    → m'.labels ≡ label_mgr_free m.labels (db_label m.db r)
    → ((s : ℕ) → db_label m'.db s ≡ (if r == s then 0 else db_label m.db s))
    → db_label m.db r ≢ 0
    → LabelsOk m
    → LabelsOk m'
released-LabelsOk m m' r l h has ok =
    let f = db_label m.db in
    let v = ok.owned.valid in
    let free = λ (j : ℕ). free_lem m.labels (f r) j v in
    record {
      owned =
          subst (λ k. Owned k (db_label m'.db)) (sym l)
            (subst (Owned (label_mgr_free m.labels (f r))) (sym (fun_ext h)) (record {
              valid = free-IsValid m.labels (f r) v;
              allocated = released_allocated m.labels _ f r ok.owned has free;
              unique = released_unique m.labels _ f r ok.owned has free;
            }));
    }
