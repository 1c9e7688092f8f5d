-- ===== src/Machine/Taking.antt =====
-- Lemmas on label ownership: an RSB takes a label in src/pi/rsvp_state_machine.c.
use rsvp_te.Prelude.{
  ℕ, ◌≡◌, refl, sym, ap, ◌∙◌, inl, inr, some, Bool-cases, ◌==◌, if◌then◌else◌, arith,
}
use rsvp_te.Label.{LabelMgr, label_mgr_alloc}
use rsvp_te.StateDb.Blocks.{Rsb}
use rsvp_te.Machine.{Machine, alter_rsb}
use rsvp_te.Machine.Ownership.{db_label, label_of_block, LabelsOk, taken-LabelsOk}
use rsvp_te.Machine.Sending.{ensure_label, store_label}
use rsvp_te.Machine.Keeping.{emit-LabelsOk, alter_psb-LabelsOk}
use rsvp_te.Machine.Steady.{Steady, given_at_keeps}

-- A label is taken from the label manager.
stored_label :
    (m : Machine) (r : ℕ) (rsb : Rsb) (taken : ℕ × LabelMgr) (s : ℕ)
    → m.db.rsbs.heap r ≡ some rsb
    → db_label (store_label m r taken).db s ≡ (if r == s then taken.0 else db_label m.db s)
unfolding alter_rsb
stored_label m r rsb taken s e = elim (Bool-cases (r == s)) [
  | inl here ↦
      let r≡s : r ≡ s = ground arith in
      let there : m.db.rsbs.heap s ≡ some rsb = ap m.db.rsbs.heap (sym r≡s) ∙ e in rw (here, there)
  | inr other ↦ rw other
]

labels-store_label :
    (m : Machine) (r : ℕ) (taken : ℕ × LabelMgr) → (store_label m r taken).labels ≡ taken.1
unfolding alter_rsb
labels-store_label m r taken = refl

pub ensure_label-LabelsOk : (m : Machine) (r : ℕ) → LabelsOk m → LabelsOk (ensure_label m r)
unfolding ensure_label
ensure_label-LabelsOk m r ok = given_at_keeps LabelsOk (m.db.rsbs.heap r) m _ ok (λ rsb e.
    elim (Bool-cases (rsb.label_in == 0)) [
      | inl unlabelled ↦ rw unlabelled (
          taken-LabelsOk m (store_label m r (label_mgr_alloc m.labels)) r
            (labels-store_label m r (label_mgr_alloc m.labels)) (ap label_of_block e ∙ ground arith)
            (λ s. stored_label m r rsb (label_mgr_alloc m.labels) s e) ok)
      | inr has ↦ rw has ok
    ])

pub labels_steady : Steady LabelsOk
labels_steady = record {
  emit = emit-LabelsOk;
  alter_psb = λ m p f keeps. alter_psb-LabelsOk m p f;
  take_label = ensure_label-LabelsOk;
}
