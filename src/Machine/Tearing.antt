-- ===== src/Machine/Tearing.antt =====
-- Lemmas on label ownership: what src/pi/rsvp_state_machine.c tears down, and its timers.
use rsvp_te.Prelude.{
  ℕ, ◌≡◌, refl, sym, ap, ◌∙◌, Bool, true, false, inl, inr, Option, none, some, Bool-cases, ◌==◌,
  if◌then◌else◌, arith,
}
use rsvp_te.Label.{label_mgr_free}
use rsvp_te.Wire.Parser.{MessageInfo}
use rsvp_te.StateDb.Blocks.{Psb, Rsb}
use rsvp_te.Machine.{Hal, Machine, mpls_remove, emit, alter_rsb}
use rsvp_te.Machine.Ownership.{db_label, label_of_block, LabelsOk, released-LabelsOk}
use rsvp_te.Machine.Cleanup.{
  dest_of, release_forwarding, rsb_cleanup_resources, unlink_psb, rsvp_rsb_cleanup,
  cleanup_associated, rsvp_psb_cleanup, delete_bsb, cleanup_psb, cleanup_rsb, handle_path_tear,
  handle_resv_tear, rsvp_teardown_path, psb_cleanup_timer_cb, rsb_cleanup_timer_cb,
  bsb_cleanup_timer_cb, psb_refresh_timer_cb, rsb_refresh_timer_cb,
}
use rsvp_te.Machine.Keeping.{
  emit-LabelsOk, alter_psb-LabelsOk, start_timer-LabelsOk, stop_timer-LabelsOk, rsb_delete-LabelsOk,
  psb_delete-LabelsOk, bsb_delete-LabelsOk,
}
use rsvp_te.Machine.Steady.{given_keeps, given_at_keeps, branch_keeps}
use rsvp_te.Machine.Sent.{
  propagate_path_tear-Steady, propagate_resv_tear-Steady, send_path_downstream-Steady,
  send_resv_upstream-Steady,
}
use rsvp_te.Machine.Taking.{labels_steady}

-- The RSB without its label, which the label manager has back.
abbrev freed : Machine → ℕ → Rsb → Option Psb → Machine
freed m r rsb psb =
    alter_rsb
      (record (emit m (mpls_remove rsb.label_in (dest_of psb))) {
        labels = label_mgr_free m.labels rsb.label_in;
      })
      r (λ x. record x { label_in = 0 })

freed_label :
    (m : Machine) (r : ℕ) (rsb : Rsb) (psb : Option Psb) (s : ℕ)
    → m.db.rsbs.heap r ≡ some rsb
    → db_label (freed m r rsb psb).db s ≡ (if r == s then 0 else db_label m.db s)
unfolding alter_rsb
freed_label m r rsb psb s e = elim (Bool-cases (r == s)) [
  | inl here ↦
      let r≡s : r ≡ s = ground arith in
      let there : m.db.rsbs.heap s ≡ some rsb = ap m.db.rsbs.heap (sym r≡s) ∙ e in rw (here, there)
  | inr other ↦ rw other
]

labels-freed :
    (m : Machine) (r : ℕ) (rsb : Rsb) (psb : Option Psb)
    → (freed m r rsb psb).labels ≡ label_mgr_free m.labels rsb.label_in
unfolding alter_rsb
labels-freed m r rsb psb = refl

release_forwarding-LabelsOk :
    (m : Machine) (r : ℕ) (rsb : Rsb) (psb : Option Psb)
    → m.db.rsbs.heap r ≡ some rsb
    → LabelsOk m
    → LabelsOk (release_forwarding m r rsb psb)
unfolding release_forwarding
release_forwarding-LabelsOk m r rsb psb e ok = elim (Bool-cases (rsb.label_in == 0)) [
  | inl bare ↦ rw bare (branch_keeps LabelsOk _ _ _ (emit-LabelsOk m _ ok) ok)
  | inr has ↦
      let own : db_label m.db r ≡ rsb.label_in = ap label_of_block e in
      rw has (
        released-LabelsOk m (freed m r rsb psb) r
          (labels-freed m r rsb psb ∙ ap (label_mgr_free m.labels) (sym own))
          (λ s. freed_label m r rsb psb s e) (λ z. ground arith) ok)
]

rsb_cleanup_resources-LabelsOk :
    (m : Machine) (r : ℕ) → LabelsOk m → LabelsOk (rsb_cleanup_resources m r)
unfolding rsb_cleanup_resources
rsb_cleanup_resources-LabelsOk m r ok = given_at_keeps LabelsOk (m.db.rsbs.heap r) m _ ok (λ rsb e.
    stop_timer-LabelsOk _ _ (stop_timer-LabelsOk _ _ (release_forwarding-LabelsOk m r rsb _ e ok)))

unlink_psb-LabelsOk : (m : Machine) (p : Option ℕ) → LabelsOk m → LabelsOk (unlink_psb m p)
unlink_psb-LabelsOk m none ok = ok
unlink_psb-LabelsOk m (some p) ok = alter_psb-LabelsOk m p _ ok

module _ (hal : Hal) where
  pub rsvp_rsb_cleanup-LabelsOk :
      (m : Machine) (r : ℕ) (propagate : Bool)
      → LabelsOk m
      → LabelsOk (rsvp_rsb_cleanup hal m r propagate)
  unfolding rsvp_rsb_cleanup
  rsvp_rsb_cleanup-LabelsOk m r propagate ok =
      given_keeps LabelsOk (m.db.rsbs.heap r) m _ ok (λ rsb.
        rsb_delete-LabelsOk _
          (unlink_psb-LabelsOk _ rsb.associated_psb (
            rsb_cleanup_resources-LabelsOk _ r (
              branch_keeps LabelsOk _ _ _ (propagate_resv_tear-Steady labels_steady hal m ok rsb)
                ok)))
          r)

  cleanup_associated-LabelsOk :
      (m : Machine) (r : Option ℕ) → LabelsOk m → LabelsOk (cleanup_associated hal m r)
  cleanup_associated-LabelsOk m none ok = ok
  cleanup_associated-LabelsOk m (some r) ok = rsvp_rsb_cleanup-LabelsOk m r false ok

  pub rsvp_psb_cleanup-LabelsOk :
      (m : Machine) (p : ℕ) (propagate : Bool)
      → LabelsOk m
      → LabelsOk (rsvp_psb_cleanup hal m p propagate)
  unfolding rsvp_psb_cleanup
  rsvp_psb_cleanup-LabelsOk m p propagate ok =
      given_keeps LabelsOk (m.db.psbs.heap p) m _ ok (λ psb.
        psb_delete-LabelsOk _
          (stop_timer-LabelsOk _ _ (
            stop_timer-LabelsOk _ _ (
              cleanup_associated-LabelsOk _ psb.associated_rsb (
                branch_keeps LabelsOk _ _ _ (propagate_path_tear-Steady labels_steady hal m p ok)
                  ok))))
          p)

  cleanup_psb-LabelsOk : (m : Machine) (p : Option ℕ) → LabelsOk m → LabelsOk (cleanup_psb hal m p)
  cleanup_psb-LabelsOk m none ok = ok
  cleanup_psb-LabelsOk m (some p) ok = rsvp_psb_cleanup-LabelsOk m p true ok

  cleanup_rsb-LabelsOk : (m : Machine) (r : Option ℕ) → LabelsOk m → LabelsOk (cleanup_rsb hal m r)
  cleanup_rsb-LabelsOk m none ok = ok
  cleanup_rsb-LabelsOk m (some r) ok = rsvp_rsb_cleanup-LabelsOk m r true ok

delete_bsb-LabelsOk : (m : Machine) (b : Option ℕ) → LabelsOk m → LabelsOk (delete_bsb m b)
delete_bsb-LabelsOk m none ok = ok
delete_bsb-LabelsOk m (some b) ok = bsb_delete-LabelsOk _ (stop_timer-LabelsOk m _ ok) b

module _ (hal : Hal) (m : Machine) (ok : LabelsOk m) where
  pub handle_path_tear-LabelsOk : (info : MessageInfo) → LabelsOk (handle_path_tear hal m info)
  unfolding handle_path_tear
  handle_path_tear-LabelsOk info = delete_bsb-LabelsOk _ _ (cleanup_psb-LabelsOk hal m _ ok)

  pub handle_resv_tear-LabelsOk : (info : MessageInfo) → LabelsOk (handle_resv_tear hal m info)
  unfolding handle_resv_tear
  handle_resv_tear-LabelsOk info = delete_bsb-LabelsOk _ _ (cleanup_rsb-LabelsOk hal m _ ok)

  pub rsvp_teardown_path-LabelsOk :
      (tunnel_id lsp_id : ℕ) → LabelsOk (rsvp_teardown_path hal m tunnel_id lsp_id)
  unfolding rsvp_teardown_path
  rsvp_teardown_path-LabelsOk tunnel_id lsp_id = cleanup_psb-LabelsOk hal m _ ok

  pub psb_cleanup_timer_cb-LabelsOk : (p : ℕ) → LabelsOk (psb_cleanup_timer_cb hal m p)
  unfolding psb_cleanup_timer_cb
  psb_cleanup_timer_cb-LabelsOk p =
      given_keeps LabelsOk (m.db.psbs.heap p) _ _ (emit-LabelsOk m _ ok)
        (λ psb. rsvp_psb_cleanup-LabelsOk hal m p true ok)

  pub rsb_cleanup_timer_cb-LabelsOk : (r : ℕ) → LabelsOk (rsb_cleanup_timer_cb hal m r)
  unfolding rsb_cleanup_timer_cb
  rsb_cleanup_timer_cb-LabelsOk r =
      given_keeps LabelsOk (m.db.rsbs.heap r) _ _ (emit-LabelsOk m _ ok)
        (λ rsb. rsvp_rsb_cleanup-LabelsOk hal m r true ok)

  pub bsb_cleanup_timer_cb-LabelsOk : (b : ℕ) → LabelsOk (bsb_cleanup_timer_cb m b)
  unfolding bsb_cleanup_timer_cb
  bsb_cleanup_timer_cb-LabelsOk b =
      given_keeps LabelsOk (m.db.bsbs.heap b) _ _ (emit-LabelsOk m _ ok)
        (λ bsb. bsb_delete-LabelsOk m ok b)

  pub psb_refresh_timer_cb-LabelsOk : (p : ℕ) → LabelsOk (psb_refresh_timer_cb hal m p)
  unfolding psb_refresh_timer_cb
  psb_refresh_timer_cb-LabelsOk p =
      given_keeps LabelsOk (m.db.psbs.heap p) _ _ (emit-LabelsOk m _ ok) (λ psb.
        start_timer-LabelsOk hal _ _
          (branch_keeps LabelsOk _ _ _ (send_path_downstream-Steady labels_steady hal m ok p) ok))

  pub rsb_refresh_timer_cb-LabelsOk : (r : ℕ) → LabelsOk (rsb_refresh_timer_cb hal m r)
  unfolding rsb_refresh_timer_cb
  rsb_refresh_timer_cb-LabelsOk r =
      given_keeps LabelsOk (m.db.rsbs.heap r) _ _ (emit-LabelsOk m _ ok) (λ rsb.
        start_timer-LabelsOk hal _ _
          (branch_keeps LabelsOk _ _ _ (send_resv_upstream-Steady labels_steady hal m r ok) ok))
