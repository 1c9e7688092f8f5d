-- ===== src/Machine/ResvLabels.antt =====
-- Lemmas on label ownership: `handle_resv_message` of src/pi/rsvp_state_machine.c.
use rsvp_te.Prelude.{ℕ, ◌≡◌, refl, ◌∙◌, Bool, true, false, List, Option, none, some}
use rsvp_te.Wire.Parser.{MessageInfo}
use rsvp_te.StateDb.{Timer}
use rsvp_te.StateDb.Blocks.{Psb, Rsb}
use rsvp_te.Machine.{Hal, Machine, alter_rsb}
use rsvp_te.Machine.Ownership.{LabelsOk}
use rsvp_te.Machine.Checks.{admission_control, rsvp_is_blockaded}
use rsvp_te.Machine.Sending.{follow, ensure_label}
use rsvp_te.Machine.Cleanup.{ingress_of}
use rsvp_te.Machine.ResvMsg.{
  update_rsb, resv_time_values, resv_flowspec, resv_style, resv_ttl, resv_hop, take_label_and_hop,
  resv_timers, drop_incumbent, rsvp_mbb_complete, after_forwarding, swap_labels, install_forwarding,
  reserve, unlink_new, accept_resv, accept_new_resv, find_or_create_resv, after_resv_check,
  handle_resv_message,
}
use rsvp_te.Machine.Keeping.{
  emit-LabelsOk, alter_psb-LabelsOk, alter_rsb-LabelsOk, start_timer-LabelsOk, stop_timer-LabelsOk,
  restart_timer-LabelsOk, rsb_create-LabelsOk, rsb_delete-LabelsOk,
}
use rsvp_te.Machine.Steady.{given_keeps, branch_keeps}
use rsvp_te.Machine.Sent.{send_resv_err-Steady, send_resv_upstream-Steady}
use rsvp_te.Machine.Taking.{labels_steady, ensure_label-LabelsOk}
use rsvp_te.Machine.Tearing.{rsvp_rsb_cleanup-LabelsOk, rsvp_psb_cleanup-LabelsOk}
use rsvp_te.Machine.Rerouting.{rsvp_frr_auto_associate_all-Steady}

-- What a message writes into an RSB leaves its incoming label.
keeps_style : (o : Option (List ℕ)) (rsb : Rsb) → (resv_style o rsb).label_in ≡ rsb.label_in
keeps_style none rsb = refl
keeps_style (some o) rsb = refl

keeps_flowspec : (o : Option (List ℕ)) (rsb : Rsb) → (resv_flowspec o rsb).label_in ≡ rsb.label_in
keeps_flowspec none rsb = refl
keeps_flowspec (some o) rsb = refl

keeps_time_values :
    (o : Option (List ℕ)) (rsb : Rsb) → (resv_time_values o rsb).label_in ≡ rsb.label_in
keeps_time_values none rsb = refl
keeps_time_values (some o) rsb = refl

keeps_ttl : (o : Option (List ℕ)) (rsb : Rsb) → (resv_ttl o rsb).label_in ≡ rsb.label_in
keeps_ttl none rsb = refl
keeps_ttl (some o) rsb = refl

keeps_hop : (o : Option (List ℕ)) (rsb : Rsb) → (resv_hop o rsb).label_in ≡ rsb.label_in
keeps_hop none rsb = refl
keeps_hop (some o) rsb = refl

module _ (hal : Hal) (info : MessageInfo) where
  label_in-update_rsb : (rsb : Rsb) → (update_rsb info rsb).label_in ≡ rsb.label_in
  unfolding update_rsb
  label_in-update_rsb rsb =
      keeps_style info.style _
      ∙ keeps_flowspec info.flowspec _
      ∙ keeps_time_values info.time_values rsb

  label_in-take_label_and_hop :
      (label : ℕ) (rsb : Rsb) → (take_label_and_hop info label rsb).label_in ≡ rsb.label_in
  unfolding take_label_and_hop
  label_in-take_label_and_hop label rsb = keeps_hop info.hop_v4 _ ∙ keeps_ttl info.common_hdr rsb

  resv_timers-LabelsOk :
      (m : Machine) (r : ℕ) (is_ingress : Bool)
      → LabelsOk m
      → LabelsOk (resv_timers hal m r is_ingress)
  unfolding resv_timers
  resv_timers-LabelsOk m r is_ingress ok =
      let kept = restart_timer-LabelsOk hal m (Timer.rsb_cleanup r) ok in
      branch_keeps LabelsOk _ _ _
        (branch_keeps LabelsOk _ _ _ kept (start_timer-LabelsOk hal _ _ kept))
        (branch_keeps LabelsOk _ _ _ (stop_timer-LabelsOk _ _ kept) kept)

  drop_incumbent-LabelsOk :
      (m : Machine) (p : Option ℕ) → LabelsOk m → LabelsOk (drop_incumbent hal m p)
  drop_incumbent-LabelsOk m none ok = ok
  drop_incumbent-LabelsOk m (some p) ok = rsvp_psb_cleanup-LabelsOk hal m p true ok

  rsvp_mbb_complete-LabelsOk :
      (m : Machine) (p : ℕ) → LabelsOk m → LabelsOk (rsvp_mbb_complete hal m p)
  unfolding rsvp_mbb_complete
  rsvp_mbb_complete-LabelsOk m p ok =
      given_keeps LabelsOk (m.db.psbs.heap p) m _ ok
        (λ psb. alter_psb-LabelsOk _ p _ (drop_incumbent-LabelsOk m _ ok))

  after_forwarding-LabelsOk :
      (m : Machine) (p : ℕ) (psb : Psb) (is_new label_changed : Bool)
      → LabelsOk m
      → LabelsOk (after_forwarding hal m p psb is_new label_changed)
  unfolding after_forwarding
  after_forwarding-LabelsOk m p psb is_new label_changed ok =
      let armed =
        branch_keeps LabelsOk _ _ _
          (rsvp_frr_auto_associate_all-Steady labels_steady m psb.frr_protected_ifindex ok) ok in
      branch_keeps LabelsOk _ _ _ (rsvp_mbb_complete-LabelsOk _ p armed) armed

  swap_labels-LabelsOk :
      (m : Machine) (r p : ℕ) (psb : Psb) (is_new label_changed : Bool) (rsb : Option Rsb)
      → LabelsOk m
      → LabelsOk (swap_labels hal m info r p psb is_new label_changed rsb)
  swap_labels-LabelsOk m r p psb is_new label_changed none ok = ok
  swap_labels-LabelsOk m r p psb is_new label_changed (some rsb) ok =
      branch_keeps LabelsOk _ _ _
        (send_resv_err-Steady labels_steady hal _
          (branch_keeps LabelsOk _ _ _ (rsvp_rsb_cleanup-LabelsOk hal m r false ok) ok) info
          admission_control)
        (after_forwarding-LabelsOk _ p psb is_new label_changed
          (send_resv_upstream-Steady labels_steady hal _ r (emit-LabelsOk m _ ok)))

  install_forwarding-LabelsOk :
      (m : Machine) (r : ℕ) (rsb : Rsb) (p : Option ℕ) (is_new label_changed : Bool)
      → LabelsOk m
      → LabelsOk (install_forwarding hal m info r rsb p is_new label_changed)
  unfolding install_forwarding
  install_forwarding-LabelsOk m r rsb none is_new label_changed ok = ok
  install_forwarding-LabelsOk m r rsb (some p) is_new label_changed ok =
      given_keeps LabelsOk (m.db.psbs.heap p) m _ ok (λ psb.
        branch_keeps LabelsOk _ _ _
          (swap_labels-LabelsOk (ensure_label m r) r p psb is_new label_changed
            ((ensure_label m r).db.rsbs.heap r) (ensure_label-LabelsOk m r ok))
          (after_forwarding-LabelsOk _ p psb is_new label_changed (emit-LabelsOk m _ ok)))

  reserve-LabelsOk :
      (m : Machine) (r : ℕ) (old : Rsb) (is_new : Bool) (label : ℕ)
      → LabelsOk m
      → LabelsOk (reserve hal m info r old is_new label)
  unfolding reserve
  reserve-LabelsOk m r old is_new label ok =
      let written =
        alter_rsb-LabelsOk _ r (take_label_and_hop info label) (label_in-take_label_and_hop label)
          (resv_timers-LabelsOk m r (ingress_of (follow m.db.psbs.heap old.associated_psb)) ok) in
      branch_keeps LabelsOk _ _ _ (install_forwarding-LabelsOk _ r _ _ is_new _ written) (
        branch_keeps LabelsOk _ _ _ (send_resv_upstream-Steady labels_steady hal _ r written)
          written)

  unlink_new-LabelsOk : (m : Machine) (p : Option ℕ) → LabelsOk m → LabelsOk (unlink_new m p)
  unlink_new-LabelsOk m none ok = ok
  unlink_new-LabelsOk m (some p) ok = alter_psb-LabelsOk m p _ ok

  accept_resv-LabelsOk :
      (m : Machine) (r : ℕ) (is_new : Bool) (label : ℕ)
      → LabelsOk m
      → LabelsOk (accept_resv hal m info r is_new label)
  unfolding accept_resv
  accept_resv-LabelsOk m r is_new label ok =
      let updated = alter_rsb-LabelsOk m r (update_rsb info) label_in-update_rsb ok in
      given_keeps LabelsOk _ _ _ updated (λ rsb.
        branch_keeps LabelsOk (rsvp_is_blockaded hal (alter_rsb m r (update_rsb info)).db rsb) _ _
          (branch_keeps LabelsOk is_new _ _
            (rsb_delete-LabelsOk _ (unlink_new-LabelsOk _ rsb.associated_psb updated) r) updated)
          (reserve-LabelsOk _ r rsb is_new label updated))

  accept_new_resv-LabelsOk :
      (m : Machine) (p : ℕ) (r : Option ℕ) (label : ℕ)
      → LabelsOk m
      → LabelsOk (accept_new_resv hal m info p r label)
  accept_new_resv-LabelsOk m p none label ok = ok
  accept_new_resv-LabelsOk m p (some r) label ok =
      accept_resv-LabelsOk _ r true label
        (alter_psb-LabelsOk _ p _ (alter_rsb-LabelsOk m r _ (λ rsb. refl) ok))

  find_or_create_resv-LabelsOk :
      (m : Machine) (p : ℕ) (r : Option ℕ) (label : ℕ)
      → LabelsOk m
      → LabelsOk (find_or_create_resv hal m info p r label)
  find_or_create_resv-LabelsOk m p none label ok =
      accept_new_resv-LabelsOk _ p _ label (rsb_create-LabelsOk m info.key (hal.new_rsb m.db) ok)
  find_or_create_resv-LabelsOk m p (some r) label ok = accept_resv-LabelsOk m r false label ok

  after_resv_check-LabelsOk :
      (m : Machine) (psb code : Option ℕ)
      → LabelsOk m
      → LabelsOk (after_resv_check hal m info psb code)
  after_resv_check-LabelsOk m psb (some code) ok =
      send_resv_err-Steady labels_steady hal m ok info code
  after_resv_check-LabelsOk m none none ok = ok
  after_resv_check-LabelsOk m (some p) none ok = find_or_create_resv-LabelsOk m p _ _ ok

  pub handle_resv_message-LabelsOk :
      (m : Machine) → LabelsOk m → LabelsOk (handle_resv_message hal m info)
  unfolding handle_resv_message
  handle_resv_message-LabelsOk m ok = after_resv_check-LabelsOk m _ _ ok
