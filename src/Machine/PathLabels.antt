-- ===== src/Machine/PathLabels.antt =====
-- Lemmas on label ownership: `handle_path_message` of src/pi/rsvp_state_machine.c.
use rsvp_te.Prelude.{ℕ, refl, Bool, true, false, Option, none, some}
use rsvp_te.Wire.Parser.{MessageInfo}
use rsvp_te.StateDb.{Timer}
use rsvp_te.Machine.{Hal, Machine}
use rsvp_te.Machine.Ownership.{LabelsOk}
use rsvp_te.Machine.Checks.{resolve_path_next_hop, routing_problem}
use rsvp_te.Machine.Sending.{send_path_downstream}
use rsvp_te.Machine.PathMsg.{
  path_timers, first_resv, path_at_egress, path_at_transit, path_role, accept_path, accept_new_path,
  after_path_check, handle_path_message, awaits_bypass,
}
use rsvp_te.Machine.Keeping.{
  alter_psb-LabelsOk, alter_rsb-LabelsOk, start_timer-LabelsOk, restart_timer-LabelsOk,
  psb_create-LabelsOk, rsb_create-LabelsOk, psb_delete-LabelsOk,
}
use rsvp_te.Machine.Steady.{given_keeps, branch_keeps}
use rsvp_te.Machine.Sent.{
  send_path_err-Steady, send_path_downstream-Steady, send_resv_upstream-Steady,
}
use rsvp_te.Machine.Taking.{labels_steady}
use rsvp_te.Machine.Rerouting.{rsvp_frr_auto_associate-Steady}

-- PATH.
module _ (hal : Hal) (info : MessageInfo) where
  path_timers-LabelsOk : (m : Machine) (p : ℕ) → LabelsOk m → LabelsOk (path_timers hal m p)
  unfolding path_timers
  path_timers-LabelsOk m p ok =
      let kept = restart_timer-LabelsOk hal m (Timer.psb_cleanup p) ok in
      branch_keeps LabelsOk _ _ _ kept (start_timer-LabelsOk hal _ _ kept)

  first_resv-LabelsOk :
      (m : Machine) (p : ℕ) (r : Option ℕ) → LabelsOk m → LabelsOk (first_resv hal m p r)
  first_resv-LabelsOk m p none ok = ok
  first_resv-LabelsOk m p (some r) ok = send_resv_upstream-Steady labels_steady hal _ r (
      start_timer-LabelsOk hal _ _
        (alter_psb-LabelsOk _ p _ (alter_rsb-LabelsOk m r _ (λ rsb. refl) ok)))

  path_at_egress-LabelsOk :
      (m : Machine) (p : ℕ) (r : Option ℕ) → LabelsOk m → LabelsOk (path_at_egress hal m info p r)
  unfolding path_at_egress
  path_at_egress-LabelsOk m p none ok =
      first_resv-LabelsOk _ p _ (rsb_create-LabelsOk m info.key (hal.new_rsb m.db) ok)
  path_at_egress-LabelsOk m p (some r) ok = alter_rsb-LabelsOk m r _ (λ rsb. refl) ok

  path_at_transit-LabelsOk :
      (m : Machine) (p : ℕ) (is_new : Bool) (out : Option ℕ)
      → LabelsOk m
      → LabelsOk (path_at_transit hal m info p is_new out)
  unfolding path_at_transit
  path_at_transit-LabelsOk m p is_new none ok =
      let told = send_path_err-Steady labels_steady hal m ok info routing_problem in
      branch_keeps LabelsOk _ _ _ (psb_delete-LabelsOk _ told p) told
  path_at_transit-LabelsOk m p is_new (some i) ok =
      let forwarded = send_path_downstream-Steady labels_steady hal m ok p in
      branch_keeps LabelsOk (awaits_bypass ((send_path_downstream hal m p).db.psbs.heap p)) _ _
        (rsvp_frr_auto_associate-Steady labels_steady _ p forwarded) forwarded

  path_role-LabelsOk :
      (m : Machine) (p : ℕ) (is_new : Bool) → LabelsOk m → LabelsOk (path_role hal m info p is_new)
  unfolding path_role
  path_role-LabelsOk m p is_new ok =
      branch_keeps LabelsOk _ _ _ (path_at_egress-LabelsOk m p _ ok) (
        branch_keeps LabelsOk _ _ _ ok (
          given_keeps LabelsOk (m.db.psbs.heap p) m _ ok (λ psb.
            path_at_transit-LabelsOk _ p is_new (resolve_path_next_hop hal psb).2
              (alter_psb-LabelsOk m p _ ok))))

  accept_path-LabelsOk :
      (m : Machine) (p : ℕ) (is_new : Bool)
      → LabelsOk m
      → LabelsOk (accept_path hal m info p is_new)
  unfolding accept_path
  accept_path-LabelsOk m p is_new ok =
      path_role-LabelsOk _ p is_new (path_timers-LabelsOk _ p (alter_psb-LabelsOk m p _ ok))

  accept_new_path-LabelsOk :
      (m : Machine) (p : Option ℕ) → LabelsOk m → LabelsOk (accept_new_path hal m info p)
  accept_new_path-LabelsOk m none ok = ok
  accept_new_path-LabelsOk m (some p) ok =
      accept_path-LabelsOk _ p true (alter_psb-LabelsOk m p _ ok)

  after_path_check-LabelsOk :
      (m : Machine) (psb code : Option ℕ)
      → LabelsOk m
      → LabelsOk (after_path_check hal m info psb code)
  after_path_check-LabelsOk m psb (some code) ok =
      send_path_err-Steady labels_steady hal m ok info code
  after_path_check-LabelsOk m none none ok =
      accept_new_path-LabelsOk _ _ (psb_create-LabelsOk m info.key (hal.new_psb m.db) ok)
  after_path_check-LabelsOk m (some p) none ok = accept_path-LabelsOk m p false ok

  pub handle_path_message-LabelsOk :
      (m : Machine) → LabelsOk m → LabelsOk (handle_path_message hal m info)
  unfolding handle_path_message
  handle_path_message-LabelsOk m ok = after_path_check-LabelsOk m _ _ ok
