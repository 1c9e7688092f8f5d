-- ===== src/Machine/Rerouting.antt =====
-- Fast reroute in src/pi/rsvp_state_machine.c, for any steady statement.
use rsvp_te.Prelude.{
  ℕ, refl, Option, zero, suc, ◌+◌, List, [], ◌∷◌, none, some, inl, inr, Bool-cases,
}
use rsvp_te.StateDb.Blocks.{FrrMode, Psb, Rsb}
use rsvp_te.Machine.{Hal, Machine}
use rsvp_te.Machine.Frr.{
  endangered, rsb_of, arm, rsvp_frr_auto_associate, each, each_bucket, associate_one,
  rsvp_frr_auto_associate_all, install, switch_over, switch_to, trigger_one, rsvp_frr_trigger,
  restore, revert_one, rsvp_frr_revert, protect_by, protect, labelled,
}
use rsvp_te.Machine.Sent.{send_path_downstream-Steady}
use rsvp_te.Machine.Steady.{Steady, given_keeps, branch_keeps}

module _ {P : Machine → Type 0} (st : Steady P) where
  arm-Steady : (m : Machine) (p : ℕ) (b : Option ℕ) → P m → P (arm m p b)
  arm-Steady m p none ok = ok
  arm-Steady m p (some b) ok =
      given_keeps P (m.db.psbs.heap b) m _ ok (λ bp. st.alter_psb m p _ (λ q. refl) ok)

  pub rsvp_frr_auto_associate-Steady : (m : Machine) (p : ℕ) → P m → P (rsvp_frr_auto_associate m p)
  unfolding rsvp_frr_auto_associate
  rsvp_frr_auto_associate-Steady m p ok =
      given_keeps P (m.db.psbs.heap p) m _ ok (λ psb. branch_keeps P _ _ _ ok (arm-Steady m p _ ok))

  module _ (f : Machine → ℕ → Machine) (keeps : (m : Machine) (p : ℕ) → P m → P (f m p)) where
    each-Steady : (m : Machine) (ps : List ℕ) → P m → P (each f m ps)
    unfolding each
    each-Steady m [] ok = ok
    each-Steady m (p ∷ ps) ok = each-Steady (f m p) ps (keeps m p ok)

    each_bucket-Steady : (left i : ℕ) (m : Machine) → P m → P (each_bucket f left i m)
    unfolding each_bucket
    each_bucket-Steady zero i m ok = ok
    each_bucket-Steady (suc left) i m ok =
        each_bucket-Steady left (i + 1) _ (each-Steady m (m.db.psbs.buckets i) ok)

  associate_one-Steady : (ifindex : ℕ) (m : Machine) (p : ℕ) → P m → P (associate_one ifindex m p)
  unfolding associate_one
  associate_one-Steady ifindex m p ok =
      given_keeps P (m.db.psbs.heap p) m _ ok
        (λ c. branch_keeps P _ _ _ (rsvp_frr_auto_associate-Steady m p ok) ok)

  pub rsvp_frr_auto_associate_all-Steady :
      (m : Machine) (ifindex : ℕ) → P m → P (rsvp_frr_auto_associate_all m ifindex)
  unfolding rsvp_frr_auto_associate_all
  rsvp_frr_auto_associate_all-Steady m ifindex =
      each_bucket-Steady (associate_one ifindex) (associate_one-Steady ifindex) _ 0 m

  install-Steady :
      (m : Machine) (rsb : Option Rsb) (dest : ℕ) (via : Rsb) → P m → P (install m rsb dest via)
  install-Steady m none dest via ok = ok
  install-Steady m (some rsb) dest via ok = st.emit m _ ok

  module _ (hal : Hal) where
    switch_to-Steady :
        (m : Machine) (p : ℕ) (psb bp : Psb) (brsb : Option Rsb)
        → P m
        → P (switch_to hal m p psb bp brsb)
    unfolding switch_over
    switch_to-Steady m p psb bp none ok = ok
    switch_to-Steady m p psb bp (some brsb) ok = branch_keeps P _ _ _ ok (
        send_path_downstream-Steady st hal _
          (st.alter_psb _ p _ (λ q. refl) (install-Steady m _ _ brsb ok)) p)

    trigger_one-Steady : (failed : ℕ) (m : Machine) (p : ℕ) → P m → P (trigger_one hal failed m p)
    unfolding trigger_one
    trigger_one-Steady failed m p ok = given_keeps P (m.db.psbs.heap p) m _ ok (λ psb.
        given_keeps P _ m _ ok (λ bp.
          branch_keeps P (endangered failed psb) _ _
            (switch_to-Steady m p psb bp (rsb_of m.db bp.key) ok) ok))

    pub rsvp_frr_trigger-Steady :
        (m : Machine) (ifindex : ℕ) → P m → P (rsvp_frr_trigger hal m ifindex)
    unfolding rsvp_frr_trigger
    rsvp_frr_trigger-Steady m ifindex =
        each_bucket-Steady (trigger_one hal ifindex) (trigger_one-Steady ifindex) _ 0 m

    restore-Steady :
        (recovered : ℕ) (m : Machine) (p : ℕ) (psb : Psb) (rsb : Option Rsb)
        → P m
        → P (restore hal recovered m p psb rsb)
    restore-Steady recovered m p psb none ok = ok
    restore-Steady recovered m p psb (some rsb) ok =
        send_path_downstream-Steady st hal _ (st.alter_psb _ p _ (λ q. refl) (st.emit m _ ok)) p

    revert_one-Steady :
        (recovered : ℕ) (m : Machine) (p : ℕ) → P m → P (revert_one hal recovered m p)
    unfolding revert_one
    revert_one-Steady recovered m p ok = given_keeps P (m.db.psbs.heap p) m _ ok (λ psb.
        given_keeps P _ m _ ok
          (λ bp. branch_keeps P _ _ _ (restore-Steady recovered m p psb _ ok) ok))

    pub rsvp_frr_revert-Steady :
        (m : Machine) (ifindex : ℕ) → P m → P (rsvp_frr_revert hal m ifindex)
    unfolding rsvp_frr_revert
    rsvp_frr_revert-Steady m ifindex =
        each_bucket-Steady (revert_one hal ifindex) (revert_one-Steady ifindex) _ 0 m

  protect_by-Steady :
      (m : Machine) (p b : ℕ) (mode : FrrMode) (tunnel_id : ℕ) (c : Option Psb)
      → P m
      → P (protect_by m p b mode tunnel_id c).0
  protect_by-Steady m p b mode tunnel_id none ok = ok
  protect_by-Steady m p b mode tunnel_id (some c) ok =
      elim (Bool-cases (labelled (rsb_of m.db c.key))) [
        | inl has ↦ rw has (st.alter_psb m p _ (λ q. refl) ok)
        | inr lacks ↦ rw lacks ok
      ]

  pub protect-Steady :
      (m : Machine) (p b : Option ℕ) (mode : FrrMode) (tunnel_id : ℕ)
      → P m
      → P (protect m p b mode tunnel_id).0
  protect-Steady m none b mode tunnel_id ok = ok
  protect-Steady m (some p) none mode tunnel_id ok = ok
  protect-Steady m (some p) (some b) mode tunnel_id ok =
      protect_by-Steady m p b mode tunnel_id (m.db.psbs.heap b) ok
