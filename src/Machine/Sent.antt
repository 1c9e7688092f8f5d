-- ===== src/Machine/Sent.antt =====
-- The functions of src/pi/rsvp_state_machine.c that send a message, for any steady statement.
use rsvp_te.Prelude.{ℕ, refl, List, Option, none, some}
use rsvp_te.Wire.Parser.{MessageInfo}
use rsvp_te.StateDb.Blocks.{Psb, Rsb}
use rsvp_te.Machine.{Hal, Machine}
use rsvp_te.Machine.Checks.{resolve_path_next_hop}
use rsvp_te.Machine.Sending.{
  ensure_label, send_path_err, send_resv_err, send_path_via, send_path_downstream,
  send_path_tear_via, propagate_path_tear, propagate_resv_tear, propagate_resv_err, send_resv_of,
  send_resv_from, send_resv_upstream,
}
use rsvp_te.Machine.Steady.{Steady, given_keeps, branch_keeps}

-- The functions that send.
module _ {P : Machine → Type 0} (st : Steady P) (hal : Hal) (m : Machine) (ok : P m) where
  pub send_path_err-Steady : (info : MessageInfo) (code : ℕ) → P (send_path_err hal m info code)
  unfolding send_path_err
  send_path_err-Steady info code = st.emit m _ ok

  pub send_resv_err-Steady : (info : MessageInfo) (code : ℕ) → P (send_resv_err hal m info code)
  unfolding send_resv_err
  send_resv_err-Steady info code = st.emit m _ ok

  send_path_via-Steady :
      (p : ℕ) (psb : Psb) (ip_dest : ℕ) (out : Option ℕ) → P (send_path_via hal m p psb ip_dest out)
  unfolding send_path_via
  send_path_via-Steady p psb ip_dest none = st.alter_psb m p _ (λ q. refl) ok
  send_path_via-Steady p psb ip_dest (some i) = st.emit _ _ (st.alter_psb m p _ (λ q. refl) ok)

  pub send_path_downstream-Steady : (p : ℕ) → P (send_path_downstream hal m p)
  unfolding send_path_downstream
  send_path_downstream-Steady p =
      given_keeps P (m.db.psbs.heap p) m _ ok
        (λ psb. send_path_via-Steady p (resolve_path_next_hop hal psb).0 _ _)

  send_path_tear_via-Steady :
      (psb : Psb) (ip_dest : ℕ) (out : Option ℕ) → P (send_path_tear_via hal m psb ip_dest out)
  unfolding send_path_tear_via
  send_path_tear_via-Steady psb ip_dest none = ok
  send_path_tear_via-Steady psb ip_dest (some i) = st.emit m _ ok

  pub propagate_resv_tear-Steady : (rsb : Rsb) → P (propagate_resv_tear hal m rsb)
  unfolding propagate_resv_tear
  propagate_resv_tear-Steady rsb =
      given_keeps P _ m _ ok (λ psb. branch_keeps P _ _ _ ok (st.emit m _ ok))

  pub propagate_resv_err-Steady :
      (rsb : Rsb) (spec : Option (List ℕ)) → P (propagate_resv_err hal m rsb spec)
  unfolding propagate_resv_err
  propagate_resv_err-Steady rsb spec =
      given_keeps P _ m _ ok (λ psb. given_keeps P _ m _ ok (λ i. st.emit m _ ok))

  send_resv_from-Steady : (rsb : Option Rsb) (psb : Psb) → P (send_resv_from hal m rsb psb)
  unfolding send_resv_of
  send_resv_from-Steady none psb = ok
  send_resv_from-Steady (some rsb) psb = branch_keeps P _ _ _ ok (st.emit m _ ok)

pub propagate_path_tear-Steady :
    {P : Machine → Type 0} (st : Steady P) (hal : Hal) (m : Machine) (p : ℕ)
    → P m
    → P (propagate_path_tear hal m p)
unfolding propagate_path_tear
propagate_path_tear-Steady {P} st hal m p ok =
    given_keeps P (m.db.psbs.heap p) m _ ok
      (λ psb. send_path_tear_via-Steady st hal _ (st.alter_psb m p _ (λ q. refl) ok) _ _ _)

pub send_resv_upstream-Steady :
    {P : Machine → Type 0} (st : Steady P) (hal : Hal) (m : Machine) (r : ℕ)
    → P m
    → P (send_resv_upstream hal m r)
unfolding send_resv_upstream
send_resv_upstream-Steady {P} st hal m r ok = given_keeps P (m.db.rsbs.heap r) m _ ok (λ rsb.
    given_keeps P _ m _ ok (λ psb.
      send_resv_from-Steady st hal (ensure_label m r) (st.take_label m r ok)
        ((ensure_label m r).db.rsbs.heap r) psb))
