-- ===== src/Machine/Labels.antt =====
-- Lemmas on label ownership: the error messages, the dispatch on the type and the commands of
-- src/pi/rsvp_state_machine.c.
use rsvp_te.Prelude.{ℕ, Bool, true, false, List, Option, none, some, if◌then◌else◌}
use rsvp_te.Wire.Builder.Objects.{Hop}
use rsvp_te.Wire.Parser.{MessageInfo, PathKey}
use rsvp_te.StateDb
use rsvp_te.StateDb.{Timer}
use rsvp_te.StateDb.Blocks.{Psb, Rsb}
use rsvp_te.Machine.{Hal, Machine}
use rsvp_te.Machine.Ownership.{LabelsOk}
use rsvp_te.Machine.Sending.{follow}
use rsvp_te.Machine.Errors.{
  block, block_made, find_or_create_bsb, note_blockade, pass_path_err, pass_resv_err,
  handle_path_err, handle_resv_err,
}
use rsvp_te.Machine.Handle.{pass_hello, rsvp_handle_message}
use rsvp_te.Machine.Commands.{
  launch_new, create_path, ingress_psb, initiate_on, bypass_on, mbb_launch, mbb_on, mbb_from,
}
use rsvp_te.Machine.Keeping.{
  emit-LabelsOk, alter_psb-LabelsOk, alter_bsb-LabelsOk, start_timer-LabelsOk, psb_create-LabelsOk,
  bsb_create-LabelsOk,
}
use rsvp_te.Machine.Steady.{given_keeps, branch_keeps}
use rsvp_te.Machine.Sent.{send_path_downstream-Steady, propagate_resv_err-Steady}
use rsvp_te.Machine.Taking.{labels_steady}
use rsvp_te.Machine.Tearing.{handle_path_tear-LabelsOk, handle_resv_tear-LabelsOk}
use rsvp_te.Machine.PathLabels.{handle_path_message-LabelsOk}
use rsvp_te.Machine.ResvLabels.{handle_resv_message-LabelsOk}

module _ (hal : Hal) (info : MessageInfo) where
  pass_path_err-LabelsOk :
      (m : Machine) (psb : Option Psb) → LabelsOk m → LabelsOk (pass_path_err hal m info psb)
  pass_path_err-LabelsOk m none ok = ok
  pass_path_err-LabelsOk m (some psb) ok = branch_keeps LabelsOk _ _ _ ok (emit-LabelsOk m _ ok)

  block-LabelsOk : (m : Machine) (b : ℕ) (o : List ℕ) → LabelsOk m → LabelsOk (block hal m b o)
  unfolding block
  block-LabelsOk m b o ok =
      let noted = alter_bsb-LabelsOk m b _ ok in
      branch_keeps LabelsOk _ _ _ noted (start_timer-LabelsOk hal _ _ noted)

  block_made-LabelsOk :
      (m : Machine) (b : Option ℕ) (o : List ℕ) → LabelsOk m → LabelsOk (block_made hal m b o)
  block_made-LabelsOk m none o ok = ok
  block_made-LabelsOk m (some b) o ok = block-LabelsOk m b o ok

  find_or_create_bsb-LabelsOk :
      (m : Machine) (b : Option ℕ) (o : List ℕ)
      → LabelsOk m
      → LabelsOk (find_or_create_bsb hal m info b o)
  find_or_create_bsb-LabelsOk m none o ok =
      block_made-LabelsOk _ _ o (bsb_create-LabelsOk m info.key (hal.new_bsb m.db) ok)
  find_or_create_bsb-LabelsOk m (some b) o ok = block-LabelsOk m b o ok

  note_blockade-LabelsOk :
      (m : Machine) (spec flowspec : Option (List ℕ))
      → LabelsOk m
      → LabelsOk (note_blockade hal m info spec flowspec)
  unfolding note_blockade
  note_blockade-LabelsOk m none flowspec ok = ok
  note_blockade-LabelsOk m (some spec) none ok = ok
  note_blockade-LabelsOk m (some spec) (some o) ok =
      branch_keeps LabelsOk _ _ _ (find_or_create_bsb-LabelsOk m _ o ok) ok

  pass_resv_err-LabelsOk :
      (m : Machine) (rsb : Option Rsb) → LabelsOk m → LabelsOk (pass_resv_err hal m info rsb)
  pass_resv_err-LabelsOk m none ok = ok
  pass_resv_err-LabelsOk m (some rsb) ok =
      branch_keeps LabelsOk _ _ _ ok
        (propagate_resv_err-Steady labels_steady hal m ok rsb info.error_spec)

  handle_path_err-LabelsOk : (m : Machine) → LabelsOk m → LabelsOk (handle_path_err hal m info)
  unfolding handle_path_err
  handle_path_err-LabelsOk m ok =
      pass_path_err-LabelsOk m (follow m.db.psbs.heap (StateDb.rsvp_psb_find m.db info.key)) ok

  handle_resv_err-LabelsOk : (m : Machine) → LabelsOk m → LabelsOk (handle_resv_err hal m info)
  unfolding handle_resv_err
  handle_resv_err-LabelsOk m ok =
      pass_resv_err-LabelsOk _ _ (note_blockade-LabelsOk m info.error_spec info.flowspec ok)

  pass_hello-LabelsOk :
      (m : Machine) (o : Option (List ℕ)) → LabelsOk m → LabelsOk (pass_hello m info o)
  pass_hello-LabelsOk m none ok = ok
  pass_hello-LabelsOk m (some o) ok = emit-LabelsOk m _ ok

  pub rsvp_handle_message-LabelsOk :
      (m : Machine) → LabelsOk m → LabelsOk (rsvp_handle_message hal m info)
  unfolding rsvp_handle_message
  rsvp_handle_message-LabelsOk m ok = given_keeps LabelsOk info.common_hdr m _ ok (λ hdr.
      branch_keeps LabelsOk _ _ _ (handle_path_message-LabelsOk hal info m ok) (
        branch_keeps LabelsOk _ _ _ (handle_resv_message-LabelsOk hal info m ok) (
          branch_keeps LabelsOk _ _ _ (handle_path_tear-LabelsOk hal m ok info) (
            branch_keeps LabelsOk _ _ _ (handle_resv_tear-LabelsOk hal m ok info) (
              branch_keeps LabelsOk _ _ _ (handle_path_err-LabelsOk m ok) (
                branch_keeps LabelsOk _ _ _ (handle_resv_err-LabelsOk m ok)
                  (branch_keeps LabelsOk _ _ _ (pass_hello-LabelsOk m info.hello_obj ok) ok)))))))

test_result {ℓ} :
    {R : Type ℓ} (b : Bool) (x y : Machine × R)
    → LabelsOk x.0
    → LabelsOk y.0
    → LabelsOk (if b then x else y).0
test_result true x y hx hy = hx
test_result false x y hx hy = hy

module _ (hal : Hal) where
  launch_new-LabelsOk :
      (m : Machine) (p : Option ℕ) (f : Psb → Psb) → LabelsOk m → LabelsOk (launch_new hal m p f)
  launch_new-LabelsOk m none f ok = ok
  launch_new-LabelsOk m (some p) f ok =
      send_path_downstream-Steady labels_steady hal _
        (start_timer-LabelsOk hal _ _ (alter_psb-LabelsOk m p f ok)) p

  create_path-LabelsOk :
      (m : Machine) (key : PathKey) (f : Psb → Psb)
      → LabelsOk m
      → LabelsOk (create_path hal m key f)
  create_path-LabelsOk m key f ok =
      launch_new-LabelsOk _ _ f (psb_create-LabelsOk m key (hal.new_psb m.db) ok)

  pub initiate_on-LabelsOk :
      (m : Machine) (key : PathKey) (p : Option ℕ) (name : List ℕ) (ero : List Hop) (frr : Bool)
      → LabelsOk m
      → LabelsOk (initiate_on hal m key p name ero frr)
  initiate_on-LabelsOk m key none name ero frr ok =
      create_path-LabelsOk m key (ingress_psb hal name ero frr) ok
  initiate_on-LabelsOk m key (some p) name ero frr ok =
      send_path_downstream-Steady labels_steady hal m ok p

  pub bypass_on-LabelsOk :
      (m : Machine) (key : PathKey) (p : Option ℕ) (name : List ℕ) (ero : List Hop) (ifindex : ℕ)
      → LabelsOk m
      → LabelsOk (bypass_on hal m key p name ero ifindex)
  bypass_on-LabelsOk m key none name ero ifindex ok = create_path-LabelsOk m key _ ok
  bypass_on-LabelsOk m key (some p) name ero ifindex ok = ok

  mbb_launch-LabelsOk :
      (m : Machine) (p : Option ℕ) (f : Psb → Psb) → LabelsOk m → LabelsOk (mbb_launch hal m p f).0
  mbb_launch-LabelsOk m none f ok = ok
  mbb_launch-LabelsOk m (some p) f ok = launch_new-LabelsOk m (some p) f ok

  mbb_on-LabelsOk :
      (m : Machine) (old : Psb) (old_id : ℕ) (ero : List Hop) (key : PathKey) (p : Option ℕ)
      → LabelsOk m
      → LabelsOk (mbb_on hal m old old_id ero key p).0
  mbb_on-LabelsOk m old old_id ero key none ok =
      mbb_launch-LabelsOk _ _ _ (psb_create-LabelsOk m key (hal.new_psb m.db) ok)
  mbb_on-LabelsOk m old old_id ero key (some p) ok = ok

  pub mbb_from-LabelsOk :
      (m : Machine) (old : Option Psb) (old_id new_id : ℕ) (ero : List Hop)
      → LabelsOk m
      → LabelsOk (mbb_from hal m old old_id new_id ero).0
  mbb_from-LabelsOk m none old_id new_id ero ok = ok
  mbb_from-LabelsOk m (some old) old_id new_id ero ok =
      test_result _ _ _ ok (mbb_on-LabelsOk m old old_id ero _ _ ok)
