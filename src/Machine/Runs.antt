-- ===== src/Machine/Runs.antt =====
-- Runs of src/pi/rsvp_state_machine.c: any sequence of messages, timer expiries, link events and commands,
-- from its start on.
use rsvp_te.Prelude.{
  ℕ, ◌<◌, ◌≤◌, ◌≡◌, ◌≢◌, refl, sym, subst, ◌^◌, ap, ◌∙◌, Bool, true, List, [], ◌∷◌, some,
}
use rsvp_te.Label.{LabelMgr, label_is_allocated, label_mgr_init}
use rsvp_te.Label
use rsvp_te.Label.Inv.{init-IsValid}
use rsvp_te.Wire.Builder.Objects.{Hop}
use rsvp_te.Wire.Parser.{MessageInfo}
use rsvp_te.StateDb
use rsvp_te.StateDb.{Timer}
use rsvp_te.StateDb.Blocks.{Rsb}
use rsvp_te.Machine.{Hal, Machine}
use rsvp_te.Machine.Ownership.{db_label, label_of_block, LabelsOk}
use rsvp_te.Machine.Cleanup.{
  rsvp_teardown_path, psb_cleanup_timer_cb, rsb_cleanup_timer_cb, bsb_cleanup_timer_cb,
  psb_refresh_timer_cb, rsb_refresh_timer_cb,
}
use rsvp_te.Machine.Frr.{rsvp_frr_trigger, rsvp_frr_revert}
use rsvp_te.Machine.Handle.{rsvp_handle_message}
use rsvp_te.StateDb.Blocks.{FrrMode}
use rsvp_te.Machine.Frr.{rsvp_frr_enable_protection}
use rsvp_te.Machine.Rerouting.{protect-Steady}
use rsvp_te.Machine.Taking.{labels_steady}
use rsvp_te.Machine.Commands.{
  ingress_key, block_at, rsvp_initiate_path_with_ero, rsvp_initiate_bypass_tunnel, rsvp_mbb_start,
}
use rsvp_te.Machine.Tearing.{
  rsvp_teardown_path-LabelsOk, psb_cleanup_timer_cb-LabelsOk, rsb_cleanup_timer_cb-LabelsOk,
  bsb_cleanup_timer_cb-LabelsOk, psb_refresh_timer_cb-LabelsOk, rsb_refresh_timer_cb-LabelsOk,
}
use rsvp_te.Machine.Rerouting.{rsvp_frr_trigger-Steady, rsvp_frr_revert-Steady}
use rsvp_te.Machine.Labels.{
  rsvp_handle_message-LabelsOk, initiate_on-LabelsOk, bypass_on-LabelsOk, mbb_from-LabelsOk,
}

-- What the daemon is given: a message, a timer that expires, a link that fails or recovers, a command.
pub data Input : Type 0 where
  message : MessageInfo → Input
  expiry : Timer → Input
  link_down link_up : ℕ → Input
  teardown : ℕ → ℕ → Input
  initiate : ℕ → ℕ → ℕ → ℕ → List ℕ → List Hop → Bool → Input
  bypass : ℕ → ℕ → ℕ → ℕ → List ℕ → List Hop → ℕ → Input
  mbb : ℕ → ℕ → ℕ → List Hop → Input
  protection : ℕ → ℕ → FrrMode → ℕ → Input

unfoldable pub timer_expires : Hal → Machine → Timer → Machine
timer_expires hal m (Timer.psb_refresh p) = psb_refresh_timer_cb hal m p
timer_expires hal m (Timer.psb_cleanup p) = psb_cleanup_timer_cb hal m p
timer_expires hal m (Timer.rsb_refresh r) = rsb_refresh_timer_cb hal m r
timer_expires hal m (Timer.rsb_cleanup r) = rsb_cleanup_timer_cb hal m r
timer_expires hal m (Timer.bsb_blockade b) = bsb_cleanup_timer_cb m b

unfoldable pub respond : Hal → Machine → Input → Machine
unfolding timer_expires
respond hal m (message info) = rsvp_handle_message hal m info
respond hal m (expiry tm) = timer_expires hal m tm
respond hal m (link_down i) = rsvp_frr_trigger hal m i
respond hal m (link_up i) = rsvp_frr_revert hal m i
respond hal m (teardown t l) = rsvp_teardown_path hal m t l
respond hal m (initiate src dest t l name ero frr) =
    rsvp_initiate_path_with_ero hal m src dest t l name ero frr
respond hal m (bypass src dest t l name ero i) =
    rsvp_initiate_bypass_tunnel hal m src dest t l name ero i
respond hal m (mbb t old new ero) = (rsvp_mbb_start hal m t old new ero).0
respond hal m (protection t l mode b) = (rsvp_frr_enable_protection m t l mode b).0

-- Each input comes with what the environment answers while it is handled.
unfoldable pub run : Machine → List (Hal × Input) → Machine
unfolding respond
run m [] = m
run m (i ∷ is) = run (respond i.0 m i.1) is

timer_expires-LabelsOk :
    (hal : Hal) (m : Machine) (tm : Timer) → LabelsOk m → LabelsOk (timer_expires hal m tm)
unfolding timer_expires
timer_expires-LabelsOk hal m (Timer.psb_refresh p) ok = psb_refresh_timer_cb-LabelsOk hal m ok p
timer_expires-LabelsOk hal m (Timer.psb_cleanup p) ok = psb_cleanup_timer_cb-LabelsOk hal m ok p
timer_expires-LabelsOk hal m (Timer.rsb_refresh r) ok = rsb_refresh_timer_cb-LabelsOk hal m ok r
timer_expires-LabelsOk hal m (Timer.rsb_cleanup r) ok = rsb_cleanup_timer_cb-LabelsOk hal m ok r
timer_expires-LabelsOk hal m (Timer.bsb_blockade b) ok = bsb_cleanup_timer_cb-LabelsOk hal m ok b

respond-LabelsOk : (hal : Hal) (m : Machine) (i : Input) → LabelsOk m → LabelsOk (respond hal m i)
unfolding respond rsvp_initiate_path_with_ero rsvp_initiate_bypass_tunnel rsvp_mbb_start
    rsvp_frr_enable_protection
respond-LabelsOk hal m (message info) ok = rsvp_handle_message-LabelsOk hal info m ok
respond-LabelsOk hal m (expiry tm) ok = timer_expires-LabelsOk hal m tm ok
respond-LabelsOk hal m (link_down i) ok = rsvp_frr_trigger-Steady labels_steady hal m i ok
respond-LabelsOk hal m (link_up i) ok = rsvp_frr_revert-Steady labels_steady hal m i ok
respond-LabelsOk hal m (teardown t l) ok = rsvp_teardown_path-LabelsOk hal m ok t l
respond-LabelsOk hal m (initiate src dest t l name ero frr) ok =
    initiate_on-LabelsOk hal m (ingress_key src dest t l)
      (StateDb.rsvp_psb_find m.db (ingress_key src dest t l)) name ero frr ok
respond-LabelsOk hal m (bypass src dest t l name ero i) ok =
    bypass_on-LabelsOk hal m (ingress_key src dest t l)
      (StateDb.rsvp_psb_find m.db (ingress_key src dest t l)) name ero i ok
respond-LabelsOk hal m (mbb t old new ero) ok =
    mbb_from-LabelsOk hal m (block_at m (StateDb.rsvp_psb_find_by_id m.db t old)) old new ero ok
respond-LabelsOk hal m (protection t l mode b) ok =
    protect-Steady labels_steady m (StateDb.rsvp_psb_find_by_id m.db t l) _ mode b ok

pub run-LabelsOk : (m : Machine) (is : List (Hal × Input)) → LabelsOk m → LabelsOk (run m is)
unfolding run
run-LabelsOk m [] ok = ok
run-LabelsOk m (i ∷ is) ok = run-LabelsOk (respond i.0 m i.1) is (respond-LabelsOk i.0 m i.1 ok)

-- The daemon as it starts.
abbrev pub started : ℕ → ℕ → Machine
started lo hi = record {
  db = StateDb.at_start;
  labels = label_mgr_init Label.at_start lo hi true;
  out = [];
}

pub started-LabelsOk : (lo hi : ℕ) → 0 < lo → lo ≤ hi → hi < 2 ^ 31 → LabelsOk (started lo hi)
started-LabelsOk lo hi p o s = record {
  owned = record {
    valid = init-IsValid Label.at_start lo hi p o s;
    allocated = λ r ne. absurd (ne refl);
    unique = λ r s ne. absurd (ne refl);
  };
}

-- After any sequence of messages, timer expiries, link events and commands, with 0 < lo ≤ hi < 2 ^ 31
-- as the range of labels, an incoming label of an RSB is marked as out in the label manager, and an
-- RSB that has the same label is the same RSB.
pub run_unique_labels :
    (lo hi : ℕ) (is : List (Hal × Input)) (r s : ℕ) (rsb other : Rsb)
    → 0 < lo
    → lo ≤ hi
    → hi < 2 ^ 31
    → (run (started lo hi) is).db.rsbs.heap r ≡ some rsb
    → (run (started lo hi) is).db.rsbs.heap s ≡ some other
    → rsb.label_in ≢ 0
    → rsb.label_in ≡ other.label_in
    → (r ≡ s) × (label_is_allocated (run (started lo hi) is).labels rsb.label_in ≡ true)
run_unique_labels lo hi is r s rsb other p o b here there has same =
    let owned = (run-LabelsOk (started lo hi) is (started-LabelsOk lo hi p o b)).owned in
    let e = ap label_of_block here in
    let e' = ap label_of_block there in
    let ne = λ (z : db_label (run (started lo hi) is).db r ≡ 0). has (sym e ∙ z) in
    (
      owned.unique r s ne (e ∙ same ∙ sym e'),
      subst (λ l. label_is_allocated (run (started lo hi) is).labels l ≡ true) e
          (owned.allocated r ne),
    )
