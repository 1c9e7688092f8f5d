-- ===== src/Machine/Cleanup.antt =====
-- src/pi/rsvp_state_machine.c: state that is torn down, by a tear message or by a timer.
use rsvp_te.Prelude.{ℕ, Bool, true, false, not, ◌&&◌, ◌||◌, Option, none, some, ◌==◌, if◌then◌else◌}
use rsvp_te.Label.{label_mgr_free}
use rsvp_te.Wire.Parser.{MessageInfo}
use rsvp_te.StateDb.{
  Timer, rsvp_psb_find, rsvp_rsb_find, rsvp_bsb_find, rsvp_psb_find_by_id, rsvp_psb_delete,
  rsvp_rsb_delete, rsvp_bsb_delete,
}
use rsvp_te.StateDb.Blocks.{Psb, Rsb}
use rsvp_te.Machine.{
  given, Hal, Machine, mpls_remove, freed_access, emit, alter_psb, alter_rsb, start_timer,
  stop_timer,
}
use rsvp_te.Machine.Sending.{
  follow, propagate_path_tear, propagate_resv_tear, send_path_downstream, send_resv_upstream,
}

abbrev pub ingress_of : Option Psb → Bool
ingress_of none = false
ingress_of (some psb) = psb.is_ingress

abbrev pub dest_of : Option Psb → Option ℕ
dest_of none = none
dest_of (some psb) = some psb.key.dest_addr

-- The label and the MPLS entry that it has.
unfoldable pub release_forwarding : Machine → ℕ → Rsb → Option Psb → Machine
release_forwarding m r rsb psb =
    let removed = emit m (mpls_remove rsb.label_in (dest_of psb)) in
    if not (rsb.label_in == 0)
    then alter_rsb (record removed { labels = label_mgr_free m.labels rsb.label_in }) r
        (λ x. record x { label_in = 0 })
    else if ingress_of psb
    then emit m (mpls_remove 0 (dest_of psb))
    else m

unfoldable pub rsb_cleanup_resources : Machine → ℕ → Machine
unfolding release_forwarding
rsb_cleanup_resources m r = given (m.db.rsbs.heap r) m (λ rsb.
    stop_timer
      (stop_timer (release_forwarding m r rsb (follow m.db.psbs.heap rsb.associated_psb))
        (Timer.rsb_refresh r))
      (Timer.rsb_cleanup r))

-- `rsb->associated_psb->associated_rsb = NULL`
abbrev pub unlink_psb : Machine → Option ℕ → Machine
unlink_psb m none = m
unlink_psb m (some p) = alter_psb m p (λ psb. record psb { associated_rsb = none })

abbrev pub delete_rsb : Machine → ℕ → Machine
delete_rsb m r = record m { db = rsvp_rsb_delete m.db r }

unfoldable pub rsvp_rsb_cleanup : Hal → Machine → ℕ → Bool → Machine
rsvp_rsb_cleanup hal m r propagate = given (m.db.rsbs.heap r) m (λ rsb.
    let ingress = ingress_of (follow m.db.psbs.heap rsb.associated_psb) in
    let told = if propagate && not ingress then propagate_resv_tear hal m rsb else m in
    delete_rsb (unlink_psb (rsb_cleanup_resources told r) rsb.associated_psb) r)

abbrev pub cleanup_associated : Hal → Machine → Option ℕ → Machine
cleanup_associated hal m none = m
cleanup_associated hal m (some r) = rsvp_rsb_cleanup hal m r false

abbrev pub delete_psb : Machine → ℕ → Machine
delete_psb m p = record m { db = rsvp_psb_delete m.db p }

unfoldable pub rsvp_psb_cleanup : Hal → Machine → ℕ → Bool → Machine
rsvp_psb_cleanup hal m p propagate = given (m.db.psbs.heap p) m (λ psb.
    let told =
      if propagate && not (hal.is_local_addr psb.key.dest_addr)
      then propagate_path_tear hal m p
      else m in
    let freed = cleanup_associated hal told psb.associated_rsb in
    delete_psb (stop_timer (stop_timer freed (Timer.psb_refresh p)) (Timer.psb_cleanup p)) p)

abbrev pub delete_bsb : Machine → Option ℕ → Machine
delete_bsb m none = m
delete_bsb m (some b) =
    let stopped = stop_timer m (Timer.bsb_blockade b) in
    record stopped { db = rsvp_bsb_delete stopped.db b }

abbrev pub cleanup_psb : Hal → Machine → Option ℕ → Machine
cleanup_psb hal m none = m
cleanup_psb hal m (some p) = rsvp_psb_cleanup hal m p true

abbrev pub cleanup_rsb : Hal → Machine → Option ℕ → Machine
cleanup_rsb hal m none = m
cleanup_rsb hal m (some r) = rsvp_rsb_cleanup hal m r true

unfoldable pub handle_path_tear : Hal → Machine → MessageInfo → Machine
handle_path_tear hal m info =
    let torn = cleanup_psb hal m (rsvp_psb_find m.db info.key) in
    delete_bsb torn (rsvp_bsb_find torn.db info.key)

unfoldable pub handle_resv_tear : Hal → Machine → MessageInfo → Machine
handle_resv_tear hal m info =
    let torn = cleanup_rsb hal m (rsvp_rsb_find m.db info.key) in
    delete_bsb torn (rsvp_bsb_find torn.db info.key)

-- `rsvp_teardown_path`
unfoldable pub rsvp_teardown_path : Hal → Machine → ℕ → ℕ → Machine
rsvp_teardown_path hal m tunnel_id lsp_id =
    cleanup_psb hal m (rsvp_psb_find_by_id m.db tunnel_id lsp_id)

-- The callbacks of the timers. None of them asks whether its block was freed: if it was, the access is an
-- event.
unfoldable pub psb_cleanup_timer_cb : Hal → Machine → ℕ → Machine
psb_cleanup_timer_cb hal m p =
    given (m.db.psbs.heap p) (emit m (freed_access (Timer.psb_cleanup p)))
      (λ psb. rsvp_psb_cleanup hal m p true)

unfoldable pub rsb_cleanup_timer_cb : Hal → Machine → ℕ → Machine
rsb_cleanup_timer_cb hal m r =
    given (m.db.rsbs.heap r) (emit m (freed_access (Timer.rsb_cleanup r)))
      (λ rsb. rsvp_rsb_cleanup hal m r true)

unfoldable pub bsb_cleanup_timer_cb : Machine → ℕ → Machine
bsb_cleanup_timer_cb m b =
    given (m.db.bsbs.heap b) (emit m (freed_access (Timer.bsb_blockade b)))
      (λ bsb. record m { db = rsvp_bsb_delete m.db b })

unfoldable pub psb_refresh_timer_cb : Hal → Machine → ℕ → Machine
psb_refresh_timer_cb hal m p =
    given (m.db.psbs.heap p) (emit m (freed_access (Timer.psb_refresh p))) (λ psb.
      let told =
        if psb.is_ingress || not (hal.is_local_addr psb.key.dest_addr)
        then send_path_downstream hal m p
        else m in
      start_timer hal told (Timer.psb_refresh p))

-- The RSB's PSB has a previous hop and is not at its ingress.
abbrev pub has_upstream : Option Psb → Bool
has_upstream none = false
has_upstream (some psb) = not (psb.prev_hop_addr == 0) && not psb.is_ingress

unfoldable pub rsb_refresh_timer_cb : Hal → Machine → ℕ → Machine
rsb_refresh_timer_cb hal m r =
    given (m.db.rsbs.heap r) (emit m (freed_access (Timer.rsb_refresh r))) (λ rsb.
      let told =
        if has_upstream (follow m.db.psbs.heap rsb.associated_psb)
        then send_resv_upstream hal m r
        else m in
      start_timer hal told (Timer.rsb_refresh r))
