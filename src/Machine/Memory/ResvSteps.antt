-- ===== src/Machine/Memory/ResvSteps.antt =====
-- The memory of src/pi/rsvp_state_machine.c when a RESV message comes.
use rsvp_te.Prelude.{
  ℕ, ◌≡◌, refl, ap, Bool, true, false, not, ◌&&◌, ◌||◌, Option, none, some, inl, inr, ◌==◌, arith,
  Option-cases,
}
use rsvp_te.Wire.Parser.{MessageInfo, is_some}
use rsvp_te.StateDb.{
  Db, Timer, rsvp_psb_find, rsvp_psb_find_by_id, rsvp_rsb_find, rsvp_rsb_create, rsvp_rsb_delete,
}
use rsvp_te.StateDb.Blocks.{Psb, Rsb, new_psb}
use rsvp_te.StateDb.Buckets.{insert}
use rsvp_te.StateDb.Valid.{is_live}
use rsvp_te.Machine.{Hal, Machine, alter_rsb}
use rsvp_te.Machine.Checks.{admission_control, rsvp_is_blockaded, rsvp_validate_resv_message}
use rsvp_te.Machine.Sending.{ensure_label, follow}
use rsvp_te.Machine.Cleanup.{ingress_of}
use rsvp_te.Machine.Steady.{given_keeps, given_at_keeps, branch_keeps}
use rsvp_te.Machine.Sent.{send_resv_err-Steady, send_resv_upstream-Steady}
use rsvp_te.Machine.Rerouting.{rsvp_frr_auto_associate_all-Steady}
use rsvp_te.Machine.ResvMsg.{
  update_rsb, take_label_and_hop, resv_timers, drop_incumbent, rsvp_mbb_complete, program,
  after_forwarding, swap_labels, install_forwarding, reserve, unlink_new, drop_blockaded,
  accept_resv, refresh_of, accept_new_resv, find_or_create_resv, label_of, for_psb,
  after_resv_check, handle_resv_message,
}
use rsvp_te.Machine.Memory.{bare, bare_rsb, option_map, MemoryOk, Fresh, Kept, Kept-MemoryOk}
use rsvp_te.Machine.Memory.Bare.{alter_rsb-Kept, Kept-Steady}
use rsvp_te.Machine.Memory.Steps.{rsb_create-MemoryOk, found_psb, unlinked_psb}
use rsvp_te.Machine.Memory.Joined.{link-MemoryOk}
use rsvp_te.Machine.Memory.Timed.{
  Blocks, Kept-Blocks, start_timer-Blocks, restart_timer-Blocks, stop_timer-Blocks,
}
use rsvp_te.Machine.Memory.Torn.{
  rsvp_rsb_cleanup-MemoryOk, rsvp_psb_cleanup-MemoryOk, unlink_delete-MemoryOk,
}
use rsvp_te.Machine.Memory.PathSteps.{StandsAt}
use rsvp_te.Machine.Memory.ResvFields.{take_label_and_hop_bare, update_rsb_bare}

dropped :
    (m : Machine) (r : ℕ) (to : Option ℕ) (b : Rsb)
    → MemoryOk m.db
    → (bare m.db).rsbs.heap r ≡ some b
    → b.associated_psb ≡ to
    → MemoryOk (rsvp_rsb_delete (unlink_new m to).db r)
dropped m r none b ok at_r to = unlink_delete-MemoryOk m r none b ok at_r to
dropped m r (some p) b ok at_r to = unlink_delete-MemoryOk m r (some p) b ok at_r to

module _ (hal : Hal) where
  resv_timers-Blocks :
      (d : Db) (m : Machine) (r : ℕ) (is_ingress : Bool)
      → is_live d (Timer.rsb_cleanup r) ≡ true
      → Blocks d m
      → Blocks d (resv_timers hal m r is_ingress)
  unfolding resv_timers
  resv_timers-Blocks d m r is_ingress live b =
      let cleaned = restart_timer-Blocks hal d (Timer.rsb_cleanup r) live m b in
      branch_keeps (Blocks d) (not is_ingress) _ _
        (branch_keeps (Blocks d) _ _ _ cleaned
          (start_timer-Blocks hal d (Timer.rsb_refresh r) live _ cleaned))
        (branch_keeps (Blocks d) _ _ _ (stop_timer-Blocks d (Timer.rsb_refresh r) _ cleaned)
          cleaned)

  drop_incumbent-MemoryOk :
      (m : Machine) (old : Option ℕ) → MemoryOk m.db → MemoryOk (drop_incumbent hal m old).db
  drop_incumbent-MemoryOk m none ok = ok
  drop_incumbent-MemoryOk m (some old) ok = rsvp_psb_cleanup-MemoryOk hal m old true ok

  rsvp_mbb_complete-MemoryOk :
      (m : Machine) (p : ℕ) → MemoryOk m.db → MemoryOk (rsvp_mbb_complete hal m p).db
  unfolding rsvp_mbb_complete
  rsvp_mbb_complete-MemoryOk m p ok =
      given_keeps (λ x. MemoryOk x.db) (m.db.psbs.heap p) m _ ok
        (λ psb.
          let old = rsvp_psb_find_by_id m.db psb.key.tunnel_id psb.mbb_old_lsp_id in
          let x = drop_incumbent hal m old in
          Kept-MemoryOk x.db _
            ((Kept-Steady (bare x.db)).alter_psb x p
              (λ q. record q { is_mbb_pending = false; mbb_old_lsp_id = 0 }) (λ q. refl)
              (record { same = refl }))
            (drop_incumbent-MemoryOk m old ok))

  after_forwarding-MemoryOk :
      (d : Db) (m : Machine) (p : ℕ) (psb : Psb) (is_new label_changed : Bool)
      → MemoryOk d
      → Kept (bare d) m
      → MemoryOk (after_forwarding hal m p psb is_new label_changed).db
  unfolding after_forwarding
  after_forwarding-MemoryOk d m p psb is_new label_changed ok k =
      let armed =
        branch_keeps (Kept (bare d)) (psb.is_bypass_tunnel && (is_new || label_changed)) _ m
          (rsvp_frr_auto_associate_all-Steady (Kept-Steady (bare d)) m psb.frr_protected_ifindex k)
          k in
      let settled = Kept-MemoryOk d _ armed ok in
      branch_keeps (λ x. MemoryOk x.db) _ _ _ (rsvp_mbb_complete-MemoryOk _ p settled) settled

  swap_labels-MemoryOk :
      (d : Db) (m : Machine) (info : MessageInfo) (r p : ℕ) (psb : Psb)
      (is_new label_changed : Bool) (rsb : Option Rsb)
      → MemoryOk d
      → Kept (bare d) m
      → MemoryOk (swap_labels hal m info r p psb is_new label_changed rsb).db
  swap_labels-MemoryOk d m info r p psb is_new label_changed none ok k = Kept-MemoryOk d m k ok
  swap_labels-MemoryOk d m info r p psb is_new label_changed (some rsb) ok k =
      let here = Kept-MemoryOk d m k ok in
      let cleaned =
        branch_keeps (λ x. MemoryOk x.db) is_new _ m (rsvp_rsb_cleanup-MemoryOk hal m r false here)
          here in
      let programmed = (Kept-Steady (bare d)).emit m _ k in
      let forwarded =
        send_resv_upstream-Steady (Kept-Steady (bare d)) hal (program m rsb.label_in rsb psb) r
          programmed in
      branch_keeps (λ x. MemoryOk x.db) (rsb.label_in == 0) _ _
        (Kept-MemoryOk _ _
          (send_resv_err-Steady (Kept-Steady _) hal _ (record { same = refl }) info
            admission_control)
          cleaned)
        (after_forwarding-MemoryOk d _ p psb is_new label_changed ok forwarded)

  install_forwarding-MemoryOk :
      (m : Machine) (info : MessageInfo) (r : ℕ) (rsb : Rsb) (p : Option ℕ)
      (is_new label_changed : Bool)
      → MemoryOk m.db
      → MemoryOk (install_forwarding hal m info r rsb p is_new label_changed).db
  unfolding install_forwarding
  install_forwarding-MemoryOk m info r rsb none is_new label_changed ok = ok
  install_forwarding-MemoryOk m info r rsb (some p) is_new label_changed ok =
      given_keeps (λ x. MemoryOk x.db) (m.db.psbs.heap p) m _ ok
        (λ psb.
          let st = Kept-Steady (bare m.db) in
          let k : Kept (bare m.db) m = record { same = refl } in
          let got = ensure_label m r in
          let stored = got.db.rsbs.heap r in
          branch_keeps (λ x. MemoryOk x.db) (not (psb.prev_hop_addr == 0))
            (swap_labels hal got info r p psb is_new label_changed stored)
            (after_forwarding hal (program m 0 rsb psb) p psb is_new label_changed)
            (swap_labels-MemoryOk m.db got info r p psb is_new label_changed stored ok
              (st.take_label m r k))
            (after_forwarding-MemoryOk m.db (program m 0 rsb psb) p psb is_new label_changed ok
              (record { same = refl })))

  reserve-MemoryOk :
      (m : Machine) (info : MessageInfo) (r : ℕ) (old : Rsb) (is_new : Bool) (label : ℕ)
      → MemoryOk m.db
      → is_live (bare m.db) (Timer.rsb_cleanup r) ≡ true
      → MemoryOk (reserve hal m info r old is_new label).db
  unfolding reserve
  reserve-MemoryOk m info r old is_new label ok live =
      let ingress = ingress_of (follow m.db.psbs.heap old.associated_psb) in
      let timed =
        resv_timers-Blocks (bare m.db) m r ingress live
          (Kept-Blocks m.db m (record { same = refl }) ok) in
      let t = resv_timers hal m r ingress in
      let wrote =
        alter_rsb-Kept t r (take_label_and_hop info label) (take_label_and_hop_bare info label)
          (record { same = refl }) in
      let written = Kept-MemoryOk t.db _ wrote timed.ok in
      branch_keeps (λ x. MemoryOk x.db) _ _ _
        (install_forwarding-MemoryOk _ info r (take_label_and_hop info label old) _ is_new _
          written)
        (branch_keeps (λ x. MemoryOk x.db) _ _ _
          (Kept-MemoryOk t.db _ (send_resv_upstream-Steady (Kept-Steady (bare t.db)) hal _ r wrote)
            timed.ok)
          written)

  drop_blockaded-MemoryOk :
      (m : Machine) (r : ℕ) (rsb : Rsb)
      → MemoryOk m.db
      → m.db.rsbs.heap r ≡ some rsb
      → MemoryOk (drop_blockaded m r rsb).db
  drop_blockaded-MemoryOk m r rsb ok e =
      dropped m r rsb.associated_psb (bare_rsb rsb) ok (ap (option_map bare_rsb) e) refl

  accept_resv-MemoryOk :
      (m : Machine) (info : MessageInfo) (r : ℕ) (is_new : Bool) (label : ℕ)
      → MemoryOk m.db
      → MemoryOk (accept_resv hal m info r is_new label).db
  unfolding accept_resv
  accept_resv-MemoryOk m info r is_new label ok =
      let updated =
        Kept-MemoryOk m.db _
          (alter_rsb-Kept m r (update_rsb info) (update_rsb_bare info) (record { same = refl }))
          ok in
      given_at_keeps (λ x. MemoryOk x.db) _ _ _ updated
        (λ rsb e.
          branch_keeps (λ x. MemoryOk x.db)
            (rsvp_is_blockaded hal (alter_rsb m r (update_rsb info)).db rsb) _ _
            (branch_keeps (λ x. MemoryOk x.db) is_new _ _
              (drop_blockaded-MemoryOk _ r rsb updated e) updated)
            (reserve-MemoryOk _ info r rsb is_new label updated
              (ap (λ o. is_some (option_map bare_rsb o)) e)))

  created_resv :
      (m : Machine) (info : MessageInfo) (p r label : ℕ)
      → MemoryOk m.db
      → m.db.rsbs.heap r ≡ none
      → (bare m.db).psbs.heap p ≡ some (new_psb info.key)
      → MemoryOk
          (accept_new_resv hal
            (record m { db = (rsvp_rsb_create m.db info.key (some r)).1 })
            info
            p
            (some r)
            label).db
  unfolding rsvp_rsb_create insert
  created_resv m info p r label ok unused at_p =
      let self : (r == r) ≡ true = ground arith in
      let x = record m { db = (rsvp_rsb_create m.db info.key (some r)).1 } in
      let refresh = refresh_of (x.db.psbs.heap p) in
      accept_resv-MemoryOk _ info r true label (
        link-MemoryOk x p r info.key
          (λ rsb. record rsb { associated_psb = some p; refresh_ms = refresh })
          (λ psb. record psb { associated_rsb = some r }) (λ rsb. refl) (λ psb. refl) at_p
          (rw self refl) (rsb_create-MemoryOk m.db ok info.key r unused))

  find_or_create_resv-MemoryOk :
      (m : Machine) (info : MessageInfo) (p : ℕ) (r : Option ℕ) (label : ℕ)
      → Fresh hal
      → MemoryOk m.db
      → StandsAt (bare m.db) p info.key
      → rsvp_rsb_find m.db info.key ≡ r
      → MemoryOk (find_or_create_resv hal m info p r label).db
  unfolding rsvp_rsb_create
  find_or_create_resv-MemoryOk m info p (some r) label fresh ok stands e =
      accept_resv-MemoryOk m info r false label ok
  find_or_create_resv-MemoryOk m info p none label fresh ok (o, at_p) e =
      elim (Option-cases (hal.new_rsb m.db)) [
        | inl full ↦ rw full ok
        | inr (r, got) ↦ rw got (
            created_resv m info p r label ok (fresh.rsb m.db r got)
              (unlinked_psb m.db info.key p o ok at_p e))
      ]

  for_psb-MemoryOk :
      (m : Machine) (info : MessageInfo) (p : Option ℕ)
      → Fresh hal
      → MemoryOk m.db
      → rsvp_psb_find m.db info.key ≡ p
      → MemoryOk (for_psb hal m info p).db
  for_psb-MemoryOk m info none fresh ok e = ok
  for_psb-MemoryOk m info (some p) fresh ok e =
      find_or_create_resv-MemoryOk m info p (rsvp_rsb_find m.db info.key) (label_of info.label)
        fresh ok (found_psb m.db info.key p e) refl

  after_resv_check-MemoryOk :
      (m : Machine) (info : MessageInfo) (p error : Option ℕ)
      → Fresh hal
      → MemoryOk m.db
      → rsvp_psb_find m.db info.key ≡ p
      → MemoryOk (after_resv_check hal m info p error).db
  after_resv_check-MemoryOk m info p (some code) fresh ok e =
      Kept-MemoryOk m.db _
        (send_resv_err-Steady (Kept-Steady (bare m.db)) hal m (record { same = refl }) info code) ok
  after_resv_check-MemoryOk m info p none fresh ok e = for_psb-MemoryOk m info p fresh ok e

  pub handle_resv_message-MemoryOk :
      (m : Machine) (info : MessageInfo)
      → Fresh hal
      → MemoryOk m.db
      → MemoryOk (handle_resv_message hal m info).db
  unfolding handle_resv_message
  handle_resv_message-MemoryOk m info fresh ok =
      after_resv_check-MemoryOk m info (rsvp_psb_find m.db info.key)
        (rsvp_validate_resv_message info (rsvp_psb_find m.db info.key)) fresh ok refl
