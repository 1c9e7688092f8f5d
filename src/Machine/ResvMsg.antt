-- ===== src/Machine/ResvMsg.antt =====
-- `handle_resv_message` and `rsvp_mbb_complete` of src/pi/rsvp_state_machine.c.
use rsvp_te.Prelude.{
  ℕ, ◌%◌, Bool, true, false, not, ◌&&◌, ◌||◌, List, Option, none, some, ◌==◌, if◌then◌else◌,
}
use rsvp_te.Wire.{read8, read32}
use rsvp_te.Wire.Parser.{MessageInfo}
use rsvp_te.StateDb.{
  Timer, rsvp_psb_find, rsvp_psb_find_by_id, rsvp_rsb_find, rsvp_rsb_create, rsvp_rsb_delete,
}
use rsvp_te.StateDb.Blocks.{Psb, Rsb}
use rsvp_te.Machine.{
  given, Hal, Machine, mpls_install, emit, alter_psb, alter_rsb, start_timer, stop_timer,
  restart_timer,
}
use rsvp_te.Machine.Checks.{
  rsvp_validate_resv_message, rsvp_is_blockaded, tspec_copy_and_ntoh, admission_control,
}
use rsvp_te.Machine.Sending.{follow, send_resv_err, send_resv_upstream, ensure_label}
use rsvp_te.Machine.Cleanup.{ingress_of, has_upstream, rsvp_rsb_cleanup, rsvp_psb_cleanup}
use rsvp_te.Machine.Frr.{rsvp_frr_auto_associate_all}
use rsvp_te.Machine.PathMsg.{default_refresh_ms}

abbrev pub resv_time_values : Option (List ℕ) → Rsb → Rsb
resv_time_values none rsb = rsb
resv_time_values (some o) rsb = record rsb { refresh_ms = read32 o 0 }

abbrev pub resv_flowspec : Option (List ℕ) → Rsb → Rsb
resv_flowspec none rsb = rsb
resv_flowspec (some o) rsb = record rsb { flowspec = tspec_copy_and_ntoh o }

abbrev pub resv_style : Option (List ℕ) → Rsb → Rsb
resv_style none rsb = rsb
resv_style (some o) rsb = record rsb { style = read32 o 0 % 256 }

-- What a RESV message writes into its RSB before the blockade state is looked at.
unfoldable pub update_rsb : MessageInfo → Rsb → Rsb
update_rsb info rsb =
    resv_style info.style (resv_flowspec info.flowspec (resv_time_values info.time_values rsb))

abbrev pub resv_ttl : Option (List ℕ) → Rsb → Rsb
resv_ttl none rsb = rsb
resv_ttl (some hdr) rsb = record rsb { ttl = read8 hdr 4 }

abbrev pub resv_hop : Option (List ℕ) → Rsb → Rsb
resv_hop none rsb = rsb
resv_hop (some o) rsb = record rsb { next_hop_addr = read32 o 0; next_hop_lih = read32 o 4 }

-- What it writes after that.
unfoldable pub take_label_and_hop : MessageInfo → ℕ → Rsb → Rsb
take_label_and_hop info label rsb =
    resv_hop info.hop_v4
      (record (resv_ttl info.common_hdr rsb) { refresh_count = 0; label_out = label })

-- The cleanup timer is started anew; the refresh timer runs at all nodes but the ingress.
unfoldable pub resv_timers : Hal → Machine → ℕ → Bool → Machine
resv_timers hal m r is_ingress =
    let cleaned = restart_timer hal m (Timer.rsb_cleanup r) in
    let runs = cleaned.db.running (Timer.rsb_refresh r) in
    if not is_ingress
    then (if runs then cleaned else start_timer hal cleaned (Timer.rsb_refresh r))
    else if runs
    then stop_timer cleaned (Timer.rsb_refresh r)
    else cleaned

abbrev pub end_mbb : Machine → ℕ → Machine
end_mbb m p = alter_psb m p (λ psb. record psb { is_mbb_pending = false; mbb_old_lsp_id = 0 })

abbrev pub drop_incumbent : Hal → Machine → Option ℕ → Machine
drop_incumbent hal m none = m
drop_incumbent hal m (some old) = rsvp_psb_cleanup hal m old true

unfoldable pub rsvp_mbb_complete : Hal → Machine → ℕ → Machine
rsvp_mbb_complete hal m p = given (m.db.psbs.heap p) m (λ psb.
    end_mbb (drop_incumbent hal m (rsvp_psb_find_by_id m.db psb.key.tunnel_id psb.mbb_old_lsp_id))
      p)

-- The MPLS entry of the RSB: its label in, or 0 for a push at the ingress.
abbrev pub program : Machine → ℕ → Rsb → Psb → Machine
program m label_in rsb psb =
    emit m
      (mpls_install label_in rsb.label_out rsb.next_hop_lih rsb.next_hop_addr psb.key.dest_addr)

-- The end of the branch that programs the forwarding.
unfoldable pub after_forwarding : Hal → Machine → ℕ → Psb → Bool → Bool → Machine
after_forwarding hal m p psb is_new label_changed =
    let armed =
      if psb.is_bypass_tunnel && (is_new || label_changed)
      then rsvp_frr_auto_associate_all m psb.frr_protected_ifindex
      else m in
    if psb.is_mbb_pending && is_new then rsvp_mbb_complete hal armed p else armed

-- A transit node has a label for the RSB, or could not get one.
abbrev pub swap_labels :
    Hal → Machine → MessageInfo → ℕ → ℕ → Psb → Bool → Bool → Option Rsb → Machine
swap_labels hal m info r p psb is_new label_changed none = m
swap_labels hal m info r p psb is_new label_changed (some rsb) =
    let cleaned = if is_new then rsvp_rsb_cleanup hal m r false else m in
    let forwarded = send_resv_upstream hal (program m rsb.label_in rsb psb) r in
    if rsb.label_in == 0
    then send_resv_err hal cleaned info admission_control
    else after_forwarding hal forwarded p psb is_new label_changed

-- The RSB is new, or its label or next hop has changed.
unfoldable pub install_forwarding :
    Hal → Machine → MessageInfo → ℕ → Rsb → Option ℕ → Bool → Bool → Machine
install_forwarding hal m info r rsb none is_new label_changed = m
install_forwarding hal m info r rsb (some p) is_new label_changed =
    given (m.db.psbs.heap p) m (λ psb.
      let got = ensure_label m r in
      if not (psb.prev_hop_addr == 0)
      then swap_labels hal got info r p psb is_new label_changed (got.db.rsbs.heap r)
      else after_forwarding hal (program m 0 rsb psb) p psb is_new label_changed)

-- The RSB is not blockaded. `old` is it before its label and next hop were written.
unfoldable pub reserve : Hal → Machine → MessageInfo → ℕ → Rsb → Bool → ℕ → Machine
unfolding take_label_and_hop resv_timers
reserve hal m info r old is_new label =
    let ingress = ingress_of (follow m.db.psbs.heap old.associated_psb) in
    let timed = resv_timers hal m r ingress in
    let rsb = take_label_and_hop info label old in
    let written = alter_rsb timed r (take_label_and_hop info label) in
    let label_changed = not (rsb.label_out == old.label_out) in
    let hop_changed = not (rsb.next_hop_addr == old.next_hop_addr) in
    if is_new || (label_changed || hop_changed)
    then install_forwarding hal written info r rsb rsb.associated_psb is_new label_changed
    else if has_upstream (follow written.db.psbs.heap rsb.associated_psb)
    then send_resv_upstream hal written r
    else written

abbrev pub unlink_new : Machine → Option ℕ → Machine
unlink_new m none = m
unlink_new m (some p) = alter_psb m p (λ psb. record psb { associated_rsb = none })

-- A new RSB that is blockaded is deleted again.
abbrev pub drop_blockaded : Machine → ℕ → Rsb → Machine
drop_blockaded m r rsb =
    let unlinked = unlink_new m rsb.associated_psb in
    record unlinked { db = rsvp_rsb_delete unlinked.db r }

unfoldable pub accept_resv : Hal → Machine → MessageInfo → ℕ → Bool → ℕ → Machine
unfolding update_rsb
accept_resv hal m info r is_new label =
    let updated = alter_rsb m r (update_rsb info) in
    given (updated.db.rsbs.heap r) updated (λ rsb.
      if rsvp_is_blockaded hal updated.db rsb
      then (if is_new then drop_blockaded updated r rsb else updated)
      else reserve hal updated info r rsb is_new label)

abbrev pub refresh_of : Option Psb → ℕ
refresh_of none = default_refresh_ms
refresh_of (some psb) = psb.refresh_ms

-- `calloc` has given memory for the new RSB, or not; `p` is the PSB that was found.
abbrev pub accept_new_resv : Hal → Machine → MessageInfo → ℕ → Option ℕ → ℕ → Machine
accept_new_resv hal m info p none label = m
accept_new_resv hal m info p (some r) label =
    let refresh = refresh_of (m.db.psbs.heap p) in
    let linked =
      alter_psb
        (alter_rsb m r (λ rsb. record rsb { associated_psb = some p; refresh_ms = refresh })) p
        (λ psb. record psb { associated_rsb = some r }) in
    accept_resv hal linked info r true label

abbrev pub find_or_create_resv : Hal → Machine → MessageInfo → ℕ → Option ℕ → ℕ → Machine
find_or_create_resv hal m info p none label =
    let (made, db) = rsvp_rsb_create m.db info.key (hal.new_rsb m.db) in
    accept_new_resv hal (record m { db = db }) info p made label
find_or_create_resv hal m info p (some r) label = accept_resv hal m info r false label

abbrev pub label_of : Option (List ℕ) → ℕ
label_of none = 0
label_of (some o) = read32 o 0

-- A PSB was found if the message passes the validation.
abbrev pub for_psb : Hal → Machine → MessageInfo → Option ℕ → Machine
for_psb hal m info none = m
for_psb hal m info (some p) =
    find_or_create_resv hal m info p (rsvp_rsb_find m.db info.key) (label_of info.label)

abbrev pub after_resv_check : Hal → Machine → MessageInfo → Option ℕ → Option ℕ → Machine
after_resv_check hal m info psb (some err_code) = send_resv_err hal m info err_code
after_resv_check hal m info psb none = for_psb hal m info psb

unfoldable pub handle_resv_message : Hal → Machine → MessageInfo → Machine
unfolding accept_resv reserve
handle_resv_message hal m info =
    let psb = rsvp_psb_find m.db info.key in
    after_resv_check hal m info psb (rsvp_validate_resv_message info psb)
