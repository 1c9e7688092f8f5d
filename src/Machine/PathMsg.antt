-- ===== src/Machine/PathMsg.antt =====
-- `handle_path_message` of src/pi/rsvp_state_machine.c.
use rsvp_te.Prelude.{
  ℕ, ◌/◌, ◌%◌, Bool, true, false, not, ◌&&◌, List, [], ◌∷◌, Option, none, some, ltb, ◌==◌,
  if◌then◌else◌, length,
}
use rsvp_te.Wire.{read8, read32}
use rsvp_te.Wire.Parser.{MessageInfo, is_some}
use rsvp_te.StateDb.{
  Timer, rsvp_psb_find, rsvp_psb_create, rsvp_psb_delete, rsvp_rsb_find, rsvp_rsb_create,
}
use rsvp_te.StateDb.Blocks.{FrrMode, Psb}
use rsvp_te.Machine.{given, Hal, Machine, alter_psb, alter_rsb, start_timer, restart_timer}
use rsvp_te.Machine.Messages.{is_facility}
use rsvp_te.Machine.Checks.{
  rsvp_validate_path_message, routing_problem, tspec_copy_and_ntoh, read_route,
  resolve_path_next_hop,
}
use rsvp_te.Machine.Sending.{send_path_err, send_path_downstream, send_resv_upstream}
use rsvp_te.Machine.Frr.{rsvp_frr_auto_associate}

-- `RSVP_REFRESH_MS`, `MAX_ERO_HOPS`
abbrev pub default_refresh_ms : ℕ
default_refresh_ms = 30000

abbrev pub max_ero_hops : ℕ
max_ero_hops = 32

-- The fields that each object of the message sets in the PSB, if it is there.
abbrev pub take_time_values : Option (List ℕ) → Psb → Psb
take_time_values none psb = psb
take_time_values (some o) psb = record psb { refresh_ms = read32 o 0 }

abbrev pub take_ttl : Option (List ℕ) → Psb → Psb
take_ttl none psb = psb
take_ttl (some hdr) psb = record psb { ttl = read8 hdr 4 }

abbrev pub take_ero : Option (List ℕ) → Psb → Psb
take_ero none psb = psb
take_ero (some o) psb =
    if ltb 0 (length o) then record psb { ero = read_route (length o) max_ero_hops o } else psb

abbrev pub take_rro : Option (List ℕ) → Psb → Psb
take_rro none psb = psb
take_rro (some o) psb =
    if ltb 0 (length o) then record psb { rro = read_route (length o) max_ero_hops o } else psb

abbrev pub take_tspec : Option (List ℕ) → Psb → Psb
take_tspec none psb = psb
take_tspec (some o) psb = record psb { tspec = tspec_copy_and_ntoh o }

abbrev pub take_sess_attr : Option (List ℕ) → Psb → Psb
take_sess_attr none psb = psb
take_sess_attr (some o) psb = record psb { setup_prio = read8 o 0; holding_prio = read8 o 1 }

-- Bit 1 of the flags asks for facility backup, bit 0 for one-to-one backup.
abbrev pub take_fast_reroute : Hal → Option (List ℕ) → Psb → Psb
take_fast_reroute hal none psb = psb
take_fast_reroute hal (some o) psb =
    if psb.is_bypass_tunnel
    then psb
    else if read8 o 3 / 2 % 2 == 1
    then record psb {
      frr_mode = FrrMode.facility;
      frr_bandwidth = hal.float_to_uint32 (read32 o 4);
    }
    else if read8 o 3 % 2 == 1
    then record psb { frr_mode = FrrMode.one_to_one }
    else psb

abbrev pub take_lsp_name : Hal → List ℕ → Psb → Psb
take_lsp_name hal [] psb = psb
take_lsp_name hal (c ∷ cs) psb = record psb { lsp_name = if hal.strdup_ok then c ∷ cs else [] }

abbrev pub take_hop : Option (List ℕ) → Psb → Psb
take_hop none psb = psb
take_hop (some o) psb = record psb {
  prev_hop_addr = read32 o 0;
  prev_hop_lih = read32 o 4;
  ifindex_in = read32 o 4;
}

-- What a PATH message writes into its PSB.
unfoldable pub update_psb : Hal → MessageInfo → Psb → Psb
update_psb hal info psb =
    let timed = take_ttl info.common_hdr (take_time_values info.time_values psb) in
    let routed = take_rro info.rro (take_ero info.ero (record timed { refresh_count = 0 })) in
    let specified = take_sess_attr info.sess_attr (take_tspec info.tspec routed) in
    take_hop info.hop_v4
      (take_lsp_name hal info.lsp_name (take_fast_reroute hal info.fast_reroute specified))

-- The cleanup timer is started anew, the refresh timer only if it does not run.
unfoldable pub path_timers : Hal → Machine → ℕ → Machine
path_timers hal m p =
    let cleaned = restart_timer hal m (Timer.psb_cleanup p) in
    if cleaned.db.running (Timer.psb_refresh p)
    then cleaned
    else start_timer hal cleaned (Timer.psb_refresh p)

abbrev pub refresh_of : Option Psb → ℕ
refresh_of none = 0
refresh_of (some psb) = psb.refresh_ms

-- The egress has made an RSB, and sends the first RESV.
abbrev pub first_resv : Hal → Machine → ℕ → Option ℕ → Machine
first_resv hal m p none = m
first_resv hal m p (some r) =
    let refresh = refresh_of (m.db.psbs.heap p) in
    let linked =
      alter_psb
        (alter_rsb m r (λ rsb. record rsb { associated_psb = some p; refresh_ms = refresh })) p
        (λ psb. record psb { associated_rsb = some r }) in
    send_resv_upstream hal (start_timer hal linked (Timer.rsb_refresh r)) r

unfoldable pub path_at_egress : Hal → Machine → MessageInfo → ℕ → Option ℕ → Machine
path_at_egress hal m info p none =
    let (made, db) = rsvp_rsb_create m.db info.key (hal.new_rsb m.db) in
    first_resv hal (record m { db = db }) p made
path_at_egress hal m info p (some r) =
    alter_rsb m r (λ rsb. record rsb { refresh_ms = refresh_of (m.db.psbs.heap p) })

abbrev pub awaits_bypass : Option Psb → Bool
awaits_bypass none = false
awaits_bypass (some psb) =
    is_facility psb.frr_mode && (not psb.is_bypass_tunnel && not (is_some psb.bypass_psb))

-- A PATH message for the transit node, with the result of the look-up of the next hop.
unfoldable pub path_at_transit : Hal → Machine → MessageInfo → ℕ → Bool → Option ℕ → Machine
path_at_transit hal m info p is_new none =
    let told = send_path_err hal m info routing_problem in
    if is_new then record told { db = rsvp_psb_delete told.db p } else told
path_at_transit hal m info p is_new (some next_ifindex) =
    let forwarded = send_path_downstream hal m p in
    if awaits_bypass (forwarded.db.psbs.heap p)
    then rsvp_frr_auto_associate forwarded p
    else forwarded

unfoldable pub path_role : Hal → Machine → MessageInfo → ℕ → Bool → Machine
unfolding path_at_egress path_at_transit
path_role hal m info p is_new =
    if hal.is_local_addr info.key.dest_addr
    then path_at_egress hal m info p (rsvp_rsb_find m.db info.key)
    else if hal.is_local_addr info.key.source_addr
    then m
    else given (m.db.psbs.heap p) m (λ psb.
      let (popped, ip_next, out) = resolve_path_next_hop hal psb in
      path_at_transit hal (alter_psb m p (λ q. record q { ero = popped.ero })) info p is_new out)

-- Past the validation, for the PSB that was found or made.
unfoldable pub accept_path : Hal → Machine → MessageInfo → ℕ → Bool → Machine
unfolding update_psb path_timers path_role
accept_path hal m info p is_new =
    path_role hal (path_timers hal (alter_psb m p (update_psb hal info)) p) info p is_new

-- `calloc` has given memory for the new PSB, or not.
abbrev pub accept_new_path : Hal → Machine → MessageInfo → Option ℕ → Machine
accept_new_path hal m info none = m
accept_new_path hal m info (some p) =
    accept_path hal (alter_psb m p (λ psb. record psb { refresh_ms = default_refresh_ms })) info p
      true

abbrev pub find_or_create_path : Hal → Machine → MessageInfo → Option ℕ → Machine
find_or_create_path hal m info none =
    let (made, db) = rsvp_psb_create m.db info.key (hal.new_psb m.db) in
    accept_new_path hal (record m { db = db }) info made
find_or_create_path hal m info (some p) = accept_path hal m info p false

-- The error code of the validation, if there is one.
abbrev pub after_path_check : Hal → Machine → MessageInfo → Option ℕ → Option ℕ → Machine
after_path_check hal m info psb (some err_code) = send_path_err hal m info err_code
after_path_check hal m info psb none = find_or_create_path hal m info psb

unfoldable pub handle_path_message : Hal → Machine → MessageInfo → Machine
unfolding accept_path
handle_path_message hal m info =
    let psb = rsvp_psb_find m.db info.key in
    after_path_check hal m info psb (rsvp_validate_path_message info psb)
