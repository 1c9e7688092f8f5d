-- ===== src/Machine/Errors.antt =====
-- `handle_path_err` and `handle_resv_err` of src/pi/rsvp_state_machine.c.
use rsvp_te.Prelude.{ℕ, false, ◌||◌, List, Option, none, some, ◌==◌, if◌then◌else◌}
use rsvp_te.Wire.{read8}
use rsvp_te.Wire.Parser.{MessageInfo}
use rsvp_te.StateDb.{Timer, rsvp_psb_find, rsvp_rsb_find, rsvp_bsb_find, rsvp_bsb_create}
use rsvp_te.StateDb.Blocks.{Psb, Rsb}
use rsvp_te.Machine.{Hal, Machine, sent, emit, alter_bsb, start_timer}
use rsvp_te.Machine.Messages.{passed_path_err}
use rsvp_te.Machine.Checks.{tspec_copy_and_ntoh, admission_control, addr_or_zero}
use rsvp_te.Machine.Sending.{follow, propagate_resv_err}

-- The address and the interface that the PathErr goes out with.
abbrev pub back_to : Hal → Psb → ℕ × ℕ
back_to hal psb = elim (hal.egress_if psb.prev_hop_addr) [
  | none ↦ (psb.key.dest_addr, psb.ifindex_in)
  | some i ↦ (addr_or_zero (hal.local_addr i), i)
]

abbrev pub pass_path_err : Hal → Machine → MessageInfo → Option Psb → Machine
pass_path_err hal m info none = m
pass_path_err hal m info (some psb) =
    let (local_addr, lih) = back_to hal psb in
    if psb.is_ingress || psb.prev_hop_addr == 0
    then m
    else emit m (
        sent local_addr psb.prev_hop_addr (passed_path_err psb.key local_addr lih info.error_spec)
          false)

unfoldable pub handle_path_err : Hal → Machine → MessageInfo → Machine
handle_path_err hal m info =
    pass_path_err hal m info (follow m.db.psbs.heap (rsvp_psb_find m.db info.key))

-- The blockade of the RSB begins or goes on; a timer that runs is only reset.
unfoldable pub block : Hal → Machine → ℕ → List ℕ → Machine
block hal m b flowspec =
    let noted = alter_bsb m b (λ bsb. record bsb { flowspec_qb = tspec_copy_and_ntoh flowspec }) in
    if noted.db.running (Timer.bsb_blockade b)
    then noted
    else start_timer hal noted (Timer.bsb_blockade b)

abbrev pub block_made : Hal → Machine → Option ℕ → List ℕ → Machine
block_made hal m none flowspec = m
block_made hal m (some b) flowspec = block hal m b flowspec

abbrev pub find_or_create_bsb : Hal → Machine → MessageInfo → Option ℕ → List ℕ → Machine
find_or_create_bsb hal m info none flowspec =
    let (made, db) = rsvp_bsb_create m.db info.key (hal.new_bsb m.db) in
    block_made hal (record m { db = db }) made flowspec
find_or_create_bsb hal m info (some b) flowspec = block hal m b flowspec

-- An admission control failure with a flowspec makes blockade state.
unfoldable pub note_blockade :
    Hal → Machine → MessageInfo → Option (List ℕ) → Option (List ℕ) → Machine
unfolding block
note_blockade hal m info none flowspec = m
note_blockade hal m info (some spec) none = m
note_blockade hal m info (some spec) (some flowspec) =
    if read8 spec 5 == admission_control
    then find_or_create_bsb hal m info (rsvp_bsb_find m.db info.key) flowspec
    else m

abbrev pub pass_resv_err : Hal → Machine → MessageInfo → Option Rsb → Machine
pass_resv_err hal m info none = m
pass_resv_err hal m info (some rsb) =
    if hal.is_local_addr info.key.dest_addr then m else propagate_resv_err hal m rsb info.error_spec

unfoldable pub handle_resv_err : Hal → Machine → MessageInfo → Machine
unfolding note_blockade
handle_resv_err hal m info =
    let noted = note_blockade hal m info info.error_spec info.flowspec in
    pass_resv_err hal noted info (follow noted.db.rsbs.heap (rsvp_rsb_find noted.db info.key))
