-- ===== src/Machine/Sending.antt =====
-- src/pi/rsvp_state_machine.c: the functions that send a message. A pointer to no block, which C
-- leaves undefined, sends nothing.
use rsvp_te.Prelude.{ℕ, true, false, List, Option, none, some, ◌==◌, if◌then◌else◌}
use rsvp_te.Label.{LabelMgr, label_mgr_alloc}
use rsvp_te.Wire.Parser.{MessageInfo}
use rsvp_te.StateDb.Blocks.{Psb, Rsb}
use rsvp_te.Machine.{given, Hal, Machine, sent, emit, alter_psb, alter_rsb}
use rsvp_te.Machine.Messages.{
  path_err_message, resv_err_message, passed_resv_err, path_tear_message, resv_tear_message,
  resv_message, path_message,
}
use rsvp_te.Machine.Checks.{addr_or_zero, resolve_path_next_hop, rsvp_compute_merged_flowspec}

-- The error value of both messages is 0.
unfoldable pub send_path_err : Hal → Machine → MessageInfo → ℕ → Machine
send_path_err hal m info code =
    emit m (
      sent 0 info.src_ip (path_err_message info.key (addr_or_zero (hal.local_addr 0)) code 0) false)

unfoldable pub send_resv_err : Hal → Machine → MessageInfo → ℕ → Machine
send_resv_err hal m info code =
    emit m (
      sent 0 info.src_ip (resv_err_message info.key (addr_or_zero (hal.local_addr 0)) code 0) false)

-- The address of an interface, or that of the sender.
abbrev pub source_of : Hal → Psb → ℕ → ℕ
source_of hal psb ifindex = elim (hal.local_addr ifindex) [
  | none ↦ psb.key.source_addr
  | some a ↦ a
]

-- `send_path_downstream` past the look-up of the next hop.
unfoldable pub send_path_via : Hal → Machine → ℕ → Psb → ℕ → Option ℕ → Machine
send_path_via hal m p psb ip_dest none = alter_psb m p (λ q. record q { ero = psb.ero })
send_path_via hal m p psb ip_dest (some ifindex) =
    let local_addr = source_of hal psb ifindex in
    let leaving = record psb { ifindex_out = ifindex } in
    emit (alter_psb m p (λ q. record q { ero = psb.ero; ifindex_out = ifindex }))
      (sent local_addr ip_dest (path_message hal leaving local_addr ifindex) true)

unfoldable pub send_path_downstream : Hal → Machine → ℕ → Machine
unfolding send_path_via
send_path_downstream hal m p = given (m.db.psbs.heap p) m (λ psb.
    let (popped, ip_dest, out) = resolve_path_next_hop hal psb in
    send_path_via hal m p popped ip_dest out)

-- `propagate_path_tear`
unfoldable pub send_path_tear_via : Hal → Machine → Psb → ℕ → Option ℕ → Machine
send_path_tear_via hal m psb ip_dest none = m
send_path_tear_via hal m psb ip_dest (some ifindex) =
    let local_addr = source_of hal psb ifindex in
    emit m (sent local_addr ip_dest (path_tear_message psb local_addr ifindex) true)

unfoldable pub propagate_path_tear : Hal → Machine → ℕ → Machine
unfolding send_path_tear_via
propagate_path_tear hal m p = given (m.db.psbs.heap p) m (λ psb.
    let (popped, ip_dest, out) = resolve_path_next_hop hal psb in
    send_path_tear_via hal (alter_psb m p (λ q. record q { ero = popped.ero })) popped ip_dest out)

-- The interface to a neighbour, with its address and what goes into the RSVP_HOP object.
abbrev pub toward : Hal → ℕ → ℕ → ℕ × ℕ
toward hal nbr fallback = elim (hal.egress_if nbr) [
  | none ↦ (0, fallback)
  | some i ↦ (addr_or_zero (hal.local_addr i), i)
]

-- The block behind a pointer that may be NULL.
abbrev pub follow {ℓ} : {A : Type ℓ} → (ℕ → Option A) → Option ℕ → Option A
follow heap none = none
follow heap (some p) = heap p

-- `propagate_resv_tear`, for the RSB and its PSB.
unfoldable pub propagate_resv_tear : Hal → Machine → Rsb → Machine
propagate_resv_tear hal m rsb = given (follow m.db.psbs.heap rsb.associated_psb) m (λ psb.
    let (local_addr, lih) = toward hal psb.prev_hop_addr psb.prev_hop_lih in
    if psb.prev_hop_addr == 0
    then m
    else emit m
        (sent local_addr psb.prev_hop_addr (resv_tear_message psb rsb local_addr lih) false))

-- `propagate_resv_err`
unfoldable pub propagate_resv_err : Hal → Machine → Rsb → Option (List ℕ) → Machine
propagate_resv_err hal m rsb spec = given (follow m.db.psbs.heap rsb.associated_psb) m (λ psb.
    given (hal.egress_if psb.key.dest_addr) m (λ i.
      let local_addr = addr_or_zero (hal.local_addr i) in
      emit m (sent local_addr psb.key.dest_addr (passed_resv_err psb.key local_addr i spec) false)))

-- What the label manager returned goes into the RSB; 0 is no label.
abbrev pub store_label : Machine → ℕ → ℕ × LabelMgr → Machine
store_label m r taken =
    alter_rsb (record m { labels = taken.1 }) r (λ rsb. record rsb { label_in = taken.0 })

-- `if (rsb->label_in == 0) rsb->label_in = label_mgr_alloc();`
unfoldable pub ensure_label : Machine → ℕ → Machine
ensure_label m r =
    given (m.db.rsbs.heap r) m
      (λ rsb. if rsb.label_in == 0 then store_label m r (label_mgr_alloc m.labels) else m)

-- `send_resv_upstream` once the RSB has a label.
unfoldable pub send_resv_of : Hal → Machine → Rsb → Psb → Machine
send_resv_of hal m rsb psb =
    let (local_addr, lih) = toward hal psb.prev_hop_addr psb.ifindex_in in
    if rsb.label_in == 0
    then m
    else emit m (
        sent local_addr psb.prev_hop_addr
          (resv_message psb rsb (rsvp_compute_merged_flowspec hal m.db psb) local_addr lih) false)

abbrev pub send_resv_from : Hal → Machine → Option Rsb → Psb → Machine
send_resv_from hal m none psb = m
send_resv_from hal m (some rsb) psb = send_resv_of hal m rsb psb

-- An RSB without a PSB sends nothing, and takes no label.
unfoldable pub send_resv_upstream : Hal → Machine → ℕ → Machine
unfolding send_resv_of ensure_label
send_resv_upstream hal m r = given (m.db.rsbs.heap r) m (λ rsb.
    given (follow m.db.psbs.heap rsb.associated_psb) m (λ psb.
      let labelled = ensure_label m r in send_resv_from hal labelled (labelled.db.rsbs.heap r) psb))
