-- ===== src/Machine/Frr.antt =====
-- src/pi/rsvp_state_machine.c: fast reroute. The loops over the buckets of the PSB table take the
-- addresses of a chain from its head on; nothing that they call changes a chain.
use rsvp_te.Prelude.{
  ℕ, zero, suc, ◌+◌, Bool, true, false, not, ◌&&◌, ◌||◌, List, [], ◌∷◌, Option, none, some, ◌==◌,
  if◌then◌else◌,
}
use rsvp_te.Wire.Parser.{is_some, PathKey}
use rsvp_te.StateDb.{Db, rsvp_rsb_find, rsvp_psb_find_by_id}
use rsvp_te.StateDb.Key.{hash_size}
use rsvp_te.StateDb.Buckets.{scan}
use rsvp_te.StateDb.Blocks.{FrrMode, Psb, Rsb}
use rsvp_te.Machine.{given, Hal, Machine, mpls_install, emit, alter_psb}
use rsvp_te.Machine.Messages.{is_facility}
use rsvp_te.Machine.Sending.{follow, send_path_downstream}

-- The RSB of a key, if there is one.
abbrev pub rsb_of : Db → PathKey → Option Rsb
rsb_of db key = follow db.rsbs.heap (rsvp_rsb_find db key)

abbrev pub labelled : Option Rsb → Bool
labelled none = false
labelled (some rsb) = not (rsb.label_out == 0)

-- A bypass tunnel with a label, for the interface.
abbrev pub ready_bypass : Db → ℕ → Psb → Bool
ready_bypass db ifindex c =
    c.is_bypass_tunnel && (c.frr_protected_ifindex == ifindex && labelled (rsb_of db c.key))

abbrev pub no_pointer : Option ℕ → Bool
no_pointer o = not (is_some o)

-- The bypass tunnel at the address `b` becomes that of the PSB.
abbrev pub arm : Machine → ℕ → Option ℕ → Machine
arm m p none = m
arm m p (some b) = given (m.db.psbs.heap b) m (λ c.
    alter_psb m p (λ psb. record psb { bypass_psb = some b; bypass_tunnel_id = c.key.tunnel_id }))

unfoldable pub rsvp_frr_auto_associate : Machine → ℕ → Machine
rsvp_frr_auto_associate m p = given (m.db.psbs.heap p) m (λ psb.
    let found = scan (ready_bypass m.db psb.ifindex_out) m.db.psbs hash_size 0 in
    if not (is_facility psb.frr_mode)
      || (is_some psb.bypass_psb || (psb.ifindex_out == 0 || psb.is_bypass_tunnel))
    then m
    else arm m p found)

-- The loop over a chain, and that over the buckets from `i` on.
unfoldable pub each : (Machine → ℕ → Machine) → Machine → List ℕ → Machine
each f m [] = m
each f m (p ∷ ps) = each f (f m p) ps

unfoldable pub each_bucket : (Machine → ℕ → Machine) → ℕ → ℕ → Machine → Machine
unfolding each
each_bucket f zero i m = m
each_bucket f (suc left) i m = each_bucket f left (i + 1) (each f m (m.db.psbs.buckets i))

abbrev pub wants_bypass : ℕ → Psb → Bool
wants_bypass ifindex c =
    not c.is_bypass_tunnel
    && (is_facility c.frr_mode && (c.ifindex_out == ifindex && no_pointer c.bypass_psb))

-- One round of `rsvp_frr_auto_associate_all`.
unfoldable pub associate_one : ℕ → Machine → ℕ → Machine
associate_one ifindex m p =
    given (m.db.psbs.heap p) m
      (λ c. if wants_bypass ifindex c then rsvp_frr_auto_associate m p else m)

unfoldable pub rsvp_frr_auto_associate_all : Machine → ℕ → Machine
rsvp_frr_auto_associate_all m protected_ifindex =
    each_bucket (associate_one protected_ifindex) hash_size 0 m

-- The LSP leaves through the interface, is protected and not switched over.
abbrev pub endangered : ℕ → Psb → Bool
endangered failed psb =
    psb.ifindex_out == failed
    && (is_facility psb.frr_mode
        && (is_some psb.bypass_psb && (not psb.frr_active && not psb.is_bypass_tunnel)))

abbrev pub install : Machine → Option Rsb → ℕ → Rsb → Machine
install m none dest_addr via = m
install m (some rsb) dest_addr via =
    emit m (mpls_install rsb.label_in via.label_out via.next_hop_lih via.next_hop_addr dest_addr)

-- `rsvp_frr_trigger` for an LSP, its bypass tunnel and that tunnel's RSB.
unfoldable pub switch_over : Hal → Machine → ℕ → Psb → Psb → Rsb → Machine
switch_over hal m p psb bp brsb =
    let forwarding = install m (rsb_of m.db psb.key) psb.key.dest_addr brsb in
    let switched =
      alter_psb forwarding p (λ q. record q { frr_active = true; ifindex_out = bp.ifindex_out }) in
    send_path_downstream hal switched p

abbrev pub switch_to : Hal → Machine → ℕ → Psb → Psb → Option Rsb → Machine
switch_to hal m p psb bp none = m
switch_to hal m p psb bp (some brsb) =
    if brsb.label_out == 0 then m else switch_over hal m p psb bp brsb

unfoldable pub trigger_one : Hal → ℕ → Machine → ℕ → Machine
unfolding switch_over
trigger_one hal failed m p = given (m.db.psbs.heap p) m (λ psb.
    given (follow m.db.psbs.heap psb.bypass_psb) m
      (λ bp. if endangered failed psb then switch_to hal m p psb bp (rsb_of m.db bp.key) else m))

unfoldable pub rsvp_frr_trigger : Hal → Machine → ℕ → Machine
rsvp_frr_trigger hal m failed_ifindex = each_bucket (trigger_one hal failed_ifindex) hash_size 0 m

-- `rsvp_frr_revert` for an LSP that was switched over because of the interface.
abbrev pub restore : Hal → ℕ → Machine → ℕ → Psb → Option Rsb → Machine
restore hal recovered m p psb none = m
restore hal recovered m p psb (some rsb) =
    let forwarding = install m (some rsb) psb.key.dest_addr rsb in
    let back =
      alter_psb forwarding p (λ q. record q { ifindex_out = recovered; frr_active = false }) in
    send_path_downstream hal back p

unfoldable pub revert_one : Hal → ℕ → Machine → ℕ → Machine
revert_one hal recovered m p = given (m.db.psbs.heap p) m (λ psb.
    given (follow m.db.psbs.heap psb.bypass_psb) m (λ bp.
      if psb.frr_active && bp.frr_protected_ifindex == recovered
      then restore hal recovered m p psb (rsb_of m.db psb.key)
      else m))

unfoldable pub rsvp_frr_revert : Hal → Machine → ℕ → Machine
rsvp_frr_revert hal m recovered_ifindex =
    each_bucket (revert_one hal recovered_ifindex) hash_size 0 m

-- What `rsvp_frr_enable_protection` returns.
pub data FrrResult : Type 0 where
  success not_found frr_not_configured : FrrResult

-- The bypass tunnel `c` at `b` must have a reservation with a label.
abbrev pub protect_by : Machine → ℕ → ℕ → FrrMode → ℕ → Option Psb → Machine × FrrResult
protect_by m p b mode bypass_tunnel_id none = (m, not_found)
protect_by m p b mode bypass_tunnel_id (some c) =
    if labelled (rsb_of m.db c.key)
    then (
      alter_psb m p (λ psb. record psb {
        frr_mode = mode;
        bypass_tunnel_id = bypass_tunnel_id;
        bypass_psb = some b;
      }),
      success,
    )
    else (m, frr_not_configured)

abbrev pub protect : Machine → Option ℕ → Option ℕ → FrrMode → ℕ → Machine × FrrResult
protect m none bypass mode bypass_tunnel_id = (m, not_found)
protect m (some p) none mode bypass_tunnel_id = (m, not_found)
protect m (some p) (some b) mode bypass_tunnel_id =
    protect_by m p b mode bypass_tunnel_id (m.db.psbs.heap b)

unfoldable pub rsvp_frr_enable_protection : Machine → ℕ → ℕ → FrrMode → ℕ → Machine × FrrResult
rsvp_frr_enable_protection m tunnel_id lsp_id frr_mode bypass_tunnel_id =
    let bypass =
      scan (λ c. c.key.tunnel_id == bypass_tunnel_id && c.is_bypass_tunnel) m.db.psbs hash_size 0 in
    protect m (rsvp_psb_find_by_id m.db tunnel_id lsp_id) bypass frr_mode bypass_tunnel_id
