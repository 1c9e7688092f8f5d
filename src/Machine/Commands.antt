-- ===== src/Machine/Commands.antt =====
-- The commands of the operator in src/pi/rsvp_state_machine.c. `lsp_id` is `next_lsp_id` before the
-- increment. An empty name stands for NULL, an empty route for one that is not given.
use rsvp_te.Prelude.{
  ℕ, Bool, true, false, not, List, [], ◌∷◌, Option, none, some, if◌then◌else◌, take,
}
use rsvp_te.Wire.Builder.Objects.{Hop}
use rsvp_te.Wire.Parser.{PathKey}
use rsvp_te.StateDb.{Timer, rsvp_psb_find, rsvp_psb_create, rsvp_psb_find_by_id}
use rsvp_te.StateDb.Blocks.{FrrMode, Psb}
use rsvp_te.Machine.{Hal, Machine, alter_psb, start_timer}
use rsvp_te.Machine.Sending.{send_path_downstream}
use rsvp_te.Machine.PathMsg.{default_refresh_ms, max_ero_hops}

abbrev pub ingress_key : ℕ → ℕ → ℕ → ℕ → PathKey
ingress_key src dest tunnel_id lsp_id = record {
  dest_addr = dest;
  session_reserved = 0;
  tunnel_id = tunnel_id;
  extended_tunnel_id = src;
  source_addr = src;
  sender_reserved = 0;
  lsp_id = lsp_id;
}

-- `if (name) psb->lsp_name = strdup(name);`
abbrev copied : Hal → List ℕ → List ℕ
copied hal name = if hal.strdup_ok then name else []

-- The refresh timer is started, and the first PATH sent.
abbrev pub launch : Hal → Machine → ℕ → (Psb → Psb) → Machine
launch hal m p f =
    send_path_downstream hal (start_timer hal (alter_psb m p f) (Timer.psb_refresh p)) p

abbrev pub launch_new : Hal → Machine → Option ℕ → (Psb → Psb) → Machine
launch_new hal m none f = m
launch_new hal m (some p) f = launch hal m p f

abbrev pub create_path : Hal → Machine → PathKey → (Psb → Psb) → Machine
create_path hal m key f =
    let (made, db) = rsvp_psb_create m.db key (hal.new_psb m.db) in
    launch_new hal (record m { db = db }) made f

abbrev pub ingress_psb : Hal → List ℕ → List Hop → Bool → Psb → Psb
ingress_psb hal name ero request_frr psb = record psb {
  refresh_ms = default_refresh_ms;
  is_ingress = true;
  lsp_name = copied hal name;
  ero = take max_ero_hops ero;
  frr_mode = if request_frr then FrrMode.facility else FrrMode.frr_none;
}

abbrev pub initiate_on : Hal → Machine → PathKey → Option ℕ → List ℕ → List Hop → Bool → Machine
initiate_on hal m key none name ero request_frr =
    create_path hal m key (ingress_psb hal name ero request_frr)
initiate_on hal m key (some p) name ero request_frr = send_path_downstream hal m p

unfoldable pub rsvp_initiate_path_with_ero :
    Hal → Machine → ℕ → ℕ → ℕ → ℕ → List ℕ → List Hop → Bool → Machine
rsvp_initiate_path_with_ero hal m src dest tunnel_id lsp_id name ero request_frr =
    let key = ingress_key src dest tunnel_id lsp_id in
    initiate_on hal m key (rsvp_psb_find m.db key) name ero request_frr

unfoldable pub rsvp_initiate_path : Hal → Machine → ℕ → ℕ → ℕ → ℕ → List ℕ → Machine
rsvp_initiate_path hal m src dest tunnel_id lsp_id name =
    rsvp_initiate_path_with_ero hal m src dest tunnel_id lsp_id name [] false

abbrev pub bypass_psb : Hal → List ℕ → List Hop → ℕ → Psb → Psb
bypass_psb hal name ero protected_ifindex psb = record psb {
  refresh_ms = default_refresh_ms;
  is_ingress = true;
  is_bypass_tunnel = true;
  frr_protected_ifindex = protected_ifindex;
  lsp_name = copied hal name;
  ero = take max_ero_hops ero;
}

abbrev pub bypass_on : Hal → Machine → PathKey → Option ℕ → List ℕ → List Hop → ℕ → Machine
bypass_on hal m key none name ero ifindex = create_path hal m key (bypass_psb hal name ero ifindex)
bypass_on hal m key (some p) name ero ifindex = m

unfoldable pub rsvp_initiate_bypass_tunnel :
    Hal → Machine → ℕ → ℕ → ℕ → ℕ → List ℕ → List Hop → ℕ → Machine
rsvp_initiate_bypass_tunnel hal m src dest tunnel_id lsp_id name ero protected_ifindex =
    let key = ingress_key src dest tunnel_id lsp_id in
    bypass_on hal m key (rsvp_psb_find m.db key) name ero protected_ifindex

-- What `rsvp_mbb_start` returns.
pub data MbbResult : Type 0 where
  success not_found invalid_param already_exists mem_alloc : MbbResult

abbrev pub mbb_route : List Hop → Psb → List Hop
mbb_route [] old = old.ero
mbb_route (h ∷ hs) old = take max_ero_hops (h ∷ hs)

-- The new PSB, a copy of the incumbent's signalling parameters.
abbrev pub mbb_psb : Hal → Psb → ℕ → List Hop → Psb → Psb
mbb_psb hal old old_lsp_id new_ero psb = record psb {
  refresh_ms = old.refresh_ms;
  is_ingress = true;
  frr_mode = old.frr_mode;
  frr_bandwidth = old.frr_bandwidth;
  setup_prio = old.setup_prio;
  holding_prio = old.holding_prio;
  ttl = old.ttl;
  tspec = old.tspec;
  lsp_name = copied hal old.lsp_name;
  ero = mbb_route new_ero old;
  is_mbb_pending = true;
  mbb_old_lsp_id = old_lsp_id;
}

abbrev pub mbb_launch : Hal → Machine → Option ℕ → (Psb → Psb) → Machine × MbbResult
mbb_launch hal m none f = (m, mem_alloc)
mbb_launch hal m (some p) f = (launch hal m p f, success)

abbrev pub mbb_on : Hal → Machine → Psb → ℕ → List Hop → PathKey → Option ℕ → Machine × MbbResult
mbb_on hal m old old_lsp_id new_ero new_key (some p) = (m, already_exists)
mbb_on hal m old old_lsp_id new_ero new_key none =
    let (made, db) = rsvp_psb_create m.db new_key (hal.new_psb m.db) in
    mbb_launch hal (record m { db = db }) made (mbb_psb hal old old_lsp_id new_ero)

abbrev pub mbb_from : Hal → Machine → Option Psb → ℕ → ℕ → List Hop → Machine × MbbResult
mbb_from hal m none old_lsp_id new_lsp_id new_ero = (m, not_found)
mbb_from hal m (some old) old_lsp_id new_lsp_id new_ero =
    let new_key = record old.key { lsp_id = new_lsp_id } in
    if not old.is_ingress
    then (m, invalid_param)
    else mbb_on hal m old old_lsp_id new_ero new_key (rsvp_psb_find m.db new_key)

abbrev pub block_at : Machine → Option ℕ → Option Psb
block_at m none = none
block_at m (some p) = m.db.psbs.heap p

unfoldable pub rsvp_mbb_start : Hal → Machine → ℕ → ℕ → ℕ → List Hop → Machine × MbbResult
rsvp_mbb_start hal m tunnel_id old_lsp_id new_lsp_id new_ero =
    mbb_from hal m (block_at m (rsvp_psb_find_by_id m.db tunnel_id old_lsp_id)) old_lsp_id
      new_lsp_id new_ero
