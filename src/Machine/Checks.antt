-- ===== src/Machine/Checks.antt =====
-- src/pi/rsvp_state_machine.c: the checks on messages, blockade state, the merged flowspec and the
-- next hop of a PATH message.
use rsvp_te.Prelude.{
  ℕ, zero, suc, ◌+◌, ◌-◌, ◌*◌, ◌%◌, Bool, false, not, ◌&&◌, ◌||◌, List, [], ◌∷◌, Option, none, some,
  ltb, ◌==◌, if◌then◌else◌, length, drop,
}
use rsvp_te.Wire.{read8, read32}
use rsvp_te.Wire.Builder.Objects.{Tspec, Hop}
use rsvp_te.Wire.Parser.{MessageInfo, is_some}
use rsvp_te.StateDb.{Db, rsvp_bsb_find}
use rsvp_te.StateDb.Blocks.{Psb, Rsb, Bsb, zero_tspec}
use rsvp_te.Machine.{Hal}

-- `RSVP_PROTO_ERR_…`
abbrev pub admission_control : ℕ
admission_control = 1

abbrev pub no_path_state : ℕ
no_path_state = 3

abbrev pub routing_problem : ℕ
routing_problem = 24

-- `rsvp_validate_path_message`: the error code of the PathErr, `none` for a message that passes; the
-- error value is 0.
unfoldable pub rsvp_validate_path_message : MessageInfo → Option ℕ → Option ℕ
rsvp_validate_path_message info existing_psb =
    if not (is_some info.hop_v4)
    then some routing_problem
    else if not (is_some info.sender_v4)
    then some routing_problem
    else if not (is_some info.label_req) && not (is_some existing_psb)
    then some routing_problem
    else none

-- `rsvp_validate_resv_message`, for the PSB that `rsvp_psb_find` finds.
unfoldable pub rsvp_validate_resv_message : MessageInfo → Option ℕ → Option ℕ
rsvp_validate_resv_message info psb =
    if not (is_some psb)
    then some no_path_state
    else if not (is_some info.hop_v4)
    then some routing_problem
    else if not (is_some info.label)
    then some routing_problem
    else none

unfoldable pub is_flowspec_gte : Hal → Tspec → Tspec → Bool
is_flowspec_gte hal a b =
    hal.float_ge a.token_bucket_rate b.token_bucket_rate
    && hal.float_ge a.token_bucket_size b.token_bucket_size

abbrev over_limit : Hal → Rsb → Option Bsb → Bool
over_limit hal rsb none = false
over_limit hal rsb (some bsb) = is_flowspec_gte hal rsb.flowspec bsb.flowspec_qb

unfoldable pub rsvp_is_blockaded : Hal → Db → Rsb → Bool
unfolding is_flowspec_gte
rsvp_is_blockaded hal db rsb = elim (rsvp_bsb_find db rsb.key) [
  | none ↦ false
  | some b ↦ over_limit hal rsb (db.bsbs.heap b)
]

-- The header of a Controlled-Load flowspec.
abbrev flowspec_header : Tspec
flowspec_header = record zero_tspec {
  service_hdr = 5;
  svc_length = 6;
  param_id = 127;
  param_length = 5;
  length_words = 7;
}

abbrev merge_rsb : Hal → Db → Option Rsb → Tspec
merge_rsb hal db none = flowspec_header
merge_rsb hal db (some rsb) =
    if rsvp_is_blockaded hal db rsb then flowspec_header else record flowspec_header {
      token_bucket_rate = rsb.flowspec.token_bucket_rate;
      token_bucket_size = rsb.flowspec.token_bucket_size;
      peak_data_rate = rsb.flowspec.peak_data_rate;
      min_policed_unit = rsb.flowspec.min_policed_unit;
      max_packet_size = rsb.flowspec.max_packet_size;
    }

-- The flowspec of the RSB of a PSB, zero where there is none or it is blockaded.
unfoldable pub rsvp_compute_merged_flowspec : Hal → Db → Psb → Tspec
rsvp_compute_merged_flowspec hal db psb = elim psb.associated_rsb [
  | none ↦ flowspec_header
  | some r ↦ merge_rsb hal db (db.rsbs.heap r)
]

-- `tspec_copy_and_ntoh` of the object's bytes. The three 16-bit lengths are copied as they lie in
-- memory, which a little-endian host reads with their bytes swapped.
abbrev swapped16 : List ℕ → ℕ → ℕ
swapped16 bs i = read8 bs (i + 1) * 256 + read8 bs i

unfoldable pub tspec_copy_and_ntoh : List ℕ → Tspec
tspec_copy_and_ntoh bs = record {
  version = read8 bs 0;
  reserved = read8 bs 1;
  length_words = swapped16 bs 2;
  service_hdr = read8 bs 4;
  reserved2 = read8 bs 5;
  svc_length = swapped16 bs 6;
  param_id = read8 bs 8;
  flags = read8 bs 9;
  param_length = swapped16 bs 10;
  token_bucket_rate = read32 bs 12;
  token_bucket_size = read32 bs 16;
  peak_data_rate = read32 bs 20;
  min_policed_unit = read32 bs 24;
  max_packet_size = read32 bs 28;
}

-- A first hop of the explicit route that is this node is popped.
unfoldable pub pop_local : ℕ → List Hop → List Hop
pop_local local_addr [] = []
pop_local local_addr (h ∷ hs) = if h.addr == local_addr then hs else h ∷ hs

abbrev first_hop : List Hop → ℕ → ℕ
first_hop [] dest = dest
first_hop (h ∷ hs) dest = h.addr

-- `hal_netlink_get_local_addr(0, &addr)` into a zeroed address.
abbrev pub addr_or_zero : Option ℕ → ℕ
addr_or_zero none = 0
addr_or_zero (some a) = a

-- `resolve_path_next_hop`: the PSB with its route popped, the next hop and the interface to it.
unfoldable pub resolve_path_next_hop : Hal → Psb → Psb × ℕ × Option ℕ
unfolding pop_local
resolve_path_next_hop hal psb =
    let ero = pop_local (addr_or_zero (hal.local_addr 0)) psb.ero in
    let ip_dest = first_hop ero psb.key.dest_addr in
    (record psb { ero = ero }, ip_dest, hal.egress_if ip_dest)

-- `struct rsvp_ero_ipv4_subobj` as it lies in memory.
abbrev hop_of : List ℕ → Hop
hop_of bs = record {
  hop_type = read8 bs 0;
  hop_len = read8 bs 1;
  addr = read32 bs 2;
  prefix_len = read8 bs 6;
  res = read8 bs 7;
}

-- The loops over the subobjects of an ERO or RRO: at most `room` IPv4 hops are stored, other
-- subobjects are skipped, a bad length ends the loop. A round takes two bytes at least.
unfoldable pub read_route : ℕ → ℕ → List ℕ → List Hop
read_route zero room bs = []
read_route (suc fuel) room bs =
    let len = read8 bs 1 in
    let stored = hop_of bs ∷ read_route fuel (room - 1) (drop len bs) in
    let skipped = read_route fuel room (drop len bs) in
    if ltb (length bs) 2 || room == 0
    then []
    else if ltb len 2 || ltb (length bs) len
    then []
    else if read8 bs 0 % 128 == 1 && len == 8
    then stored
    else skipped
