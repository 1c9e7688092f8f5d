-- ===== src/Hello.antt =====
-- src/pi/rsvp_hello.c: the table of neighbours and the Hello protocol. What the code does to the rest
-- of the daemon is a list of events; a timer is the delay it was started with, if it runs.
pub mod Inv
pub mod Recv
pub mod Neighbors
pub mod Reception
pub mod Packet
mod Tests
use rsvp_te.Prelude.{
  ℕ, zero, suc, ◌+◌, ◌*◌, ◌%◌, ◌^◌, Bool, true, false, not, ◌&&◌, List, [], ◌∷◌, ◌++◌, Option, none,
  some, ◌==◌, leb, if◌then◌else◌, length, get_or, set, take,
}
use rsvp_te.Wire.{be32, class_hello, msg_hello}
use rsvp_te.Wire.Builder.{rsvp_builder_init, rsvp_builder_add_obj, rsvp_builder_finalize}

-- `rsvp_nbor_state_t`
pub data NborState : Type 0 where
  nbor_idle nbor_up nbor_down : NborState

abbrev pub is_up : NborState → Bool
is_up nbor_idle = false
is_up nbor_up = true
is_up nbor_down = false

-- `struct rsvp_neighbor`, without `next_hash`, which nothing uses.
pub record Neighbor : Type 0 where
  pub addr : ℕ
  pub local_addr : ℕ
  pub ifindex : ℕ
  pub src_instance : ℕ
  pub dst_instance : ℕ
  pub state : NborState
  pub hello_interval_ms : ℕ
  pub dead_interval_ms : ℕ
  pub up_since : ℕ
  pub last_hello_rx : ℕ
  pub hellos_sent : ℕ
  pub hellos_rcvd : ℕ
  pub hello_timer : Option ℕ
  pub dead_timer : Option ℕ
  pub active : Bool

pub data Event : Type 0 where
  -- `rsvp_send_packet` without the Router Alert option: from, to, message.
  sent : ℕ → ℕ → List ℕ → Event
  -- `rsvp_frr_trigger` for an interface.
  frr_trigger : ℕ → Event

-- What a call gets from outside: the first value of `(uint32_t)rand()` that is not 0, `time(NULL)`,
-- whether `rsvp_send_packet` succeeds, and whether the wheel takes the Hello timer and the dead timer that
-- `rsvp_timer_start` is called for: when `timer_add` fails, the timer does not run.
pub record Env : Type 0 where
  pub instance_id : ℕ
  pub now : ℕ
  pub send_ok : Bool
  pub hello_timer_ok : Bool
  pub dead_timer_ok : Bool

-- The timer after `rsvp_timer_start`.
abbrev pub timer_after_start : Bool → ℕ → Option ℕ
timer_after_start ok timeout_ms = if ok then some timeout_ms else none

abbrev pub hello_interval : ℕ
hello_interval = 5000

abbrev pub dead_factor : ℕ
dead_factor = 3

abbrev pub max_neighbors : ℕ
max_neighbors = 128

abbrev pub ctype_request : ℕ
ctype_request = 1

abbrev pub ctype_ack : ℕ
ctype_ack = 2

-- `memset(n, 0, sizeof(*n))`
abbrev pub zero_neighbor : Neighbor
zero_neighbor = record {
  addr = 0;
  local_addr = 0;
  ifindex = 0;
  src_instance = 0;
  dst_instance = 0;
  state = NborState.nbor_idle;
  hello_interval_ms = 0;
  dead_interval_ms = 0;
  up_since = 0;
  last_hello_rx = 0;
  hellos_sent = 0;
  hellos_rcvd = 0;
  hello_timer = none;
  dead_timer = none;
  active = false;
}

-- `g_neighbors` up to `g_nbor_count`; the table after `rsvp_hello_init` and `rsvp_hello_shutdown`.
abbrev pub rsvp_hello_init : List Neighbor
rsvp_hello_init = []

abbrev pub hit : ℕ → Neighbor → Bool
hit addr n = n.active && n.addr == addr

-- The index of the neighbour.
unfoldable pub rsvp_hello_find_neighbor : List Neighbor → ℕ → Option ℕ
rsvp_hello_find_neighbor [] addr = none
rsvp_hello_find_neighbor (n ∷ ns) addr =
    let rest = rsvp_hello_find_neighbor ns addr in
    if hit addr n then some 0 else elim rest [ none ↦ none | some i ↦ some (suc i) ]

abbrev pub new_neighbor : Env → ℕ → ℕ → ℕ → Neighbor
new_neighbor env addr local_addr ifindex = record zero_neighbor {
  addr = addr;
  local_addr = local_addr;
  ifindex = ifindex;
  state = NborState.nbor_idle;
  hello_interval_ms = hello_interval;
  dead_interval_ms = hello_interval * dead_factor;
  active = true;
  src_instance = env.instance_id;
  hello_timer = timer_after_start env.hello_timer_ok hello_interval;
}

-- The index of the entry, or `none` when the table is full, and the table.
unfoldable pub rsvp_hello_add_neighbor : Env → List Neighbor → ℕ → ℕ → ℕ → Option ℕ × List Neighbor
rsvp_hello_add_neighbor env ns addr local_addr ifindex = elim (rsvp_hello_find_neighbor ns addr) [
  | some i ↦ (some i, ns)
  | none ↦
      if leb max_neighbors (length ns)
      then (none, ns)
      else (some (length ns), ns ++ (new_neighbor env addr local_addr ifindex ∷ []))
]

-- The message, built in a buffer of 128 bytes, or `none` if it does not fit.
unfoldable pub hello_message : Neighbor → ℕ → Option (List ℕ)
hello_message n c_type =
    let (ok, b) =
      rsvp_builder_add_obj (rsvp_builder_init 128 msg_hello) class_hello c_type
        (be32 n.src_instance ++ be32 n.dst_instance) in
    let (len, done) = rsvp_builder_finalize b in if ok then some (take len done.buffer) else none

unfoldable pub send_message : Env → Neighbor → Option (List ℕ) → Neighbor × List Event
send_message env n none = (n, [])
send_message env n (some msg) = (
  (if env.send_ok then record n { hellos_sent = (n.hellos_sent + 1) % 2 ^ 64 } else n),
  Event.sent n.local_addr n.addr msg ∷ [],
)

unfoldable pub send_hello : Env → Neighbor → ℕ → Neighbor × List Event
send_hello env n c_type = send_message env n (hello_message n c_type)

-- The timer that called it is started again.
unfoldable pub hello_timer_cb : Env → Neighbor → Neighbor × List Event
hello_timer_cb env n =
    if not n.active
    then (n, [])
    else (let (n', events) = send_hello env n ctype_request in
        (
          record n' { hello_timer = timer_after_start env.hello_timer_ok n'.hello_interval_ms },
          events,
        ))

-- The timer that called it does not run any more.
unfoldable pub dead_timer_cb : Neighbor → Neighbor × List Event
dead_timer_cb n = if not n.active then (n, []) else (
  record n { state = NborState.nbor_down; up_since = 0; dead_timer = none },
  Event.frr_trigger n.ifindex ∷ [],
)

-- The peer is known by another instance: it has restarted.
abbrev pub restarted : Neighbor → ℕ → Bool
restarted n rx_src_instance = not (n.dst_instance == 0) && not (n.dst_instance == rx_src_instance)

-- The body of `rsvp_hello_recv` up to the reply, for the neighbour that it found or added.
unfoldable pub note_hello : Env → Neighbor → ℕ → Neighbor × List Event
note_hello env n rx_src_instance =
    let counted = record n {
      hellos_rcvd = (n.hellos_rcvd + 1) % 2 ^ 64;
      last_hello_rx = env.now;
    } in
    let fresh =
      if restarted n rx_src_instance
      then record counted { state = NborState.nbor_idle; up_since = 0; dst_instance = 0 }
      else counted in
    let timed = record fresh {
      dst_instance = rx_src_instance;
      dead_timer = timer_after_start env.dead_timer_ok fresh.dead_interval_ms;
    } in
    (
      (if is_up timed.state
          then timed
          else record timed { state = NborState.nbor_up; up_since = env.now }),
      (if restarted n rx_src_instance then Event.frr_trigger n.ifindex ∷ [] else []),
    )

unfoldable pub answer_hello : Env → Neighbor → ℕ → ℕ → Neighbor × List Event
answer_hello env n rx_src_instance c_type =
    let (noted, events) = note_hello env n rx_src_instance in
    if c_type == ctype_request
    then (let (n', replies) = send_hello env noted ctype_ack in (n', events ++ replies))
    else (noted, events)

-- What follows the search for the neighbour or its addition.
unfoldable pub recv_at : Env → Option ℕ × List Neighbor → ℕ → ℕ → List Neighbor × List Event
recv_at env (none, ns) rx_src_instance c_type = (ns, [])
recv_at env (some i, ns) rx_src_instance c_type =
    let (n, events) = answer_hello env (get_or ns i zero_neighbor) rx_src_instance c_type in
    (set ns i n, events)

-- A Hello of an address that is not in the table makes an entry with no local address and no
-- interface. `rx_dst_instance` is only logged.
unfoldable pub rsvp_hello_recv : Env → List Neighbor → ℕ → ℕ → ℕ → ℕ → List Neighbor × List Event
rsvp_hello_recv env ns src rx_src_instance rx_dst_instance c_type =
    recv_at env (rsvp_hello_add_neighbor env ns src 0 0) rx_src_instance c_type
