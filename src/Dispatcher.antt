-- ===== src/Dispatcher.antt =====
-- src/pi/rsvp_dispatcher.c: `rsvp_send_packet`, which puts an IP header in front of a message, and what the
-- event loop does with a packet that the raw socket has. An address of type `struct in_addr` is the number
-- that `ntohl` makes of it.
pub mod Header
pub mod Delivery
mod Tests
use rsvp_te.Prelude.{
  ℕ, ◌+◌, ◌*◌, ◌/◌, ◌%◌, ◌^◌, Bool, List, [], ◌∷◌, ◌++◌, ltb, ◌==◌, ◌||◌, not, if◌then◌else◌,
  length, take,
}
use rsvp_te.Wire.{read8, read32, be16, be32}
use rsvp_te.Wire.Checksum.{rsvp_checksum}
use rsvp_te.Wire.Parser.{Result, ok, err, out_of_fuel, MessageInfo}
use rsvp_te.Wire.Parser.Loop.{rsvp_parse_packet}
use rsvp_te.Machine.{Hal, Machine}
use rsvp_te.Machine.Handle.{rsvp_handle_message}

-- The raw socket: whether it is open, and whether `sendto` takes the packet for the address.
pub record Socket : Type 0 where
  pub is_open : Bool
  pub sendto_ok : ℕ → List ℕ → Bool

-- The result, with the packet and the address that `sendto` was called with.
pub data SendResult : Type 0 where
  success : ℕ → List ℕ → SendResult
  buffer_too_small sys send_failed : SendResult

abbrev pub max_rsvp_packet_size : ℕ
max_rsvp_packet_size = 4096

abbrev pub rsvp_protocol : ℕ
rsvp_protocol = 46

-- `use_rao ? 4 : 0`
abbrev pub optlen : Bool → ℕ
optlen use_rao = if use_rao then 4 else 0

-- The 20 bytes of `struct iphdr`, with the bytes `check` in the checksum field.
unfoldable pub iphdr : Bool → ℕ → ℕ → ℕ → ℕ → List ℕ → List ℕ
iphdr use_rao total_len ttl src dest check =
    ((4 * 16 + (5 + optlen use_rao / 4)) ∷ 0 ∷ be16 total_len)
    ++ (be16 54321 ++ (0 ∷ 0 ∷ ttl ∷ rsvp_protocol ∷ check ++ (be32 src ++ be32 dest)))

-- The options as the `memset` leaves them, and as they are sent.
abbrev pub blank_options : Bool → List ℕ
blank_options use_rao = if use_rao then 0 ∷ 0 ∷ 0 ∷ 0 ∷ [] else []

abbrev pub options : Bool → List ℕ
options use_rao = if use_rao then 148 ∷ 4 ∷ 0 ∷ 0 ∷ [] else []

-- The header with its options; the checksum is computed before the options are written.
unfoldable pub ip_header : Bool → ℕ → ℕ → ℕ → ℕ → List ℕ
unfolding iphdr
ip_header use_rao total_len ttl src dest =
    let check =
      rsvp_checksum (iphdr use_rao total_len ttl src dest (0 ∷ 0 ∷ []) ++ blank_options use_rao) in
    iphdr use_rao total_len ttl src dest check ++ options use_rao

-- The TTL of the RSVP header, if the message has one.
abbrev pub ttl_of : List ℕ → ℕ
ttl_of buffer = if ltb (length buffer) 8 then 255 else read8 buffer 4

unfoldable pub rsvp_send_packet : Socket → ℕ → ℕ → List ℕ → Bool → SendResult
rsvp_send_packet sock src dest buffer use_rao =
    let total_len = 20 + optlen use_rao + length buffer in
    let packet = ip_header use_rao total_len (ttl_of buffer) src dest ++ buffer in
    if ltb max_rsvp_packet_size total_len
    then SendResult.buffer_too_small
    else if not sock.is_open
    then SendResult.sys
    else if sock.sendto_ok dest packet
    then SendResult.success dest packet
    else SendResult.send_failed

abbrev pub handle_parsed : Hal → Machine → Result MessageInfo → Machine
handle_parsed hal m (ok info) = rsvp_handle_message hal m info
handle_parsed hal m (err e) = m
handle_parsed hal m out_of_fuel = m

-- The branch of the raw socket in `rsvp_dispatcher_run`, for the bytes that `recvfrom` has. Packets of
-- the daemon's own are dropped; a packet that cannot be parsed is only logged.
unfoldable pub receive_packet : Hal → Machine → List ℕ → Machine
receive_packet hal m datagram =
    let buffer = take max_rsvp_packet_size datagram in
    if length buffer == 0
    then m
    else if ltb (length buffer) 20
    then handle_parsed hal m (rsvp_parse_packet buffer)
    else if hal.is_local_addr (read32 buffer 12)
    then m
    else handle_parsed hal m (rsvp_parse_packet buffer)
