-- ===== src/Dispatcher/Delivery.antt =====
-- A message of src/pi/rsvp_builder.c on its way through `rsvp_send_packet` of src/pi/rsvp_dispatcher.c and
-- the event loop of the receiver.
use rsvp_te.Prelude.{
  ℕ, ◌+◌, ◌^◌, ◌<◌, ◌≤◌, ◌≡◌, refl, sym, ap, ◌∙◌, Bool, true, false, List, ◌++◌, ltb, ◌==◌,
  if◌then◌else◌, length, take, length-append, take_long, arith,
}
use rsvp_te.Wire.{read32}
use rsvp_te.Wire.Parser.{◌>>=◌, malformed_obj}
use rsvp_te.Wire.Parser.Loop.{rsvp_parse_packet, require, has_mandatory}
use rsvp_te.Wire.Parser.Required.{start_info}
use rsvp_te.Wire.RoundTrip.{Obj, Fit, encode_all, store_all}
use rsvp_te.Wire.RoundTrip.Build.{build_message, parse-build_message, length-build_message}
use rsvp_te.Machine.{Hal, Machine}
use rsvp_te.Dispatcher.{
  Socket, success, optlen, ip_header, ttl_of, rsvp_send_packet, handle_parsed, receive_packet,
}
use rsvp_te.Dispatcher.Header.{length-ip_header, ip_header-ihl, ip_header-addresses}

not_below : (a b : ℕ) → b ≤ a → ltb a b ≡ false
not_below a b h = ground arith

not_zero : (a : ℕ) → 20 ≤ a → (a == 0) ≡ false
not_zero a h = ground arith

-- A packet that fits into the buffer is sent by an open socket that takes it.
send-fits :
    (sock : Socket) (src dest : ℕ) (buffer : List ℕ) (use_rao : Bool)
    → 20 + optlen use_rao + length buffer ≤ 4096
    → sock.is_open ≡ true
    → ((d : ℕ) (packet : List ℕ) → sock.sendto_ok d packet ≡ true)
    → rsvp_send_packet sock src dest buffer use_rao
      ≡ success dest (
          ip_header use_rao (20 + optlen use_rao + length buffer) (ttl_of buffer) src dest
          ++ buffer)
unfolding rsvp_send_packet
send-fits sock src dest buffer use_rao fits is_open takes =
    rw
      (
        not_below 4096 (20 + optlen use_rao + length buffer) fits,
        is_open,
        takes dest (
            ip_header use_rao (20 + optlen use_rao + length buffer) (ttl_of buffer) src dest
            ++ buffer),
      )
      refl

-- A packet that is no longer than the buffer of the event loop.
receive-fits :
    (hal : Hal) (m : Machine) (packet : List ℕ) (src : ℕ)
    → length packet ≤ 4096
    → 20 ≤ length packet
    → read32 packet 12 ≡ src
    → receive_packet hal m packet
      ≡ (if hal.is_local_addr src then m else handle_parsed hal m (rsvp_parse_packet packet))
unfolding receive_packet
receive-fits hal m packet src fits long from =
    let whole : take 4096 packet ≡ packet = take_long 4096 packet fits in
    rw (whole, not_zero (length packet) long, not_below (length packet) 20 long, from) refl

-- A message of any objects, each short enough for its length field, that fits with its headers into the 4096
-- bytes of a packet, goes out from an open socket that takes it, with or without the Router Alert Option; the
-- receiver reads the sender's addresses from the packet, drops it if the source is its own address, and
-- else handles exactly these objects, unless one is of an unknown class below 128 or a mandatory one is missing.
pub receive-send :
    (hal : Hal) (m : Machine) (sock : Socket) (src dest room msg_type : ℕ) (os : List Obj)
    (use_rao : Bool)
    → src < 2 ^ 32
    → dest < 2 ^ 32
    → msg_type < 256
    → Fit os
    → length (encode_all os) ≤ room
    → 28 + optlen use_rao + length (encode_all os) ≤ 4096
    → sock.is_open ≡ true
    → ((d : ℕ) (packet : List ℕ) → sock.sendto_ok d packet ≡ true)
    → let (len, b) = build_message (8 + room) msg_type os in
      (packet : List ℕ) × (rsvp_send_packet sock src dest (take len b.buffer) use_rao
        ≡ success dest packet)
      × (read32 packet 12 ≡ src)
      × (read32 packet 16 ≡ dest)
      × (receive_packet hal m packet ≡ (
          if hal.is_local_addr src
          then m
          else handle_parsed hal m (
              store_all os (start_info packet) >>= λ parsed.
              require (has_mandatory msg_type parsed) malformed_obj parsed)))
receive-send hal m sock src dest room msg_type os use_rao hs hd t fit fits small is_open takes =
    let (len, b) = build_message (8 + room) msg_type os in
    let msg = take len b.buffer in
    let long : length msg ≡ 8 + length (encode_all os) =
      length-build_message room msg_type os fits t (omega arith) in
    let total = 20 + optlen use_rao + length msg in
    let ip = ip_header use_rao total (ttl_of msg) src dest in
    let ip_long = length-ip_header total (ttl_of msg) src dest use_rao in
    let (from, to) = ip_header-addresses total (ttl_of msg) src dest use_rao msg hs hd in
    let ihl = ip_header-ihl total (ttl_of msg) src dest use_rao in
    let size = length-append ip msg in
    (
      ip ++ msg,
      send-fits sock src dest msg use_rao (omega arith) is_open takes,
      from,
      to,
      receive-fits hal m (ip ++ msg) src (omega arith) (omega arith) from
          ∙ ap (λ r. if hal.is_local_addr src then m else handle_parsed hal m r)
              (parse-build_message room msg_type os ip fits fit t (omega arith) (ip_long ∙ sym ihl)
                (omega arith)),
    )
