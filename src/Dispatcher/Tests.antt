-- ===== src/Dispatcher/Tests.antt =====
-- src/pi/rsvp_dispatcher.c at concrete inputs: a Hello from 10.0.0.1 to 10.0.0.2.
use rsvp_te.Prelude.{
  ℕ, ◌≡◌, refl, true, false, List, [], ◌∷◌, some, none, leb, ◌==◌, if◌then◌else◌, take, arith,
}
use rsvp_te.Label
use rsvp_te.StateDb
use rsvp_te.Wire.{read32}
use rsvp_te.Wire.Checksum.{rsvp_checksum}
use rsvp_te.Wire.Builder.Layout.{encode_obj}
use rsvp_te.Wire.Parser.{◌>>=◌, malformed_obj}
use rsvp_te.Wire.Parser.Loop.{require, has_mandatory}
use rsvp_te.Wire.Parser.Required.{start_info}
use rsvp_te.Wire.RoundTrip.{Obj, encode_all, store_all}
use rsvp_te.Wire.RoundTrip.Build.{build_message}
use rsvp_te.Machine.{Hal, Machine}
use rsvp_te.Dispatcher.{Socket, success, ip_header, rsvp_send_packet, receive_packet, handle_parsed}
use rsvp_te.Dispatcher.Header.{ip_header-checksum}
use rsvp_te.Dispatcher.Delivery.{receive-send}

abbrev receiver : Hal
receiver = record {
  egress_if = λ dest. some 4;
  local_addr = λ i. some 0x0a00_0002;
  is_local_addr = λ a. a == 0x0a00_0002;
  timer_start_ok = λ tm. true;
  timer_reset_ok = λ tm. true;
  new_psb = λ db. none;
  new_rsb = λ db. none;
  new_bsb = λ db. none;
  strdup_ok = true;
  float_ge = λ a b. leb b a;
  float_to_uint32 = λ f. f;
  float_of_uint32 = λ n. n;
}

abbrev idle : Machine
idle = record { db = StateDb.at_start; labels = Label.at_start; out = [] }

abbrev open_socket : Socket
open_socket = record { is_open = true; sendto_ok = λ dest packet. true }

-- A HELLO REQUEST with the instances 7 and 9.
abbrev hello : List Obj
hello = record { class_num = 22; c_type = 1; payload = 0 ∷ 0 ∷ 0 ∷ 7 ∷ 0 ∷ 0 ∷ 0 ∷ 9 ∷ [] } ∷ []

ip_header-checksum_example :
    rsvp_checksum (ip_header true 36 255 0x0a00_0001 0x0a00_0002)
    ≡ (if true then 107 ∷ 251 ∷ [] else 0 ∷ 0 ∷ [])
ip_header-checksum_example = ip_header-checksum true 36 255 0x0a00_0001 0x0a00_0002 (omega arith)

receive-send_example :
    let (len, b) = build_message 108 20 hello in
    (packet : List ℕ) × (rsvp_send_packet open_socket 0x0a00_0001 0x0a00_0002
        (take len b.buffer)
        false
      ≡ success 0x0a00_0002 packet)
    × (read32 packet 12 ≡ 0x0a00_0001)
    × (read32 packet 16 ≡ 0x0a00_0002)
    × (receive_packet receiver idle packet
        ≡ handle_parsed receiver idle (
            store_all hello (start_info packet) >>= λ parsed.
            require (has_mandatory 20 parsed) malformed_obj parsed))
unfolding encode_all encode_obj
receive-send_example =
    receive-send receiver idle open_socket 0x0a00_0001 0x0a00_0002 100 20 hello false (omega arith)
      (omega arith) (omega arith) (omega arith, tt) (omega arith) (omega arith) refl
      (λ d packet. refl)
