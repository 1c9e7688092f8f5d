-- ===== src/Wire/RoundTrip/Build.antt =====
-- Whole messages: src/pi/rsvp_builder.c from `rsvp_builder_init` to `rsvp_builder_finalize`, and the
-- objects that name an LSP read back by src/pi/rsvp_parser.c.
use rsvp_te.Prelude.{
  ℕ, ◌+◌, ◌-◌, ◌*◌, ◌%◌, ◌^◌, ◌<◌, ◌≤◌, ◌≡◌, List, [], ◌∷◌, ◌++◌, length, take, arith,
  length-append, inl, inr, append_assoc, append-nil,
}
use rsvp_te.Wire.{read8, align, obj_hdr_len}
use rsvp_te.Wire.Builder.{Builder, rsvp_builder_init, rsvp_builder_add_obj, rsvp_builder_finalize}
use rsvp_te.Wire.Builder.Objects.{session_ipv4}
use rsvp_te.Wire.Builder.Layout.{Holds, encode_obj, length-encode_obj, add_obj-Holds}
use rsvp_te.Wire.Builder.Finish.{init-Holds, sized_hdr, finalize_lem}
use rsvp_te.Wire.Parser.{◌>>=◌, PathKey, malformed_obj}
use rsvp_te.Wire.Parser.Store.{set_session}
use rsvp_te.Wire.Parser.Loop.{rsvp_parse_packet, require, has_mandatory}
use rsvp_te.Wire.Parser.Required.{start_info}
use rsvp_te.Wire.RoundTrip.{Obj, Fit, encode_all, store_all, parse-finalize, take-finalize}

-- The senders add their objects one after the other, and do not look at the results.
unfoldable pub add_all : Builder → List Obj → Builder
add_all b [] = b
add_all b (o ∷ os) = add_all (rsvp_builder_add_obj b o.class_num o.c_type o.payload).1 os

unfoldable pub build_message : ℕ → ℕ → List Obj → ℕ × Builder
build_message size msg_type os =
    rsvp_builder_finalize (add_all (rsvp_builder_init size msg_type) os)

add_all-Holds :
    (os : List Obj) {b : Builder} {hdr body : List ℕ} {room : ℕ}
    → Holds b hdr body room
    → length (encode_all os) ≤ room
    → Holds (add_all b os) hdr (body ++ encode_all os) (room - length (encode_all os))
unfolding add_all encode_all
add_all-Holds [] {body = body} {room = room} h fits =
    rw append-nil (rw (let e : room - 0 ≡ room = omega arith in e) h)
add_all-Holds (o ∷ os) {b} {hdr} {body} {room} h fits =
    let len : length (encode_obj o.class_num o.c_type o.payload ++ encode_all os)
        ≡ align (obj_hdr_len + length o.payload) + length (encode_all os) =
      omega (
        arith,
        length-append (encode_obj o.class_num o.c_type o.payload) (encode_all os),
        length-encode_obj o.class_num o.c_type o.payload,
      ) in
    elim (add_obj-Holds o.class_num o.c_type o.payload h) [
      | inl (_, full, _) ↦ absurd (omega (arith, len))
      | inr (_, _, h') ↦
          let rest = add_all-Holds os h' (omega (arith, len)) in
          let room' : room - align (obj_hdr_len + length o.payload) - length (encode_all os)
              ≡ room - length (encode_obj o.class_num o.c_type o.payload ++ encode_all os) =
            omega (arith, len) in
          rw (append_assoc body (encode_obj o.class_num o.c_type o.payload) (encode_all os), room')
            at rest
    ]

-- Any list of objects, built in a buffer that has room for them all by `rsvp_builder_init`,
-- `rsvp_builder_add_obj` for each, and `rsvp_builder_finalize`, then received behind an IP header of
-- at least 20 bytes that gives its own length: the parser stores exactly these objects, in order,
-- and rejects the packet only if one of them is of an unknown class below 128 or a mandatory object is missing. The
-- message has fewer than 2 ^ 16 bytes, and its type is a byte.
pub parse-build_message :
    (room msg_type : ℕ) (os : List Obj) (ip : List ℕ)
    → length (encode_all os) ≤ room
    → Fit os
    → msg_type < 256
    → 8 + length (encode_all os) < 2 ^ 16
    → length ip ≡ read8 ip 0 % 16 * 4
    → 20 ≤ length ip
    → let (len, b) = build_message (8 + room) msg_type os in
      let packet = ip ++ take len b.buffer in
      rsvp_parse_packet packet ≡ (
        store_all os (start_info packet) >>= λ parsed.
        require (has_mandatory msg_type parsed) malformed_obj parsed)
unfolding build_message
parse-build_message room msg_type os ip fits fit t s e h20 =
    let holds = add_all-Holds os (init-Holds room msg_type) fits in
    parse-finalize msg_type os ip holds fit t (omega (arith, holds.used)) e h20

-- A message is as long as its header and its objects.
pub length-build_message :
    (room msg_type : ℕ) (os : List Obj)
    → length (encode_all os) ≤ room
    → msg_type < 256
    → 8 + length (encode_all os) < 2 ^ 16
    → let (len, b) = build_message (8 + room) msg_type os in
      length (take len b.buffer) ≡ 8 + length (encode_all os)
unfolding build_message
length-build_message room msg_type os fits t s =
    let holds = add_all-Holds os (init-Holds room msg_type) fits in
    let (_, (c, d, _, _, holds', _)) = finalize_lem holds t (omega (arith, holds.used)) in
    rw (take-finalize _ holds') (
      length-append
        (sized_hdr msg_type c d
          (rsvp_builder_finalize (add_all (rsvp_builder_init (8 + room) msg_type) os)).0)
        (encode_all os))

-- The SESSION that `rsvp_builder_add_session_ipv4` sends is the session part of the receiver's key,
-- for addresses of 32 bits and tunnel identifiers of 16.
pub set_session-session_ipv4 :
    (key : PathKey) (dest tunnel_id ext_tunnel_id : ℕ)
    → dest < 2 ^ 32
    → tunnel_id < 2 ^ 16
    → ext_tunnel_id < 2 ^ 32
    → set_session key (session_ipv4 dest tunnel_id ext_tunnel_id) ≡ record key {
      dest_addr = dest;
      session_reserved = 0;
      tunnel_id = tunnel_id;
      extended_tunnel_id = ext_tunnel_id;
    }
unfolding session_ipv4
set_session-session_ipv4 key dest tunnel_id ext_tunnel_id hd ht he = ground arith
