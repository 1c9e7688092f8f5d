-- ===== src/Wire/Parser/Tests.antt =====
-- src/pi/rsvp_parser.c at concrete packets.
use rsvp_te.Prelude.{
  ℕ, ◌/◌, ◌≤◌, ◌≡◌, ◌≢◌, refl, ◌⊎◌, true, List, [], ◌∷◌, ◌++◌, length, some, drop,
}
use rsvp_te.Wire.{read8, read16}
use rsvp_te.Wire.Checksum.{rsvp_checksum_verify, complement, sum_words, fold_carry}
use rsvp_te.Wire.Parser.{
  zero_key, MessageInfo, zero_info, ok, err, out_of_fuel, unknown_class, malformed_obj,
}
use rsvp_te.Wire.Parser.Store.{
  set_session, store_session, store_object, store_hello, store_plain, slot_of,
}
use rsvp_te.Wire.Parser.Loop.{rsvp_parse_packet, parse_message, parse_objects, has_mandatory}
use rsvp_te.Wire.Parser.First.{is_session, is_sender, first_in, key_from, parse-Keyed}
use rsvp_te.Wire.Parser.Required.{
  ip_hdr_len, message_of, must_have, AllPresent, parse_accepts, parse-total,
}

abbrev ip_header : List ℕ
ip_header = 69 ∷ 0 ∷ 0 ∷ 40 ∷ 0 ∷ 0 ∷ 0 ∷ 0 ∷ 1 ∷ 46 ∷ 0 ∷ 0 ∷ 10 ∷ 0 ∷ 0 ∷ 1 ∷ 10 ∷ 0 ∷ 0 ∷ 2 ∷ []

abbrev instances : List ℕ
instances = 0 ∷ 0 ∷ 0 ∷ 7 ∷ 0 ∷ 0 ∷ 0 ∷ 9 ∷ []

abbrev hello_message : List ℕ
hello_message = 16 ∷ 20 ∷ 218 ∷ 185 ∷ 255 ∷ 0 ∷ 0 ∷ 20 ∷ 0 ∷ 12 ∷ 22 ∷ 1 ∷ instances

abbrev hello_info : MessageInfo
hello_info = record zero_info {
  common_hdr = some hello_message;
  src_ip = 0x0a00_0001;
  dst_ip = 0x0a00_0002;
  payload = drop 8 hello_message;
  hello_obj = some instances;
  hello_ctype = 1;
}

hello_parses : rsvp_parse_packet (ip_header ++ hello_message) ≡ ok hello_info
unfolding rsvp_parse_packet parse_message parse_objects has_mandatory store_object store_hello
    rsvp_checksum_verify complement sum_words fold_carry
hello_parses = refl

-- A PATH of the bare header, with no checksum, lacks its SESSION.
bare_path :
    rsvp_parse_packet (ip_header ++ (16 ∷ 1 ∷ 0 ∷ 0 ∷ 255 ∷ 0 ∷ 0 ∷ 8 ∷ [])) ≡ err malformed_obj
unfolding rsvp_parse_packet parse_message parse_objects has_mandatory
bare_path = refl

-- Class 2 is unknown and below 128.
unknown_object :
    rsvp_parse_packet (ip_header ++ (16 ∷ 20 ∷ 0 ∷ 0 ∷ 255 ∷ 0 ∷ 0 ∷ 12 ∷ 0 ∷ 4 ∷ 2 ∷ 1 ∷ []))
    ≡ err unknown_class
unfolding rsvp_parse_packet parse_message parse_objects has_mandatory store_object store_plain
    slot_of
unknown_object = refl

-- A message with two SESSION objects, and what the parser makes of it.
abbrev session : ℕ → List ℕ
session tunnel_id = 10 ∷ 0 ∷ 0 ∷ 2 ∷ 0 ∷ 0 ∷ 0 ∷ tunnel_id ∷ 10 ∷ 0 ∷ 0 ∷ 1 ∷ []

abbrev two_sessions : List ℕ
two_sessions =
    16 ∷ 20 ∷ 0 ∷ 0 ∷ 255 ∷ 0 ∷ 0 ∷ 40 ∷ (0 ∷ 16 ∷ 1 ∷ 7 ∷ session 1)
    ++ (0 ∷ 16 ∷ 1 ∷ 7 ∷ session 2)

abbrev first_session_info : MessageInfo
first_session_info = record zero_info {
  common_hdr = some two_sessions;
  src_ip = 0x0a00_0001;
  dst_ip = 0x0a00_0002;
  payload = drop 8 two_sessions;
  sess_v4 = some (session 1);
  key = set_session zero_key (session 1);
}

two_sessions_parse : rsvp_parse_packet (ip_header ++ two_sessions) ≡ ok first_session_info
unfolding rsvp_parse_packet parse_message parse_objects has_mandatory store_object store_session
two_sessions_parse = refl

parse-Keyed_example :
    let sess = first_in is_session (message_of (ip_header ++ two_sessions)) in
    let sender = first_in is_sender (message_of (ip_header ++ two_sessions)) in
    (first_session_info.sess_v4 ≡ sess)
    × (first_session_info.sender_v4 ≡ sender)
    × (first_session_info.key ≡ key_from sess sender)
parse-Keyed_example = parse-Keyed (ip_header ++ two_sessions) first_session_info two_sessions_parse

parse_accepts_example :
    let msg = message_of (ip_header ++ hello_message) in
    (20 ≤ ip_hdr_len (ip_header ++ hello_message))
    × (8 ≤ length msg)
    × (length msg ≡ read16 msg 6)
    × (read8 msg 0 / 16 ≡ 1)
    × ((read16 msg 2 ≡ 0) ⊎ (rsvp_checksum_verify msg ≡ true))
    × AllPresent (must_have (read8 msg 1) hello_info)
parse_accepts_example = parse_accepts (ip_header ++ hello_message) hello_info hello_parses

parse-total_example : rsvp_parse_packet (69 ∷ 0 ∷ []) ≢ out_of_fuel
parse-total_example = parse-total (69 ∷ 0 ∷ [])
