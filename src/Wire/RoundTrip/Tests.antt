-- ===== src/Wire/RoundTrip/Tests.antt =====
-- A Hello built by src/pi/rsvp_builder.c and read by src/pi/rsvp_parser.c.
use rsvp_te.Prelude.{ℕ, ◌+◌, ◌≡◌, refl, List, [], ◌∷◌, ◌++◌, arith, take}
use rsvp_te.Wire.Builder.Layout.{encode_obj}
use rsvp_te.Wire.Parser.{◌>>=◌, malformed_obj}
use rsvp_te.Wire.Parser.Loop.{rsvp_parse_packet, require, has_mandatory}
use rsvp_te.Wire.Parser.Required.{start_info}
use rsvp_te.Wire.RoundTrip.{Obj, encode_all, store_all}
use rsvp_te.Wire.RoundTrip.Build.{build_message, parse-build_message}

abbrev ip_header : List ℕ
ip_header = 69 ∷ 0 ∷ 0 ∷ 40 ∷ 0 ∷ 0 ∷ 0 ∷ 0 ∷ 1 ∷ 46 ∷ 0 ∷ 0 ∷ 10 ∷ 0 ∷ 0 ∷ 1 ∷ 10 ∷ 0 ∷ 0 ∷ 2 ∷ []

abbrev hello : List Obj
hello = record { class_num = 22; c_type = 1; payload = 0 ∷ 0 ∷ 0 ∷ 7 ∷ 0 ∷ 0 ∷ 0 ∷ 9 ∷ [] } ∷ []

parse-build_message_example :
    let (len, b) = build_message (8 + 120) 20 hello in
    let packet = ip_header ++ take len b.buffer in
    rsvp_parse_packet packet ≡ (
      store_all hello (start_info packet) >>= λ parsed.
      require (has_mandatory 20 parsed) malformed_obj parsed)
unfolding encode_all encode_obj
parse-build_message_example =
    parse-build_message 120 20 hello ip_header (omega arith) (omega arith) (omega arith)
      (omega arith) refl (omega arith)
