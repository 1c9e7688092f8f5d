-- ===== src/Wire/Parser/Safety.antt =====
-- What a packet that `rsvp_parse_packet` of src/pi/rsvp_parser.c accepts is known to hold: each
-- pointer of the result has the whole of its C structure behind it, inside the packet.
use rsvp_te.Prelude.{ℕ, suc, ◌≤◌, Bool, true, false, List, length, drop, Option, none, some}
use rsvp_te.Wire.Parser.{ParseError, MessageInfo, zero_info}
use rsvp_te.Wire.Parser.Store.{
  integrity, hop_v4, time_values, style, flowspec, error_spec, tspec, adspec, label, label_req, ero,
  rro, fast_reroute, detour, store_object,
}
use rsvp_te.Wire.Parser.Ensures.{
  Ensures, on_ok, on_err, Ensures-if, Ensures-bind, parse_objects-Ensures,
}
use rsvp_te.Wire.Parser.Loop.{parse_message, rsvp_parse_packet, require}

abbrev pub AtLeast : ℕ → Option (List ℕ) → Type 0
AtLeast n none = Unit {0}
AtLeast n (some obj) = n ≤ length obj

-- The sizes of the C structures, so that reading any member stays inside the object; for the ERO and the RRO
-- what the parser asks for.
pub record Sized (info : MessageInfo) : Type 0 where
  pub sess_v4 : AtLeast 12 info.sess_v4
  pub hop_v4 : AtLeast 8 info.hop_v4
  pub sender_v4 : AtLeast 8 info.sender_v4
  pub time_values : AtLeast 4 info.time_values
  pub error_spec : AtLeast 8 info.error_spec
  pub integrity : AtLeast 16 info.integrity
  pub tspec : AtLeast 32 info.tspec
  pub flowspec : AtLeast 32 info.flowspec
  pub adspec : AtLeast 4 info.adspec
  pub style : AtLeast 4 info.style
  pub ero : AtLeast 1 info.ero
  pub rro : AtLeast 1 info.rro
  pub label : AtLeast 4 info.label
  pub label_req : AtLeast 4 info.label_req
  pub sess_attr : AtLeast 4 info.sess_attr
  pub fast_reroute : AtLeast 20 info.fast_reroute
  pub detour : AtLeast 8 info.detour
  pub hello_obj : AtLeast 8 info.hello_obj
  pub lsp_name : length info.lsp_name ≤ 255

require-Ensures :
    {P : MessageInfo → Type 0} (b : Bool) (e : ParseError) (info : MessageInfo)
    → P info
    → Ensures P (require b e info)
require-Ensures true e info p = on_ok p
require-Ensures false e info p = on_err e

-- A property that holds before the loop and that each object keeps holds of a parsed packet.
module _ (P : MessageInfo → Type 0)
    (keep : (info : MessageInfo) (c t : ℕ) (obj : List ℕ)
      → P info
      → Ensures P (store_object info c t obj)) where
  parse_message-Ensures :
      (msg : List ℕ) (info : MessageInfo) → P info → Ensures P (parse_message msg info)
  unfolding parse_message
  parse_message-Ensures msg info p =
      let walked = parse_objects-Ensures P keep (suc (length msg)) (drop 8 msg) info p in
      search (Ensures-if, on_err, Ensures-bind, require-Ensures, walked)

  pub parse_packet-Ensures :
      (buffer : List ℕ)
      → ((hdr : Option (List ℕ)) (src dst : ℕ) (payload : List ℕ)
          → P (record zero_info {
            common_hdr = hdr;
            src_ip = src;
            dst_ip = dst;
            payload = payload;
          }))
      → Ensures P (rsvp_parse_packet buffer)
  unfolding rsvp_parse_packet
  parse_packet-Ensures buffer start =
      search (Ensures-if, on_err, parse_message-Ensures, start) depth 9
