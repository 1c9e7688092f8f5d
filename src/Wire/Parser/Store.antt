-- ===== src/Wire/Parser/Store.antt =====
-- The `switch` on the object class in `rsvp_parse_packet` of src/pi/rsvp_parser.c: where an object
-- goes, and which objects are passed over or rejected. The first object of a class wins.
use rsvp_te.Prelude.{
  ℕ, ◌-◌, Bool, List, ltb, leb, ◌==◌, ◌&&◌, ◌||◌, not, if◌then◌else◌, length, take, drop, c_string,
  Option, none, some,
}
use rsvp_te.Wire.{
  read8, read16, read32, class_session, class_hop, class_integrity, class_time_values,
  class_error_spec, class_style, class_flowspec, class_filter_spec, class_sender_template,
  class_sender_tspec, class_adspec, class_label, class_label_request, class_explicit_route,
  class_record_route, class_hello, class_detour, class_fast_reroute, class_session_attrib,
}
use rsvp_te.Wire.Parser.{Result, ok, err, PathKey, MessageInfo, unknown_class, is_some}

-- `if (slot) break; if (accepted) slot = obj_data;`
abbrev pub first_of_class : Option (List ℕ) → Bool → List ℕ → Option (List ℕ)
first_of_class (some old) accepted obj = some old
first_of_class none accepted obj = if accepted then some obj else none

-- `memcpy(&key.session, …)` and `memcpy(&key.sender, …)`
abbrev pub set_session : PathKey → List ℕ → PathKey
set_session key s = record key {
  dest_addr = read32 s 0;
  session_reserved = read16 s 4;
  tunnel_id = read16 s 6;
  extended_tunnel_id = read32 s 8;
}

abbrev pub set_sender : PathKey → List ℕ → PathKey
set_sender key s = record key {
  source_addr = read32 s 0;
  sender_reserved = read16 s 4;
  lsp_id = read16 s 6;
}

unfoldable pub store_session : MessageInfo → ℕ → List ℕ → MessageInfo
store_session info c_type obj =
    if not (is_some info.sess_v4) && c_type == 7 && leb 12 (length obj)
    then record info { sess_v4 = some obj; key = set_session info.key obj }
    else info

unfoldable pub store_sender : MessageInfo → ℕ → List ℕ → MessageInfo
store_sender info c_type obj =
    if not (is_some info.sender_v4) && (c_type == 1 || c_type == 7) && leb 8 (length obj)
    then record info { sender_v4 = some obj; key = set_sender info.key obj }
    else info

-- The name is clamped to the bytes of the object, then to 255 bytes for the terminator's sake. It is read as a
-- C string, up to its first NUL.
unfoldable pub attrib_name : List ℕ → List ℕ
attrib_name obj =
    let available = length obj - 4 in
    let nlen = if ltb available (read8 obj 3) then available else read8 obj 3 in
    c_string (take (if leb 256 nlen then 255 else nlen) (drop 4 obj))

unfoldable pub store_sess_attr : MessageInfo → ℕ → List ℕ → MessageInfo
unfolding attrib_name
store_sess_attr info c_type obj =
    if not (is_some info.sess_attr) && c_type == 7 && leb 4 (length obj)
    then if ltb 0 (read8 obj 3)
      then record info { sess_attr = some obj; lsp_name = attrib_name obj }
      else record info { sess_attr = some obj }
    else info

unfoldable pub store_hello : MessageInfo → ℕ → List ℕ → MessageInfo
store_hello info c_type obj =
    if not (is_some info.hello_obj) && (c_type == 1 || c_type == 2) && leb 8 (length obj)
    then record info { hello_obj = some obj; hello_ctype = c_type }
    else info

-- The members of `struct rsvp_message_info` that a class fills by a test on C-Type and size alone.
pub data Slot : Type 0 where
  integrity hop_v4 time_values style flowspec error_spec tspec adspec label label_req ero rro
        fast_reroute detour :
      Slot

unfoldable pub slot_of : ℕ → Option Slot
slot_of class_num =
    if class_num == class_integrity
    then some Slot.integrity
    else if class_num == class_hop
    then some Slot.hop_v4
    else if class_num == class_time_values
    then some Slot.time_values
    else if class_num == class_style
    then some Slot.style
    else if class_num == class_flowspec
    then some Slot.flowspec
    else if class_num == class_error_spec
    then some Slot.error_spec
    else if class_num == class_sender_tspec
    then some Slot.tspec
    else if class_num == class_adspec
    then some Slot.adspec
    else if class_num == class_label
    then some Slot.label
    else if class_num == class_label_request
    then some Slot.label_req
    else if class_num == class_explicit_route
    then some Slot.ero
    else if class_num == class_record_route
    then some Slot.rro
    else if class_num == class_fast_reroute
    then some Slot.fast_reroute
    else if class_num == class_detour
    then some Slot.detour
    else none

-- The condition on the C-Type and on the bytes behind the header.
unfoldable pub accepts : Slot → ℕ → ℕ → Bool
accepts integrity c_type n = leb 16 n
accepts hop_v4 c_type n = c_type == 1 && leb 8 n
accepts time_values c_type n = leb 4 n
accepts style c_type n = leb 4 n
accepts flowspec c_type n = leb 32 n
accepts error_spec c_type n = leb 8 n
accepts tspec c_type n = leb 32 n
accepts adspec c_type n = leb 4 n
accepts label c_type n = leb 4 n
accepts label_req c_type n = leb 4 n
accepts ero c_type n = ltb 0 n
accepts rro c_type n = ltb 0 n
accepts fast_reroute c_type n = c_type == 1 && leb 20 n
accepts detour c_type n = c_type == 7 && leb 8 n

unfoldable pub put : Slot → Bool → List ℕ → MessageInfo → MessageInfo
put integrity accepted obj info = record info {
  integrity = first_of_class info.integrity accepted obj;
}
put hop_v4 accepted obj info = record info { hop_v4 = first_of_class info.hop_v4 accepted obj }
put time_values accepted obj info = record info {
  time_values = first_of_class info.time_values accepted obj;
}
put style accepted obj info = record info { style = first_of_class info.style accepted obj }
put flowspec accepted obj info = record info {
  flowspec = first_of_class info.flowspec accepted obj;
}
put error_spec accepted obj info = record info {
  error_spec = first_of_class info.error_spec accepted obj;
}
put tspec accepted obj info = record info { tspec = first_of_class info.tspec accepted obj }
put adspec accepted obj info = record info { adspec = first_of_class info.adspec accepted obj }
put label accepted obj info = record info { label = first_of_class info.label accepted obj }
put label_req accepted obj info = record info {
  label_req = first_of_class info.label_req accepted obj;
}
put ero accepted obj info = record info { ero = first_of_class info.ero accepted obj }
put rro accepted obj info = record info { rro = first_of_class info.rro accepted obj }
put fast_reroute accepted obj info = record info {
  fast_reroute = first_of_class info.fast_reroute accepted obj;
}
put detour accepted obj info = record info { detour = first_of_class info.detour accepted obj }

-- A class with no slot: below 128 the message is rejected, else the object is passed over.
unfoldable pub store_plain : MessageInfo → ℕ → ℕ → List ℕ → Result MessageInfo
store_plain info class_num c_type obj = elim (slot_of class_num) [
  | some slot ↦ ok (put slot (accepts slot c_type (length obj)) obj info)
  | none ↦ if ltb class_num 128 then err unknown_class else ok info
]

-- The whole `switch`. The classes are told apart by numbers, so the order of the tests is free.
unfoldable pub store_object : MessageInfo → ℕ → ℕ → List ℕ → Result MessageInfo
store_object info class_num c_type obj =
    if class_num == class_session
    then ok (store_session info c_type obj)
    else if class_num == class_sender_template || class_num == class_filter_spec
    then ok (store_sender info c_type obj)
    else if class_num == class_session_attrib
    then ok (store_sess_attr info c_type obj)
    else if class_num == class_hello
    then ok (store_hello info c_type obj)
    else store_plain info class_num c_type obj
