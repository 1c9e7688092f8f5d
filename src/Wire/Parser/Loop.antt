-- ===== src/Wire/Parser/Loop.antt =====
-- The body of `rsvp_parse_packet` of src/pi/rsvp_parser.c: the checks on the two headers, the walk
-- over the objects, and the check for mandatory objects.
use rsvp_te.Prelude.{
  ℕ, zero, suc, ◌+◌, ◌-◌, ◌*◌, ◌/◌, ◌%◌, ◌<◌, ◌≡◌, ◌≢◌, Bool, true, false, List, ltb, ◌==◌, ◌&&◌,
  ◌||◌, not, if◌then◌else◌, length, take, drop, some, arith, length-drop, inl, inr, ◌⊎◌, refl,
}
use rsvp_te.Wire.{
  read8, read16, read32, align, obj_hdr_len, msg_path, msg_resv, msg_patherr, msg_resverr,
  msg_pathtear, msg_resvtear,
}
use rsvp_te.Wire.Checksum.{rsvp_checksum_verify}
use rsvp_te.Wire.Parser.{
  ParseError, Result, ok, err, out_of_fuel, ◌>>=◌, MessageInfo, zero_info, is_some, malformed_obj,
  invalid_param, buffer_too_small, checksum_error,
}
use rsvp_te.Wire.Parser.Store.{store_object, store_plain}

-- What the loop does with the rest of the payload after one object, whose padded length is known.
abbrev pub after_object :
    (List ℕ → MessageInfo → Result MessageInfo) → List ℕ → ℕ → MessageInfo → Result MessageInfo
after_object continue rest aligned info =
    if aligned == 0
    then err malformed_obj
    else if ltb (length rest) aligned
    then ok info
    else continue (drop aligned rest) info

-- One round of the loop; `rest` is what `obj_ptr` and `remaining` describe.
abbrev pub one_object :
    (List ℕ → MessageInfo → Result MessageInfo) → List ℕ → MessageInfo → Result MessageInfo
one_object continue rest info =
    let obj_len = read16 rest 0 in
    if ltb obj_len obj_hdr_len || ltb (length rest) obj_len
    then err malformed_obj
    else store_object info (read8 rest 2) (read8 rest 3)
        (take (obj_len - obj_hdr_len) (drop obj_hdr_len rest))
      >>= after_object continue rest (align obj_len)

-- `while (remaining >= sizeof(struct rsvp_obj_hdr))`, with the rounds that are left.
unfoldable pub parse_objects : ℕ → List ℕ → MessageInfo → Result MessageInfo
parse_objects zero rest info = out_of_fuel
parse_objects (suc fuel) rest info = elim (ltb (length rest) obj_hdr_len) [
  | true ↦ ok info
  | false ↦ one_object (parse_objects fuel) rest info
]

-- The mandatory objects of each message type; no IPv6 object is ever stored.
unfoldable pub has_mandatory : ℕ → MessageInfo → Bool
has_mandatory msg_type info =
    if msg_type == msg_path || msg_type == msg_pathtear
    then is_some info.sess_v4 && is_some info.sender_v4
    else if msg_type == msg_resv
    then is_some info.sess_v4 && (is_some info.hop_v4 && is_some info.style)
    else if msg_type == msg_patherr || msg_type == msg_resverr
    then is_some info.sess_v4 && is_some info.error_spec
    else if msg_type == msg_resvtear
    then is_some info.sess_v4 && is_some info.hop_v4
    else true

abbrev pub require : Bool → ParseError → MessageInfo → Result MessageInfo
require true e info = ok info
require false e info = err e

-- The RSVP message `msg`, whose length the header field has been checked to give: version,
-- checksum (0 means that the sender computed none), objects, mandatory objects.
unfoldable pub parse_message : List ℕ → MessageInfo → Result MessageInfo
parse_message msg info =
    if not (read8 msg 0 / 16 == 1)
    then err invalid_param
    else if not (read16 msg 2 == 0) && not (rsvp_checksum_verify msg)
    then err checksum_error
    else parse_objects (suc (length msg)) (drop 8 msg) info >>= λ parsed.
        require (has_mandatory (read8 msg 1) parsed) malformed_obj parsed

-- The checks on the IP header and on the length field of the RSVP header.
unfoldable pub rsvp_parse_packet : List ℕ → Result MessageInfo
rsvp_parse_packet buffer =
    let ip_hdr_len = read8 buffer 0 % 16 * 4 in
    let rsvp = drop ip_hdr_len buffer in
    let rsvp_len = read16 rsvp 6 in
    if ltb (length buffer) 20
    then err buffer_too_small
    else if ltb ip_hdr_len 20 || ltb (length buffer) ip_hdr_len
    then err invalid_param
    else if ltb (length buffer) (ip_hdr_len + 8)
    then err buffer_too_small
    else if ltb rsvp_len 8
    then err malformed_obj
    else if ltb (length buffer) (ip_hdr_len + rsvp_len)
    then err buffer_too_small
    else let msg = take rsvp_len rsvp in
      parse_message msg (record zero_info {
        common_hdr = some msg;
        src_ip = read32 buffer 12;
        dst_ip = read32 buffer 16;
        payload = drop 8 msg;
      })

store_plain-total :
    (info : MessageInfo) (c t : ℕ) (obj : List ℕ) → store_plain info c t obj ≢ out_of_fuel
unfolding store_plain
store_plain-total info c t obj = ground arith

store_object-total :
    (info : MessageInfo) (c t : ℕ) (obj : List ℕ) → store_object info c t obj ≢ out_of_fuel
unfolding store_object
store_object-total info c t obj = ground (arith, store_plain-total info c t obj)

pub Result-cases {ℓ} :
    {A : Type ℓ} (r : Result A)
    → ((a : A) × (r ≡ ok a)) ⊎ ((e : ParseError) × (r ≡ err e)) ⊎ (r ≡ out_of_fuel)
Result-cases (ok a) = inl (a, refl)
Result-cases (err e) = inr (inl (e, refl))
Result-cases out_of_fuel = inr (inr refl)

-- The loop ends: as many rounds as the payload has bytes, and one, are enough.
pub parse_objects-total :
    (fuel : ℕ) (rest : List ℕ) (info : MessageInfo)
    → length rest < fuel
    → parse_objects fuel rest info ≢ out_of_fuel
unfolding parse_objects
parse_objects-total zero rest info h = absurd (omega arith)
parse_objects-total (suc fuel) rest info h =
    elim (Result-cases (
      store_object info (read8 rest 2) (read8 rest 3)
        (take (read16 rest 0 - obj_hdr_len) (drop obj_hdr_len rest)))) [
          | inl (info', e) ↦ ground (
            arith,
            length-drop (align (read16 rest 0)) rest,
            parse_objects-total fuel (drop (align (read16 rest 0)) rest) info',
          )
          | inr (inl (c, e)) ↦ ground arith
          | inr (inr e) ↦ absurd (store_object-total _ _ _ _ e)
        ]
