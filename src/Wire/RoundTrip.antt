-- ===== src/Wire/RoundTrip.antt =====
-- What src/pi/rsvp_builder.c writes, src/pi/rsvp_parser.c reads back.
pub mod Build
mod Tests
use rsvp_te.Prelude.{
  ℕ, zero, suc, ◌+◌, ◌-◌, ◌*◌, ◌/◌, ◌%◌, ◌^◌, ◌<◌, ◌≤◌, ◌≡◌, ◌≢◌, Bool, true, false, List, [], ◌∷◌,
  ◌++◌, ltb, leb, ◌==◌, ◌&&◌, ◌||◌, not, if◌then◌else◌, length, take, drop, get_or, replicate,
  Option, none, some, arith, length-append, get_or-append, take-prefix, drop-prefix, length-drop,
  length-take, Bool-cases, inl, inr, ◌⊎◌, refl, sym, ap, ◌∙◌, append_assoc, append-nil, take-append,
  AllBytes,
}
use mathlib.Core.Path.{fun_ext}
use rsvp_te.Wire.{read8, read16, read32, align, obj_hdr_len, be16}
use rsvp_te.Wire.Checksum.{rsvp_checksum_verify}
use rsvp_te.Wire.Builder.{
  Builder, rsvp_builder_init, rsvp_builder_add_obj, rsvp_builder_finalize, obj_hdr,
}
use rsvp_te.Wire.Builder.Layout.{Holds, encode_obj, length-encode_obj, padding}
use rsvp_te.Wire.Builder.Finish.{open_hdr, sized_hdr, take-message, finalize_lem}
use rsvp_te.Wire.Parser.{
  ParseError, Result, ok, err, out_of_fuel, ◌>>=◌, MessageInfo, zero_info, malformed_obj,
}
use rsvp_te.Wire.Parser.Required.{ip_hdr_len, message_of, start_info, packet_ok}
use rsvp_te.Wire.Parser.Store.{store_object}
use rsvp_te.Wire.Parser.Loop.{
  Result-cases, parse_objects, one_object, after_object, parse_message, rsvp_parse_packet, require,
  has_mandatory,
}

-- An object to send: its class, its C-Type and its payload.
pub record Obj : Type 0 where
  pub class_num : ℕ
  pub c_type : ℕ
  pub payload : List ℕ

-- The length field of an object has 16 bits.
abbrev pub Fit : List Obj → Type 0
Fit [] = Unit {0}
Fit (o ∷ os) = (length o.payload + 4 < 2 ^ 16) × Fit os

unfoldable pub encode_all : List Obj → List ℕ
encode_all [] = []
encode_all (o ∷ os) = encode_obj o.class_num o.c_type o.payload ++ encode_all os

-- What a receiver makes of the objects, one after the other.
unfoldable pub store_all : List Obj → MessageInfo → Result MessageInfo
store_all [] info = ok info
store_all (o ∷ os) info = store_object info o.class_num o.c_type o.payload >>= store_all os

-- One round of the walk, from what the bytes `front` at its start say.
one_object_step :
    (continue : List ℕ → MessageInfo → Result MessageInfo) (front rest p : List ℕ)
    (info : MessageInfo) (n c t : ℕ)
    → read16 front 0 ≡ 4 + n
    → read8 front 2 ≡ c
    → read8 front 3 ≡ t
    → length front ≡ align (4 + n) + length rest
    → take n (drop 4 front) ≡ p
    → drop (align (4 + n)) front ≡ rest
    → one_object continue front info ≡ (store_object info c t p >>= continue rest)
one_object_step continue front rest p info n c t e16 ec et el ep er =
    let payload : take (read16 front 0 - 4) (drop 4 front) ≡ p =
      rw e16 (ap (λ k. take k (drop 4 front)) (omega arith) ∙ ep) in
    elim (Result-cases (store_object info c t p)) [
      | inl (info', e) ↦ ground arith
      | inr (inl (code, e)) ↦ ground arith
      | inr (inr e) ↦ ground arith
    ]

-- An object at the front of the payload is read as it was written, and the walk goes on behind it.
one_object-encode_obj :
    (continue : List ℕ → MessageInfo → Result MessageInfo) (o : Obj) (rest : List ℕ)
    (info : MessageInfo)
    → length o.payload + 4 < 2 ^ 16
    → one_object continue (encode_obj o.class_num o.c_type o.payload ++ rest) info
      ≡ (store_object info o.class_num o.c_type o.payload >>= continue rest)
unfolding encode_obj
one_object-encode_obj continue o rest info h =
    one_object_step continue (encode_obj o.class_num o.c_type o.payload ++ rest) rest o.payload info
      (length o.payload) o.class_num o.c_type (omega arith) refl refl
      (omega (
        arith,
        length-append (encode_obj o.class_num o.c_type o.payload) rest,
        length-encode_obj o.class_num o.c_type o.payload,
      ))
      (rw append_assoc (
        take-prefix o.payload (replicate (padding (length o.payload)) 0 ++ rest) (length o.payload)
          refl))
      (drop-prefix (encode_obj o.class_num o.c_type o.payload) rest (align (4 + length o.payload))
        (sym (length-encode_obj o.class_num o.c_type o.payload)))

parse_objects-encode_all :
    (os : List Obj) (fuel : ℕ) (info : MessageInfo)
    → Fit os
    → length (encode_all os) < fuel
    → parse_objects fuel (encode_all os) info ≡ store_all os info
unfolding parse_objects encode_all store_all
parse_objects-encode_all os zero info f h = absurd (omega arith)
parse_objects-encode_all [] (suc fuel) info f h = refl
parse_objects-encode_all (o ∷ os) (suc fuel) info f h =
    let len : length (encode_obj o.class_num o.c_type o.payload ++ encode_all os)
        ≡ align (4 + length o.payload) + length (encode_all os) =
      omega (
        arith,
        length-append (encode_obj o.class_num o.c_type o.payload) (encode_all os),
        length-encode_obj o.class_num o.c_type o.payload,
      ) in
    let long : ltb (length (encode_obj o.class_num o.c_type o.payload ++ encode_all os)) obj_hdr_len
        ≡ false =
      ground arith in
    rw (long, parse_objects, one_object-encode_obj (parse_objects fuel) o (encode_all os) info f.0)
      (ap
        (λ (k : MessageInfo → Result MessageInfo).
          store_object info o.class_num o.c_type o.payload >>= k)
        (fun_ext λ i. parse_objects-encode_all os fuel i f.1 (omega (arith, len))))

-- A message behind an IP header.
framed :
    (ip msg : List ℕ)
    → length ip ≡ read8 ip 0 % 16 * 4
    → 20 ≤ length ip
    → 8 ≤ length msg
    → read16 msg 6 ≡ length msg
    → (rsvp_parse_packet (ip ++ msg) ≡ parse_message msg (start_info (ip ++ msg)))
      × (message_of (ip ++ msg) ≡ msg)
framed ip msg e h20 h8 field =
    let hl : ip_hdr_len (ip ++ msg) ≡ length ip =
      omega (arith, get_or-append ip msg 0 (let z : ℕ = 0 in z) (omega arith), e) in
    let past : drop (ip_hdr_len (ip ++ msg)) (ip ++ msg) ≡ msg = drop-prefix ip msg _ hl in
    let whole : take (length msg) msg ≡ msg =
      ap (take (length msg)) (sym (append-nil msg)) ∙ take-append msg [] in
    let len : read16 (drop (ip_hdr_len (ip ++ msg)) (ip ++ msg)) 6 ≡ length msg = rw past field in
    let same : message_of (ip ++ msg) ≡ msg = rw (past, field) whole in
    (
      packet_ok (ip ++ msg) (omega arith) (omega arith) (omega (arith, length-append ip msg))
          ∙ ap (λ (m : List ℕ). parse_message m (start_info (ip ++ msg))) same,
      same,
    )

parse_message-sized :
    (msg_type c d len : ℕ) (os : List Obj) (info : MessageInfo)
    → Fit os
    → rsvp_checksum_verify (sized_hdr msg_type c d len ++ encode_all os) ≡ true
    → parse_message (sized_hdr msg_type c d len ++ encode_all os) info ≡ (
        store_all os info >>= λ parsed.
        require (has_mandatory msg_type parsed) malformed_obj parsed)
unfolding parse_message
parse_message-sized msg_type c d len os info fit good =
    rw
      (
        good,
        parse_objects-encode_all os (suc (length (sized_hdr msg_type c d len ++ encode_all os)))
            info fit (omega arith),
      )
      (ground arith)

pub take-finalize :
    (b : Builder) {hdr body : List ℕ} {room : ℕ}
    → Holds (rsvp_builder_finalize b).1 hdr body room
    → take (rsvp_builder_finalize b).0 (rsvp_builder_finalize b).1.buffer ≡ hdr ++ body
unfolding rsvp_builder_finalize
take-finalize b holds = take-message holds

-- Whatever objects a message is built from, each short enough for its length field: finished by
-- `rsvp_builder_finalize` (its type a byte, fewer than 2 ^ 16 bytes in all) and received behind an
-- IP header of at least 20 bytes that gives its own length, it passes every check of the parser up to the
-- mandatory objects, and the parser stores exactly those objects in order.
pub parse-finalize :
    {b : Builder} {room : ℕ} (msg_type : ℕ) (os : List Obj) (ip : List ℕ)
    → Holds b (open_hdr msg_type) (encode_all os) room
    → Fit os
    → msg_type < 256
    → b.offset < 2 ^ 16
    → length ip ≡ read8 ip 0 % 16 * 4
    → 20 ≤ length ip
    → let (len, b') = rsvp_builder_finalize b in
      let packet = ip ++ take len b'.buffer in
      rsvp_parse_packet packet ≡ (
        store_all os (start_info packet) >>= λ parsed.
        require (has_mandatory msg_type parsed) malformed_obj parsed)
parse-finalize {b} {room} msg_type os ip holds fit t s e h20 =
    let (len, (c, d, hc, hd, holds', good)) = finalize_lem holds t s in
    let used = holds.used in
    let n = (rsvp_builder_finalize b).0 in
    let (parsed, _) =
      framed ip (sized_hdr msg_type c d n ++ encode_all os) e h20 (omega arith) (omega arith) in
    rw (take-finalize b holds') (parsed ∙ parse_message-sized msg_type c d n os _ fit good)
