-- ===== src/Wire/Parser/Required.antt =====
-- The guards of `rsvp_parse_packet` in src/pi/rsvp_parser.c: it always returns, and what it accepts
-- has a sound header and the objects that its message type must have.
use rsvp_te.Prelude.{
  ℕ, zero, suc, ◌+◌, ◌*◌, ◌/◌, ◌%◌, ◌<◌, ◌≤◌, ◌≡◌, ◌≢◌, true, List, [], ◌∷◌, ◌==◌, if◌then◌else◌,
  length, take, drop, get_or, Option, none, some, arith, length-drop, length-take, inl, inr, ◌⊎◌,
  refl, sym, ◌∙◌,
}
use rsvp_te.Wire.{read8, read16, read32}
use rsvp_te.Wire.Checksum.{rsvp_checksum_verify}
use rsvp_te.Wire.Parser.{ParseError, ok, err, out_of_fuel, MessageInfo, zero_info}
use rsvp_te.Wire.Parser.Loop.{
  parse_objects, parse_message, rsvp_parse_packet, has_mandatory, Result-cases, parse_objects-total,
}

-- The RSVP message of an IP packet: past the IP header, as long as its length field says.
abbrev pub ip_hdr_len : List ℕ → ℕ
ip_hdr_len buffer = read8 buffer 0 % 16 * 4

abbrev pub message_of : List ℕ → List ℕ
message_of buffer =
    take (read16 (drop (ip_hdr_len buffer) buffer) 6) (drop (ip_hdr_len buffer) buffer)

-- RFC 2205 and RFC 3209: the objects that a message of each type must carry.
abbrev pub must_have : ℕ → MessageInfo → List (Option (List ℕ))
must_have t info =
    if t == 1
    then info.sess_v4 ∷ info.sender_v4 ∷ []
    else if t == 2
    then info.sess_v4 ∷ info.hop_v4 ∷ info.style ∷ []
    else if t == 3
    then info.sess_v4 ∷ info.error_spec ∷ []
    else if t == 4
    then info.sess_v4 ∷ info.error_spec ∷ []
    else if t == 5
    then info.sess_v4 ∷ info.sender_v4 ∷ []
    else if t == 6
    then info.sess_v4 ∷ info.hop_v4 ∷ []
    else []

abbrev pub AllPresent : List (Option (List ℕ)) → Type 0
AllPresent [] = Unit {0}
AllPresent (none ∷ os) = ⊥
AllPresent (some obj ∷ os) = AllPresent os

has_mandatory-AllPresent :
    (t : ℕ) (info : MessageInfo) → has_mandatory t info ≡ true → AllPresent (must_have t info)
unfolding has_mandatory
has_mandatory-AllPresent t info h = ground arith

parse_message-ok :
    (msg : List ℕ) (start info : MessageInfo)
    → parse_message msg start ≡ ok info
    → (read8 msg 0 / 16 ≡ 1)
      × ((read16 msg 2 ≡ 0) ⊎ (rsvp_checksum_verify msg ≡ true))
      × (has_mandatory (read8 msg 1) info ≡ true)
unfolding parse_message
parse_message-ok msg start info e = ground arith

-- What the parser hands to its second half.
abbrev pub start_info : List ℕ → MessageInfo
start_info buffer = record zero_info {
  common_hdr = some (message_of buffer);
  src_ip = read32 buffer 12;
  dst_ip = read32 buffer 16;
  payload = drop 8 (message_of buffer);
}

-- A packet fails on its headers, or they are sound and the message decides.
pub packet_cases :
    (buffer : List ℕ)
    → ((e : ParseError) × (rsvp_parse_packet buffer ≡ err e))
      ⊎ ((20 ≤ ip_hdr_len buffer)
          × (8 ≤ read16 (drop (ip_hdr_len buffer) buffer) 6)
          × (ip_hdr_len buffer + read16 (drop (ip_hdr_len buffer) buffer) 6 ≤ length buffer)
          × (rsvp_parse_packet buffer ≡ parse_message (message_of buffer) (start_info buffer)))
unfolding rsvp_parse_packet
packet_cases buffer = ground arith

-- Sound headers leave the decision to the message.
pub packet_ok :
    (buffer : List ℕ)
    → 20 ≤ ip_hdr_len buffer
    → 8 ≤ read16 (drop (ip_hdr_len buffer) buffer) 6
    → ip_hdr_len buffer + read16 (drop (ip_hdr_len buffer) buffer) 6 ≤ length buffer
    → rsvp_parse_packet buffer ≡ parse_message (message_of buffer) (start_info buffer)
unfolding rsvp_parse_packet
packet_ok buffer h20 h8 fits = ground arith

get_or-take : (n i : ℕ) (xs : List ℕ) → i < n → get_or (take n xs) i 0 ≡ get_or xs i 0
get_or-take zero i xs h = absurd (omega arith)
get_or-take (suc n) i [] h = refl
get_or-take (suc n) zero (x ∷ xs) h = refl
get_or-take (suc n) (suc i) (x ∷ xs) h = get_or-take n i xs (omega arith)

-- The message is as long as its length field says.
length-message_of :
    (buffer : List ℕ)
    → 8 ≤ read16 (drop (ip_hdr_len buffer) buffer) 6
    → ip_hdr_len buffer + read16 (drop (ip_hdr_len buffer) buffer) 6 ≤ length buffer
    → (length (message_of buffer) ≡ read16 (drop (ip_hdr_len buffer) buffer) 6)
      × (read16 (message_of buffer) 6 ≡ read16 (drop (ip_hdr_len buffer) buffer) 6)
length-message_of buffer h h' =
    let rsvp = drop (ip_hdr_len buffer) buffer in
    (
      omega (arith, length-take (read16 rsvp 6) rsvp, length-drop (ip_hdr_len buffer) buffer),
      omega (
        arith,
        get_or-take (read16 rsvp 6) 6 rsvp (omega arith),
        get_or-take (read16 rsvp 6) 7 rsvp (omega arith),
      ),
    )

-- A packet that is accepted has an IP header of at least 20 bytes, then a whole RSVP message of at
-- least 8 bytes with version 1, a checksum that is zero or right, and every object that is
-- mandatory for its type.
pub parse_accepts :
    (buffer : List ℕ) (info : MessageInfo)
    → rsvp_parse_packet buffer ≡ ok info
    → let msg = message_of buffer in
      (20 ≤ ip_hdr_len buffer)
      × (8 ≤ length msg)
      × (length msg ≡ read16 msg 6)
      × (read8 msg 0 / 16 ≡ 1)
      × ((read16 msg 2 ≡ 0) ⊎ (rsvp_checksum_verify msg ≡ true))
      × AllPresent (must_have (read8 msg 1) info)
parse_accepts buffer info e = elim (packet_cases buffer) [
  | inl (c, bad) ↦ absurd (ground arith)
  | inr (h20, h8, fits, good) ↦
      let (len, field) = length-message_of buffer h8 fits in
      let (version, sum, objects) = parse_message-ok _ _ info (sym good ∙ e) in
      (
        h20,
        omega arith,
        len ∙ sym field,
        version,
        sum,
        has_mandatory-AllPresent (read8 (message_of buffer) 1) info objects,
      )
]

parse_message-total : (msg : List ℕ) (info : MessageInfo) → parse_message msg info ≢ out_of_fuel
unfolding parse_message
parse_message-total msg info =
    elim (Result-cases (parse_objects (suc (length msg)) (drop 8 msg) info)) [
      | inl (parsed, e) ↦ ground arith
      | inr (inl (c, e)) ↦ ground arith
      | inr (inr e) ↦ absurd (parse_objects-total _ _ _ (omega (arith, length-drop 8 msg)) e)
    ]

-- The parser returns on every input: the rounds that its loop is given are always enough.
pub parse-total : (buffer : List ℕ) → rsvp_parse_packet buffer ≢ out_of_fuel
parse-total buffer = elim (packet_cases buffer) [
  | inl (c, bad) ↦ ground arith
  | inr (h20, h8, fits, good) ↦ rw good (parse_message-total _ _)
]
