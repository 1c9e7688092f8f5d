-- ===== src/Wire.antt =====
-- src/common/rsvp_protocol.h and the byte order of the wire. A 16- or 32-bit field in network
-- order is modelled by its bytes in memory, most significant first, whatever the host's order is.
pub mod Checksum
pub mod Builder
pub mod Parser
pub mod RoundTrip
use rsvp_te.Prelude.{
  ℕ, ◌+◌, ◌*◌, ◌/◌, ◌%◌, ◌^◌, ◌<◌, ◌≡◌, refl, List, [], ◌∷◌, ◌++◌, arith, get_or, length, AllBytes,
}

abbrev pub u16 : ℕ
u16 = 2 ^ 16

abbrev pub u32 : ℕ
u32 = 2 ^ 32

-- What `htons` and `htonl` leave in memory.
abbrev pub be16 : ℕ → List ℕ
be16 x = x / 256 % 256 ∷ x % 256 ∷ []

abbrev pub be32 : ℕ → List ℕ
be32 x = x / 2 ^ 24 % 256 ∷ x / 2 ^ 16 % 256 ∷ x / 2 ^ 8 % 256 ∷ x % 256 ∷ []

-- `ntohs` and `ntohl` of the field at byte `i`.
abbrev pub read8 : List ℕ → ℕ → ℕ
read8 bs i = get_or bs i 0

abbrev pub read16 : List ℕ → ℕ → ℕ
read16 bs i = get_or bs i 0 * 256 + get_or bs (i + 1) 0

abbrev pub read32 : List ℕ → ℕ → ℕ
read32 bs i = read16 bs i * u16 + read16 bs (i + 2)

-- `RSVP_ALIGN(len)`, `(len + 3) & ~3`
abbrev pub align : ℕ → ℕ
align len = (len + 3) / 4 * 4

abbrev pub hdr_len : ℕ
hdr_len = 8

abbrev pub obj_hdr_len : ℕ
obj_hdr_len = 4

-- `RSVP_MSG_…`
abbrev pub msg_path : ℕ
msg_path = 1

abbrev pub msg_resv : ℕ
msg_resv = 2

abbrev pub msg_patherr : ℕ
msg_patherr = 3

abbrev pub msg_resverr : ℕ
msg_resverr = 4

abbrev pub msg_pathtear : ℕ
msg_pathtear = 5

abbrev pub msg_resvtear : ℕ
msg_resvtear = 6

abbrev pub msg_hello : ℕ
msg_hello = 20

-- `RSVP_CLASS_…`
abbrev pub class_session : ℕ
class_session = 1

abbrev pub class_hop : ℕ
class_hop = 3

abbrev pub class_integrity : ℕ
class_integrity = 4

abbrev pub class_time_values : ℕ
class_time_values = 5

abbrev pub class_error_spec : ℕ
class_error_spec = 6

abbrev pub class_style : ℕ
class_style = 8

abbrev pub class_flowspec : ℕ
class_flowspec = 9

abbrev pub class_filter_spec : ℕ
class_filter_spec = 10

abbrev pub class_sender_template : ℕ
class_sender_template = 11

abbrev pub class_sender_tspec : ℕ
class_sender_tspec = 12

abbrev pub class_adspec : ℕ
class_adspec = 13

abbrev pub class_label : ℕ
class_label = 16

abbrev pub class_label_request : ℕ
class_label_request = 19

abbrev pub class_explicit_route : ℕ
class_explicit_route = 20

abbrev pub class_record_route : ℕ
class_record_route = 21

abbrev pub class_hello : ℕ
class_hello = 22

abbrev pub class_detour : ℕ
class_detour = 63

abbrev pub class_fast_reroute : ℕ
class_fast_reroute = 205

abbrev pub class_session_attrib : ℕ
class_session_attrib = 207
