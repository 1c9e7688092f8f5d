-- ===== src/Wire/Parser.antt =====
-- `rsvp_parse_packet` of src/pi/rsvp_parser.c: the bytes of an IP packet to the objects of an RSVP
-- message. A pointer to an object is the object's bytes past its header, or `none` for NULL.
pub mod Store
pub mod Loop
pub mod Safety
pub mod First
pub mod Required
pub mod Ensures
mod Tests
use rsvp_te.Prelude.{
  ℕ, zero, suc, ◌+◌, ◌-◌, ◌*◌, ◌/◌, ◌%◌, ◌^◌, Bool, true, false, List, [], ◌∷◌, ltb, leb, ◌==◌,
  ◌&&◌, ◌||◌, not, if◌then◌else◌, length, take, drop, get_or, Option, none, some,
}
use rsvp_te.Wire.{read8, read16, read32, hdr_len}

-- The codes of src/common/rsvp_error.h that the parser returns.
pub data ParseError : Type 0 where
  malformed_obj invalid_param buffer_too_small checksum_error unknown_class : ParseError

-- `out_of_fuel` stands for a loop that was not given enough rounds; it is shown not to occur.
pub data Result {ℓ} (A : Type ℓ) : Type ℓ where
  ok : A → Result A
  err : ParseError → Result A
  out_of_fuel : Result A

infixl 5 ◌>>=◌
abbrev pub ◌>>=◌ {ℓ κ} : {A : Type ℓ} {B : Type κ} → Result A → (A → Result B) → Result B
ok a >>= f = f a
err e >>= f = err e
out_of_fuel >>= f = out_of_fuel

-- `struct rsvp_path_key`: the session and the sender template in host order. The reserved fields
-- belong to it, since keys are compared by `memcmp`.
pub record PathKey : Type 0 where
  pub dest_addr : ℕ
  pub session_reserved : ℕ
  pub tunnel_id : ℕ
  pub extended_tunnel_id : ℕ
  pub source_addr : ℕ
  pub sender_reserved : ℕ
  pub lsp_id : ℕ

-- `struct rsvp_message_info`, without the members that the parser never sets.
pub record MessageInfo : Type 0 where
  pub common_hdr : Option (List ℕ)
  pub src_ip : ℕ
  pub dst_ip : ℕ
  pub key : PathKey
  pub payload : List ℕ
  pub sess_v4 : Option (List ℕ)
  pub hop_v4 : Option (List ℕ)
  pub sender_v4 : Option (List ℕ)
  pub time_values : Option (List ℕ)
  pub error_spec : Option (List ℕ)
  pub integrity : Option (List ℕ)
  pub tspec : Option (List ℕ)
  pub flowspec : Option (List ℕ)
  pub adspec : Option (List ℕ)
  pub style : Option (List ℕ)
  pub ero : Option (List ℕ)
  pub rro : Option (List ℕ)
  pub label : Option (List ℕ)
  pub label_req : Option (List ℕ)
  pub sess_attr : Option (List ℕ)
  pub fast_reroute : Option (List ℕ)
  pub detour : Option (List ℕ)
  pub hello_obj : Option (List ℕ)
  pub hello_ctype : ℕ
  pub lsp_name : List ℕ

abbrev pub zero_key : PathKey
zero_key = record {
  dest_addr = 0;
  session_reserved = 0;
  tunnel_id = 0;
  extended_tunnel_id = 0;
  source_addr = 0;
  sender_reserved = 0;
  lsp_id = 0;
}

-- `memset(info, 0, sizeof *info)`
abbrev pub zero_info : MessageInfo
zero_info = record {
  common_hdr = none;
  src_ip = 0;
  dst_ip = 0;
  key = zero_key;
  payload = [];
  sess_v4 = none;
  hop_v4 = none;
  sender_v4 = none;
  time_values = none;
  error_spec = none;
  integrity = none;
  tspec = none;
  flowspec = none;
  adspec = none;
  style = none;
  ero = none;
  rro = none;
  label = none;
  label_req = none;
  sess_attr = none;
  fast_reroute = none;
  detour = none;
  hello_obj = none;
  hello_ctype = 0;
  lsp_name = [];
}

abbrev pub is_some {ℓ} : {A : Type ℓ} → Option A → Bool
is_some none = false
is_some (some a) = true
