-- ===== src/StateDb/Blocks.antt =====
-- src/pi/rsvp_state.h: the state blocks.
use rsvp_te.Prelude.{ℕ, Bool, false, List, [], Option, none}
use rsvp_te.Wire.Builder.Objects.{Tspec, Hop}
use rsvp_te.Wire.Parser.{PathKey}

-- `rsvp_frr_mode_t`
pub data FrrMode : Type 0 where
  frr_none one_to_one facility : FrrMode

-- `struct rsvp_psb`, without `next_if`, which nothing uses. `next_hash` is the chain of the table,
-- and the two timers are in `Db`.
pub record Psb : Type 0 where
  pub key : PathKey
  pub prev_hop_addr : ℕ
  pub prev_hop_lih : ℕ
  pub ifindex_in : ℕ
  pub ifindex_out : ℕ
  pub lsp_name : List ℕ
  pub ero : List Hop
  pub rro : List Hop
  pub tspec : Tspec
  pub setup_prio : ℕ
  pub holding_prio : ℕ
  pub refresh_ms : ℕ
  pub ttl : ℕ
  pub refresh_count : ℕ
  pub is_ingress : Bool
  pub frr_mode : FrrMode
  pub is_bypass_tunnel : Bool
  pub frr_active : Bool
  pub bypass_tunnel_id : ℕ
  pub bypass_psb : Option ℕ
  pub frr_bandwidth : ℕ
  pub frr_protected_ifindex : ℕ
  pub is_mbb_pending : Bool
  pub mbb_old_lsp_id : ℕ
  pub associated_rsb : Option ℕ

-- `struct rsvp_rsb`
pub record Rsb : Type 0 where
  pub key : PathKey
  pub next_hop_addr : ℕ
  pub next_hop_lih : ℕ
  pub label_in : ℕ
  pub label_out : ℕ
  pub flowspec : Tspec
  pub style : ℕ
  pub refresh_ms : ℕ
  pub ttl : ℕ
  pub refresh_count : ℕ
  pub hal_handle : ℕ
  pub associated_psb : Option ℕ

-- `struct rsvp_bsb`
pub record Bsb : Type 0 where
  pub key : PathKey
  pub flowspec_qb : Tspec

abbrev pub zero_tspec : Tspec
zero_tspec = record {
  version = 0;
  reserved = 0;
  length_words = 0;
  service_hdr = 0;
  reserved2 = 0;
  svc_length = 0;
  param_id = 0;
  flags = 0;
  param_length = 0;
  token_bucket_rate = 0;
  token_bucket_size = 0;
  peak_data_rate = 0;
  min_policed_unit = 0;
  max_packet_size = 0;
}

-- What `calloc` and the copy of the key leave.
abbrev pub new_psb : PathKey → Psb
new_psb key = record {
  key = key;
  prev_hop_addr = 0;
  prev_hop_lih = 0;
  ifindex_in = 0;
  ifindex_out = 0;
  lsp_name = [];
  ero = [];
  rro = [];
  tspec = zero_tspec;
  setup_prio = 0;
  holding_prio = 0;
  refresh_ms = 0;
  ttl = 0;
  refresh_count = 0;
  is_ingress = false;
  frr_mode = FrrMode.frr_none;
  is_bypass_tunnel = false;
  frr_active = false;
  bypass_tunnel_id = 0;
  bypass_psb = none;
  frr_bandwidth = 0;
  frr_protected_ifindex = 0;
  is_mbb_pending = false;
  mbb_old_lsp_id = 0;
  associated_rsb = none;
}

abbrev pub new_rsb : PathKey → Rsb
new_rsb key = record {
  key = key;
  next_hop_addr = 0;
  next_hop_lih = 0;
  label_in = 0;
  label_out = 0;
  flowspec = zero_tspec;
  style = 0;
  refresh_ms = 0;
  ttl = 0;
  refresh_count = 0;
  hal_handle = 0;
  associated_psb = none;
}

abbrev pub new_bsb : PathKey → Bsb
new_bsb key = record { key = key; flowspec_qb = zero_tspec }
