-- ===== src/Wire/Builder/Objects.antt =====
-- The `rsvp_builder_add_…` functions of src/pi/rsvp_builder.c over `rsvp_builder_add_obj`. An IPv4
-- address is the number that its four bytes spell; a float is its 32-bit IEEE pattern, which
-- `rsvp_float_to_net` only brings into network order. True stands for the return value 0.
use rsvp_te.Prelude.{
  ℕ, ◌+◌, ◌-◌, ◌*◌, ◌/◌, ◌%◌, ◌^◌, Bool, false, List, [], ◌∷◌, ◌++◌, ltb, if◌then◌else◌, length,
  take,
}
use rsvp_te.Wire.{
  be16, be32, read16, class_session, class_hop, class_integrity, class_time_values, class_style,
  class_flowspec, class_sender_tspec, class_adspec, class_label, class_label_request,
  class_explicit_route, class_record_route, class_hello, class_detour, class_fast_reroute,
  class_session_attrib,
}
use rsvp_te.Wire.Builder.{Builder, rsvp_builder_add_obj}

-- `struct rsvp_session_ipv4` and `struct rsvp_session_ipv6`
unfoldable pub session_ipv4 : ℕ → ℕ → ℕ → List ℕ
session_ipv4 dest tunnel_id ext_tunnel_id =
    be32 dest ++ (be16 0 ++ (be16 tunnel_id ++ be32 ext_tunnel_id))

unfoldable pub rsvp_builder_add_session_ipv4 : Builder → ℕ → ℕ → ℕ → Bool × Builder
rsvp_builder_add_session_ipv4 b dest tunnel_id ext_tunnel_id =
    rsvp_builder_add_obj b class_session 7 (session_ipv4 dest tunnel_id ext_tunnel_id)

-- An IPv6 address is its 16 bytes.
unfoldable pub rsvp_builder_add_session_ipv6 : Builder → List ℕ → ℕ → List ℕ → Bool × Builder
rsvp_builder_add_session_ipv6 b dest tunnel_id ext_tunnel_id =
    rsvp_builder_add_obj b class_session 8 (dest ++ (be16 0 ++ (be16 tunnel_id ++ ext_tunnel_id)))

-- `struct rsvp_session_attribute`; a name of more than 255 bytes is cut.
unfoldable pub session_attribute : ℕ → ℕ → ℕ → List ℕ → List ℕ
session_attribute setup_prio holding_prio flags name =
    let name_len = if ltb 255 (length name) then 255 else length name in
    setup_prio ∷ holding_prio ∷ flags ∷ name_len ∷ take name_len name

unfoldable pub rsvp_builder_add_session_attribute_ex : Builder → List ℕ → ℕ → ℕ → ℕ → Bool × Builder
rsvp_builder_add_session_attribute_ex b name setup_prio holding_prio flags =
    rsvp_builder_add_obj b class_session_attrib 7
      (session_attribute setup_prio holding_prio flags name)

unfoldable pub rsvp_builder_add_session_attribute : Builder → List ℕ → Bool × Builder
rsvp_builder_add_session_attribute b name = rsvp_builder_add_session_attribute_ex b name 0 0 4

-- `struct rsvp_fast_reroute`; the three affinities are 0.
unfoldable pub rsvp_builder_add_fast_reroute : Builder → ℕ → ℕ → ℕ → ℕ → ℕ → Bool × Builder
rsvp_builder_add_fast_reroute b setup_prio holding_prio hop_limit flags bandwidth =
    rsvp_builder_add_obj b class_fast_reroute 1 (
      setup_prio ∷ holding_prio ∷ hop_limit ∷ flags ∷ be32 bandwidth
      ++ (be32 0 ++ (be32 0 ++ be32 0)))

unfoldable pub rsvp_builder_add_detour : Builder → ℕ → ℕ → Bool × Builder
rsvp_builder_add_detour b plr_id avoid_node_id =
    rsvp_builder_add_obj b class_detour 7 (be32 plr_id ++ be32 avoid_node_id)

-- `struct rsvp_hop_ipv4`
unfoldable pub hop_ipv4 : ℕ → ℕ → List ℕ
hop_ipv4 neighbor logical_intf = be32 neighbor ++ be32 logical_intf

unfoldable pub rsvp_builder_add_hop_ipv4 : Builder → ℕ → ℕ → Bool × Builder
rsvp_builder_add_hop_ipv4 b neighbor logical_intf =
    rsvp_builder_add_obj b class_hop 1 (hop_ipv4 neighbor logical_intf)

unfoldable pub rsvp_builder_add_hop_ipv6 : Builder → List ℕ → ℕ → Bool × Builder
rsvp_builder_add_hop_ipv6 b neighbor logical_intf =
    rsvp_builder_add_obj b class_hop 2 (neighbor ++ be32 logical_intf)

unfoldable pub rsvp_builder_add_label_ipv4 : Builder → ℕ → Bool × Builder
rsvp_builder_add_label_ipv4 b label = rsvp_builder_add_obj b class_label 1 (be32 label)

unfoldable pub rsvp_builder_add_label_request : Builder → ℕ → Bool × Builder
rsvp_builder_add_label_request b l3pid =
    rsvp_builder_add_obj b class_label_request 1 (be16 0 ++ be16 l3pid)

unfoldable pub rsvp_builder_add_style : Builder → ℕ → Bool × Builder
rsvp_builder_add_style b style_val = rsvp_builder_add_obj b class_style 1 (be32 style_val)

unfoldable pub rsvp_builder_add_time_values : Builder → ℕ → Bool × Builder
rsvp_builder_add_time_values b refresh_ms =
    rsvp_builder_add_obj b class_time_values 1 (be32 refresh_ms)

-- `struct rsvp_sender_tspec` in host order.
pub record Tspec : Type 0 where
  pub version : ℕ
  pub reserved : ℕ
  pub length_words : ℕ
  pub service_hdr : ℕ
  pub reserved2 : ℕ
  pub svc_length : ℕ
  pub param_id : ℕ
  pub flags : ℕ
  pub param_length : ℕ
  pub token_bucket_rate : ℕ
  pub token_bucket_size : ℕ
  pub peak_data_rate : ℕ
  pub min_policed_unit : ℕ
  pub max_packet_size : ℕ

-- The wire copy of a TSpec or a Flowspec: 32 bytes, so the length field is 32 / 4 - 1.
unfoldable pub wire_tspec : Tspec → List ℕ
wire_tspec t =
    (t.version ∷ t.reserved ∷ be16 7)
    ++ ((t.service_hdr ∷ t.reserved2 ∷ be16 t.svc_length)
        ++ ((t.param_id ∷ t.flags ∷ be16 t.param_length)
            ++ (be32 t.token_bucket_rate
                ++ (be32 t.token_bucket_size
                    ++ (be32 t.peak_data_rate
                        ++ (be32 t.min_policed_unit ++ be32 t.max_packet_size))))))

unfoldable pub rsvp_builder_add_tspec : Builder → Tspec → Bool × Builder
rsvp_builder_add_tspec b t = rsvp_builder_add_obj b class_sender_tspec 2 (wire_tspec t)

unfoldable pub rsvp_builder_add_flowspec : Builder → Tspec → Bool × Builder
rsvp_builder_add_flowspec b t = rsvp_builder_add_obj b class_flowspec 2 (wire_tspec t)

-- `adspec` is the memory behind the caller's pointer; its length field is bytes 2 and 3.
unfoldable pub rsvp_builder_add_adspec : Builder → List ℕ → Bool × Builder
rsvp_builder_add_adspec b adspec =
    rsvp_builder_add_obj b class_adspec 2 (take (4 + (read16 adspec 2 + 1) * 4) adspec)

unfoldable pub rsvp_builder_add_hello : Builder → ℕ → ℕ → ℕ → Bool × Builder
rsvp_builder_add_hello b src_instance dst_instance c_type =
    rsvp_builder_add_obj b class_hello c_type (be32 src_instance ++ be32 dst_instance)

-- `struct rsvp_ero_ipv4_subobj`, the element of an explicit or a recorded route.
pub record Hop : Type 0 where
  pub hop_type : ℕ
  pub hop_len : ℕ
  pub addr : ℕ
  pub prefix_len : ℕ
  pub res : ℕ

abbrev pub hop_bytes : Hop → List ℕ
hop_bytes h = h.hop_type ∷ h.hop_len ∷ be32 h.addr ++ (h.prefix_len ∷ h.res ∷ [])

unfoldable pub route_bytes : List Hop → List ℕ
route_bytes [] = []
route_bytes (h ∷ hs) = hop_bytes h ++ route_bytes hs

-- An empty route is refused (`RSVP_ERR_INVALID_PARAM`).
unfoldable pub rsvp_builder_add_ero : Builder → List Hop → Bool × Builder
rsvp_builder_add_ero b [] = (false, b)
rsvp_builder_add_ero b (h ∷ hs) =
    rsvp_builder_add_obj b class_explicit_route 1 (route_bytes (h ∷ hs))

unfoldable pub rsvp_builder_add_rro : Builder → List Hop → Bool × Builder
rsvp_builder_add_rro b [] = (false, b)
rsvp_builder_add_rro b (h ∷ hs) = rsvp_builder_add_obj b class_record_route 1 (route_bytes (h ∷ hs))

-- The result is a `size_t`: 0 for a digest that is too long and for success, -1 for a full buffer.
unfoldable pub rsvp_builder_add_integrity : Builder → ℕ → List ℕ → ℕ → List ℕ → ℕ × Builder
rsvp_builder_add_integrity b flags key_id sequence_number digest =
    if ltb 256 (16 + length digest)
    then (0, b)
    else let (ok, b') = rsvp_builder_add_obj b class_integrity 1 (
        flags ∷ 0 ∷ take 6 key_id
        ++ (be32 (sequence_number / 2 ^ 32) ++ (be32 (sequence_number % 2 ^ 32) ++ digest))) in
      (if ok then 0 else 2 ^ 64 - 1, b')
