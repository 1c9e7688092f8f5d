-- ===== src/Machine/Messages.antt =====
-- The messages that src/pi/rsvp_state_machine.c builds. What the builder returns is not looked at, so
-- an object that does not fit is left out.
use rsvp_te.Prelude.{
  ℕ, ◌-◌, Bool, true, false, not, ◌&&◌, ◌||◌, List, [], ◌∷◌, ◌++◌, Option, none, some, ltb, ◌==◌,
  if◌then◌else◌, length, take, write_at,
}
use rsvp_te.Wire.{
  be16, be32, msg_path, msg_resv, msg_patherr, msg_resverr, msg_pathtear, msg_resvtear,
  class_error_spec, class_sender_template, class_filter_spec,
}
use rsvp_te.Wire.Builder.{Builder, rsvp_builder_init, rsvp_builder_add_obj, rsvp_builder_finalize}
use rsvp_te.Wire.Builder.Objects.{
  Tspec, Hop, rsvp_builder_add_session_ipv4, rsvp_builder_add_hop_ipv4,
  rsvp_builder_add_time_values, rsvp_builder_add_ero, rsvp_builder_add_label_request,
  rsvp_builder_add_session_attribute_ex, rsvp_builder_add_fast_reroute, rsvp_builder_add_tspec,
  rsvp_builder_add_rro, rsvp_builder_add_style, rsvp_builder_add_flowspec,
  rsvp_builder_add_label_ipv4,
}
use rsvp_te.Wire.Parser.{PathKey}
use rsvp_te.StateDb.Blocks.{FrrMode, frr_none, facility, Psb, Rsb}
use rsvp_te.Machine.{Hal}

-- `RSVP_STYLE_FF`, `MAX_RRO_HOPS`
abbrev pub style_ff : ℕ
style_ff = 10

abbrev pub max_rro_hops : ℕ
max_rro_hops = 32

-- The sender template of a key, as it lies in memory.
unfoldable pub sender_template : PathKey → List ℕ
sender_template key = be32 key.source_addr ++ (be16 key.sender_reserved ++ be16 key.lsp_id)

-- `rsvp_builder_init`, `hdr->ttl` and the SESSION of the key.
unfoldable pub start_message : ℕ → ℕ → ℕ → PathKey → Builder
start_message size msg_type ttl key =
    let b = rsvp_builder_init size msg_type in
    (rsvp_builder_add_session_ipv4 (record b { buffer = write_at b.buffer 4 (ttl ∷ []) })
      key.dest_addr key.tunnel_id key.extended_tunnel_id).1

-- `rsvp_builder_finalize`: the first `len` bytes of the buffer.
unfoldable pub finish_message : Builder → List ℕ
finish_message b = let (len, done) = rsvp_builder_finalize b in take len done.buffer

abbrev pub next_ttl : ℕ → ℕ
next_ttl ttl = if ltb 0 ttl then ttl - 1 else 255

abbrev add_sender : Builder → ℕ → PathKey → Builder
add_sender b class_num key = (rsvp_builder_add_obj b class_num 7 (sender_template key)).1

-- The ERROR_SPEC of `send_path_err` and `send_resv_err`; the flags are 0.
unfoldable pub error_spec_ipv4 : ℕ → ℕ → ℕ → List ℕ
error_spec_ipv4 node code value = be32 node ++ (0 ∷ code ∷ be16 value)

-- `send_path_err`
unfoldable pub path_err_message : PathKey → ℕ → ℕ → ℕ → List ℕ
path_err_message key node code value =
    let b = start_message 1024 msg_patherr 255 key in
    let b1 = (rsvp_builder_add_obj b class_error_spec 1 (error_spec_ipv4 node code value)).1 in
    finish_message (add_sender b1 class_sender_template key)

-- `send_resv_err`
unfoldable pub resv_err_message : PathKey → ℕ → ℕ → ℕ → List ℕ
resv_err_message key node code value =
    let b = start_message 1024 msg_resverr 255 key in
    let b1 = (rsvp_builder_add_obj b class_error_spec 1 (error_spec_ipv4 node code value)).1 in
    let b2 = (rsvp_builder_add_style b1 style_ff).1 in
    finish_message (add_sender b2 class_filter_spec key)

-- The ERROR_SPEC of the message that is passed on, if it has one.
abbrev add_error_spec : Builder → Option (List ℕ) → Builder
add_error_spec b none = b
add_error_spec b (some spec) = (rsvp_builder_add_obj b class_error_spec 1 (take 8 spec)).1

-- The message that `handle_path_err` sends on.
unfoldable pub passed_path_err : PathKey → ℕ → ℕ → Option (List ℕ) → List ℕ
passed_path_err key local_addr lih spec =
    let b = start_message 1024 msg_patherr 255 key in
    let b1 = (rsvp_builder_add_hop_ipv4 b local_addr lih).1 in
    finish_message (add_sender (add_error_spec b1 spec) class_sender_template key)

-- `propagate_resv_err`
unfoldable pub passed_resv_err : PathKey → ℕ → ℕ → Option (List ℕ) → List ℕ
passed_resv_err key local_addr ifindex spec =
    let b = start_message 1024 msg_resverr 255 key in
    let b1 = (rsvp_builder_add_hop_ipv4 b local_addr ifindex).1 in
    let b2 = (rsvp_builder_add_style (add_error_spec b1 spec) style_ff).1 in
    finish_message (add_sender b2 class_filter_spec key)

-- `propagate_path_tear`
unfoldable pub path_tear_message : Psb → ℕ → ℕ → List ℕ
path_tear_message psb local_addr ifindex =
    let b = start_message 1024 msg_pathtear (next_ttl psb.ttl) psb.key in
    let b1 = (rsvp_builder_add_hop_ipv4 b local_addr ifindex).1 in
    finish_message (add_sender b1 class_sender_template psb.key)

abbrev style_of : Rsb → ℕ
style_of rsb = if rsb.style == 0 then style_ff else rsb.style

-- `propagate_resv_tear`; the builder has set the TTL to 255.
unfoldable pub resv_tear_message : Psb → Rsb → ℕ → ℕ → List ℕ
resv_tear_message psb rsb local_addr lih =
    let b = start_message 1024 msg_resvtear 255 psb.key in
    let b1 = (rsvp_builder_add_hop_ipv4 b local_addr lih).1 in
    let b2 = (rsvp_builder_add_style b1 (style_of rsb)).1 in
    finish_message (add_sender b2 class_filter_spec psb.key)

-- `send_resv_upstream`, with the merged flowspec.
unfoldable pub resv_message : Psb → Rsb → Tspec → ℕ → ℕ → List ℕ
resv_message psb rsb merged local_addr lih =
    let b = start_message 1024 msg_resv (next_ttl rsb.ttl) psb.key in
    let b1 = (rsvp_builder_add_hop_ipv4 b local_addr lih).1 in
    let b2 = (rsvp_builder_add_time_values b1 rsb.refresh_ms).1 in
    let b3 = (rsvp_builder_add_style b2 (style_of rsb)).1 in
    let b4 = (rsvp_builder_add_flowspec b3 merged).1 in
    let b5 = add_sender b4 class_filter_spec psb.key in
    finish_message (rsvp_builder_add_label_ipv4 b5 rsb.label_in).1

-- The flags of the SESSION_ATTRIBUTE: local protection desired, SE style, and with a rerouted LSP
-- protection in use, of the bandwidth too in facility mode.
abbrev pub is_facility : FrrMode → Bool
is_facility facility = true
is_facility _ = false

abbrev pub has_frr : FrrMode → Bool
has_frr frr_none = false
has_frr _ = true

abbrev attribute_flags : Psb → ℕ
attribute_flags psb =
    if psb.frr_active then (if is_facility psb.frr_mode then 0x2d else 0x0d) else 0x05

-- The TSpec of 1 Mbit/s that stands in for a rate of 0.0f, which has the patterns 0 and 2 ^ 31.
abbrev default_tspec : Tspec → Tspec
default_tspec t =
    if t.token_bucket_rate == 0 || t.token_bucket_rate == 0x80000000
    then record t {
      version = 0;
      length_words = 7;
      service_hdr = 5;
      svc_length = 6;
      param_id = 127;
      param_length = 5;
      token_bucket_rate = 0x49742400;
      token_bucket_size = 0x447a0000;
      peak_data_rate = 0x49742400;
      min_policed_unit = 64;
      max_packet_size = 1500;
    }
    else t

-- The recorded route with this node at its end; nothing is added when it is full.
abbrev add_route : Builder → List Hop → ℕ → Builder
add_route b rro local_addr =
    let own : Hop = record {
      hop_type = 1;
      hop_len = 8;
      addr = local_addr;
      prefix_len = 32;
      res = 0;
    } in
    if ltb (length rro) max_rro_hops then (rsvp_builder_add_rro b (rro ++ (own ∷ []))).1 else b

-- `send_path_downstream`
unfoldable pub path_message : Hal → Psb → ℕ → ℕ → List ℕ
path_message hal psb local_addr ifindex =
    let b = start_message 1500 msg_path (next_ttl psb.ttl) psb.key in
    let b1 = (rsvp_builder_add_hop_ipv4 b local_addr ifindex).1 in
    let b2 = (rsvp_builder_add_time_values b1 psb.refresh_ms).1 in
    let b3 = (rsvp_builder_add_ero b2 psb.ero).1 in
    let b4 = (rsvp_builder_add_label_request b3 0x0800).1 in
    let b5 =
      (rsvp_builder_add_session_attribute_ex b4 psb.lsp_name psb.setup_prio psb.holding_prio
        (attribute_flags psb)).1 in
    let b6 =
      if has_frr psb.frr_mode && not psb.is_bypass_tunnel
      then (rsvp_builder_add_fast_reroute b5 psb.setup_prio psb.holding_prio 32 2
          (hal.float_of_uint32 psb.frr_bandwidth)).1
      else b5 in
    let b7 = add_sender b6 class_sender_template psb.key in
    let b8 = (rsvp_builder_add_tspec b7 (default_tspec psb.tspec)).1 in
    finish_message (add_route b8 psb.rro local_addr)
