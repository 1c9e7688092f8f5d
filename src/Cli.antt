-- ===== src/Cli.antt =====
-- src/pi/rsvp_cli.c: `rsvp_cli_handle_input`. A line is a list of character codes. What `sscanf` and
-- `inet_pton` read from it is an argument, and so is the index that `if_nametoindex` returns; the commands
-- that only print, `show ...` and the unknown ones, change nothing.
pub mod Words
pub mod Inputs
mod Tests
use rsvp_te.Prelude.{
  ℕ, ◌+◌, ◌%◌, ◌^◌, Bool, true, false, ◌==◌, ◌||◌, ltb, not, List, [], ◌∷◌, Option, none, some,
  if◌then◌else◌, take, drop, length, get_or, c_string,
}
use rsvp_te.Iface.{
  Iface, eq_chars, new_if, change, rsvp_if_enable, rsvp_if_disable, rsvp_if_set_bandwidth,
  rsvp_if_get_by_name,
}
use rsvp_te.Hello
use rsvp_te.Hello.{Neighbor, rsvp_hello_add_neighbor}
use rsvp_te.Machine.{Hal, Machine}
use rsvp_te.Machine.Checks.{addr_or_zero}
use rsvp_te.Machine.Frr.{rsvp_frr_revert}
use rsvp_te.Machine.Cleanup.{rsvp_teardown_path}
use rsvp_te.Machine.Commands.{rsvp_initiate_path, rsvp_mbb_start}
use rsvp_te.Cli.Words.{
  word_interface, word_frr_revert, word_mbb, word_delete, word_setup, word_rsvp, word_enable,
  word_disable, word_neighbor, word_bandwidth, word_reservable, word_interval,
}

-- What the C library reads: for each format of `sscanf` the values, if all of them were found. A bandwidth
-- is a `double` in bits per second, the number that was read times 1e6.
pub record Library : Type 0 where
  -- "%15s %63s"
  pub name_and_word : List ℕ → Option (List ℕ × List ℕ)
  -- "%15s rsvp %15s"
  pub name_and_action : List ℕ → Option (List ℕ × List ℕ)
  -- "%15s rsvp neighbor %45s"
  pub name_and_neighbor : List ℕ → Option (List ℕ × List ℕ)
  -- "%15s bandwidth %lf"
  pub name_and_bandwidth : List ℕ → Option (List ℕ × ℕ)
  -- "%15s reservable-bandwidth %lf"
  pub name_and_reservable : List ℕ → Option (List ℕ × ℕ)
  -- "%15s hello-interval %u"
  pub name_and_interval : List ℕ → Option (List ℕ × ℕ)
  -- "%u", "%u %u" and "%u %u %u"
  pub one_uint : List ℕ → Option ℕ
  pub two_uints : List ℕ → Option (ℕ × ℕ)
  pub three_uints : List ℕ → Option (ℕ × ℕ × ℕ)
  -- "%31s %31s %u %31s"
  pub tunnel : List ℕ → Option (List ℕ × List ℕ × ℕ × List ℕ)
  pub inet_pton : List ℕ → Option ℕ
  pub if_nametoindex : List ℕ → ℕ

-- What the commands work on; `next_lsp_id` is the counter of src/pi/rsvp_state_machine.c.
pub record Daemon : Type 0 where
  pub machine : Machine
  pub next_lsp_id : ℕ
  pub ifaces : List Iface
  pub neighbors : List Neighbor

abbrev pub is_space : ℕ → Bool
is_space c = c == 10 || (c == 13 || (c == 32 || c == 9))

-- The loop that strips the end of the line.
unfoldable pub strip : List ℕ → List ℕ
strip [] = []
strip (c ∷ cs) =
    let rest = strip cs in
    if length rest == 0 then (if is_space c then [] else c ∷ []) else c ∷ rest

-- `strncmp(buf, word, strlen(word)) == 0`
abbrev pub starts_with : List ℕ → List ℕ → Bool
starts_with buf word = eq_chars (take (length word) buf) word

module _ (lib : Library) (hal : Hal) (hello : Hello.Env) where
  -- `interface <name> rsvp neighbor <ip>`
  abbrev pub track_neighbor : Daemon → List ℕ → Option (List ℕ × List ℕ) → Daemon
  track_neighbor d args none = d
  track_neighbor d args (some (if_name, nbor_str)) = elim (lib.inet_pton nbor_str) [
    | none ↦ d
    | some nbor_addr ↦
        let idx : ℕ = elim (rsvp_if_get_by_name d.ifaces if_name) [
          | none ↦ 0
          | some i ↦ (get_or d.ifaces i (new_if [] 0)).ifindex
        ] in
        record d {
          neighbors =
              (rsvp_hello_add_neighbor hello d.neighbors nbor_addr
                (addr_or_zero (hal.local_addr idx)) idx).1;
        }
  ]

  abbrev pub rsvp_on_interface : Daemon → List ℕ → Option (List ℕ × List ℕ) → Daemon
  rsvp_on_interface d args none = d
  rsvp_on_interface d args (some (if_name, action)) =
      if eq_chars action word_enable
      then record d { ifaces = rsvp_if_enable d.ifaces if_name (lib.if_nametoindex if_name) }
      else if eq_chars action word_disable
      then record d { ifaces = rsvp_if_disable d.ifaces if_name }
      else if eq_chars action word_neighbor
      then track_neighbor d args (lib.name_and_neighbor args)
      else d

  abbrev pub set_bandwidth : Daemon → Option (List ℕ × ℕ) → Daemon
  set_bandwidth d none = d
  set_bandwidth d (some (if_name, bps)) = record d {
    ifaces = rsvp_if_set_bandwidth d.ifaces if_name (lib.if_nametoindex if_name) bps bps;
  }

  abbrev pub set_reservable : Daemon → Option (List ℕ × ℕ) → Daemon
  set_reservable d none = d
  set_reservable d (some (if_name, bps)) =
      let total : ℕ = elim (rsvp_if_get_by_name d.ifaces if_name) [
        | none ↦ bps
        | some i ↦ (get_or d.ifaces i (new_if [] 0)).total_bw
      ] in
      record d {
        ifaces = rsvp_if_set_bandwidth d.ifaces if_name (lib.if_nametoindex if_name) total bps;
      }

  -- `rsvp_if_enable` finds or creates the entry, and returns it.
  abbrev pub set_interval : Daemon → Option (List ℕ × ℕ) → Daemon
  set_interval d none = d
  set_interval d (some (if_name, ms)) =
      let enabled = rsvp_if_enable d.ifaces if_name (lib.if_nametoindex if_name) in
      if ltb 0 ms
      then record d {
        ifaces =
            change (λ f. record f { hello_interval_ms = ms })
              (rsvp_if_get_by_name enabled if_name, enabled);
      }
      else d

  -- The rest of the line after "interface ".
  abbrev pub on_interface : Daemon → List ℕ → Option (List ℕ × List ℕ) → Daemon
  on_interface d args none = d
  on_interface d args (some (if_name, subcmd)) =
      if eq_chars subcmd word_rsvp
      then rsvp_on_interface d args (lib.name_and_action args)
      else if eq_chars subcmd word_bandwidth
      then set_bandwidth d (lib.name_and_bandwidth args)
      else if eq_chars subcmd word_reservable
      then set_reservable d (lib.name_and_reservable args)
      else if eq_chars subcmd word_interval
      then set_interval d (lib.name_and_interval args)
      else d

  abbrev pub revert : Daemon → Option ℕ → Daemon
  revert d none = d
  revert d (some ifidx) = record d { machine = rsvp_frr_revert hal d.machine ifidx }

  -- The identifiers are cut to 16 bits.
  abbrev pub start_mbb : Daemon → Option (ℕ × ℕ × ℕ) → Daemon
  start_mbb d none = d
  start_mbb d (some (tunnel_id, old_id, new_id)) = record d {
    machine =
        (rsvp_mbb_start hal d.machine (tunnel_id % 2 ^ 16) (old_id % 2 ^ 16) (new_id % 2 ^ 16)
          []).0;
  }

  abbrev pub delete_tunnel : Daemon → Option (ℕ × ℕ) → Daemon
  delete_tunnel d none = d
  delete_tunnel d (some (tunnel_id, lsp_id)) = record d {
    machine = rsvp_teardown_path hal d.machine (tunnel_id % 2 ^ 16) (lsp_id % 2 ^ 16);
  }

  -- The addresses are read; the counter goes on whether or not a PSB is made.
  abbrev pub initiate_tunnel : Daemon → Option ℕ → Option ℕ → ℕ → List ℕ → Daemon
  initiate_tunnel d none dest tunnel_id name = d
  initiate_tunnel d (some src) none tunnel_id name = d
  initiate_tunnel d (some src) (some dest) tunnel_id name = record d {
    machine = rsvp_initiate_path hal d.machine src dest (tunnel_id % 2 ^ 16) d.next_lsp_id name;
    next_lsp_id = (d.next_lsp_id + 1) % 2 ^ 16;
  }

  abbrev pub setup_tunnel : Daemon → Option (List ℕ × List ℕ × ℕ × List ℕ) → Daemon
  setup_tunnel d none = d
  setup_tunnel d (some (src_str, dest_str, tunnel_id, name)) =
      initiate_tunnel d (lib.inet_pton src_str) (lib.inet_pton dest_str) tunnel_id name

  -- The command in `buf`.
  unfoldable pub command : Daemon → List ℕ → Daemon
  command d buf =
      if starts_with buf word_interface
      then on_interface d (drop 10 buf) (lib.name_and_word (drop 10 buf))
      else if starts_with buf word_frr_revert
      then revert d (lib.one_uint (drop 16 buf))
      else if starts_with buf word_mbb
      then start_mbb d (lib.three_uints (drop 9 buf))
      else if starts_with buf word_delete
      then delete_tunnel d (lib.two_uints (drop 14 buf))
      else if starts_with buf word_setup
      then setup_tunnel d (lib.tunnel (drop 13 buf))
      else d

  -- The bytes that `read` returns, of which the buffer takes 255; -1, which ends the input, is false.
  unfoldable pub rsvp_cli_handle_input : Daemon → List ℕ → Daemon × Bool
  unfolding command
  rsvp_cli_handle_input d input =
      let bytes = take 255 input in
      if length bytes == 0 then (d, false) else (command d (c_string (strip bytes)), true)
