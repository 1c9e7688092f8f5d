-- ===== src/Cli/Inputs.antt =====
-- The commands of src/pi/rsvp_cli.c as inputs of the state machine.
use rsvp_te.Prelude.{
  c_string, arith, Option-cases, Bool-cases, ◌%◌, ◌^◌, ℕ, ◌≡◌, refl, inl, inr, Bool, true, false,
  List, [], ◌∷◌, Option, none, some, if◌then◌else◌, ◌==◌, length, take, drop,
}
use rsvp_te.Hello
use rsvp_te.Iface.{eq_chars}
use rsvp_te.Machine.{Hal, Machine}
use rsvp_te.Machine.Commands.{rsvp_initiate_path}
use rsvp_te.Machine.Runs.{Input, link_up, mbb, teardown, initiate, respond}
use rsvp_te.Cli.{
  Library, Daemon, strip, starts_with, track_neighbor, rsvp_on_interface, set_bandwidth,
  set_reservable, set_interval, on_interface, revert, start_mbb, delete_tunnel, initiate_tunnel,
  setup_tunnel, command, rsvp_cli_handle_input,
}
use rsvp_te.Cli.Words.{
  word_interface, word_frr_revert, word_mbb, word_delete, word_setup, word_rsvp, word_enable,
  word_disable, word_neighbor, word_bandwidth, word_reservable, word_interval,
}

-- The input that a line asks for, from a table of the commands that reach the state machine: the word that the
-- line starts with, and how what follows it is read.
abbrev asked : List (List ℕ × (List ℕ → Option Input)) → List ℕ → Option Input
asked [] buf = none
asked (entry ∷ entries) buf =
    if starts_with buf entry.0 then entry.1 (drop (length entry.0) buf) else asked entries buf

abbrev revert_input : Option ℕ → Option Input
revert_input none = none
revert_input (some ifidx) = some (link_up ifidx)

abbrev mbb_input : Option (ℕ × ℕ × ℕ) → Option Input
mbb_input none = none
mbb_input (some (t, old, new)) = some (mbb (t % 2 ^ 16) (old % 2 ^ 16) (new % 2 ^ 16) [])

abbrev delete_input : Option (ℕ × ℕ) → Option Input
delete_input none = none
delete_input (some (t, l)) = some (teardown (t % 2 ^ 16) (l % 2 ^ 16))

abbrev path_input : ℕ → Option ℕ → Option ℕ → ℕ → List ℕ → Option Input
path_input lsp_id none dest t name = none
path_input lsp_id (some src) none t name = none
path_input lsp_id (some src) (some dest) t name =
    some (initiate src dest (t % 2 ^ 16) lsp_id name [] false)

abbrev setup_input : Library → ℕ → Option (List ℕ × List ℕ × ℕ × List ℕ) → Option Input
setup_input lib lsp_id none = none
setup_input lib lsp_id (some (src_str, dest_str, t, name)) =
    path_input lsp_id (lib.inet_pton src_str) (lib.inet_pton dest_str) t name

abbrev pub commands : Library → ℕ → List (List ℕ × (List ℕ → Option Input))
commands lib lsp_id =
    (word_frr_revert, λ s. revert_input (lib.one_uint s))
    ∷ (word_mbb, λ s. mbb_input (lib.three_uints s))
    ∷ (word_delete, λ s. delete_input (lib.two_uints s))
    ∷ (word_setup, λ s. setup_input lib lsp_id (lib.tunnel s))
    ∷ []

-- The line in the buffer of 255 bytes, without the white space at its end and what follows a NUL.
abbrev pub line_of : List ℕ → List ℕ
line_of input = c_string (strip (take 255 input))

abbrev pub input_of : Library → ℕ → List ℕ → Option Input
input_of lib lsp_id buf = asked (commands lib lsp_id) buf

abbrev pub perform : Hal → Machine → Option Input → Machine
perform hal m none = m
perform hal m (some i) = respond hal m i

no_line : (input : List ℕ) → (length (take 255 input) == 0) ≡ true → input ≡ []
no_line [] e = refl
no_line (c ∷ cs) e = absurd (ground arith)

branch-perform :
    (hal : Hal) (m : Machine) (b : Bool) (x y : Daemon) (p q : Option Input)
    → x.machine ≡ perform hal m p
    → y.machine ≡ perform hal m q
    → (if b then x else y).machine ≡ perform hal m (if b then p else q)
branch-perform hal m true x y p q hx hy = hx
branch-perform hal m false x y p q hx hy = hy

branch_machine :
    (m : Machine) (b : Bool) (x y : Daemon)
    → x.machine ≡ m
    → y.machine ≡ m
    → (if b then x else y).machine ≡ m
branch_machine m true x y hx hy = hx
branch_machine m false x y hx hy = hy

module _ (lib : Library) (hal : Hal) (hello : Hello.Env) (d : Daemon) where
  track_neighbor-machine :
      (args : List ℕ) (o : Option (List ℕ × List ℕ))
      → (track_neighbor lib hal hello d args o).machine ≡ d.machine
  track_neighbor-machine args none = refl
  track_neighbor-machine args (some (if_name, nbor_str)) =
      elim (Option-cases (lib.inet_pton nbor_str)) [
        | inl e ↦ rw (e, track_neighbor) (refl)
        | inr (a, e) ↦ rw (e, track_neighbor) (refl)
      ]

  rsvp_on_interface-machine :
      (args : List ℕ) (o : Option (List ℕ × List ℕ))
      → (rsvp_on_interface lib hal hello d args o).machine ≡ d.machine
  rsvp_on_interface-machine args none = refl
  rsvp_on_interface-machine args (some (if_name, action)) =
      branch_machine d.machine (eq_chars action word_enable) _ _ (refl) (
        branch_machine d.machine (eq_chars action word_disable) _ _ (refl) (
          branch_machine d.machine (eq_chars action word_neighbor) _ d
            (track_neighbor-machine args (lib.name_and_neighbor args)) (refl)))

  set_bandwidth-machine :
      (o : Option (List ℕ × ℕ)) → (set_bandwidth lib hal hello d o).machine ≡ d.machine
  set_bandwidth-machine none = refl
  set_bandwidth-machine (some (if_name, bps)) = refl

  set_reservable-machine :
      (o : Option (List ℕ × ℕ)) → (set_reservable lib hal hello d o).machine ≡ d.machine
  set_reservable-machine none = refl
  set_reservable-machine (some (if_name, bps)) = refl

  set_interval-machine :
      (o : Option (List ℕ × ℕ)) → (set_interval lib hal hello d o).machine ≡ d.machine
  set_interval-machine none = refl
  set_interval-machine (some (if_name, ms)) = branch_machine d.machine _ _ d (refl) (refl)

  on_interface-machine :
      (args : List ℕ) (o : Option (List ℕ × List ℕ))
      → (on_interface lib hal hello d args o).machine ≡ d.machine
  on_interface-machine args none = refl
  on_interface-machine args (some (if_name, subcmd)) =
      branch_machine d.machine (eq_chars subcmd word_rsvp) _ _
        (rsvp_on_interface-machine args (lib.name_and_action args))
        (branch_machine d.machine (eq_chars subcmd word_bandwidth) _ _
          (set_bandwidth-machine (lib.name_and_bandwidth args))
          (branch_machine d.machine (eq_chars subcmd word_reservable) _ _
            (set_reservable-machine (lib.name_and_reservable args))
            (branch_machine d.machine (eq_chars subcmd word_interval) _ d
              (set_interval-machine (lib.name_and_interval args)) (refl))))

  revert-perform :
      (o : Option ℕ) → (revert lib hal hello d o).machine ≡ perform hal d.machine (revert_input o)
  unfolding respond
  revert-perform none = refl
  revert-perform (some ifidx) = refl

  start_mbb-perform :
      (o : Option (ℕ × ℕ × ℕ))
      → (start_mbb lib hal hello d o).machine ≡ perform hal d.machine (mbb_input o)
  unfolding respond
  start_mbb-perform none = refl
  start_mbb-perform (some (t, old, new)) = refl

  delete_tunnel-perform :
      (o : Option (ℕ × ℕ))
      → (delete_tunnel lib hal hello d o).machine ≡ perform hal d.machine (delete_input o)
  unfolding respond
  delete_tunnel-perform none = refl
  delete_tunnel-perform (some (t, l)) = refl

  initiate_tunnel-perform :
      (src dest : Option ℕ) (t : ℕ) (name : List ℕ)
      → (initiate_tunnel lib hal hello d src dest t name).machine
        ≡ perform hal d.machine (path_input d.next_lsp_id src dest t name)
  unfolding respond rsvp_initiate_path
  initiate_tunnel-perform none dest t name = refl
  initiate_tunnel-perform (some src) none t name = refl
  initiate_tunnel-perform (some src) (some dest) t name = refl

  setup_tunnel-perform :
      (o : Option (List ℕ × List ℕ × ℕ × List ℕ))
      → (setup_tunnel lib hal hello d o).machine
        ≡ perform hal d.machine (setup_input lib d.next_lsp_id o)
  setup_tunnel-perform none = refl
  setup_tunnel-perform (some (src_str, dest_str, t, name)) =
      initiate_tunnel-perform (lib.inet_pton src_str) (lib.inet_pton dest_str) t name

  paths-perform :
      (buf : List ℕ)
      → (if starts_with buf word_frr_revert
          then revert lib hal hello d (lib.one_uint (drop 16 buf))
          else if starts_with buf word_mbb
          then start_mbb lib hal hello d (lib.three_uints (drop 9 buf))
          else if starts_with buf word_delete
          then delete_tunnel lib hal hello d (lib.two_uints (drop 14 buf))
          else if starts_with buf word_setup
          then setup_tunnel lib hal hello d (lib.tunnel (drop 13 buf))
          else d).machine
        ≡ perform hal d.machine (input_of lib d.next_lsp_id buf)
  paths-perform buf =
      branch-perform hal d.machine (starts_with buf word_frr_revert) _ _ _ _
        (revert-perform (lib.one_uint (drop 16 buf)))
        (branch-perform hal d.machine (starts_with buf word_mbb) _ _ _ _
          (start_mbb-perform (lib.three_uints (drop 9 buf)))
          (branch-perform hal d.machine (starts_with buf word_delete) _ _ _ _
            (delete_tunnel-perform (lib.two_uints (drop 14 buf)))
            (branch-perform hal d.machine (starts_with buf word_setup) _ d _ none
              (setup_tunnel-perform (lib.tunnel (drop 13 buf))) refl)))

  -- A line about an interface is no other command.
  interface_asks :
      (buf : List ℕ) → starts_with buf word_interface ≡ true → input_of lib d.next_lsp_id buf ≡ none
  interface_asks [] e = refl
  interface_asks (c ∷ cs) e = let is_i : c ≡ 105 = ground arith in rw is_i refl

  command-perform :
      (buf : List ℕ)
      → (command lib hal hello d buf).machine
        ≡ perform hal d.machine (input_of lib d.next_lsp_id buf)
  unfolding command
  command-perform buf = elim (Bool-cases (starts_with buf word_interface)) [
    | inl e ↦
        rw (e, interface_asks buf e)
          (on_interface-machine (drop 10 buf) (lib.name_and_word (drop 10 buf)))
    | inr e ↦ rw e (paths-perform buf)
  ]

  -- Whatever is typed, what a line does to the state machine is what the input does that the line asks for,
  -- or nothing when it asks for none: "rsvp frr revert " and an interface ask for the reversal of fast
  -- reroute, "rsvp mbb " and three numbers for a make-before-break with an empty ERO, "delete tunnel " and two
  -- numbers for a teardown, the numbers cut to 16 bits, "setup tunnel ", two addresses, a number and a name
  -- for the setup of a path with the next LSP ID.
  pub rsvp_cli_handle_input_responds :
      (input : List ℕ)
      → (rsvp_cli_handle_input lib hal hello d input).0.machine
        ≡ perform hal d.machine (input_of lib d.next_lsp_id (line_of input))
  unfolding rsvp_cli_handle_input c_string strip
  rsvp_cli_handle_input_responds input = elim (Bool-cases (length (take 255 input) == 0)) [
    | inl e ↦ rw (e, no_line input e) refl
    | inr e ↦ rw e (command-perform (line_of input))
  ]
