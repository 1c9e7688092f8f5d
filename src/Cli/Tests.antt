-- ===== src/Cli/Tests.antt =====
-- src/pi/rsvp_cli.c at a concrete input: "delete tunnel 1 7" with its end of line.
use rsvp_te.Prelude.{c_string, ℕ, ◌≡◌, true, false, List, [], ◌∷◌, none, some, leb, ◌++◌}
use rsvp_te.Label
use rsvp_te.StateDb
use rsvp_te.Hello
use rsvp_te.Machine.{Hal}
use rsvp_te.Machine.Runs.{teardown, respond}
use rsvp_te.Cli.{Library, Daemon, strip, rsvp_cli_handle_input}
use rsvp_te.Cli.Words.{word_delete}
use rsvp_te.Cli.Inputs.{rsvp_cli_handle_input_responds}

abbrev node : Hal
node = record {
  egress_if = λ dest. some 4;
  local_addr = λ i. some 0x0a00_0002;
  is_local_addr = λ a. false;
  timer_start_ok = λ tm. true;
  timer_reset_ok = λ tm. true;
  new_psb = λ db. none;
  new_rsb = λ db. none;
  new_bsb = λ db. none;
  strdup_ok = true;
  float_ge = λ a b. leb b a;
  float_to_uint32 = λ f. f;
  float_of_uint32 = λ n. n;
}

-- A library that reads two numbers, 1 and 7.
abbrev one_and_seven : Library
one_and_seven = record {
  name_and_word = λ s. none;
  name_and_action = λ s. none;
  name_and_neighbor = λ s. none;
  name_and_bandwidth = λ s. none;
  name_and_reservable = λ s. none;
  name_and_interval = λ s. none;
  one_uint = λ s. none;
  two_uints = λ s. some (1, 7);
  three_uints = λ s. none;
  tunnel = λ s. none;
  inet_pton = λ s. none;
  if_nametoindex = λ s. 0;
}

abbrev idle : Daemon
idle = record {
  machine = record { db = StateDb.at_start; labels = Label.at_start; out = [] };
  next_lsp_id = 1;
  ifaces = [];
  neighbors = [];
}

abbrev quiet : Hello.Env
quiet = record {
  instance_id = 1;
  now = 0;
  send_ok = true;
  hello_timer_ok = true;
  dead_timer_ok = true;
}

-- The word, "1 7" and a newline.
abbrev line : List ℕ
line = word_delete ++ (49 ∷ 32 ∷ 55 ∷ 10 ∷ [])

rsvp_cli_handle_input_responds_example :
    (rsvp_cli_handle_input one_and_seven node quiet idle line).0.machine
    ≡ respond node idle.machine (teardown 1 7)
unfolding strip c_string
rsvp_cli_handle_input_responds_example =
    rsvp_cli_handle_input_responds one_and_seven node quiet idle line
