-- ===== src/Hello/Tests.antt =====
-- src/pi/rsvp_hello.c at concrete inputs: the neighbour 10.0.0.2.
use rsvp_te.Prelude.{ℕ, ◌≡◌, refl, true, List, [], ◌∷◌, ◌++◌, some, arith}
use rsvp_te.Hello.{Neighbor, Env, NborState, new_neighbor, hello_message}
use rsvp_te.Hello.Neighbors.{Step}
use rsvp_te.Hello.Packet.{Read, hello_message-Read}

abbrev env : Env
env = record {
  instance_id = 7;
  now = 100;
  send_ok = true;
  hello_timer_ok = true;
  dead_timer_ok = true;
}

abbrev script : List Step
script =
    Step.add env 0x0a00_0002 0x0a00_0001 3
    ∷ Step.recv env 0x0a00_0002 9 7 1
    ∷ Step.hello_fires env 0
    ∷ Step.dead_fires 0
    ∷ []

-- It is up, and its instance is 9.
abbrev peer : Neighbor
peer = record (new_neighbor env 0x0a00_0002 0x0a00_0001 3) {
  state = NborState.nbor_up;
  dst_instance = 9;
  dead_timer = some 15000;
}

abbrev ip_header : List ℕ
ip_header = 69 ∷ 0 ∷ 0 ∷ 40 ∷ 0 ∷ 0 ∷ 0 ∷ 0 ∷ 1 ∷ 46 ∷ 0 ∷ 0 ∷ 10 ∷ 0 ∷ 0 ∷ 1 ∷ 10 ∷ 0 ∷ 0 ∷ 2 ∷ []

hello_message-Read_example :
    (msg : List ℕ) × (hello_message peer 1 ≡ some msg) × Read (ip_header ++ msg) 1 7 9
hello_message-Read_example =
    hello_message-Read peer 1 ip_header refl (omega arith) (omega arith) refl (omega arith)
