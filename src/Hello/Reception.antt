-- ===== src/Hello/Reception.antt =====
-- What a Hello that `rsvp_hello_recv` of src/pi/rsvp_hello.c takes does to the neighbour table.
use rsvp_te.Prelude.{ℕ, ◌<◌, ◌≡◌, ◌≢◌, true, List, some, length}
use rsvp_te.Hello.{Neighbor, is_up}
use rsvp_te.Hello.Neighbors.{at}

-- What a Hello from `src` leaves: the entry of `src`, and the entries that were there.
pub record Received (ns ns' : List Neighbor) (src rx_src : ℕ) : Type 0 where
  pub index : ℕ
  pub inside : index < length ns'
  pub of_src : (at ns' index).addr ≡ src
  pub is_now_up : is_up (at ns' index).state ≡ true
  pub instance_known : (at ns' index).dst_instance ≡ rx_src
  pub dead_timer_set : (at ns' index).dead_timer ≡ some 15000
  pub others : (j : ℕ) → j < length ns → index ≢ j → at ns' j ≡ at ns j
