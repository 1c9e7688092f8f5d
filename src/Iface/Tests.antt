-- ===== src/Iface/Tests.antt =====
-- src/pi/rsvp_if.c with one interface, "eth0", of which 1000 bits per second can be reserved.
use rsvp_te.Prelude.{ℕ, ◌+◌, ltb, ◌-◌, ◌≡◌, refl, true, List, [], ◌∷◌, arith}
use rsvp_te.Iface.{
  Double, Iface, rsvp_if_init, rsvp_if_get, rsvp_if_get_by_name, rsvp_if_find_or_create,
  rsvp_if_set_bandwidth, rsvp_if_enable, rsvp_if_reserve_bw, rsvp_if_release_bw,
  rsvp_if_available_bw, search_if, sum_reserved, new_if,
}
use rsvp_te.Iface.Reserve.{available-reserve_above}

-- An arithmetic on whole numbers.
abbrev exact : Double
exact = record { add = λ a b. a + b; sub = λ a b. a - b; less = λ a b. ltb a b }

abbrev eth0 : List ℕ
eth0 = 101 ∷ 116 ∷ 104 ∷ 48 ∷ []

abbrev table : List Iface
table = record (new_if eth0 2) { rsvp_enabled = true; total_bw = 2000; reservable_bw = 1000 } ∷ []

configured : rsvp_if_enable (rsvp_if_set_bandwidth rsvp_if_init eth0 2 2000 1000) eth0 2 ≡ table
unfolding rsvp_if_set_bandwidth rsvp_if_enable rsvp_if_find_or_create rsvp_if_get_by_name search_if
configured = refl

-- 300 at priority 2 leaves 700 for priority 5.
reserved : rsvp_if_available_bw exact (rsvp_if_reserve_bw exact table 2 2 300) 2 5 ≡ 700
unfolding rsvp_if_available_bw rsvp_if_reserve_bw rsvp_if_get search_if sum_reserved
reserved = refl

available-reserve_above_example :
    (rsvp_if_available_bw exact (rsvp_if_reserve_bw exact table 2 3 300) 2 1
      ≡ rsvp_if_available_bw exact table 2 1)
    × (rsvp_if_available_bw exact (rsvp_if_release_bw exact table 2 3 300) 2 1
        ≡ rsvp_if_available_bw exact table 2 1)
available-reserve_above_example = available-reserve_above exact table 2 3 1 300 (omega arith)
