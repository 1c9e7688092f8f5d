-- ===== src/Hello/Neighbors.antt =====
-- The neighbour table of src/pi/rsvp_hello.c through any sequence of messages and timers.
use rsvp_te.Prelude.{
  ℕ, zero, suc, ◌≤◌, ◌<◌, ◌≡◌, refl, true, List, [], ◌∷◌, ◌++◌, length, get_or, set, arith, ap,
}
use rsvp_te.Hello.{
  Neighbor, Env, zero_neighbor, rsvp_hello_add_neighbor, hello_timer_cb, dead_timer_cb,
  rsvp_hello_recv, max_neighbors,
}
use rsvp_te.Hello.Inv.{NeighborOk}

abbrev pub at : List Neighbor → ℕ → Neighbor
at ns i = get_or ns i zero_neighbor

-- Every entry is as it should be, no address has two, and the table is not over its size.
pub record TableOk (ns : List Neighbor) : Type 0 where
  pub entries : (i : ℕ) → i < length ns → NeighborOk (at ns i)
  pub distinct : (i j : ℕ) → i < length ns → j < length ns → (at ns i).addr ≡ (at ns j).addr → i ≡ j
  pub bounded : length ns ≤ max_neighbors

-- What happens to the table. A timer gives its callback the entry that it is embedded in.
pub data Step : Type 0 where
  add : Env → ℕ → ℕ → ℕ → Step
  recv : Env → ℕ → ℕ → ℕ → ℕ → Step
  hello_fires : Env → ℕ → Step
  dead_fires : ℕ → Step

unfoldable pub step : List Neighbor → Step → List Neighbor
step ns (add env addr local_addr ifindex) =
    (rsvp_hello_add_neighbor env ns addr local_addr ifindex).1
step ns (recv env src rx_src rx_dst c_type) = (rsvp_hello_recv env ns src rx_src rx_dst c_type).0
step ns (hello_fires env i) = set ns i (hello_timer_cb env (at ns i)).0
step ns (dead_fires i) = set ns i (dead_timer_cb (at ns i)).0

unfoldable pub run : List Neighbor → List Step → List Neighbor
run ns [] = ns
run ns (s ∷ ss) = run (step ns s) ss

-- `rand()` gives an instance that is not 0, and the wheel takes the timers.
pub record Able (env : Env) : Type 0 where
  pub seed : 0 < env.instance_id
  pub hello_starts : env.hello_timer_ok ≡ true
  pub dead_starts : env.dead_timer_ok ≡ true

abbrev pub AllAble : List Step → Type 0
AllAble [] = Unit
AllAble (add env addr local_addr ifindex ∷ ss) = Able env × AllAble ss
AllAble (recv env src rx_src rx_dst c_type ∷ ss) = Able env × AllAble ss
AllAble (hello_fires env i ∷ ss) = Able env × AllAble ss
AllAble (dead_fires i ∷ ss) = AllAble ss

set-outside : (ns : List Neighbor) (i : ℕ) (n : Neighbor) → length ns ≤ i → set ns i n ≡ ns
set-outside [] i n h = refl
set-outside (m ∷ ns) zero n h = absurd (omega arith)
set-outside (m ∷ ns) (suc i) n h = ap (◌∷◌ m) (set-outside ns i n (omega arith))

pub at-end : (ns : List Neighbor) (n : Neighbor) → at (ns ++ (n ∷ [])) (length ns) ≡ n
at-end [] n = refl
at-end (m ∷ ns) n = at-end ns n
