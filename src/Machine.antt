-- ===== src/Machine.antt =====
-- src/pi/rsvp_state_machine.c: what the daemon does with a message, a timer or a command. The state
-- is the soft-state database, the label manager and what was done so far to the outside: packets
-- sent and MPLS entries made. The intervals of the timers are left out, and so is their jitter.
pub mod Messages
pub mod Checks
pub mod Sending
pub mod Cleanup
pub mod Frr
pub mod PathMsg
pub mod ResvMsg
pub mod Errors
pub mod Handle
pub mod Commands
pub mod Ownership
pub mod Steady
pub mod Keeping
pub mod Taking
pub mod Sent
pub mod Tearing
pub mod Rerouting
pub mod PathLabels
pub mod ResvLabels
pub mod Labels
pub mod Memory
pub mod Shutdown
pub mod Runs
pub mod Effects
pub mod Switched
pub mod Failover
mod Tests
use rsvp_te.Prelude.{
  ℕ, Bool, true, false, List, [], ◌∷◌, ◌++◌, Option, none, some, ◌==◌, ◌&&◌, if◌then◌else◌,
}
use rsvp_te.Label.{LabelMgr}
use rsvp_te.StateDb.{Db, Timer, same_timer, stop}
use rsvp_te.StateDb.Blocks.{Psb, Rsb, Bsb}
use rsvp_te.StateDb.Buckets.{Table}

-- What the kernel, the C library and the timers answer. `local_addr i` is the address of the interface
-- `i`, or of any for 0; `none` stands for a negative result.
pub record Hal : Type 0 where
  pub egress_if : ℕ → Option ℕ
  pub local_addr : ℕ → Option ℕ
  pub is_local_addr : ℕ → Bool
  pub timer_start_ok : Timer → Bool
  pub timer_reset_ok : Timer → Bool
  pub new_psb : Db → Option ℕ
  pub new_rsb : Db → Option ℕ
  pub new_bsb : Db → Option ℕ
  pub strdup_ok : Bool
  pub float_ge : ℕ → ℕ → Bool
  pub float_to_uint32 : ℕ → ℕ
  pub float_of_uint32 : ℕ → ℕ

-- `rsvp_send_packet(src, dst, bytes, use_rao)`, `hal_mpls_install`, `hal_mpls_remove` and
-- `rsvp_hello_recv`, and the callback of a timer whose block was freed: the code then reads and writes
-- freed memory, of which the state says nothing.
pub data Event : Type 0 where
  sent : ℕ → ℕ → List ℕ → Bool → Event
  mpls_install : ℕ → ℕ → ℕ → ℕ → ℕ → Event
  mpls_remove : ℕ → Option ℕ → Event
  hello_recv : ℕ → ℕ → ℕ → ℕ → Event
  freed_access : Timer → Event

pub record Machine : Type 0 where
  pub db : Db
  pub labels : LabelMgr
  pub out : List Event

-- What is done with the block behind a pointer, if it leads to one.
unfoldable pub given {ℓ} : {A : Type ℓ} → Option A → Machine → (A → Machine) → Machine
given none m f = m
given (some a) m f = f a

abbrev pub emit : Machine → Event → Machine
emit m e = record m { out = m.out ++ (e ∷ []) }

-- The block at an address is changed in place.
unfoldable pub alter {ℓ} : {A : Type ℓ} → Table A → ℕ → (A → A) → Table A
alter t p f = record t {
  heap = λ q. if p == q then elim (t.heap q) [ none ↦ none | some a ↦ some (f a) ] else t.heap q;
}

unfoldable pub alter_psb : Machine → ℕ → (Psb → Psb) → Machine
unfolding alter
alter_psb m p f = record m { db = record m.db { psbs = alter m.db.psbs p f } }

unfoldable pub alter_rsb : Machine → ℕ → (Rsb → Rsb) → Machine
unfolding alter
alter_rsb m r f = record m { db = record m.db { rsbs = alter m.db.rsbs r f } }

unfoldable pub alter_bsb : Machine → ℕ → (Bsb → Bsb) → Machine
unfolding alter
alter_bsb m b f = record m { db = record m.db { bsbs = alter m.db.bsbs b f } }

-- `rsvp_timer_start` and `rsvp_timer_stop`
unfoldable pub start_timer : Hal → Machine → Timer → Machine
start_timer hal m tm = record m {
  db = record m.db {
    running = λ u. if same_timer tm u then hal.timer_start_ok tm else m.db.running u;
  };
}

unfoldable pub stop_timer : Machine → Timer → Machine
stop_timer m tm = record m { db = stop tm m.db }

-- `if (!timer.active || !rsvp_timer_reset(...)) rsvp_timer_start(...)`
unfoldable pub restart_timer : Hal → Machine → Timer → Machine
unfolding start_timer
restart_timer hal m tm =
    if m.db.running tm && hal.timer_reset_ok tm then m else start_timer hal m tm
