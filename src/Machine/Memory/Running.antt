-- ===== src/Machine/Memory/Running.antt =====
-- The memory of src/pi/rsvp_state_machine.c when a timer is started or stopped.
use rsvp_te.Prelude.{
  ◌≡◌, ap, subst, Bool, true, false, inl, inr, ◌&&◌, if◌then◌else◌, arith, Bool-cases,
}
use rsvp_te.StateDb.{Db, Timer, same_timer, stop}
use rsvp_te.StateDb.Valid.{IsValid, is_live}
use rsvp_te.Machine.{Hal, Machine, start_timer, restart_timer}
use rsvp_te.Machine.Memory.{bare, MemoryOk}

stopped : (running : Bool) (same : Bool) → (if same then false else running) ≡ true → running ≡ true
stopped running true e = absurd (ground arith)
stopped running false e = e

live_same :
    (db : Db) (runs : Timer → Bool) (tm : Timer)
    → is_live db tm ≡ true
    → is_live (record db { running = runs }) tm ≡ true
live_same db runs (Timer.psb_refresh p) l = l
live_same db runs (Timer.psb_cleanup p) l = l
live_same db runs (Timer.rsb_refresh p) l = l
live_same db runs (Timer.rsb_cleanup p) l = l
live_same db runs (Timer.bsb_blockade p) l = l

-- Other timers run.
running-IsValid :
    (db : Db) (runs : Timer → Bool)
    → ((tm : Timer) → runs tm ≡ true → is_live db tm ≡ true)
    → IsValid db
    → IsValid (record db { running = runs })
running-IsValid db runs live v = record {
  psbs = v.psbs;
  rsbs = v.rsbs;
  bsbs = v.bsbs;
  psbs_hold = v.psbs_hold;
  rsbs_hold = v.rsbs_hold;
  bsbs_hold = v.bsbs_hold;
  live = λ tm h. live_same db runs tm (live tm h);
  to_rsb = v.to_rsb;
  to_psb = v.to_psb;
}

pub stop-MemoryOk : (tm : Timer) (db : Db) → MemoryOk db → MemoryOk (stop tm db)
stop-MemoryOk tm db ok = record {
  valid =
      running-IsValid (bare db) (λ u. if same_timer tm u then false else db.running u)
        (λ u h. ok.valid.live u (stopped (db.running u) (same_timer tm u) h)) ok.valid;
  agree = ok.agree;
}

same_timer_lem : (a b : Timer) → same_timer a b ≡ true → a ≡ b
same_timer_lem (Timer.psb_refresh p) (Timer.psb_refresh q) e = ap Timer.psb_refresh (ground arith)
same_timer_lem (Timer.psb_refresh p) (Timer.psb_cleanup q) e = cc
same_timer_lem (Timer.psb_refresh p) (Timer.rsb_refresh q) e = cc
same_timer_lem (Timer.psb_refresh p) (Timer.rsb_cleanup q) e = cc
same_timer_lem (Timer.psb_refresh p) (Timer.bsb_blockade q) e = cc
same_timer_lem (Timer.psb_cleanup p) (Timer.psb_refresh q) e = cc
same_timer_lem (Timer.psb_cleanup p) (Timer.psb_cleanup q) e = ap Timer.psb_cleanup (ground arith)
same_timer_lem (Timer.psb_cleanup p) (Timer.rsb_refresh q) e = cc
same_timer_lem (Timer.psb_cleanup p) (Timer.rsb_cleanup q) e = cc
same_timer_lem (Timer.psb_cleanup p) (Timer.bsb_blockade q) e = cc
same_timer_lem (Timer.rsb_refresh p) (Timer.psb_refresh q) e = cc
same_timer_lem (Timer.rsb_refresh p) (Timer.psb_cleanup q) e = cc
same_timer_lem (Timer.rsb_refresh p) (Timer.rsb_refresh q) e = ap Timer.rsb_refresh (ground arith)
same_timer_lem (Timer.rsb_refresh p) (Timer.rsb_cleanup q) e = cc
same_timer_lem (Timer.rsb_refresh p) (Timer.bsb_blockade q) e = cc
same_timer_lem (Timer.rsb_cleanup p) (Timer.psb_refresh q) e = cc
same_timer_lem (Timer.rsb_cleanup p) (Timer.psb_cleanup q) e = cc
same_timer_lem (Timer.rsb_cleanup p) (Timer.rsb_refresh q) e = cc
same_timer_lem (Timer.rsb_cleanup p) (Timer.rsb_cleanup q) e = ap Timer.rsb_cleanup (ground arith)
same_timer_lem (Timer.rsb_cleanup p) (Timer.bsb_blockade q) e = cc
same_timer_lem (Timer.bsb_blockade p) (Timer.psb_refresh q) e = cc
same_timer_lem (Timer.bsb_blockade p) (Timer.psb_cleanup q) e = cc
same_timer_lem (Timer.bsb_blockade p) (Timer.rsb_refresh q) e = cc
same_timer_lem (Timer.bsb_blockade p) (Timer.rsb_cleanup q) e = cc
same_timer_lem (Timer.bsb_blockade p) (Timer.bsb_blockade q) e =
    ap Timer.bsb_blockade (ground arith)

-- A timer of a block that exists is started.
pub start_timer-MemoryOk :
    (hal : Hal) (m : Machine) (tm : Timer)
    → is_live (bare m.db) tm ≡ true
    → MemoryOk m.db
    → MemoryOk (start_timer hal m tm).db
unfolding start_timer
start_timer-MemoryOk hal m tm live ok = record {
  valid =
      running-IsValid (bare m.db)
        (λ u. if same_timer tm u then hal.timer_start_ok tm else m.db.running u)
        (λ u h. elim (Bool-cases (same_timer tm u)) [
          | inl same ↦ subst (λ x. is_live (bare m.db) x ≡ true) (same_timer_lem tm u same) live
          | inr other ↦ ok.valid.live u (rw other at h)
        ])
        ok.valid;
  agree = ok.agree;
}

pub restart_timer-MemoryOk :
    (hal : Hal) (m : Machine) (tm : Timer)
    → is_live (bare m.db) tm ≡ true
    → MemoryOk m.db
    → MemoryOk (restart_timer hal m tm).db
unfolding restart_timer
restart_timer-MemoryOk hal m tm live ok =
    elim (Bool-cases (m.db.running tm && hal.timer_reset_ok tm)) [
      | inl reset ↦ rw reset ok
      | inr not_reset ↦ rw not_reset (start_timer-MemoryOk hal m tm live ok)
    ]
