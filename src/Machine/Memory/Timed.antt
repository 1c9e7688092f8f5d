-- ===== src/Machine/Memory/Timed.antt =====
-- The memory of src/pi/rsvp_state_machine.c while timers of the same blocks are started and stopped.
use rsvp_te.Prelude.{◌≡◌, ap, ◌∙◌, true, ◌&&◌}
use rsvp_te.Wire.Parser.{is_some}
use rsvp_te.StateDb.{Db, Timer}
use rsvp_te.StateDb.Blocks.{Psb, Rsb, Bsb}
use rsvp_te.StateDb.Buckets.{Table}
use rsvp_te.StateDb.Valid.{is_live}
use rsvp_te.Machine.{Hal, Machine, start_timer, stop_timer, restart_timer}
use rsvp_te.Machine.Steady.{branch_keeps}
use rsvp_te.Machine.Memory.{bare, MemoryOk, Kept, Kept-MemoryOk}
use rsvp_te.Machine.Memory.Running.{start_timer-MemoryOk, stop-MemoryOk}

-- The blocks are those of `d` but for what a bare block leaves out; other timers may run.
pub record Blocks (d : Db) (m : Machine) : Type 0 where
  pub ok : MemoryOk m.db
  pub psbs : (bare m.db).psbs ≡ d.psbs
  pub rsbs : (bare m.db).rsbs ≡ d.rsbs
  pub bsbs : (bare m.db).bsbs ≡ d.bsbs

pub Kept-Blocks : (d : Db) (m : Machine) → Kept (bare d) m → MemoryOk d → Blocks (bare d) m
Kept-Blocks d m k ok = record {
  ok = Kept-MemoryOk d m k ok;
  psbs = ap (λ (x : Db). x.psbs) k.same;
  rsbs = ap (λ (x : Db). x.rsbs) k.same;
  bsbs = ap (λ (x : Db). x.bsbs) k.same;
}

is_live-Blocks :
    (d : Db) (m : Machine) (tm : Timer)
    → Blocks d m
    → is_live d tm ≡ true
    → is_live (bare m.db) tm ≡ true
is_live-Blocks d m (Timer.psb_refresh p) b l = ap (λ (t : Table Psb). is_some (t.heap p)) b.psbs ∙ l
is_live-Blocks d m (Timer.psb_cleanup p) b l = ap (λ (t : Table Psb). is_some (t.heap p)) b.psbs ∙ l
is_live-Blocks d m (Timer.rsb_refresh p) b l = ap (λ (t : Table Rsb). is_some (t.heap p)) b.rsbs ∙ l
is_live-Blocks d m (Timer.rsb_cleanup p) b l = ap (λ (t : Table Rsb). is_some (t.heap p)) b.rsbs ∙ l
is_live-Blocks d m (Timer.bsb_blockade p) b l =
    ap (λ (t : Table Bsb). is_some (t.heap p)) b.bsbs ∙ l

module _ (hal : Hal) (d : Db) (tm : Timer) (live : is_live d tm ≡ true) (m : Machine)
    (b : Blocks d m) where
  pub start_timer-Blocks : Blocks d (start_timer hal m tm)
  unfolding start_timer
  start_timer-Blocks = record {
    ok = start_timer-MemoryOk hal m tm (is_live-Blocks d m tm b live) b.ok;
    psbs = b.psbs;
    rsbs = b.rsbs;
    bsbs = b.bsbs;
  }

  pub restart_timer-Blocks : Blocks d (restart_timer hal m tm)
  unfolding restart_timer
  restart_timer-Blocks =
      branch_keeps (Blocks d) (m.db.running tm && hal.timer_reset_ok tm) _ _ b start_timer-Blocks

pub stop_timer-Blocks :
    (d : Db) (tm : Timer) (m : Machine) → Blocks d m → Blocks d (stop_timer m tm)
unfolding stop_timer
stop_timer-Blocks d tm m b = record {
  ok = stop-MemoryOk tm m.db b.ok;
  psbs = b.psbs;
  rsbs = b.rsbs;
  bsbs = b.bsbs;
}

pub Blocks-Kept : (d : Db) (m m' : Machine) → Blocks d m → Kept (bare m.db) m' → Blocks d m'
Blocks-Kept d m m' b k = record {
  ok = Kept-MemoryOk m.db m' k b.ok;
  psbs = ap (λ (x : Db). x.psbs) k.same ∙ b.psbs;
  rsbs = ap (λ (x : Db). x.rsbs) k.same ∙ b.rsbs;
  bsbs = ap (λ (x : Db). x.bsbs) k.same ∙ b.bsbs;
}
