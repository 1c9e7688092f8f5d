-- ===== src/Wheel/Tests.antt =====
-- wheel_timer/wheel_timer.c with a wheel of 10 ms ticks.
use rsvp_te.Prelude.{
  ◌≡◌, refl, true, false, [], ◌∷◌, none, some, ◌+◌, ◌*◌, ◌≤◌, ◌<◌, contains, arith,
}
use rsvp_te.Wheel.{
  Wheel, success, not_pending, timer_node_init, timer_wheel_create, slot_of, elsewhere, ticks_of,
  timer_add, timer_del, timer_del_sync, worker_take, worker_start, worker_finish,
  internal_add_timer, change_node,
}
use rsvp_te.Wheel.Slots.{due_tick, far_due}
use rsvp_te.Wheel.Moves.{In}
use rsvp_te.Wheel.Arming.{Loose, ticks}
use rsvp_te.Wheel.Firing.{Comes, ticks_of_bounds, timer_add_fires}
use rsvp_te.Wheel.Deleting.{timer_del_silences, timer_del_sync_late, worker_finish_rearms}

abbrev fresh : Wheel
fresh = record {
  self = 1;
  jiffies = 0;
  tv = λ k i. [];
  tick_ms = 10;
  running = true;
  expired_list = [];
  node_lists = [];
  node = λ n. timer_node_init;
}

fresh_created : timer_wheel_create 1 10 4 (λ n. timer_node_init) ≡ some fresh
unfolding timer_wheel_create
fresh_created = refl

fresh-Loose : Loose fresh 7
fresh-Loose = record { absent = λ k i h. refl; not_due = refl; not_taken = refl }

fresh-own : elsewhere fresh 7 ≡ false
unfolding elsewhere
fresh-own = refl

-- 2560 ms are 256 ticks: the timer comes in tick 257.
late : due_tick 0 (0 + ticks_of fresh 2560) ≡ 257
unfolding due_tick far_due ticks_of
late = refl

late_enough : 0 + 256 ≤ due_tick 0 (0 + ticks_of fresh 2560)
late_enough = rw late (omega arith)

timer_add_fires_example :
    (w' : Wheel) × (timer_add fresh 7 2560 none 0 ≡ some (w', success))
    × Comes w' 0 7 (due_tick 0 (0 + ticks_of fresh 2560)) 256
timer_add_fires_example =
    timer_add_fires fresh 7 refl fresh-own fresh-Loose (omega arith) (omega arith) 2560 none 0 256
      (omega arith) late_enough

ticks_of_bounds_example : (25 ≤ ticks_of fresh 25 * 10) × (ticks_of fresh 25 * 10 < 25 + 10)
ticks_of_bounds_example = ticks_of_bounds fresh 25 (omega arith)

-- A timer that waits in the wheel, one that has fired and one whose callback has returned.
abbrev one_waits : Wheel
one_waits =
    internal_add_timer
      (change_node fresh 7 (λ m. record m { expires = 3; callback = some 9; wheel = some 1 })) 7

one_waits-In : In one_waits 7 1 3
unfolding internal_add_timer change_node slot_of
one_waits-In = record { pending = refl; placed = λ k i. ground arith; not_due = refl }

one_waits-own : elsewhere one_waits 7 ≡ false
unfolding elsewhere internal_add_timer change_node slot_of
one_waits-own = refl

timer_del_silences_example :
    ((timer_del one_waits 7).1 ≡ success)
    × (((ticks 5 (timer_del one_waits 7).0).node 7).pending ≡ false)
    × (contains 7 (ticks 5 (timer_del one_waits 7).0).expired_list ≡ false)
timer_del_silences_example = timer_del_silences one_waits 7 1 3 5 one_waits-In one_waits-own

abbrev one_due : Wheel
one_due = record fresh {
  expired_list = 7 ∷ [];
  node = λ n. record timer_node_init { callback = some 9; arg = 4; wheel = some 1 };
}

one_due-own : elsewhere one_due 7 ≡ false
unfolding elsewhere
one_due-own = refl

timer_del_sync_late_example :
    ((timer_del_sync one_due 7).1 ≡ not_pending)
    × ((timer_del_sync one_due 7).2 ≡ false)
    × (contains 7 (worker_take (timer_del_sync one_due 7).0).node_lists ≡ true)
    × ((worker_start (worker_take (timer_del_sync one_due 7).0) 7).1 ≡ some (9, 4))
timer_del_sync_late_example =
    timer_del_sync_late one_due 7 9 (record { pending = refl; due = refl }) one_due-own refl refl

abbrev called_back : Wheel
called_back = record fresh {
  jiffies = 12;
  node = λ n. record timer_node_init { expires = 10; period = 5; executing = true; wheel = some 1 };
}

next_at : due_tick 12 (10 + 5) ≡ 15
unfolding due_tick far_due
next_at = refl

worker_finish_rearms_example : Comes (worker_finish called_back 7) 12 7 (due_tick 12 (10 + 5)) 3
worker_finish_rearms_example =
    worker_finish_rearms called_back 7 3 refl (omega arith)
      (record { absent = λ k i. refl; not_due = refl; still = refl }) (omega arith) (omega arith)
      (rw next_at (omega arith))
