-- ===== src/Timers/Tests.antt =====
-- src/pi/rsvp_timers.c with a registry of two slots.
use rsvp_te.Prelude.{◌≡◌, refl, true, [], ◌∷◌, none, some, ◌==◌, if◌then◌else◌}
use rsvp_te.Timers.{
  Timers, Entry, rsvp_timer_init, rsvp_timer_start, rsvp_timer_stop, launch, internal_wheel_cb,
  handle_message, register_active_timer, is_timer_active_and_matches,
}
use rsvp_te.Timers.Expiry.{start-expires, stop-silences, stop-too_late}

abbrev idle : Timers
idle = record rsvp_timer_init { active_timers = Entry.free_slot ∷ Entry.free_slot ∷ [] }

abbrev one_runs : Timers
one_runs = rsvp_timer_start idle 5 true

start-expires_example :
    let due = internal_wheel_cb (rsvp_timer_start idle 5 true) 5 in
    (due.pipe ≡ (5, 2) ∷ []) × ((handle_message due 5 2).0 ≡ (if 2 == 2 then some 5 else none))
start-expires_example = start-expires idle 5 2 refl refl refl

stop-silences_example : (handle_message (rsvp_timer_stop one_runs 5) 5 2).0 ≡ none
unfolding rsvp_timer_start launch register_active_timer
stop-silences_example = stop-silences one_runs 5 2 refl (refl, tt)

stop-too_late_example :
    let due = internal_wheel_cb one_runs 5 in
    (rsvp_timer_stop due 5 ≡ due)
    × ((handle_message (rsvp_timer_stop due 5) 5 (one_runs.seq 5)).0 ≡ some 5)
unfolding rsvp_timer_start launch register_active_timer is_timer_active_and_matches
stop-too_late_example = stop-too_late one_runs 5 refl
