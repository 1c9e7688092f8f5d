-- ===== src/Timers/Expiry.antt =====
-- From the start of a timer of src/pi/rsvp_timers.c to its callback, and what a stop in between does.
use rsvp_te.Prelude.{
  ℕ, ◌+◌, ◌%◌, ◌^◌, ◌≡◌, refl, true, false, [], ◌∷◌, ◌++◌, none, some, ◌==◌, if◌then◌else◌, arith,
  inl, inr, Bool-cases,
}
use rsvp_te.Timers.{
  Timers, is_timer_active_and_matches, rsvp_timer_stop, launch, rsvp_timer_start, internal_wheel_cb,
  handle_message, put_at,
}
use rsvp_te.Timers.Registry.{
  registered, has_room, Once, matches-unregistered, matches-register, unregister-Once,
}

put_at_self {ℓ} : {A : Type ℓ} (f : ℕ → A) (i : ℕ) (v : A) → put_at f i v i ≡ v
put_at_self f i v = ground arith

start_idle :
    (w : Timers) (timer : ℕ)
    → w.active timer ≡ false
    → rsvp_timer_start w timer true ≡ launch w timer true
unfolding rsvp_timer_start
start_idle w timer idle = rw idle refl

-- A timer that is neither active nor registered is started while the registry has room, and the
-- wheel takes it; when it is due,
-- the message that the wheel leaves makes the event loop run its callback, and only a message with
-- the number of this start does.
pub start-expires :
    (w : Timers) (timer seq : ℕ)
    → w.active timer ≡ false
    → registered timer w.active_timers ≡ false
    → has_room w.active_timers ≡ true
    → let due = internal_wheel_cb (rsvp_timer_start w timer true) timer in
      (due.pipe ≡ w.pipe ++ ((timer, (w.global_timer_seq + 1) % 2 ^ 64) ∷ []))
      × ((handle_message due timer seq).0
          ≡ (if (w.global_timer_seq + 1) % 2 ^ 64 == seq then some timer else none))
unfolding launch internal_wheel_cb handle_message
start-expires w timer seq idle new room =
    let number = (w.global_timer_seq + 1) % 2 ^ 64 in
    rw (start_idle w timer idle, put_at_self w.seq timer number)
      (
        refl,
        rw (matches-register timer number seq w.active_timers new room)
            (elim (Bool-cases (number == seq)) [
              | inl same ↦ rw same refl
              | inr other ↦ rw other refl
            ]),
      )

-- A stop of an active timer, where no timer is registered twice: no message about that timer, old or
-- new, makes the event loop run its callback.
pub stop-silences :
    (w : Timers) (timer seq : ℕ)
    → w.active timer ≡ true
    → Once w.active_timers
    → (handle_message (rsvp_timer_stop w timer) timer seq).0 ≡ none
unfolding rsvp_timer_stop handle_message
stop-silences w timer seq running once =
    rw (running, matches-unregistered timer seq _ (unregister-Once timer w.active_timers once)) refl

-- For a timer that is registered with its own number, a stop that comes after it was due and before
-- the event loop reads the message changes nothing: the callback is still run.
pub stop-too_late :
    (w : Timers) (timer : ℕ)
    → is_timer_active_and_matches timer (w.seq timer) w.active_timers ≡ true
    → let due = internal_wheel_cb w timer in
      (rsvp_timer_stop due timer ≡ due)
      × ((handle_message (rsvp_timer_stop due timer) timer (w.seq timer)).0 ≡ some timer)
unfolding rsvp_timer_stop internal_wheel_cb handle_message
stop-too_late w timer fits =
    let off = put_at_self w.active timer false in (rw off refl, rw (off, fits) refl)
