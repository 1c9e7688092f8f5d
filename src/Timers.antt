-- ===== src/Timers.antt =====
-- src/pi/rsvp_timers.c: the timers of the protocol, between the wheel's thread, which reports a timer
-- that is due through a pipe, and the event loop, which reads the pipe and runs the callbacks. The
-- registry of active timers is what tells a message that is still wanted from a stale one.
pub mod Registry
pub mod Expiry
mod Tests
use rsvp_te.Prelude.{
  ℕ, suc, ◌+◌, ◌%◌, ◌^◌, Bool, true, false, not, List, [], ◌∷◌, ◌++◌, Option, none, some, ◌==◌,
  if◌then◌else◌, replicate,
}

-- `struct active_timer_entry`, `none` where its `timer` is NULL.
pub data Entry : Type 0 where
  free_slot : Entry
  entry : ℕ → ℕ → Entry

-- `register_active_timer`: the first free slot; a full registry is only logged.
unfoldable pub register_active_timer : ℕ → ℕ → List Entry → List Entry
register_active_timer timer seq [] = []
register_active_timer timer seq (free_slot ∷ es) = entry timer seq ∷ es
register_active_timer timer seq (entry t s ∷ es) = entry t s ∷ register_active_timer timer seq es

-- `unregister_active_timer`: the first entry of the timer.
unfoldable pub unregister_active_timer : ℕ → List Entry → List Entry
unregister_active_timer timer [] = []
unregister_active_timer timer (free_slot ∷ es) = free_slot ∷ unregister_active_timer timer es
unregister_active_timer timer (entry t s ∷ es) =
    let rest = unregister_active_timer timer es in
    if t == timer then free_slot ∷ es else entry t s ∷ rest

-- `is_timer_active_and_matches`: the first entry of the timer decides.
unfoldable pub is_timer_active_and_matches : ℕ → ℕ → List Entry → Bool
is_timer_active_and_matches timer seq [] = false
is_timer_active_and_matches timer seq (free_slot ∷ es) = is_timer_active_and_matches timer seq es
is_timer_active_and_matches timer seq (entry t s ∷ es) =
    let rest = is_timer_active_and_matches timer seq es in if t == timer then s == seq else rest

-- A timer is its address. `active` and `seq` are members of `rsvp_timer_t`; `wheel` is the timers
-- that the wheel has, `pipe` the messages (timer, sequence number) that were not read yet.
pub record Timers : Type 0 where
  pub active_timers : List Entry
  pub global_timer_seq : ℕ
  pub active : ℕ → Bool
  pub seq : ℕ → ℕ
  pub wheel : ℕ → Bool
  pub pipe : List (ℕ × ℕ)

abbrev pub max_active_timers : ℕ
max_active_timers = 2048

abbrev pub put_at {ℓ} : {A : Type ℓ} → (ℕ → A) → ℕ → A → ℕ → A
put_at f i v j = if i == j then v else f j

-- `rsvp_timer_init`
abbrev pub rsvp_timer_init : Timers
rsvp_timer_init = record {
  active_timers = replicate max_active_timers free_slot;
  global_timer_seq = 1;
  active = λ t. false;
  seq = λ t. 0;
  wheel = λ t. false;
  pipe = [];
}

unfoldable pub rsvp_timer_stop : Timers → ℕ → Timers
rsvp_timer_stop w timer = if not (w.active timer) then w else record w {
  wheel = put_at w.wheel timer false;
  active = put_at w.active timer false;
  active_timers = unregister_active_timer timer w.active_timers;
}

-- Past the stop of a timer that runs. `add_ok` is whether `timer_add` took it.
unfoldable pub launch : Timers → ℕ → Bool → Timers
launch w timer add_ok =
    let seq = (w.global_timer_seq + 1) % 2 ^ 64 in
    let registered = register_active_timer timer seq w.active_timers in
    record w {
      global_timer_seq = seq;
      seq = put_at w.seq timer seq;
      active = put_at w.active timer add_ok;
      wheel = put_at w.wheel timer add_ok;
      active_timers = if add_ok then registered else unregister_active_timer timer registered;
    }

unfoldable pub rsvp_timer_start : Timers → ℕ → Bool → Timers
rsvp_timer_start w timer add_ok =
    launch (if w.active timer then rsvp_timer_stop w timer else w) timer add_ok

-- `timer_mod` moves the timer in the wheel; nothing here changes.
unfoldable pub rsvp_timer_reset : Timers → ℕ → Bool → Bool
rsvp_timer_reset w timer mod_ok = if not (w.active timer) then false else mod_ok

-- The wheel takes a due timer out and calls back: it is inactive, and the message is in the pipe.
unfoldable pub internal_wheel_cb : Timers → ℕ → Timers
internal_wheel_cb w timer = record w {
  wheel = put_at w.wheel timer false;
  active = put_at w.active timer false;
  pipe = w.pipe ++ ((timer, w.seq timer) ∷ []);
}

-- One message of the loop in `rsvp_timer_handle_exp`: the timer whose callback is to run, if any.
unfoldable pub handle_message : Timers → ℕ → ℕ → Option ℕ × Timers
handle_message w timer seq =
    if is_timer_active_and_matches timer seq w.active_timers
    then (some timer, record w { active_timers = unregister_active_timer timer w.active_timers })
    else (none, w)

-- The first message of the pipe is read and handled; `none` where the read would block.
unfoldable pub rsvp_timer_handle_exp : Timers → Option (Option ℕ × Timers)
rsvp_timer_handle_exp w = elim w.pipe [
  | [] ↦ none
  | m ∷ ms ↦ some (handle_message (record w { pipe = ms }) m.0 m.1)
]
