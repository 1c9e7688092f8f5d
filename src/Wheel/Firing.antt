-- ===== src/Wheel/Firing.antt =====
-- wheel_timer/wheel_timer.c: when the callbacks of the timers come.
use rsvp_te.Prelude.{
  ℕ, ◌+◌, ◌*◌, ◌/◌, ◌%◌, ◌^◌, ◌≤◌, ◌<◌, ◌≡◌, ap, ◌∙◌, true, false, not, ◌&&◌, Option, some, ◌==◌,
  leb, ltb, contains, arith, ◌⊎◌, inl, inr, Bool-cases,
}
use rsvp_te.Wheel.{
  Wheel, Node, success, linked, elsewhere, admit, ticks_of, timer_add, timer_add_periodic,
  timer_mod, one_shot, periodic, moved, armed, period_of,
}
use rsvp_te.Wheel.Slots.{due_tick, due_tick-after, far_due}
use rsvp_te.Wheel.Arming.{ticks, Waiting, Loose, ticks-Waiting, armed-Waiting, jiffies-armed}

div_mod : (a d : ℕ) → 0 < d → a / d * d + a % d ≡ a
div_mod a d pos = grind arith

mod_lt : (a d : ℕ) → 0 < d → a % d < d
mod_lt a d pos = grind arith

div-le : (a d : ℕ) → 0 < d → a / d ≤ a
div-le a d pos = grind (arith, div_mod)

le-mul : (q d : ℕ) → 0 < d → q ≤ q * d
le-mul q d pos = grind arith

suc_mul : (q d : ℕ) → (q + 1) * d ≡ q * d + d
suc_mul q d = grind arith

rounded_exact : (ms d : ℕ) → (ltb 0 ms && not (ms % d == 0)) ≡ false → (ms ≡ 0) ⊎ (ms % d ≡ 0)
rounded_exact ms d e = ground arith

rounded_up : (ms d : ℕ) → (ltb 0 ms && not (ms % d == 0)) ≡ true → 0 < ms % d
rounded_up ms d e = ground arith

-- The delay that `timer_add` and `timer_mod` choose is the least number of ticks that is not shorter than
-- the delay asked for.
pub ticks_of_bounds :
    (w : Wheel) (ms : ℕ)
    → 0 < w.tick_ms
    → (ms ≤ ticks_of w ms * w.tick_ms) × (ticks_of w ms * w.tick_ms < ms + w.tick_ms)
unfolding ticks_of
ticks_of_bounds w ms pos =
    let d = w.tick_ms in
    let whole = div_mod ms d pos in
    let part = mod_lt ms d pos in
    elim (Bool-cases (ltb 0 ms && not (ms % d == 0))) [
      | inl up ↦
          let more = rounded_up ms d up in rw (up, suc_mul (ms / d) d) (omega arith, omega arith)
      | inr down ↦ rw down (elim (rounded_exact ms d down) [
        | inl none_asked ↦ (omega arith, omega arith)
        | inr exact ↦ (omega arith, omega arith)
      ])
    ]

ticks_of-le : (w : Wheel) (ms : ℕ) → 0 < w.tick_ms → ticks_of w ms ≤ ms
unfolding ticks_of
ticks_of-le w ms pos =
    let whole = div_mod ms w.tick_ms pos in
    let less = le-mul (ms / w.tick_ms) w.tick_ms pos in
    elim (Bool-cases (ltb 0 ms && not (ms % w.tick_ms == 0))) [
      | inl up ↦ let more = rounded_up ms w.tick_ms up in rw up (omega arith)
      | inr down ↦ rw down (omega arith)
    ]

period_of-le : (w : Wheel) (ms : ℕ) → 0 < w.tick_ms → 0 < ms → period_of w ms ≤ ms
unfolding period_of
period_of-le w ms pos given = ground (arith, div-le ms w.tick_ms pos)

not_linked : (w : Wheel) (n : ℕ) → Loose w n → linked w n ≡ false
unfolding linked
not_linked w n loose = rw (loose.not_due, loose.not_taken) (ground arith)

-- Past its guards an adding function arms the timer.
admitted :
    (w w' : Wheel) (n : ℕ)
    → w.running ≡ true
    → elsewhere w n ≡ false
    → Loose w n
    → admit w n w' ≡ some (w', success)
unfolding admit
admitted w w' n on own loose = rw own (rw (not_linked w n loose) (rw on))

pub due_tick-le : (j e : ℕ) → e < j + 2 ^ 32 → due_tick j e ≤ j + 2 ^ 32
unfolding due_tick far_due
due_tick-le j e bound = ground arith

-- What the ticks up to the `k`-th do with a timer that waits for the tick `f`: it is pending before
-- `f`, and in `expired_list`, not pending, in `f`.
abbrev pub Comes : Wheel → ℕ → ℕ → ℕ → ℕ → Type 0
Comes w j n f k =
    (((ticks k w).node n).pending ≡ ltb (j + k) f)
    × (contains n (ticks k w).expired_list ≡ leb f (j + k))

-- A timer that waits since the tick `j` for its expiry `e` comes in its tick.
pub Waiting-Comes :
    (w : Wheel) (n j k e : ℕ)
    → w.jiffies ≡ j
    → j < 2 ^ 60
    → e < j + 2 ^ 32
    → j + k ≤ due_tick j e
    → Waiting w n (due_tick j e)
    → Comes w j n (due_tick j e) k
Waiting-Comes w n j k e now small bound reach waiting =
    let last = due_tick-le j e bound in
    let after = due_tick-after j e (omega arith) in
    let r = ticks-Waiting k w n (due_tick j e) (omega arith) (omega arith) (omega arith) waiting in
    (r.0 ∙ ap (λ i. ltb (i + k) (due_tick j e)) now, r.1 ∙ ap (λ i. leb (due_tick j e) (i + k)) now)

-- The timer is armed to expire at `e`, and ticks follow.
armed-Comes :
    (w : Wheel) (n k e : ℕ) (f : Node → Node)
    → w.jiffies < 2 ^ 60
    → e < w.jiffies + 2 ^ 32
    → ((m : Node) → (f m).expires ≡ e)
    → Loose w n
    → w.jiffies + k ≤ due_tick w.jiffies e
    → Comes (armed w n f) w.jiffies n (due_tick w.jiffies e) k
armed-Comes w n k e f small bound sets loose reach =
    Waiting-Comes (armed w n f) n w.jiffies k e (jiffies-armed w n f) small bound reach
      (armed-Waiting w n f e (omega arith) sets bound loose)

module _ (w : Wheel) (n : ℕ) (on : w.running ≡ true) (own : elsewhere w n ≡ false)
    (loose : Loose w n) (small : w.jiffies < 2 ^ 60) (pos : 0 < w.tick_ms) where
  -- `timer_add` on a wheel that runs, for a timer of this wheel or of none that is not due and not in
  -- the hands of a worker, with a tick below 2 ^ 60, succeeds. Over the ticks that follow the timer
  -- is pending before its tick, and in its tick, not before it, it is in `expired_list` and
  -- not pending. Its tick is that at which its delay, rounded up, ends; it is one later for a delay of
  -- 0, and for a delay of at least 256 ticks that ends at a multiple of 256.
  pub timer_add_fires :
      (ms : ℕ) (cb : Option ℕ) (arg k : ℕ)
      → ms < 2 ^ 32
      → w.jiffies + k ≤ due_tick w.jiffies (w.jiffies + ticks_of w ms)
      → (w' : Wheel) × (timer_add w n ms cb arg ≡ some (w', success))
        × Comes w' w.jiffies n (due_tick w.jiffies (w.jiffies + ticks_of w ms)) k
  unfolding timer_add
  timer_add_fires ms cb arg k uint reach =
      let short = ticks_of-le w ms pos in
      (
        armed w n (one_shot w ms cb arg),
        admitted w _ n on own loose,
        armed-Comes w n k (w.jiffies + ticks_of w ms) (one_shot w ms cb arg) small (omega arith)
            (λ m. omega arith) loose reach,
      )

  -- `timer_mod` moves a timer in the same way, to the delay that it is given.
  pub timer_mod_fires :
      (ms k : ℕ)
      → ms < 2 ^ 32
      → w.jiffies + k ≤ due_tick w.jiffies (w.jiffies + ticks_of w ms)
      → (w' : Wheel) × (timer_mod w n ms ≡ some (w', success))
        × Comes w' w.jiffies n (due_tick w.jiffies (w.jiffies + ticks_of w ms)) k
  unfolding timer_mod
  timer_mod_fires ms k uint reach =
      let short = ticks_of-le w ms pos in
      (
        armed w n (moved w ms),
        admitted w _ n on own loose,
        armed-Comes w n k (w.jiffies + ticks_of w ms) (moved w ms) small (omega arith)
            (λ m. omega arith) loose reach,
      )

  -- `timer_add_periodic`: the first expiry is one period after the call.
  pub timer_add_periodic_fires :
      (ms : ℕ) (cb : Option ℕ) (arg k : ℕ)
      → 0 < ms
      → ms < 2 ^ 32
      → w.jiffies + k ≤ due_tick w.jiffies (w.jiffies + period_of w ms)
      → (w' : Wheel) × (timer_add_periodic w n ms cb arg ≡ some (w', success))
        × Comes w' w.jiffies n (due_tick w.jiffies (w.jiffies + period_of w ms)) k
  unfolding timer_add_periodic
  timer_add_periodic_fires ms cb arg k some_ms uint reach =
      let short = period_of-le w ms pos some_ms in
      let given : (ms == 0) ≡ false = ground arith in
      rw given (
        armed w n (periodic w ms cb arg),
        admitted w _ n on own loose,
        armed-Comes w n k (w.jiffies + period_of w ms) (periodic w ms cb arg) small (omega arith)
            (λ m. omega arith) loose reach,
      )
