-- ===== src/Wheel/Deleting.antt =====
-- wheel_timer/wheel_timer.c: deletion, and the worker threads.
use rsvp_te.Prelude.{
  ℕ, zero, suc, ◌+◌, ◌/◌, ◌%◌, ◌^◌, ◌≤◌, ◌<◌, ◌≡◌, refl, ap, subst, ◌∙◌, Bool, true, false, ◌&&◌,
  none, some, ◌==◌, if◌then◌else◌, List, [], contains, arith, lt→ltb,
}
use rsvp_te.Wheel.{
  Wheel, success, not_pending, change_node, elsewhere, timer_del, timer_del_sync, worker_take,
  worker_start, worker_finish, emptied, cascade, cascades, expire, tick, internal_add_timer,
  list_del,
}
use rsvp_te.Wheel.Slots.{due_tick}
use rsvp_te.Wheel.Moves.{
  In, jiffies-internal_add_timer, contains-append, contains-add_all, expired_list-add_all,
  pending-add_all,
}
use rsvp_te.Wheel.Ticks.{Fired}
use rsvp_te.Wheel.Arming.{
  Waiting, change_node-Unlinked, ticks, internal_add_timer-Waiting, contains-delete_self,
}
use rsvp_te.Wheel.Firing.{Comes, Waiting-Comes}

-- The timer is in no list, and not pending.
pub record Gone (w : Wheel) (n : ℕ) : Type 0 where
  pub absent : (k i : ℕ) → contains n (w.tv k i) ≡ false
  pub not_due : contains n w.expired_list ≡ false
  pub still : (w.node n).pending ≡ false

emptied_absent :
    (n : ℕ) (b : Bool) (l : List ℕ)
    → contains n l ≡ false
    → contains n (if b then [] else l) ≡ false
emptied_absent n b l h = ground arith

cascade-Gone : (w : Wheel) (n k i : ℕ) → Gone w n → Gone (cascade w k i) n
unfolding cascade emptied
cascade-Gone w n k i gone = record {
  absent = λ a b.
      contains-add_all (emptied w k i) (w.tv k i) n a b
      ∙ rw (gone.absent k i, emptied_absent n (k == a && i == b) (w.tv a b) (gone.absent a b)) refl;
  not_due = ap (contains n) (expired_list-add_all (emptied w k i) (w.tv k i)) ∙ gone.not_due;
  still = pending-add_all (emptied w k i) (w.tv k i) n ∙ rw (gone.still, gone.absent k i);
}

if-Gone : (w w' : Wheel) (n : ℕ) (b : Bool) → Gone w n → Gone w' n → Gone (if b then w else w') n
if-Gone w w' n true g g' = g
if-Gone w w' n false g g' = g'

cascades-Gone : (w : Wheel) (n t : ℕ) → Gone w n → Gone (cascades w t) n
unfolding cascades
cascades-Gone w n t gone =
    let g2 = cascade-Gone w n 2 (t / 2 ^ 8 % 64) gone in
    let g3 = cascade-Gone _ n 3 (t / 2 ^ 14 % 64) g2 in
    let g4 = cascade-Gone _ n 4 (t / 2 ^ 20 % 64) g3 in
    let g5 = cascade-Gone _ n 5 (t / 2 ^ 26 % 64) g4 in
    if-Gone _ _ n _ gone (if-Gone _ _ n _ g2 (if-Gone _ _ n _ g3 (if-Gone _ _ n _ g4 g5)))

expire-Gone : (w : Wheel) (n i : ℕ) → Gone w n → Gone (expire w i) n
unfolding expire
expire-Gone w n i gone = record {
  absent = λ a b. emptied_absent n (1 == a && i == b) (w.tv a b) (gone.absent a b);
  not_due = contains-append n (w.tv 1 i) w.expired_list ∙ rw (gone.absent 1 i, gone.not_due);
  still = rw (gone.absent 1 i) gone.still;
}

set_clock-Gone : (w : Wheel) (n j : ℕ) → Gone w n → Gone (record w { jiffies = j }) n
set_clock-Gone w n j gone = record {
  absent = gone.absent;
  not_due = gone.not_due;
  still = gone.still;
}

ticks-Gone : (k : ℕ) (w : Wheel) (n : ℕ) → Gone w n → Gone (ticks k w) n
unfolding tick
ticks-Gone zero w n gone = gone
ticks-Gone (suc k) w n gone =
    let j = (w.jiffies + 1) % 2 ^ 64 in
    ticks-Gone k (tick w) n (
      expire-Gone (cascades (record w { jiffies = j }) j) n (j % 256)
        (cascades-Gone (record w { jiffies = j }) n j (set_clock-Gone w n j gone)))

-- What `timer_del` leaves of a pending timer.
abbrev deleted : Wheel → ℕ → Wheel
deleted w n =
    change_node (list_del (change_node w n (λ m. record m { period = 0 })) n) n
      (λ m. record m { pending = false; wheel = none })

timer_del-pending :
    (w : Wheel) (n : ℕ)
    → elsewhere w n ≡ false
    → (w.node n).pending ≡ true
    → timer_del w n ≡ (deleted w n, success)
unfolding timer_del
timer_del-pending w n own here = rw (own, here)

deleted-Gone : (w : Wheel) (n k i : ℕ) → In w n k i → Gone (deleted w n) n
unfolding change_node list_del
deleted-Gone w n k i at = record {
  absent = λ a b. contains-delete_self n (w.tv a b);
  not_due = at.not_due;
  still = ground arith;
}

-- `timer_del` of a pending timer of the wheel returns 0, and the timer does not fire after it,
-- however many ticks follow.
pub timer_del_silences :
    (w : Wheel) (n k i m : ℕ)
    → In w n k i
    → elsewhere w n ≡ false
    → ((timer_del w n).1 ≡ success)
      × (((ticks m (timer_del w n).0).node n).pending ≡ false)
      × (contains n (ticks m (timer_del w n).0).expired_list ≡ false)
timer_del_silences w n k i m at own =
    let gone = ticks-Gone m (deleted w n) n (deleted-Gone w n k i at) in
    rw (timer_del-pending w n own at.pending) (refl, gone.still, gone.not_due)

-- A timer that has fired, is not executing, and whose callback no worker has come to: `timer_del_sync`
-- returns 1 without waiting, and a worker still runs the callback.
pub timer_del_sync_late :
    (w : Wheel) (n cb : ℕ)
    → Fired w n
    → elsewhere w n ≡ false
    → (w.node n).executing ≡ false
    → (w.node n).callback ≡ some cb
    → ((timer_del_sync w n).1 ≡ not_pending)
      × ((timer_del_sync w n).2 ≡ false)
      × (contains n (worker_take (timer_del_sync w n).0).node_lists ≡ true)
      × ((worker_start (worker_take (timer_del_sync w n).0) n).1 ≡ some (cb, (w.node n).arg))
unfolding timer_del_sync worker_take worker_start
timer_del_sync_late w n cb fired own idle has =
    rw (own, fired.pending, idle)
      (
        refl,
        ground arith,
        contains-append n w.node_lists w.expired_list ∙ ground (arith, fired.due),
        ground arith,
      )

-- A worker is done with a periodic timer.
abbrev advanced : Wheel → ℕ → Wheel
advanced w n =
    change_node (change_node w n (λ m. record m { executing = false })) n
      (λ m. record m { expires = (m.expires + m.period) % 2 ^ 64 })

abbrev rearmed : Wheel → ℕ → Wheel
rearmed w n = internal_add_timer (advanced w n) n

worker_finish-periodic :
    (w : Wheel) (n : ℕ)
    → w.running ≡ true
    → 0 < (w.node n).period
    → (w.node n).pending ≡ false
    → worker_finish w n ≡ rearmed w n
unfolding worker_finish
worker_finish-periodic w n on periodic idle = rw (on, lt→ltb 0 (w.node n).period periodic, idle)

jiffies-advanced : (w : Wheel) (n : ℕ) → (advanced w n).jiffies ≡ w.jiffies
unfolding change_node
jiffies-advanced w n = refl

expires-advanced :
    (w : Wheel) (n : ℕ)
    → (w.node n).expires + (w.node n).period < 2 ^ 64
    → ((advanced w n).node n).expires ≡ (w.node n).expires + (w.node n).period
unfolding change_node
expires-advanced w n bound = ground arith

rearmed-Waiting :
    (w : Wheel) (n : ℕ)
    → w.jiffies < 2 ^ 60
    → (w.node n).expires + (w.node n).period < w.jiffies + 2 ^ 32
    → Gone w n
    → Waiting (rearmed w n) n (due_tick w.jiffies ((w.node n).expires + (w.node n).period))
rearmed-Waiting w n small bound gone =
    let v = advanced w n in
    let now = jiffies-advanced w n in
    let due = expires-advanced w n (omega arith) in
    let free =
      change_node-Unlinked _ n _
        (change_node-Unlinked w n _ (record { absent = gone.absent; not_due = gone.not_due })) in
    subst (λ j. Waiting (rearmed w n) n (due_tick j ((w.node n).expires + (w.node n).period))) now
      (subst (λ x. Waiting (rearmed w n) n (due_tick v.jiffies x)) due
        (internal_add_timer-Waiting v n (omega arith) (omega arith) free))

-- When the callback of a periodic timer returns, the timer is armed again for one period after the expiry that
-- it was armed for. It fires in the next tick if that time is not after the current tick, one tick after it
-- if it is a multiple of 256 and at least 256 ticks ahead, and else in its tick. Over the ticks up to
-- that one it is pending before it, and in `expired_list` and not pending in it. The wheel runs, the timer is in
-- none of its lists and not pending, the tick is below 2 ^ 60 and the new expiry less than 2 ^ 32 ticks ahead.
pub worker_finish_rearms :
    (w : Wheel) (n k : ℕ)
    → w.running ≡ true
    → 0 < (w.node n).period
    → Gone w n
    → w.jiffies < 2 ^ 60
    → (w.node n).expires + (w.node n).period < w.jiffies + 2 ^ 32
    → w.jiffies + k ≤ due_tick w.jiffies ((w.node n).expires + (w.node n).period)
    → Comes
        (worker_finish w n)
        w.jiffies
        n
        (due_tick w.jiffies ((w.node n).expires + (w.node n).period))
        k
worker_finish_rearms w n k on periodic gone small bound reach =
    let e = (w.node n).expires + (w.node n).period in
    rw (worker_finish-periodic w n on periodic gone.still) (
      Waiting-Comes (rearmed w n) n w.jiffies k e
        (jiffies-internal_add_timer (advanced w n) n ∙ jiffies-advanced w n) small bound reach
        (rearmed-Waiting w n small bound gone))
