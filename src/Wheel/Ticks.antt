-- ===== src/Wheel/Ticks.antt =====
-- wheel_timer/wheel_timer.c: what one tick does with one timer.
use rsvp_te.Prelude.{
  ℕ, ◌+◌, ◌/◌, ◌%◌, ◌^◌, ◌≤◌, ◌<◌, ◌≡◌, refl, ◌∙◌, true, false, ◌&&◌, ◌==◌, if◌then◌else◌, contains,
  arith, inl, inr, Bool-cases, ◌≢◌, List, [],
}
use rsvp_te.Wheel.{Wheel, cascade, cascades, expire, tick}
use rsvp_te.Wheel.Slots.{
  Waits, near, far2, far3, far4, far5, far_due, Waits-next, Waits-idle2, Waits-idle3, Waits-idle4,
  Waits-idle5,
}
use rsvp_te.Wheel.Moves.{In, contains-append, jiffies-cascade}
use rsvp_te.Wheel.Turns.{Held, turn2, turn3, turn4, turn5}

module _ (t : ℕ) (w : Wheel) (n f : ℕ) where
  idle2 : t % 256 ≢ 0 → Held 0 0 0 0 t w n f → Held 1 1 1 1 t w n f
  idle2 no_turn (k, i, at, waits) = (k, i, at, Waits-idle2 t f _ no_turn waits)

  idle3 : t / 2 ^ 8 % 64 ≢ 0 → Held 1 0 0 0 t w n f → Held 1 1 1 1 t w n f
  idle3 no_turn (k, i, at, waits) = (k, i, at, Waits-idle3 t f _ no_turn waits)

  idle4 : t / 2 ^ 14 % 64 ≢ 0 → Held 1 1 0 0 t w n f → Held 1 1 1 1 t w n f
  idle4 no_turn (k, i, at, waits) = (k, i, at, Waits-idle4 t f _ no_turn waits)

  idle5 : t / 2 ^ 20 % 64 ≢ 0 → Held 1 1 1 0 t w n f → Held 1 1 1 1 t w n f
  idle5 no_turn (k, i, at, waits) = (k, i, at, Waits-idle5 t f _ no_turn waits)

ne-of_test : (a b : ℕ) → (a == b) ≡ false → a ≢ b
ne-of_test a b h e = ground arith

-- After the cascades of the tick `t` a timer is due in it, or waits on.
pub cascades-Held :
    (t : ℕ) (w : Wheel) (n f : ℕ)
    → w.jiffies ≡ t
    → t < 2 ^ 62
    → Held 0 0 0 0 t w n f
    → Held 1 1 1 1 t (cascades w t) n f
unfolding cascades
cascades-Held t w n f now small held =
    let w2 = cascade w 2 (t / 2 ^ 8 % 64) in
    let w3 = cascade w2 3 (t / 2 ^ 14 % 64) in
    let w4 = cascade w3 4 (t / 2 ^ 20 % 64) in
    let now2 : w2.jiffies ≡ t = jiffies-cascade w 2 _ n ∙ now in
    let now3 : w3.jiffies ≡ t = jiffies-cascade w2 3 _ n ∙ now2 in
    let now4 : w4.jiffies ≡ t = jiffies-cascade w3 4 _ n ∙ now3 in
    elim (Bool-cases (t % 256 == 0)) [
      | inr off ↦ rw off (idle2 t w n f (ne-of_test _ 0 off) held)
      | inl on ↦
          let held2 = turn2 t w n f now small (ground arith) held in
          rw on (elim (Bool-cases (t / 2 ^ 8 % 64 == 0)) [
            | inr off2 ↦ rw off2 (idle3 t w2 n f (ne-of_test _ 0 off2) held2)
            | inl on2 ↦
                let held3 = turn3 t w2 n f now2 small (ground arith) held2 in
                rw on2 (elim (Bool-cases (t / 2 ^ 14 % 64 == 0)) [
                  | inr off3 ↦ rw off3 (idle4 t w3 n f (ne-of_test _ 0 off3) held3)
                  | inl on3 ↦
                      let held4 = turn4 t w3 n f now3 small (ground arith) held3 in
                      rw on3 (elim (Bool-cases (t / 2 ^ 20 % 64 == 0)) [
                        | inr off4 ↦ rw off4 (idle5 t w4 n f (ne-of_test _ 0 off4) held4)
                        | inl on4 ↦ rw on4 (turn5 t w4 n f now4 small (ground arith) held4)
                      ])
                ])
          ])
    ]

pub jiffies-cascades : (w : Wheel) (t n : ℕ) → (cascades w t).jiffies ≡ w.jiffies
unfolding cascades
jiffies-cascades w t n =
    let w2 = cascade w 2 (t / 2 ^ 8 % 64) in
    let w3 = cascade w2 3 (t / 2 ^ 14 % 64) in
    let w4 = cascade w3 4 (t / 2 ^ 20 % 64) in
    ground (
      arith,
      jiffies-cascade w 2 (t / 2 ^ 8 % 64) n,
      jiffies-cascade w2 3 (t / 2 ^ 14 % 64) n,
      jiffies-cascade w3 4 (t / 2 ^ 20 % 64) n,
      jiffies-cascade w4 5 (t / 2 ^ 26 % 64) n,
    )

-- The timer was taken out of the wheel and handed to the workers.
pub record Fired (w : Wheel) (n : ℕ) : Type 0 where
  pub pending : (w.node n).pending ≡ false
  pub due : contains n w.expired_list ≡ true

far_due-ge : (e : ℕ) → e ≤ far_due e
unfolding far_due
far_due-ge e = ground arith

-- Only a timer whose tick it is stands in the current list.
current_list :
    (t f e k i : ℕ) → Waits 1 1 1 1 t f e k i → ((k == 1 && i == t % 256) ≡ (f == t)) × (t ≤ f)
current_list t f e k i (near a b c d) = ground arith
current_list t f e k i (far2 a b c d g) = ground (arith, far_due-ge e)
current_list t f e k i (far3 a b c d g) = ground (arith, far_due-ge e)
current_list t f e k i (far4 a b c d g) = ground (arith, far_due-ge e)
current_list t f e k i (far5 a b c d g) = ground (arith, far_due-ge e)

-- The list that `expire` empties is not the timer's.
emptied_other :
    (n k i a b t : ℕ) (l : List ℕ)
    → (k == 1 && i == t % 256) ≡ false
    → contains n l ≡ (k == a && i == b)
    → contains n (if 1 == a && t % 256 == b then [] else l) ≡ (k == a && i == b)
emptied_other n k i a b t l other h = ground arith

module _ (t : ℕ) (w : Wheel) (n f : ℕ) where
  pub expire-fires : f ≡ t → Held 1 1 1 1 t w n f → Fired (expire w (t % 256)) n
  unfolding expire
  expire-fires f≡t (k, i, at, waits) =
      let current = current_list t f _ k i waits in
      let here : contains n (w.tv 1 (t % 256)) ≡ true =
        at.placed 1 (t % 256) ∙ current.0 ∙ ground arith in
      record {
        pending = rw here;
        due = contains-append n (w.tv 1 (t % 256)) w.expired_list ∙ rw here;
      }

  pub expire-keeps : t < f → Held 1 1 1 1 t w n f → Held 0 0 0 0 (t + 1) (expire w (t % 256)) n f
  unfolding expire
  expire-keeps after (k, i, at, waits) =
      let current = current_list t f _ k i waits in
      let other : (k == 1 && i == t % 256) ≡ false = current.0 ∙ ground arith in
      let away : contains n (w.tv 1 (t % 256)) ≡ false = at.placed 1 (t % 256) ∙ other in
      (
        k,
        i,
        record {
          pending = rw away at.pending;
          placed = λ a b. emptied_other n k i a b t (w.tv a b) other (at.placed a b);
          not_due = contains-append n (w.tv 1 (t % 256)) w.expired_list ∙ rw away at.not_due;
        },
        rw away (Waits-next t f _ after waits),
      )

-- The clock of the wheel moves on.
set_clock : (w : Wheel) (n k i j : ℕ) → In w n k i → In (record w { jiffies = j }) n k i
set_clock w n k i j at = record { pending = at.pending; placed = at.placed; not_due = at.not_due }

pub jiffies-tick : (w : Wheel) → w.jiffies < 2 ^ 62 → (tick w).jiffies ≡ w.jiffies + 1
unfolding tick expire
jiffies-tick w small =
    let clock : (w.jiffies + 1) % 2 ^ 64 ≡ w.jiffies + 1 = omega arith in
    jiffies-cascades (record w { jiffies = (w.jiffies + 1) % 2 ^ 64 }) ((w.jiffies + 1) % 2 ^ 64) 0
    ∙ clock

tick-Held :
    (w : Wheel) (n f : ℕ)
    → w.jiffies + 1 < 2 ^ 62
    → Held 0 0 0 0 (w.jiffies + 1) w n f
    → Held 1 1 1 1
        (w.jiffies + 1)
        (cascades (record w { jiffies = w.jiffies + 1 }) (w.jiffies + 1))
        n
        f
tick-Held w n f small (k, i, at, waits) =
    cascades-Held (w.jiffies + 1) (record w { jiffies = w.jiffies + 1 }) n f refl small
      (k, i, set_clock w n k i (w.jiffies + 1) at, waits)

-- A timer whose tick it is fires.
pub tick-fires :
    (w : Wheel) (n f : ℕ)
    → w.jiffies + 1 < 2 ^ 62
    → f ≡ w.jiffies + 1
    → Held 0 0 0 0 (w.jiffies + 1) w n f
    → Fired (tick w) n
unfolding tick
tick-fires w n f small now held =
    let clock : (w.jiffies + 1) % 2 ^ 64 ≡ w.jiffies + 1 = omega arith in
    rw clock (expire-fires _ _ n f now (tick-Held w n f small held))

-- Any other waits on.
pub tick-keeps :
    (w : Wheel) (n f : ℕ)
    → w.jiffies + 1 < 2 ^ 62
    → w.jiffies + 1 < f
    → Held 0 0 0 0 (w.jiffies + 1) w n f
    → Held 0 0 0 0 (w.jiffies + 1 + 1) (tick w) n f
unfolding tick
tick-keeps w n f small after held =
    let clock : (w.jiffies + 1) % 2 ^ 64 ≡ w.jiffies + 1 = omega arith in
    rw clock (expire-keeps _ _ n f after (tick-Held w n f small held))
