-- ===== src/Wheel/Turns.antt =====
-- wheel_timer/wheel_timer.c: a wheel is turned: the timers of its current list come due or go to a
-- lower wheel, those of its other lists wait on.
use rsvp_te.Prelude.{
  ℕ, ◌+◌, ◌*◌, ◌/◌, ◌%◌, ◌^◌, ◌≤◌, ◌<◌, ◌≡◌, subst, false, ◌&&◌, ◌==◌, arith, inl, inr, Bool-cases,
}
use rsvp_te.Wheel.{Wheel, slot_of, cascade}
use rsvp_te.Wheel.Slots.{
  Waits, near, far2, far3, far4, far5, far_due, due_tick, slot-Waits, Waits-weaken,
}
use rsvp_te.Wheel.Moves.{In, cascade-stays, cascade-moves, expires-cascade}

-- A timer of a wheel from the second on, that is taken out of its list in the tick `t`.
due_tick-moved : (t e c : ℕ) → t % 256 ≡ 0 → t ≤ e → c ≡ far_due e → due_tick t e ≡ c
unfolding due_tick far_due
due_tick-moved t e c turn later h = ground arith

missed2 :
    (t e : ℕ) {k i : ℕ}
    → k ≡ 2
    → i ≡ e / 2 ^ 8 % 64
    → t % 2 ^ 8 ≡ 0
    → t + 0 ≤ e / 2 ^ 8 * 2 ^ 8
    → e < t + 2 ^ 14
    → (k == 2 && i == t / 2 ^ 8 % 64) ≡ false
    → t + 1 ≤ e / 2 ^ 8 * 2 ^ 8
missed2 t e a d turn b c other = ground arith

missed3 :
    (t e : ℕ) {k i : ℕ}
    → k ≡ 3
    → i ≡ e / 2 ^ 14 % 64
    → t % 2 ^ 14 ≡ 0
    → t + 0 ≤ e / 2 ^ 14 * 2 ^ 14
    → e < t + 2 ^ 20
    → (k == 3 && i == t / 2 ^ 14 % 64) ≡ false
    → t + 1 ≤ e / 2 ^ 14 * 2 ^ 14
missed3 t e a d turn b c other = ground arith

missed4 :
    (t e : ℕ) {k i : ℕ}
    → k ≡ 4
    → i ≡ e / 2 ^ 20 % 64
    → t % 2 ^ 20 ≡ 0
    → t + 0 ≤ e / 2 ^ 20 * 2 ^ 20
    → e < t + 2 ^ 26
    → (k == 4 && i == t / 2 ^ 20 % 64) ≡ false
    → t + 1 ≤ e / 2 ^ 20 * 2 ^ 20
missed4 t e a d turn b c other = ground arith

missed5 :
    (t e : ℕ) {k i : ℕ}
    → k ≡ 5
    → i ≡ e / 2 ^ 26 % 64
    → t % 2 ^ 26 ≡ 0
    → t + 0 ≤ e / 2 ^ 26 * 2 ^ 26
    → e < t + 2 ^ 32
    → (k == 5 && i == t / 2 ^ 26 % 64) ≡ false
    → t + 1 ≤ e / 2 ^ 26 * 2 ^ 26
missed5 t e a d turn b c other = ground arith

module _ (t f e : ℕ) {k i : ℕ} (turn : t % 2 ^ 8 ≡ 0) where
  stay2 :
      (k == 2 && i == t / 2 ^ 8 % 64) ≡ false → Waits 0 0 0 0 t f e k i → Waits 1 0 0 0 t f e k i
  stay2 other (near a b c d) = near a b c d
  stay2 other (far2 a b c d g) = far2 a (missed2 t e a d turn b c other) c d g
  stay2 other (far3 a b c d g) = far3 a b c d g
  stay2 other (far4 a b c d g) = far4 a b c d g
  stay2 other (far5 a b c d g) = far5 a b c d g

  move2 :
      t < 2 ^ 62
      → k ≡ 2
      → i ≡ t / 2 ^ 8 % 64
      → Waits 0 0 0 0 t f e k i
      → Waits 1 0 0 0 t f e (slot_of t e).0 (slot_of t e).1
  move2 small h h' (near a b c d) = absurd (omega arith)
  move2 small h h' (far2 a b c d g) =
      Waits-weaken 0 0 0 t f e (omega arith) (omega arith) (omega arith) (
        subst (λ c. Waits 1 1 1 1 t c e (slot_of t e).0 (slot_of t e).1)
          (due_tick-moved t e f (omega arith) (omega arith) g) (slot-Waits t e small (omega arith)))
  move2 small h h' (far3 a b c d g) = absurd (omega arith)
  move2 small h h' (far4 a b c d g) = absurd (omega arith)
  move2 small h h' (far5 a b c d g) = absurd (omega arith)

module _ (t f e : ℕ) {k i : ℕ} (turn : t % 2 ^ 14 ≡ 0) where
  stay3 :
      (k == 3 && i == t / 2 ^ 14 % 64) ≡ false → Waits 1 0 0 0 t f e k i → Waits 1 1 0 0 t f e k i
  stay3 other (near a b c d) = near a b c d
  stay3 other (far2 a b c d g) = far2 a b c d g
  stay3 other (far3 a b c d g) = far3 a (missed3 t e a d turn b c other) c d g
  stay3 other (far4 a b c d g) = far4 a b c d g
  stay3 other (far5 a b c d g) = far5 a b c d g

  move3 :
      t < 2 ^ 62
      → k ≡ 3
      → i ≡ t / 2 ^ 14 % 64
      → Waits 1 0 0 0 t f e k i
      → Waits 1 1 0 0 t f e (slot_of t e).0 (slot_of t e).1
  move3 small h h' (near a b c d) = absurd (omega arith)
  move3 small h h' (far2 a b c d g) = absurd (omega arith)
  move3 small h h' (far3 a b c d g) =
      Waits-weaken 1 0 0 t f e (omega arith) (omega arith) (omega arith) (
        subst (λ c. Waits 1 1 1 1 t c e (slot_of t e).0 (slot_of t e).1)
          (due_tick-moved t e f (omega arith) (omega arith) g) (slot-Waits t e small (omega arith)))
  move3 small h h' (far4 a b c d g) = absurd (omega arith)
  move3 small h h' (far5 a b c d g) = absurd (omega arith)

module _ (t f e : ℕ) {k i : ℕ} (turn : t % 2 ^ 20 ≡ 0) where
  stay4 :
      (k == 4 && i == t / 2 ^ 20 % 64) ≡ false → Waits 1 1 0 0 t f e k i → Waits 1 1 1 0 t f e k i
  stay4 other (near a b c d) = near a b c d
  stay4 other (far2 a b c d g) = far2 a b c d g
  stay4 other (far3 a b c d g) = far3 a b c d g
  stay4 other (far4 a b c d g) = far4 a (missed4 t e a d turn b c other) c d g
  stay4 other (far5 a b c d g) = far5 a b c d g

  move4 :
      t < 2 ^ 62
      → k ≡ 4
      → i ≡ t / 2 ^ 20 % 64
      → Waits 1 1 0 0 t f e k i
      → Waits 1 1 1 0 t f e (slot_of t e).0 (slot_of t e).1
  move4 small h h' (near a b c d) = absurd (omega arith)
  move4 small h h' (far2 a b c d g) = absurd (omega arith)
  move4 small h h' (far3 a b c d g) = absurd (omega arith)
  move4 small h h' (far4 a b c d g) =
      Waits-weaken 1 1 0 t f e (omega arith) (omega arith) (omega arith) (
        subst (λ c. Waits 1 1 1 1 t c e (slot_of t e).0 (slot_of t e).1)
          (due_tick-moved t e f (omega arith) (omega arith) g) (slot-Waits t e small (omega arith)))
  move4 small h h' (far5 a b c d g) = absurd (omega arith)

module _ (t f e : ℕ) {k i : ℕ} (turn : t % 2 ^ 26 ≡ 0) where
  stay5 :
      (k == 5 && i == t / 2 ^ 26 % 64) ≡ false → Waits 1 1 1 0 t f e k i → Waits 1 1 1 1 t f e k i
  stay5 other (near a b c d) = near a b c d
  stay5 other (far2 a b c d g) = far2 a b c d g
  stay5 other (far3 a b c d g) = far3 a b c d g
  stay5 other (far4 a b c d g) = far4 a b c d g
  stay5 other (far5 a b c d g) = far5 a (missed5 t e a d turn b c other) c d g

  move5 :
      t < 2 ^ 62
      → k ≡ 5
      → i ≡ t / 2 ^ 26 % 64
      → Waits 1 1 1 0 t f e k i
      → Waits 1 1 1 1 t f e (slot_of t e).0 (slot_of t e).1
  move5 small h h' (near a b c d) = absurd (omega arith)
  move5 small h h' (far2 a b c d g) = absurd (omega arith)
  move5 small h h' (far3 a b c d g) = absurd (omega arith)
  move5 small h h' (far4 a b c d g) = absurd (omega arith)
  move5 small h h' (far5 a b c d g) =
      Waits-weaken 1 1 1 t f e (omega arith) (omega arith) (omega arith) (
        subst (λ c. Waits 1 1 1 1 t c e (slot_of t e).0 (slot_of t e).1)
          (due_tick-moved t e f (omega arith) (omega arith) g) (slot-Waits t e small (omega arith)))

-- One cascade keeps a timer in a list where it waits for its tick, for a predicate `W` on lists.
turn :
    (w : Wheel) (n kc ic : ℕ) (W : ℕ → ℕ → Type 0) (k i : ℕ)
    → In w n k i
    → ((k == kc && i == ic) ≡ false → W k i)
    → (k ≡ kc
        → i ≡ ic
        → W (slot_of w.jiffies (w.node n).expires).0 (slot_of w.jiffies (w.node n).expires).1)
    → (k' : ℕ) × (i' : ℕ) × In (cascade w kc ic) n k' i' × W k' i'
turn w n kc ic W k i at stay move = elim (Bool-cases (k == kc && i == ic)) [
  | inl own ↦
      let k≡kc : k ≡ kc = ground arith in
      let i≡ic : i ≡ ic = ground arith in
      (
        _,
        _,
        cascade-moves w kc ic n
            (subst (λ k'. In w n k' ic) k≡kc (subst (λ i'. In w n k i') i≡ic at)),
        move k≡kc i≡ic,
      )
  | inr other ↦ (k, i, cascade-stays w kc ic n k i other at, stay other)
]

-- The timer is in a list where it waits for the tick `f`.
abbrev pub Held : ℕ → ℕ → ℕ → ℕ → ℕ → Wheel → ℕ → ℕ → Type 0
Held b2 b3 b4 b5 t w n f =
    (k : ℕ) × (i : ℕ) × In w n k i × Waits b2 b3 b4 b5 t f (w.node n).expires k i

pub turn2 :
    (t : ℕ) (w : Wheel) (n f : ℕ)
    → w.jiffies ≡ t
    → t < 2 ^ 62
    → t % 2 ^ 8 ≡ 0
    → Held 0 0 0 0 t w n f
    → Held 1 0 0 0 t (cascade w 2 (t / 2 ^ 8 % 64)) n f
turn2 t w n f now small zero_index (k, i, at, waits) = rw (expires-cascade w 2 (t / 2 ^ 8 % 64) n) (
    turn w n 2 (t / 2 ^ 8 % 64) (Waits 1 0 0 0 t f (w.node n).expires) k i at
      (λ other. stay2 t f _ zero_index other waits)
      (λ h h'. rw now (move2 t f _ zero_index small h h' waits)))

pub turn3 :
    (t : ℕ) (w : Wheel) (n f : ℕ)
    → w.jiffies ≡ t
    → t < 2 ^ 62
    → t % 2 ^ 14 ≡ 0
    → Held 1 0 0 0 t w n f
    → Held 1 1 0 0 t (cascade w 3 (t / 2 ^ 14 % 64)) n f
turn3 t w n f now small zero_index (k, i, at, waits) =
    rw (expires-cascade w 3 (t / 2 ^ 14 % 64) n) (
      turn w n 3 (t / 2 ^ 14 % 64) (Waits 1 1 0 0 t f (w.node n).expires) k i at
        (λ other. stay3 t f _ zero_index other waits)
        (λ h h'. rw now (move3 t f _ zero_index small h h' waits)))

pub turn4 :
    (t : ℕ) (w : Wheel) (n f : ℕ)
    → w.jiffies ≡ t
    → t < 2 ^ 62
    → t % 2 ^ 20 ≡ 0
    → Held 1 1 0 0 t w n f
    → Held 1 1 1 0 t (cascade w 4 (t / 2 ^ 20 % 64)) n f
turn4 t w n f now small zero_index (k, i, at, waits) =
    rw (expires-cascade w 4 (t / 2 ^ 20 % 64) n) (
      turn w n 4 (t / 2 ^ 20 % 64) (Waits 1 1 1 0 t f (w.node n).expires) k i at
        (λ other. stay4 t f _ zero_index other waits)
        (λ h h'. rw now (move4 t f _ zero_index small h h' waits)))

pub turn5 :
    (t : ℕ) (w : Wheel) (n f : ℕ)
    → w.jiffies ≡ t
    → t < 2 ^ 62
    → t % 2 ^ 26 ≡ 0
    → Held 1 1 1 0 t w n f
    → Held 1 1 1 1 t (cascade w 5 (t / 2 ^ 26 % 64)) n f
turn5 t w n f now small zero_index (k, i, at, waits) =
    rw (expires-cascade w 5 (t / 2 ^ 26 % 64) n) (
      turn w n 5 (t / 2 ^ 26 % 64) (Waits 1 1 1 1 t f (w.node n).expires) k i at
        (λ other. stay5 t f _ zero_index other waits)
        (λ h h'. rw now (move5 t f _ zero_index small h h' waits)))
