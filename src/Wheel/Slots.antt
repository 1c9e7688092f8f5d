-- ===== src/Wheel/Slots.antt =====
-- wheel_timer/wheel_timer.c: in which list a timer waits, and when its list is reached.
use rsvp_te.Prelude.{
  ℕ, suc, ◌+◌, ◌-◌, ◌*◌, ◌/◌, ◌%◌, ◌^◌, ◌≤◌, ◌<◌, ◌≡◌, ◌≢◌, refl, ◌⊎◌, inl, inr, ltb, leb, ◌==◌,
  if◌then◌else◌, arith,
}
use rsvp_te.Wheel.{slot_of}

-- The tick at which a timer that waits in one of the wheels 2 to 5 fires.
unfoldable pub far_due : ℕ → ℕ
far_due e = if e % 256 == 0 then e + 1 else e

-- The tick at which a timer fires that is added at the tick `j` to expire at `e`.
unfoldable pub due_tick : ℕ → ℕ → ℕ
unfolding far_due
due_tick j e = if leb e j then j + 1 else if ltb e (j + 256) then e else far_due e

-- `Waits b2 b3 b4 b5 t f e k i`: in the list `tvk[i]` a timer that expires at `e` will fire at `f`,
-- where `t` is the tick to be handled. `b2` to `b5` are 1 for a wheel that was turned in `t`.
pub data Waits (b2 b3 b4 b5 t f e k i : ℕ) : Type 0 where
  near : k ≡ 1 → t ≤ f → f < t + 256 → i ≡ f % 256 → Waits b2 b3 b4 b5 t f e k i
  far2 :
      k ≡ 2
      → t + b2 ≤ e / 2 ^ 8 * 2 ^ 8
      → e < t + 2 ^ 14
      → i ≡ e / 2 ^ 8 % 64
      → f ≡ far_due e
      → Waits b2 b3 b4 b5 t f e k i
  far3 :
      k ≡ 3
      → t + b3 ≤ e / 2 ^ 14 * 2 ^ 14
      → e < t + 2 ^ 20
      → i ≡ e / 2 ^ 14 % 64
      → f ≡ far_due e
      → Waits b2 b3 b4 b5 t f e k i
  far4 :
      k ≡ 4
      → t + b4 ≤ e / 2 ^ 20 * 2 ^ 20
      → e < t + 2 ^ 26
      → i ≡ e / 2 ^ 20 % 64
      → f ≡ far_due e
      → Waits b2 b3 b4 b5 t f e k i
  far5 :
      k ≡ 5
      → t + b5 ≤ e / 2 ^ 26 * 2 ^ 26
      → e < t + 2 ^ 32
      → i ≡ e / 2 ^ 26 % 64
      → f ≡ far_due e
      → Waits b2 b3 b4 b5 t f e k i

split_at : (a b : ℕ) → (a < b) ⊎ (b ≤ a)
split_at a b = ground arith

open_slot : (j e : ℕ) → j < 2 ^ 62 → j < e → e < j + 2 ^ 32 → (e + 2 ^ 64 - j) % 2 ^ 64 ≡ e - j
open_slot j e small after below = omega arith

module _ (j e : ℕ) (small : j < 2 ^ 62) where
  slot_past : e ≤ j → slot_of j e ≡ (1, (j + 1) % 256)
  unfolding slot_of
  slot_past past = ground arith

  slot1 : j < e → e < j + 256 → slot_of j e ≡ (1, e % 256)
  unfolding slot_of
  slot1 after below = rw (open_slot j e small after (omega arith)) (ground arith)

  slot2 : j + 256 ≤ e → e < j + 2 ^ 14 → slot_of j e ≡ (2, e / 2 ^ 8 % 64)
  unfolding slot_of
  slot2 after below = rw (open_slot j e small (omega arith) (omega arith)) (ground arith)

  slot3 : j + 2 ^ 14 ≤ e → e < j + 2 ^ 20 → slot_of j e ≡ (3, e / 2 ^ 14 % 64)
  unfolding slot_of
  slot3 after below = rw (open_slot j e small (omega arith) (omega arith)) (ground arith)

  slot4 : j + 2 ^ 20 ≤ e → e < j + 2 ^ 26 → slot_of j e ≡ (4, e / 2 ^ 20 % 64)
  unfolding slot_of
  slot4 after below = rw (open_slot j e small (omega arith) (omega arith)) (ground arith)

  slot5 : j + 2 ^ 26 ≤ e → e < j + 2 ^ 32 → slot_of j e ≡ (5, e / 2 ^ 26 % 64)
  unfolding slot_of
  slot5 after below = rw (open_slot j e small (omega arith) below) (ground arith)

  due_tick-past : e ≤ j → due_tick j e ≡ j + 1
  unfolding due_tick
  due_tick-past h = ground arith

  due_tick-close : j < e → e < j + 256 → due_tick j e ≡ e
  unfolding due_tick
  due_tick-close h h' = ground arith

  due_tick-far : j + 256 ≤ e → due_tick j e ≡ far_due e
  unfolding due_tick
  due_tick-far h = ground arith

  pub due_tick-after : j < due_tick j e
  unfolding due_tick far_due
  due_tick-after = ground arith

  -- Where `internal_add_timer` puts a timer, it waits for its tick.
  pub slot-Waits : e < j + 2 ^ 32 → Waits 1 1 1 1 j (due_tick j e) e (slot_of j e).0 (slot_of j e).1
  slot-Waits bound = elim (split_at e (suc j)) [
    | inl h ↦
        rw (slot_past (omega arith), due_tick-past (omega arith))
          (near refl (omega arith) (omega arith) refl)
    | inr h1 ↦ elim (split_at e (j + 256)) [
      | inl h ↦ rw (slot1 h1 h, due_tick-close h1 h) (near refl (omega arith) h refl)
      | inr h2 ↦ rw (due_tick-far h2) (elim (split_at e (j + 2 ^ 14)) [
        | inl h ↦ rw (slot2 h2 h) (far2 refl (omega arith) h refl refl)
        | inr h3 ↦ elim (split_at e (j + 2 ^ 20)) [
          | inl h ↦ rw (slot3 h3 h) (far3 refl (omega arith) h refl refl)
          | inr h4 ↦ elim (split_at e (j + 2 ^ 26)) [
            | inl h ↦ rw (slot4 h4 h) (far4 refl (omega arith) h refl refl)
            | inr h5 ↦ rw (slot5 h5 bound) (far5 refl (omega arith) bound refl refl)
          ]
        ]
      ])
    ]
  ]

-- A tick later, a timer that did not fire.
pub Waits-next :
    (t f e : ℕ) {k i : ℕ} → t < f → Waits 1 1 1 1 t f e k i → Waits 0 0 0 0 (t + 1) f e k i
Waits-next t f e after (near a b c d) = near a (omega arith) (omega arith) d
Waits-next t f e after (far2 a b c d g) = far2 a (omega arith) (omega arith) d g
Waits-next t f e after (far3 a b c d g) = far3 a (omega arith) (omega arith) d g
Waits-next t f e after (far4 a b c d g) = far4 a (omega arith) (omega arith) d g
Waits-next t f e after (far5 a b c d g) = far5 a (omega arith) (omega arith) d g

-- The wheels from the third on were not turned in `t`.
pub Waits-weaken :
    (b3 b4 b5 t f e : ℕ) {k i : ℕ}
    → b3 ≤ 1
    → b4 ≤ 1
    → b5 ≤ 1
    → Waits 1 1 1 1 t f e k i
    → Waits 1 b3 b4 b5 t f e k i
Waits-weaken b3 b4 b5 t f e x y z (near a b c d) = near a b c d
Waits-weaken b3 b4 b5 t f e x y z (far2 a b c d g) = far2 a b c d g
Waits-weaken b3 b4 b5 t f e x y z (far3 a b c d g) = far3 a (omega arith) c d g
Waits-weaken b3 b4 b5 t f e x y z (far4 a b c d g) = far4 a (omega arith) c d g
Waits-weaken b3 b4 b5 t f e x y z (far5 a b c d g) = far5 a (omega arith) c d g

-- A wheel with nothing to turn: `t` is not a multiple of what a turn of the wheel before it takes.
pub Waits-idle2 :
    (t f e : ℕ) {k i : ℕ} → t % 256 ≢ 0 → Waits 0 0 0 0 t f e k i → Waits 1 1 1 1 t f e k i
Waits-idle2 t f e no_turn (near a b c d) = near a b c d
Waits-idle2 t f e no_turn (far2 a b c d g) = far2 a (omega arith) c d g
Waits-idle2 t f e no_turn (far3 a b c d g) = far3 a (omega arith) c d g
Waits-idle2 t f e no_turn (far4 a b c d g) = far4 a (omega arith) c d g
Waits-idle2 t f e no_turn (far5 a b c d g) = far5 a (omega arith) c d g

pub Waits-idle3 :
    (t f e : ℕ) {k i : ℕ} → t / 2 ^ 8 % 64 ≢ 0 → Waits 1 0 0 0 t f e k i → Waits 1 1 1 1 t f e k i
Waits-idle3 t f e no_turn (near a b c d) = near a b c d
Waits-idle3 t f e no_turn (far2 a b c d g) = far2 a b c d g
Waits-idle3 t f e no_turn (far3 a b c d g) = far3 a (omega arith) c d g
Waits-idle3 t f e no_turn (far4 a b c d g) = far4 a (omega arith) c d g
Waits-idle3 t f e no_turn (far5 a b c d g) = far5 a (omega arith) c d g

pub Waits-idle4 :
    (t f e : ℕ) {k i : ℕ} → t / 2 ^ 14 % 64 ≢ 0 → Waits 1 1 0 0 t f e k i → Waits 1 1 1 1 t f e k i
Waits-idle4 t f e no_turn (near a b c d) = near a b c d
Waits-idle4 t f e no_turn (far2 a b c d g) = far2 a b c d g
Waits-idle4 t f e no_turn (far3 a b c d g) = far3 a b c d g
Waits-idle4 t f e no_turn (far4 a b c d g) = far4 a (omega arith) c d g
Waits-idle4 t f e no_turn (far5 a b c d g) = far5 a (omega arith) c d g

pub Waits-idle5 :
    (t f e : ℕ) {k i : ℕ} → t / 2 ^ 20 % 64 ≢ 0 → Waits 1 1 1 0 t f e k i → Waits 1 1 1 1 t f e k i
Waits-idle5 t f e no_turn (near a b c d) = near a b c d
Waits-idle5 t f e no_turn (far2 a b c d g) = far2 a b c d g
Waits-idle5 t f e no_turn (far3 a b c d g) = far3 a b c d g
Waits-idle5 t f e no_turn (far4 a b c d g) = far4 a b c d g
Waits-idle5 t f e no_turn (far5 a b c d g) = far5 a (omega arith) c d g
