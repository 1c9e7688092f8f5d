-- ===== src/Wheel/Arming.antt =====
-- wheel_timer/wheel_timer.c: a timer that is put into the wheel waits for its tick, and the ticks
-- that follow take it out in that tick.
use rsvp_te.Prelude.{
  ℕ, zero, suc, ◌+◌, ◌^◌, ◌≤◌, ◌<◌, ◌≡◌, refl, ap, subst, sym, ◌∙◌, true, false, List, [], ◌∷◌,
  ◌==◌, leb, ltb, contains, arith, inl, inr, Bool-cases,
}
use rsvp_te.Wheel.{
  Wheel, Node, slot_of, change_node, internal_add_timer, delete, detach, armed, tick,
}
use rsvp_te.Wheel.Slots.{Waits-next, due_tick, due_tick-after, slot-Waits}
use rsvp_te.Wheel.Moves.{jiffies-internal_add_timer, contains-internal_add_timer}
use rsvp_te.Wheel.Turns.{Held}
use rsvp_te.Wheel.Ticks.{Fired, jiffies-tick, tick-fires, tick-keeps}

-- `k` ticks.
abbrev pub ticks : ℕ → Wheel → Wheel
ticks zero w = w
ticks (suc k) w = ticks k (tick w)

-- The timer waits for the tick `f`.
abbrev pub Waiting : Wheel → ℕ → ℕ → Type 0
Waiting w n f = Held 0 0 0 0 (w.jiffies + 1) w n f

Fired-at_once :
    (k : ℕ) (w : Wheel) (n : ℕ)
    → k ≡ 0
    → Fired w n
    → (((ticks k w).node n).pending ≡ false) × (contains n (ticks k w).expired_list ≡ true)
Fired-at_once zero w n e fired = (fired.pending, fired.due)
Fired-at_once (suc k) w n e fired = absurd (omega arith)

-- After ticks up to `f` a timer that waits for `f` is in the wheel, or handed over in `f`.
pub ticks-Waiting :
    (k : ℕ) (w : Wheel) (n f : ℕ)
    → w.jiffies + k < 2 ^ 62
    → w.jiffies + k ≤ f
    → w.jiffies < f
    → Waiting w n f
    → (((ticks k w).node n).pending ≡ ltb (w.jiffies + k) f)
      × (contains n (ticks k w).expired_list ≡ leb f (w.jiffies + k))
ticks-Waiting zero w n f small reach before (_, _, at, _) =
    (at.pending ∙ ground arith, at.not_due ∙ ground arith)
ticks-Waiting (suc k) w n f small reach before waiting = elim (Bool-cases (f == w.jiffies + 1)) [
  | inl now ↦
      let fired = tick-fires w n f (omega arith) (ground arith) waiting in
      let r = Fired-at_once k (tick w) n (ground arith) fired in
      (r.0 ∙ ground arith, r.1 ∙ ground arith)
  | inr later ↦
      let next = tick-keeps w n f (omega arith) (ground arith) waiting in
      let clock = jiffies-tick w (omega arith) in
      let same_time : (tick w).jiffies + k ≡ w.jiffies + suc k = omega arith in
      let r =
        ticks-Waiting k (tick w) n f (omega arith) (omega arith) (ground arith)
          (subst (λ j. Held 0 0 0 0 (j + 1) (tick w) n f) (sym clock) next) in
      (r.0 ∙ ap (λ j. ltb j f) same_time, r.1 ∙ ap (leb f) same_time)
]

-- The node is in no list of the wheel, and not in the hands of a worker.
pub record Unlinked (w : Wheel) (n : ℕ) : Type 0 where
  pub absent : (k i : ℕ) → contains n (w.tv k i) ≡ false
  pub not_due : contains n w.expired_list ≡ false

pub internal_add_timer-Waiting :
    (w : Wheel) (n : ℕ)
    → w.jiffies < 2 ^ 62
    → (w.node n).expires < w.jiffies + 2 ^ 32
    → Unlinked w n
    → Waiting (internal_add_timer w n) n (due_tick w.jiffies (w.node n).expires)
unfolding internal_add_timer
internal_add_timer-Waiting w n small bound free =
    let s = slot_of w.jiffies (w.node n).expires in
    let e≡ : ((internal_add_timer w n).node n).expires ≡ (w.node n).expires = ground arith in
    (
      s.0,
      s.1,
      record {
        pending = ground arith;
        placed = λ k i. contains-internal_add_timer w n n k i ∙ rw (free.absent k i) (ground arith);
        not_due = free.not_due;
      },
      rw e≡ (
          Waits-next w.jiffies _ _ (due_tick-after w.jiffies (w.node n).expires small)
            (slot-Waits w.jiffies (w.node n).expires small bound)),
    )

pub contains-delete_self : (n : ℕ) (l : List ℕ) → contains n (delete n l) ≡ false
contains-delete_self n [] = refl
contains-delete_self n (m ∷ l) = ground (arith, contains-delete_self n l)

-- What an operation may be called on: a timer that is not pending is in no list.
pub record Loose (w : Wheel) (n : ℕ) : Type 0 where
  pub absent : (k i : ℕ) → (w.node n).pending ≡ false → contains n (w.tv k i) ≡ false
  pub not_due : contains n w.expired_list ≡ false
  pub not_taken : contains n w.node_lists ≡ false

detach-Unlinked : (w : Wheel) (n : ℕ) → Loose w n → Unlinked (detach w n) n
unfolding detach
detach-Unlinked w n loose = elim (Bool-cases (w.node n).pending) [
  | inl here ↦
      rw here
        (record { absent = λ k i. contains-delete_self n (w.tv k i); not_due = loose.not_due })
  | inr gone ↦ rw gone (record { absent = λ k i. loose.absent k i gone; not_due = loose.not_due })
]

jiffies-detach : (w : Wheel) (n : ℕ) → (detach w n).jiffies ≡ w.jiffies
unfolding detach
jiffies-detach w n = ground arith

pub jiffies-change_node :
    (w : Wheel) (n : ℕ) (f : Node → Node) → (change_node w n f).jiffies ≡ w.jiffies
unfolding change_node
jiffies-change_node w n f = refl

pub expires-change_node :
    (w : Wheel) (n : ℕ) (f : Node → Node)
    → ((change_node w n f).node n).expires ≡ (f (w.node n)).expires
unfolding change_node
expires-change_node w n f = ground arith

pub change_node-Unlinked :
    (w : Wheel) (n : ℕ) (f : Node → Node) → Unlinked w n → Unlinked (change_node w n f) n
unfolding change_node
change_node-Unlinked w n f free = record { absent = free.absent; not_due = free.not_due }

pub jiffies-armed : (w : Wheel) (n : ℕ) (f : Node → Node) → (armed w n f).jiffies ≡ w.jiffies
jiffies-armed w n f =
    jiffies-internal_add_timer (change_node (detach w n) n f) n
    ∙ jiffies-change_node (detach w n) n f
    ∙ jiffies-detach w n

pub armed-Waiting :
    (w : Wheel) (n : ℕ) (f : Node → Node) (e : ℕ)
    → w.jiffies < 2 ^ 62
    → ((m : Node) → (f m).expires ≡ e)
    → e < w.jiffies + 2 ^ 32
    → Loose w n
    → Waiting (armed w n f) n (due_tick w.jiffies e)
armed-Waiting w n f e small sets bound loose =
    let v = change_node (detach w n) n f in
    let now : v.jiffies ≡ w.jiffies = jiffies-change_node (detach w n) n f ∙ jiffies-detach w n in
    let due : (v.node n).expires ≡ e = expires-change_node (detach w n) n f ∙ sets _ in
    let free = change_node-Unlinked (detach w n) n f (detach-Unlinked w n loose) in
    subst (λ j. Waiting (armed w n f) n (due_tick j e)) now
      (subst (λ x. Waiting (armed w n f) n (due_tick v.jiffies x)) due
        (internal_add_timer-Waiting v n (omega arith) (omega arith) free))
