-- ===== src/Machine/Steady.antt =====
-- What a statement about the state must survive to survive most of src/pi/rsvp_state_machine.c: an event, a
-- change of a PSB that leaves its key and its RSB alone, and the allocation of a label.
use rsvp_te.Prelude.{ℕ, ◌≡◌, refl, Bool, true, false, Option, none, some, if◌then◌else◌}
use rsvp_te.StateDb.Blocks.{Psb, new_psb}
use rsvp_te.Machine
use rsvp_te.Machine.{Machine, Event, given}
use rsvp_te.Machine.Sending.{ensure_label}

-- A PSB with nothing but its key and its RSB.
abbrev pub bare_psb : Psb → Psb
bare_psb psb = record (new_psb psb.key) { associated_rsb = psb.associated_rsb }

abbrev pub KeepsPsb : (Psb → Psb) → Type 0
KeepsPsb f = (psb : Psb) → bare_psb (f psb) ≡ bare_psb psb

pub record Steady (P : Machine → Type 0) : Type 0 where
  pub emit : (m : Machine) (e : Event) → P m → P (Machine.emit m e)
  pub alter_psb :
      (m : Machine) (p : ℕ) (f : Psb → Psb) → KeepsPsb f → P m → P (Machine.alter_psb m p f)
  pub take_label : (m : Machine) (r : ℕ) → P m → P (ensure_label m r)

-- A branch on a pointer, and on a test.
module _ (P : Machine → Type 0) where
  pub given_keeps {ℓ} :
      {A : Type ℓ} (o : Option A) (x : Machine) (f : A → Machine)
      → P x
      → ((a : A) → P (f a))
      → P (given o x f)
  unfolding given
  given_keeps none x f hx hf = hx
  given_keeps (some a) x f hx hf = hf a

  -- The same, with where the block stands.
  pub given_at_keeps {ℓ} :
      {A : Type ℓ} (o : Option A) (x : Machine) (f : A → Machine)
      → P x
      → ((a : A) → o ≡ some a → P (f a))
      → P (given o x f)
  unfolding given
  given_at_keeps none x f hx hf = hx
  given_at_keeps (some a) x f hx hf = hf a refl

  pub branch_keeps : (b : Bool) (x y : Machine) → P x → P y → P (if b then x else y)
  branch_keeps true x y hx hy = hx
  branch_keeps false x y hx hy = hy
