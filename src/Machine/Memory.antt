-- ===== src/Machine/Memory.antt =====
-- The memory behind the state of src/pi/rsvp_state_machine.c: which blocks exist, which pointers lead to
-- them, which of their timers run.
pub mod Bare
pub mod Linking
pub mod Agreeing
pub mod Running
pub mod Steps
pub mod Joined
pub mod Timed
pub mod Torn
pub mod PathFields
pub mod PathSteps
pub mod ResvFields
pub mod ResvSteps
pub mod Handled
pub mod Launched
pub mod Emptied
pub mod Safety
mod Tests
use rsvp_te.Prelude.{ℕ, ◌≡◌, refl, sym, ap, ◌∙◌, subst, Bool, true, Option, none, some}
use rsvp_te.StateDb.{Db, Timer, stop}
use rsvp_te.StateDb.Blocks.{Psb, Rsb, Bsb, new_psb, new_rsb, new_bsb}
use rsvp_te.StateDb.Buckets.{Table}
use rsvp_te.StateDb.Valid.{IsValid}
use rsvp_te.Machine.{Hal, Machine}
use rsvp_te.Machine.Steady.{bare_psb}

abbrev pub bare_rsb : Rsb → Rsb
bare_rsb rsb = record (new_rsb rsb.key) { associated_psb = rsb.associated_psb }

abbrev pub bare_bsb : Bsb → Bsb
bare_bsb bsb = new_bsb bsb.key

abbrev pub option_map {ℓ} : {A : Type ℓ} → (A → A) → Option A → Option A
option_map f none = none
option_map f (some a) = some (f a)

abbrev pub bare_table {ℓ} : {A : Type ℓ} → (A → A) → Table A → Table A
bare_table f t = record t { heap = λ p. option_map f (t.heap p) }

-- The database with nothing in its blocks but the keys and the pointers between PSBs and RSBs.
abbrev pub bare : Db → Db
bare db = record db {
  psbs = bare_table bare_psb db.psbs;
  rsbs = bare_table bare_rsb db.rsbs;
  bsbs = bare_table bare_bsb db.bsbs;
}

-- A PSB and its RSB have the same key.
abbrev pub Agree : Db → Type 0
Agree db =
    (p r : ℕ) (psb : Psb) (rsb : Rsb)
    → db.psbs.heap p ≡ some psb
    → psb.associated_rsb ≡ some r
    → db.rsbs.heap r ≡ some rsb
    → rsb.key ≡ psb.key

pub record MemoryOk (db : Db) : Type 0 where
  pub valid : IsValid (bare db)
  pub agree : Agree (bare db)

-- `calloc` returns memory that is not in use.
pub record Fresh (hal : Hal) : Type 0 where
  pub psb : (db : Db) (p : ℕ) → hal.new_psb db ≡ some p → db.psbs.heap p ≡ none
  pub rsb : (db : Db) (r : ℕ) → hal.new_rsb db ≡ some r → db.rsbs.heap r ≡ none
  pub bsb : (db : Db) (b : ℕ) → hal.new_bsb db ≡ some b → db.bsbs.heap b ≡ none

-- The machine's blocks are those of `d` but for what a bare block leaves out.
pub record Kept (d : Db) (m : Machine) : Type 0 where
  pub same : bare m.db ≡ d

pub Kept-MemoryOk : (d : Db) (m : Machine) → Kept (bare d) m → MemoryOk d → MemoryOk m.db
Kept-MemoryOk d m k ok = record {
  valid = subst IsValid (sym k.same) ok.valid;
  agree = subst Agree (sym k.same) ok.agree;
}
