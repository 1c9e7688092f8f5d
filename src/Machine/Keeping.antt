-- ===== src/Machine/Keeping.antt =====
-- Lemmas on label ownership: the calls of the database and the timers that src/pi/rsvp_state_machine.c
-- makes, and its changes of a block.
use rsvp_te.Prelude.{
  ℕ, ◌≡◌, refl, sym, ap, ◌∙◌, Bool, ◌⊎◌, inl, inr, List, Option, none, some, Bool-cases, ◌==◌,
  if◌then◌else◌, arith, contains,
}
use rsvp_te.Wire.Parser.{PathKey}
use rsvp_te.StateDb.{
  Db, Timer, rsvp_psb_create, rsvp_rsb_create, rsvp_bsb_create, rsvp_psb_delete, rsvp_rsb_delete,
  rsvp_bsb_delete, free_psb, free_rsb, free_bsb, clear_psb,
}
use rsvp_te.StateDb.Key.{rsvp_key_hash}
use rsvp_te.StateDb.Buckets.{insert, remove, cut_back, update}
use rsvp_te.StateDb.Blocks.{Psb, Rsb, Bsb}
use rsvp_te.Machine.{
  Hal, Machine, Event, emit, alter_psb, alter_rsb, alter_bsb, start_timer, stop_timer,
  restart_timer,
}
use rsvp_te.Machine.Steady.{branch_keeps}
use rsvp_te.Machine.Ownership.{db_label, label_of_block, LabelsOk, fewer-LabelsOk}

-- An operation on the database that leaves every label where it is, or takes it away.
pub same_db :
    (m : Machine) (db : Db) (out : List Event)
    → ((r : ℕ) → (db_label db r ≡ db_label m.db r) ⊎ (db_label db r ≡ 0))
    → LabelsOk m
    → LabelsOk (record m { db = db; out = out })
same_db m db out h = fewer-LabelsOk m (record m { db = db; out = out }) refl h

pub emit-LabelsOk : (m : Machine) (e : Event) → LabelsOk m → LabelsOk (emit m e)
emit-LabelsOk m e = same_db m m.db (emit m e).out (λ r. inl refl)

pub alter_psb-LabelsOk :
    (m : Machine) (p : ℕ) (f : Psb → Psb) → LabelsOk m → LabelsOk (alter_psb m p f)
unfolding alter_psb
alter_psb-LabelsOk m p f = same_db m _ m.out (λ r. inl refl)

pub alter_bsb-LabelsOk :
    (m : Machine) (p : ℕ) (f : Bsb → Bsb) → LabelsOk m → LabelsOk (alter_bsb m p f)
unfolding alter_bsb
alter_bsb-LabelsOk m p f = same_db m _ m.out (λ r. inl refl)

pub start_timer-LabelsOk :
    (hal : Hal) (m : Machine) (tm : Timer) → LabelsOk m → LabelsOk (start_timer hal m tm)
unfolding start_timer
start_timer-LabelsOk hal m tm = same_db m _ m.out (λ r. inl refl)

pub stop_timer-LabelsOk : (m : Machine) (tm : Timer) → LabelsOk m → LabelsOk (stop_timer m tm)
unfolding stop_timer
stop_timer-LabelsOk m tm = same_db m _ m.out (λ r. inl refl)

pub restart_timer-LabelsOk :
    (hal : Hal) (m : Machine) (tm : Timer) → LabelsOk m → LabelsOk (restart_timer hal m tm)
unfolding restart_timer
restart_timer-LabelsOk hal m tm ok =
    branch_keeps LabelsOk _ _ _ ok (start_timer-LabelsOk hal m tm ok)

altered_label :
    (o : Option Rsb) (f : Rsb → Rsb)
    → ((rsb : Rsb) → (f rsb).label_in ≡ rsb.label_in)
    → label_of_block (elim o [ none ↦ none | some a ↦ some (f a) ]) ≡ label_of_block o
altered_label none f keeps = refl
altered_label (some rsb) f keeps = keeps rsb

pub alter_rsb-LabelsOk :
    (m : Machine) (r : ℕ) (f : Rsb → Rsb)
    → ((rsb : Rsb) → (f rsb).label_in ≡ rsb.label_in)
    → LabelsOk m
    → LabelsOk (alter_rsb m r f)
unfolding alter_rsb
alter_rsb-LabelsOk m r f keeps = same_db m _ m.out (λ s. inl (elim (Bool-cases (r == s)) [
  | inl e ↦ rw e (altered_label (m.db.rsbs.heap s) f keeps)
  | inr e ↦ rw e
]))

-- The database's own operations.
updated_label :
    (heap : ℕ → Option Rsb) (p : ℕ) (o : Option Rsb) (r : ℕ)
    → label_of_block o ≡ 0
    → (label_of_block (update heap p o r) ≡ label_of_block (heap r))
      ⊎ (label_of_block (update heap p o r) ≡ 0)
updated_label heap p o r z = elim (Bool-cases (p == r)) [
  | inl e ↦ inr (rw e z)
  | inr e ↦ inl (rw e)
]

pub rsb_create-LabelsOk :
    (m : Machine) (key : PathKey) (mem : Option ℕ)
    → LabelsOk m
    → LabelsOk (record m { db = (rsvp_rsb_create m.db key mem).1 })
unfolding rsvp_rsb_create insert
rsb_create-LabelsOk m key none ok = same_db m m.db m.out (λ r. inl refl) ok
rsb_create-LabelsOk m key (some p) ok =
    same_db m _ m.out (λ r. updated_label m.db.rsbs.heap p _ r refl) ok

pub psb_create-LabelsOk :
    (m : Machine) (key : PathKey) (mem : Option ℕ)
    → LabelsOk m
    → LabelsOk (record m { db = (rsvp_psb_create m.db key mem).1 })
unfolding rsvp_psb_create
psb_create-LabelsOk m key none ok = same_db m m.db m.out (λ r. inl refl) ok
psb_create-LabelsOk m key (some p) ok = same_db m _ m.out (λ r. inl refl) ok

pub bsb_create-LabelsOk :
    (m : Machine) (key : PathKey) (mem : Option ℕ)
    → LabelsOk m
    → LabelsOk (record m { db = (rsvp_bsb_create m.db key mem).1 })
unfolding rsvp_bsb_create
bsb_create-LabelsOk m key none ok = same_db m m.db m.out (λ r. inl refl) ok
bsb_create-LabelsOk m key (some p) ok = same_db m _ m.out (λ r. inl refl) ok

-- `P` holds of a deletion if it holds of each branch.
found_and_chained {ℓ} :
    {A : Type ℓ} (P : Db → Type 0) (o : Option A) (db : Db) (b : A → Bool) (f : A → Db)
    → P db
    → ((a : A) → P (f a))
    → P (elim o [ none ↦ db | some a ↦ if b a then f a else db ])
found_and_chained P none db b f h k = h
found_and_chained P (some a) db b f h k = elim (Bool-cases (b a)) [
  | inl e ↦ rw e (k a)
  | inr e ↦ rw e h
]

cut_some :
    (r : ℕ) (heap : ℕ → Option Rsb) (s : ℕ) (o : Option Rsb)
    → heap r ≡ o
    → let cut : ℕ → Option Rsb = elim o [
      | none ↦ heap
      | some b ↦ update heap r (some (clear_psb b))
    ] in
      label_of_block (cut s) ≡ label_of_block (heap s)
cut_some r heap s none e = refl
cut_some r heap s (some rsb) e = elim (Bool-cases (r == s)) [
  | inl here ↦
      let r≡s : r ≡ s = ground arith in
      rw here (ap label_of_block (sym e) ∙ ap (λ q. label_of_block (heap q)) r≡s)
  | inr other ↦ rw other
]

cut_label :
    (r : Option ℕ) (heap : ℕ → Option Rsb) (s : ℕ)
    → label_of_block (cut_back clear_psb r heap s) ≡ label_of_block (heap s)
cut_label none heap s = refl
cut_label (some r) heap s = cut_some r heap s (heap r) refl

deleted_label :
    (m : Machine) (db : Db)
    → ((s : ℕ) → (db_label db s ≡ db_label m.db s) ⊎ (db_label db s ≡ 0))
    → LabelsOk m
    → LabelsOk (record m { db = db })
deleted_label m db h = same_db m db m.out h

module _ (m : Machine) (ok : LabelsOk m) where
  pub rsb_delete-LabelsOk : (r : ℕ) → LabelsOk (record m { db = rsvp_rsb_delete m.db r })
  unfolding rsvp_rsb_delete free_rsb remove
  rsb_delete-LabelsOk r =
      found_and_chained (λ db. LabelsOk (record m { db = db })) (m.db.rsbs.heap r) m.db
        (λ x. contains r (m.db.rsbs.buckets (rsvp_key_hash x.key))) (free_rsb m.db r)
        (deleted_label m m.db (λ s. inl refl) ok)
        (λ rsb.
          deleted_label m (free_rsb m.db r rsb) (λ s. updated_label m.db.rsbs.heap r none s refl)
            ok)

  pub psb_delete-LabelsOk : (p : ℕ) → LabelsOk (record m { db = rsvp_psb_delete m.db p })
  unfolding rsvp_psb_delete free_psb
  psb_delete-LabelsOk p =
      found_and_chained (λ db. LabelsOk (record m { db = db })) (m.db.psbs.heap p) m.db
        (λ x. contains p (m.db.psbs.buckets (rsvp_key_hash x.key))) (free_psb m.db p)
        (deleted_label m m.db (λ s. inl refl) ok)
        (λ psb.
          deleted_label m (free_psb m.db p psb)
            (λ s. inl (cut_label psb.associated_rsb m.db.rsbs.heap s)) ok)

  pub bsb_delete-LabelsOk : (b : ℕ) → LabelsOk (record m { db = rsvp_bsb_delete m.db b })
  unfolding rsvp_bsb_delete free_bsb
  bsb_delete-LabelsOk b =
      found_and_chained (λ db. LabelsOk (record m { db = db })) (m.db.bsbs.heap b) m.db
        (λ x. contains b (m.db.bsbs.buckets (rsvp_key_hash x.key))) (free_bsb m.db b)
        (deleted_label m m.db (λ s. inl refl) ok)
        (λ bsb. deleted_label m (free_bsb m.db b bsb) (λ s. inl refl) ok)
