-- ===== src/Machine/Memory/Bare.antt =====
-- Bare blocks under the operations of src/pi/rsvp_state_db.c and src/pi/rsvp_state_machine.c.
use rsvp_te.Prelude.{
  ℕ, ◌≡◌, refl, ap, ◌∙◌, Bool, true, false, Option, none, some, inl, inr, ◌==◌, if◌then◌else◌,
  contains, Bool-cases, Option-cases,
}
use mathlib.Core.Path.{fun_ext}
use rsvp_te.Label.{LabelMgr}
use rsvp_te.Wire.Parser.{PathKey}
use rsvp_te.StateDb.{
  Db, rsvp_psb_create, rsvp_rsb_create, rsvp_bsb_create, rsvp_psb_delete, rsvp_rsb_delete,
  rsvp_bsb_delete, free_psb, free_rsb, free_bsb, clear_psb, clear_rsb,
}
use rsvp_te.StateDb.Key.{rsvp_key_hash}
use rsvp_te.StateDb.Blocks.{Psb, Rsb, Bsb, new_psb, new_rsb, new_bsb}
use rsvp_te.StateDb.Buckets.{Table, insert, remove, cut_back, update}
use rsvp_te.Machine.{Machine, alter, alter_psb, alter_rsb, alter_bsb}
use rsvp_te.Machine.Sending.{ensure_label, store_label}
use rsvp_te.Machine.Steady.{Steady, KeepsPsb, bare_psb, given_keeps, branch_keeps}
use rsvp_te.Machine.Memory.{bare, bare_table, bare_rsb, bare_bsb, option_map, Kept}

module _ {ℓ} {A : Type ℓ} (b : A → A) where
  -- A change that a bare block does not show.
  bare-altered :
      (f : A → A) (o : Option A) (hit : Bool)
      → ((a : A) → b (f a) ≡ b a)
      → option_map b (if hit then elim o [ none ↦ none | some a ↦ some (f a) ] else o)
        ≡ option_map b o
  bare-altered f none true keeps = refl
  bare-altered f none false keeps = refl
  bare-altered f (some a) true keeps = ap some (keeps a)
  bare-altered f (some a) false keeps = refl

  pub bare-alter :
      (t : Table A) (p : ℕ) (f : A → A)
      → ((a : A) → b (f a) ≡ b a)
      → bare_table b (alter t p f) ≡ bare_table b t
  unfolding alter
  bare-alter t p f keeps =
      ap (λ (h : ℕ → Option A). record t { heap = h })
        (fun_ext (λ q. bare-altered f (t.heap q) (p == q) keeps))

  -- One block written.
  pub bare-update :
      (heap : ℕ → Option A) (p : ℕ) (o : Option A)
      → (λ q. option_map b (update heap p o q))
        ≡ update (λ q. option_map b (heap q)) p (option_map b o)
  bare-update heap p o =
      fun_ext
        (λ q. elim (Bool-cases (p == q)) [ inl here ↦ rw here refl | inr other ↦ rw other refl ])

  pub bare-insert :
      (key_of : A → PathKey) (t : Table A) (p : ℕ) (a : A)
      → b a ≡ a
      → bare_table b (insert key_of t p a) ≡ insert key_of (bare_table b t) p a
  unfolding insert
  bare-insert key_of t p a e =
      ap (λ (h : ℕ → Option A). record (insert key_of t p a) { heap = h })
        (bare-update t.heap p (some a)
          ∙ ap (λ x. update (λ q. option_map b (t.heap q)) p (some x)) e)

  pub bare-remove :
      (key_of : A → PathKey) (t : Table A) (p : ℕ) (a : A)
      → key_of (b a) ≡ key_of a
      → bare_table b (remove key_of t p a) ≡ remove key_of (bare_table b t) p (b a)
  unfolding remove
  bare-remove key_of t p a e = rw e (
      ap (λ (h : ℕ → Option A). record (remove key_of t p a) { heap = h })
        (bare-update t.heap p none))

  pub bare-cut_back :
      (clear : A → A) (to : Option ℕ) (heap : ℕ → Option A)
      → ((a : A) → b (clear a) ≡ clear (b a))
      → (λ q. option_map b (cut_back clear to heap q))
        ≡ cut_back clear to (λ q. option_map b (heap q))
  bare-cut_back clear none heap e = refl
  bare-cut_back clear (some r) heap e = elim (Option-cases (heap r)) [
    | inl free ↦ rw (free, cut_back) refl
    | inr (a, at_r) ↦
        rw (at_r, cut_back)
          (bare-update heap r (some (clear a))
            ∙ ap (λ x. update (λ q. option_map b (heap q)) r (some x)) (e a))
  ]

module _ (m : Machine) where
  pub bare-alter_psb : (p : ℕ) (f : Psb → Psb) → KeepsPsb f → bare (alter_psb m p f).db ≡ bare m.db
  unfolding alter_psb
  bare-alter_psb p f keeps =
      ap (λ (t : Table Psb). record (bare m.db) { psbs = t })
        (bare-alter bare_psb m.db.psbs p f keeps)

  pub bare-alter_rsb :
      (r : ℕ) (f : Rsb → Rsb)
      → ((rsb : Rsb) → bare_rsb (f rsb) ≡ bare_rsb rsb)
      → bare (alter_rsb m r f).db ≡ bare m.db
  unfolding alter_rsb
  bare-alter_rsb r f keeps =
      ap (λ (t : Table Rsb). record (bare m.db) { rsbs = t })
        (bare-alter bare_rsb m.db.rsbs r f keeps)

  pub bare-alter_bsb :
      (b : ℕ) (f : Bsb → Bsb)
      → ((bsb : Bsb) → bare_bsb (f bsb) ≡ bare_bsb bsb)
      → bare (alter_bsb m b f).db ≡ bare m.db
  unfolding alter_bsb
  bare-alter_bsb b f keeps =
      ap (λ (t : Table Bsb). record (bare m.db) { bsbs = t })
        (bare-alter bare_bsb m.db.bsbs b f keeps)

pub alter_rsb-Kept :
    {d : Db} (m : Machine) (r : ℕ) (f : Rsb → Rsb)
    → ((rsb : Rsb) → bare_rsb (f rsb) ≡ bare_rsb rsb)
    → Kept d m
    → Kept d (alter_rsb m r f)
alter_rsb-Kept m r f keeps k = record { same = bare-alter_rsb m r f keeps ∙ k.same }

pub alter_bsb-Kept :
    {d : Db} (m : Machine) (b : ℕ) (f : Bsb → Bsb)
    → ((bsb : Bsb) → bare_bsb (f bsb) ≡ bare_bsb bsb)
    → Kept d m
    → Kept d (alter_bsb m b f)
alter_bsb-Kept m b f keeps k = record { same = bare-alter_bsb m b f keeps ∙ k.same }

store_label-Kept :
    {d : Db} (m : Machine) (r : ℕ) (taken : ℕ × LabelMgr)
    → Kept d m
    → Kept d (store_label m r taken)
store_label-Kept m r taken k =
    alter_rsb-Kept (record m { labels = taken.1 }) r (λ rsb. record rsb { label_in = taken.0 })
      (λ rsb. refl) (record { same = k.same })

pub Kept-Steady : (d : Db) → Steady (Kept d)
unfolding ensure_label
Kept-Steady d = record {
  emit = λ m e k. record { same = k.same };
  alter_psb = λ m p f keeps k. record { same = bare-alter_psb m p f keeps ∙ k.same };
  take_label = λ m r k.
      given_keeps (Kept d) (m.db.rsbs.heap r) m _ k
        (λ rsb. branch_keeps (Kept d) _ _ _ (store_label-Kept m r _ k) k);
}

module _ (db : Db) where
  pub bare-psb_create :
      (key : PathKey) (p : ℕ)
      → bare (rsvp_psb_create db key (some p)).1 ≡ (rsvp_psb_create (bare db) key (some p)).1
  unfolding rsvp_psb_create
  bare-psb_create key p =
      ap (λ (t : Table Psb). record (bare db) { psbs = t })
        (bare-insert bare_psb (λ x. x.key) db.psbs p (new_psb key) refl)

  pub bare-rsb_create :
      (key : PathKey) (p : ℕ)
      → bare (rsvp_rsb_create db key (some p)).1 ≡ (rsvp_rsb_create (bare db) key (some p)).1
  unfolding rsvp_rsb_create
  bare-rsb_create key p =
      ap (λ (t : Table Rsb). record (bare db) { rsbs = t })
        (bare-insert bare_rsb (λ x. x.key) db.rsbs p (new_rsb key) refl)

  pub bare-bsb_create :
      (key : PathKey) (p : ℕ)
      → bare (rsvp_bsb_create db key (some p)).1 ≡ (rsvp_bsb_create (bare db) key (some p)).1
  unfolding rsvp_bsb_create
  bare-bsb_create key p =
      ap (λ (t : Table Bsb). record (bare db) { bsbs = t })
        (bare-insert bare_bsb (λ x. x.key) db.bsbs p (new_bsb key) refl)

  bare-free_psb :
      (p : ℕ) (psb : Psb) → bare (free_psb db p psb) ≡ free_psb (bare db) p (bare_psb psb)
  unfolding free_psb
  bare-free_psb p psb = λ i. record (free_psb (bare db) p (bare_psb psb)) {
    psbs = bare-remove bare_psb (λ x. x.key) db.psbs p psb refl i;
    rsbs = record db.rsbs {
      heap = bare-cut_back bare_rsb clear_psb psb.associated_rsb db.rsbs.heap (λ a. refl) i;
    };
  }

  bare-free_rsb :
      (r : ℕ) (rsb : Rsb) → bare (free_rsb db r rsb) ≡ free_rsb (bare db) r (bare_rsb rsb)
  unfolding free_rsb
  bare-free_rsb r rsb = λ i. record (free_rsb (bare db) r (bare_rsb rsb)) {
    rsbs = bare-remove bare_rsb (λ x. x.key) db.rsbs r rsb refl i;
    psbs = record db.psbs {
      heap = bare-cut_back bare_psb clear_rsb rsb.associated_psb db.psbs.heap (λ a. refl) i;
    };
  }

  bare-free_bsb :
      (b : ℕ) (bsb : Bsb) → bare (free_bsb db b bsb) ≡ free_bsb (bare db) b (bare_bsb bsb)
  unfolding free_bsb
  bare-free_bsb b bsb = λ i. record (free_bsb (bare db) b (bare_bsb bsb)) {
    bsbs = bare-remove bare_bsb (λ x. x.key) db.bsbs b bsb refl i;
  }

  pub bare-psb_delete : (p : ℕ) → bare (rsvp_psb_delete db p) ≡ rsvp_psb_delete (bare db) p
  unfolding rsvp_psb_delete
  bare-psb_delete p = elim (Option-cases (db.psbs.heap p)) [
    | inl free ↦ rw (free, rsvp_psb_delete) refl
    | inr (psb, e) ↦
        rw (e, rsvp_psb_delete)
          (elim (Bool-cases (contains p (db.psbs.buckets (rsvp_key_hash psb.key)))) [
            | inl c ↦ rw c (bare-free_psb p psb)
            | inr c ↦ rw c refl
          ])
  ]

  pub bare-rsb_delete : (r : ℕ) → bare (rsvp_rsb_delete db r) ≡ rsvp_rsb_delete (bare db) r
  unfolding rsvp_rsb_delete
  bare-rsb_delete r = elim (Option-cases (db.rsbs.heap r)) [
    | inl free ↦ rw (free, rsvp_rsb_delete) refl
    | inr (rsb, e) ↦
        rw (e, rsvp_rsb_delete)
          (elim (Bool-cases (contains r (db.rsbs.buckets (rsvp_key_hash rsb.key)))) [
            | inl c ↦ rw c (bare-free_rsb r rsb)
            | inr c ↦ rw c refl
          ])
  ]

  pub bare-bsb_delete : (b : ℕ) → bare (rsvp_bsb_delete db b) ≡ rsvp_bsb_delete (bare db) b
  unfolding rsvp_bsb_delete
  bare-bsb_delete b = elim (Option-cases (db.bsbs.heap b)) [
    | inl free ↦ rw (free, rsvp_bsb_delete) refl
    | inr (bsb, e) ↦
        rw (e, rsvp_bsb_delete)
          (elim (Bool-cases (contains b (db.bsbs.buckets (rsvp_key_hash bsb.key)))) [
            | inl c ↦ rw c (bare-free_bsb b bsb)
            | inr c ↦ rw c refl
          ])
  ]
