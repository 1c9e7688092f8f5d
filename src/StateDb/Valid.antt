-- ===== src/StateDb/Valid.antt =====
-- What stays true of the soft state of src/pi/rsvp_state_db.c: the tables hold the blocks that
-- exist, and no pointer between a PSB and its RSB and no running timer outlives its block.
use rsvp_te.Prelude.{
  ℕ, ◌≡◌, refl, Bool, true, List, [], ◌∷◌, Option, none, some, inl, inr, arith, sym, ◌∙◌,
  Option-cases,
}
use rsvp_te.Wire.Parser.{PathKey, is_some}
use rsvp_te.StateDb.{
  Db, Timer, at_start, psb_key, rsb_key, bsb_key, clear_psb, clear_rsb, rsvp_psb_create, free_psb,
  free_rsb, rsvp_rsb_create, rsvp_psb_delete, rsvp_rsb_delete, psb_refresh, psb_cleanup,
  rsb_refresh, rsb_cleanup, bsb_blockade,
}
use rsvp_te.StateDb.Blocks.{Psb, Rsb, Bsb, new_psb, new_rsb}
use rsvp_te.StateDb.Buckets.{Table, insert, remove, cut_back}
use rsvp_te.StateDb.Refine.{Holds, empty_table-Holds, replace-Holds, replace_entry, without_entry}
use rsvp_te.StateDb.Contract.{insert-Holds, remove-Holds, chained}
use rsvp_te.StateDb.Links.{
  Answered, cut-Answered, cut_back-Answered, new-Answered, new_back-Answered,
}

-- The block that a timer is embedded in exists.
abbrev pub is_live : Db → Timer → Bool
is_live db (psb_refresh p) = is_some (db.psbs.heap p)
is_live db (psb_cleanup p) = is_some (db.psbs.heap p)
is_live db (rsb_refresh r) = is_some (db.rsbs.heap r)
is_live db (rsb_cleanup r) = is_some (db.rsbs.heap r)
is_live db (bsb_blockade b) = is_some (db.bsbs.heap b)

abbrev pub rsb_of : Psb → Option ℕ
rsb_of psb = psb.associated_rsb

abbrev pub psb_of : Rsb → Option ℕ
psb_of rsb = rsb.associated_psb

-- The blocks, newest first, and what the database says of them.
pub record IsValid (db : Db) : Type 0 where
  pub psbs : List (ℕ × Psb)
  pub rsbs : List (ℕ × Rsb)
  pub bsbs : List (ℕ × Bsb)
  pub psbs_hold : Holds psb_key db.psbs psbs
  pub rsbs_hold : Holds rsb_key db.rsbs rsbs
  pub bsbs_hold : Holds bsb_key db.bsbs bsbs
  pub live : (tm : Timer) → db.running tm ≡ true → is_live db tm ≡ true
  pub to_rsb : Answered rsb_of psb_of db.psbs.heap db.rsbs.heap
  pub to_psb : Answered psb_of rsb_of db.rsbs.heap db.psbs.heap

pub start-IsValid : IsValid at_start
start-IsValid = record {
  psbs = [];
  rsbs = [];
  bsbs = [];
  psbs_hold = empty_table-Holds psb_key;
  rsbs_hold = empty_table-Holds rsb_key;
  bsbs_hold = empty_table-Holds bsb_key;
  live = λ tm e. absurd (ground arith);
  to_rsb = λ p r a e f. absurd (ground arith);
  to_psb = λ p r a e f. absurd (ground arith);
}

is_some-cut_back {ℓ} :
    {B : Type ℓ} (clear : B → B) (to : Option ℕ) (heap : ℕ → Option B) (j : ℕ)
    → is_some (cut_back clear to heap j) ≡ is_some (heap j)
is_some-cut_back clear none heap j = refl
is_some-cut_back clear (some r) heap j = ground arith

-- The table whose block had its pointer back cleared.
cut_back-Holds {ℓ} :
    {B : Type ℓ} (key_of : B → PathKey) (clear : B → B)
    → ((b : B) → key_of (clear b) ≡ key_of b)
    → (to : Option ℕ) {t : Table B} (l : List (ℕ × B)) → Holds key_of t l
    → (l' : List (ℕ × B)) × Holds key_of (record t { heap = cut_back clear to t.heap }) l'
cut_back-Holds key_of clear same none l h = (l, h)
cut_back-Holds key_of clear same (some r) {t = t} l h = elim (Option-cases (t.heap r)) [
  | inl free ↦ rw (free, cut_back) (l, h)
  | inr (b, at_r) ↦
      rw (at_r, cut_back)
        (
          replace_entry key_of r (clear b) l,
          replace-Holds key_of r (clear b) b h at_r (sym (same b)),
        )
]

free_psb-live :
    (db : Db) (p : ℕ) (psb : Psb) (tm : Timer)
    → ((u : Timer) → db.running u ≡ true → is_live db u ≡ true)
    → (free_psb db p psb).running tm ≡ true
    → is_live (free_psb db p psb) tm ≡ true
unfolding free_psb remove
free_psb-live db p psb (psb_refresh q) live h = ground (arith, live (psb_refresh q))
free_psb-live db p psb (psb_cleanup q) live h = ground (arith, live (psb_cleanup q))
free_psb-live db p psb (rsb_refresh q) live h =
    is_some-cut_back clear_psb psb.associated_rsb db.rsbs.heap q ∙ live (rsb_refresh q) h
free_psb-live db p psb (rsb_cleanup q) live h =
    is_some-cut_back clear_psb psb.associated_rsb db.rsbs.heap q ∙ live (rsb_cleanup q) h
free_psb-live db p psb (bsb_blockade q) live h = live (bsb_blockade q) h

free_rsb-live :
    (db : Db) (r : ℕ) (rsb : Rsb) (tm : Timer)
    → ((u : Timer) → db.running u ≡ true → is_live db u ≡ true)
    → (free_rsb db r rsb).running tm ≡ true
    → is_live (free_rsb db r rsb) tm ≡ true
unfolding free_rsb remove
free_rsb-live db r rsb (rsb_refresh q) live h = ground (arith, live (rsb_refresh q))
free_rsb-live db r rsb (rsb_cleanup q) live h = ground (arith, live (rsb_cleanup q))
free_rsb-live db r rsb (psb_refresh q) live h =
    is_some-cut_back clear_rsb rsb.associated_psb db.psbs.heap q ∙ live (psb_refresh q) h
free_rsb-live db r rsb (psb_cleanup q) live h =
    is_some-cut_back clear_rsb rsb.associated_psb db.psbs.heap q ∙ live (psb_cleanup q) h
free_rsb-live db r rsb (bsb_blockade q) live h = live (bsb_blockade q) h

free_psb-IsValid :
    (db : Db) (p : ℕ) (psb : Psb)
    → IsValid db
    → db.psbs.heap p ≡ some psb
    → IsValid (free_psb db p psb)
unfolding free_psb remove
free_psb-IsValid db p psb v e =
    let (rsbs, rsbs_hold) =
      cut_back-Holds rsb_key clear_psb (λ b. refl) psb.associated_rsb v.rsbs v.rsbs_hold in
    record {
      psbs = without_entry p v.psbs;
      rsbs = rsbs;
      bsbs = v.bsbs;
      psbs_hold = remove-Holds psb_key v.psbs_hold p psb e;
      rsbs_hold = rsbs_hold;
      bsbs_hold = v.bsbs_hold;
      live = λ tm h. free_psb-live db p psb tm v.live h;
      to_rsb = cut-Answered rsb_of psb_of clear_psb db.psbs.heap db.rsbs.heap p psb e v.to_rsb;
      to_psb =
          cut_back-Answered rsb_of psb_of clear_psb db.psbs.heap db.rsbs.heap p psb e v.to_rsb
            (λ b. refl) v.to_psb;
    }

free_rsb-IsValid :
    (db : Db) (r : ℕ) (rsb : Rsb)
    → IsValid db
    → db.rsbs.heap r ≡ some rsb
    → IsValid (free_rsb db r rsb)
unfolding free_rsb remove
free_rsb-IsValid db r rsb v e =
    let (psbs, psbs_hold) =
      cut_back-Holds psb_key clear_rsb (λ b. refl) rsb.associated_psb v.psbs v.psbs_hold in
    record {
      psbs = psbs;
      rsbs = without_entry r v.rsbs;
      bsbs = v.bsbs;
      psbs_hold = psbs_hold;
      rsbs_hold = remove-Holds rsb_key v.rsbs_hold r rsb e;
      bsbs_hold = v.bsbs_hold;
      live = λ tm h. free_rsb-live db r rsb tm v.live h;
      to_psb = cut-Answered psb_of rsb_of clear_rsb db.rsbs.heap db.psbs.heap r rsb e v.to_psb;
      to_rsb =
          cut_back-Answered psb_of rsb_of clear_rsb db.rsbs.heap db.psbs.heap r rsb e v.to_psb
            (λ b. refl) v.to_rsb;
    }

-- In a valid database the tables hold exactly the blocks that exist, each pointer between a PSB and
-- an RSB is answered by a pointer back, and every timer that runs is of a block that exists.
-- `rsvp_psb_delete` keeps a database valid, whatever address it is given.
pub psb_delete-IsValid : (db : Db) (p : ℕ) → IsValid db → IsValid (rsvp_psb_delete db p)
unfolding rsvp_psb_delete
psb_delete-IsValid db p v = elim (Option-cases (db.psbs.heap p)) [
  | inl free ↦ rw (free, rsvp_psb_delete) v
  | inr (psb, e) ↦
      rw (e, rsvp_psb_delete, chained psb_key v.psbs_hold p psb e) (free_psb-IsValid db p psb v e)
]

-- `rsvp_rsb_delete` keeps a database valid, whatever address it is given: the tables, the pointers
-- between PSBs and RSBs and the running timers.
pub rsb_delete-IsValid : (db : Db) (r : ℕ) → IsValid db → IsValid (rsvp_rsb_delete db r)
unfolding rsvp_rsb_delete
rsb_delete-IsValid db r v = elim (Option-cases (db.rsbs.heap r)) [
  | inl free ↦ rw (free, rsvp_rsb_delete) v
  | inr (rsb, e) ↦
      rw (e, rsvp_rsb_delete, chained rsb_key v.rsbs_hold r rsb e) (free_rsb-IsValid db r rsb v e)
]

psb_create-live :
    (db : Db) (key : PathKey) (p : ℕ) (tm : Timer)
    → ((u : Timer) → db.running u ≡ true → is_live db u ≡ true)
    → db.running tm ≡ true
    → is_live (rsvp_psb_create db key (some p)).1 tm ≡ true
unfolding rsvp_psb_create insert
psb_create-live db key p (psb_refresh q) live h = ground (arith, live (psb_refresh q) h)
psb_create-live db key p (psb_cleanup q) live h = ground (arith, live (psb_cleanup q) h)
psb_create-live db key p (rsb_refresh q) live h = live (rsb_refresh q) h
psb_create-live db key p (rsb_cleanup q) live h = live (rsb_cleanup q) h
psb_create-live db key p (bsb_blockade q) live h = live (bsb_blockade q) h

rsb_create-live :
    (db : Db) (key : PathKey) (r : ℕ) (tm : Timer)
    → ((u : Timer) → db.running u ≡ true → is_live db u ≡ true)
    → db.running tm ≡ true
    → is_live (rsvp_rsb_create db key (some r)).1 tm ≡ true
unfolding rsvp_rsb_create insert
rsb_create-live db key r (psb_refresh q) live h = live (psb_refresh q) h
rsb_create-live db key r (psb_cleanup q) live h = live (psb_cleanup q) h
rsb_create-live db key r (rsb_refresh q) live h = ground (arith, live (rsb_refresh q) h)
rsb_create-live db key r (rsb_cleanup q) live h = ground (arith, live (rsb_cleanup q) h)
rsb_create-live db key r (bsb_blockade q) live h = live (bsb_blockade q) h

-- Creating a PSB in memory that no PSB has keeps the database as it should be.
pub psb_create-IsValid :
    (db : Db) (key : PathKey) (p : ℕ)
    → IsValid db
    → db.psbs.heap p ≡ none
    → IsValid (rsvp_psb_create db key (some p)).1
unfolding rsvp_psb_create insert
psb_create-IsValid db key p v unused = record {
  psbs = (p, new_psb key) ∷ v.psbs;
  rsbs = v.rsbs;
  bsbs = v.bsbs;
  psbs_hold = insert-Holds psb_key v.psbs_hold p (new_psb key) unused;
  rsbs_hold = v.rsbs_hold;
  bsbs_hold = v.bsbs_hold;
  live = λ tm h. psb_create-live db key p tm v.live h;
  to_rsb = new-Answered rsb_of psb_of db.psbs.heap db.rsbs.heap p (new_psb key) refl v.to_rsb;
  to_psb =
      new_back-Answered rsb_of psb_of db.psbs.heap db.rsbs.heap p (new_psb key) unused v.to_psb;
}

-- The same of an RSB.
pub rsb_create-IsValid :
    (db : Db) (key : PathKey) (r : ℕ)
    → IsValid db
    → db.rsbs.heap r ≡ none
    → IsValid (rsvp_rsb_create db key (some r)).1
unfolding rsvp_rsb_create insert
rsb_create-IsValid db key r v unused = record {
  psbs = v.psbs;
  rsbs = (r, new_rsb key) ∷ v.rsbs;
  bsbs = v.bsbs;
  psbs_hold = v.psbs_hold;
  rsbs_hold = insert-Holds rsb_key v.rsbs_hold r (new_rsb key) unused;
  bsbs_hold = v.bsbs_hold;
  live = λ tm h. rsb_create-live db key r tm v.live h;
  to_psb = new-Answered psb_of rsb_of db.rsbs.heap db.psbs.heap r (new_rsb key) refl v.to_psb;
  to_rsb =
      new_back-Answered psb_of rsb_of db.rsbs.heap db.psbs.heap r (new_rsb key) unused v.to_rsb;
}
