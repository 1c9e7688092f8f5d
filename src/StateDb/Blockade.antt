-- ===== src/StateDb/Blockade.antt =====
-- The blockade state blocks of src/pi/rsvp_state_db.c in a valid database.
use rsvp_te.Prelude.{ℕ, ◌≡◌, true, ◌∷◌, none, some, arith, inl, inr, Option-cases}
use rsvp_te.Wire.Parser.{PathKey}
use rsvp_te.StateDb.{Db, Timer, bsb_key, free_bsb, rsvp_bsb_create, rsvp_bsb_delete}
use rsvp_te.StateDb.Blocks.{Bsb, new_bsb}
use rsvp_te.StateDb.Buckets.{insert, remove}
use rsvp_te.StateDb.Refine.{without_entry}
use rsvp_te.StateDb.Contract.{insert-Holds, remove-Holds, chained}
use rsvp_te.StateDb.Valid.{IsValid, is_live}

bsb_create-live :
    (db : Db) (key : PathKey) (b : ℕ) (tm : Timer)
    → is_live db tm ≡ true
    → is_live (rsvp_bsb_create db key (some b)).1 tm ≡ true
unfolding rsvp_bsb_create insert
bsb_create-live db key b (Timer.psb_refresh q) l = l
bsb_create-live db key b (Timer.psb_cleanup q) l = l
bsb_create-live db key b (Timer.rsb_refresh q) l = l
bsb_create-live db key b (Timer.rsb_cleanup q) l = l
bsb_create-live db key b (Timer.bsb_blockade q) l = ground arith

pub bsb_create-IsValid :
    (db : Db) (key : PathKey) (b : ℕ)
    → IsValid db
    → db.bsbs.heap b ≡ none
    → IsValid (rsvp_bsb_create db key (some b)).1
unfolding rsvp_bsb_create insert
bsb_create-IsValid db key b v unused = record {
  psbs = v.psbs;
  rsbs = v.rsbs;
  bsbs = (b, new_bsb key) ∷ v.bsbs;
  psbs_hold = v.psbs_hold;
  rsbs_hold = v.rsbs_hold;
  bsbs_hold = insert-Holds bsb_key v.bsbs_hold b (new_bsb key) unused;
  live = λ tm h. bsb_create-live db key b tm (v.live tm h);
  to_rsb = v.to_rsb;
  to_psb = v.to_psb;
}

free_bsb-live :
    (db : Db) (b : ℕ) (bsb : Bsb) (tm : Timer)
    → ((u : Timer) → db.running u ≡ true → is_live db u ≡ true)
    → (free_bsb db b bsb).running tm ≡ true
    → is_live (free_bsb db b bsb) tm ≡ true
unfolding free_bsb remove
free_bsb-live db b bsb (Timer.psb_refresh q) live h = live (Timer.psb_refresh q) h
free_bsb-live db b bsb (Timer.psb_cleanup q) live h = live (Timer.psb_cleanup q) h
free_bsb-live db b bsb (Timer.rsb_refresh q) live h = live (Timer.rsb_refresh q) h
free_bsb-live db b bsb (Timer.rsb_cleanup q) live h = live (Timer.rsb_cleanup q) h
free_bsb-live db b bsb (Timer.bsb_blockade q) live h = ground (arith, live (Timer.bsb_blockade q))

free_bsb-IsValid :
    (db : Db) (b : ℕ) (bsb : Bsb)
    → IsValid db
    → db.bsbs.heap b ≡ some bsb
    → IsValid (free_bsb db b bsb)
unfolding free_bsb remove
free_bsb-IsValid db b bsb v e = record {
  psbs = v.psbs;
  rsbs = v.rsbs;
  bsbs = without_entry b v.bsbs;
  psbs_hold = v.psbs_hold;
  rsbs_hold = v.rsbs_hold;
  bsbs_hold = remove-Holds bsb_key v.bsbs_hold b bsb e;
  live = λ tm h. free_bsb-live db b bsb tm v.live h;
  to_rsb = v.to_rsb;
  to_psb = v.to_psb;
}

pub bsb_delete-IsValid : (db : Db) (b : ℕ) → IsValid db → IsValid (rsvp_bsb_delete db b)
unfolding rsvp_bsb_delete
bsb_delete-IsValid db b v = elim (Option-cases (db.bsbs.heap b)) [
  | inl free ↦ rw (free, rsvp_bsb_delete) v
  | inr (bsb, e) ↦
      rw (e, rsvp_bsb_delete, chained bsb_key v.bsbs_hold b bsb e) (free_bsb-IsValid db b bsb v e)
]
