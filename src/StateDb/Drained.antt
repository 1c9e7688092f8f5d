-- ===== src/StateDb/Drained.antt =====
-- `rsvp_state_db_cleanup` of src/pi/rsvp_state_db.c.
use rsvp_te.Prelude.{
  ℕ, ◌+◌, ◌<◌, ◌≡◌, refl, sym, ap, ◌∙◌, subst, true, false, List, [], none, some, inl, inr, arith,
  contains, length, Bool-cases, Option-cases,
}
use rsvp_te.Wire.Parser.{PathKey}
use rsvp_te.StateDb.{
  Db, Timer, psb_key, rsb_key, bsb_key, head_of, rsvp_psb_delete, rsvp_rsb_delete, rsvp_bsb_delete,
  clean_psbs, clean_rsbs, clean_bsbs, rsvp_state_db_cleanup,
}
use rsvp_te.StateDb.Key.{rsvp_key_hash, hash-lt}
use rsvp_te.StateDb.Buckets.{Table}
use rsvp_te.StateDb.Drain.{drain_empties, over_buckets_reaches}
use rsvp_te.StateDb.Contract.{chained}
use rsvp_te.StateDb.Valid.{IsValid, is_live, psb_delete-IsValid, rsb_delete-IsValid}
use rsvp_te.StateDb.Blockade.{bsb_delete-IsValid}
use rsvp_te.StateDb.Heads.{
  EmptyBelow, EmptyBelow-suc, EmptyBelow-update, bsb_delete_chains, bsb_delete_head, finds,
  none_left, psb_delete_chains, psb_delete_head, rsb_delete_chains, rsb_delete_head, update_at,
}

-- How far the loops have come.
pub record Cleared (a b c : ℕ) (db : Db) : Type 0 where
  pub valid : IsValid db
  pub psbs : EmptyBelow a db.psbs.buckets
  pub rsbs : EmptyBelow b db.rsbs.buckets
  pub bsbs : EmptyBelow c db.bsbs.buckets

clean_psbs-Cleared :
    (i b c : ℕ) (db : Db) → Cleared i b c db → Cleared (i + 1) b c (clean_psbs i db)
unfolding clean_psbs
clean_psbs-Cleared i b c db ok =
    let (ok', e) =
      drain_empties (Cleared i b c) (λ d. d.psbs.buckets i) (λ d. head_of (d.psbs.buckets i))
        rsvp_psb_delete (λ d. none_left (d.psbs.buckets i))
        (λ d p ps. finds (d.psbs.buckets i) p ps)
        (λ d p ps k e.
          let f = psb_delete_head d k.valid i p ps e in
          let (same_rsbs, same_bsbs) = psb_delete_chains d p in
          (
            record {
              valid = psb_delete-IsValid d p k.valid;
              psbs =
                  subst (EmptyBelow i) (sym f)
                    (EmptyBelow-update i i d.psbs.buckets ps (omega arith) k.psbs);
              rsbs = subst (EmptyBelow b) (sym same_rsbs) k.rsbs;
              bsbs = subst (EmptyBelow c) (sym same_bsbs) k.bsbs;
            },
            ap (λ (x : ℕ → List ℕ). x i) f ∙ update_at d.psbs.buckets i ps,
          ))
        (length (db.psbs.buckets i)) (db.psbs.buckets i) db refl (omega arith) ok in
    record {
      valid = ok'.valid;
      psbs = EmptyBelow-suc i _ e ok'.psbs;
      rsbs = ok'.rsbs;
      bsbs = ok'.bsbs;
    }

clean_rsbs-Cleared :
    (a i c : ℕ) (db : Db) → Cleared a i c db → Cleared a (i + 1) c (clean_rsbs i db)
unfolding clean_rsbs
clean_rsbs-Cleared a i c db ok =
    let (ok', e) =
      drain_empties (Cleared a i c) (λ d. d.rsbs.buckets i) (λ d. head_of (d.rsbs.buckets i))
        rsvp_rsb_delete (λ d. none_left (d.rsbs.buckets i))
        (λ d p ps. finds (d.rsbs.buckets i) p ps)
        (λ d p ps k e.
          let f = rsb_delete_head d k.valid i p ps e in
          let (same_psbs, same_bsbs) = rsb_delete_chains d p in
          (
            record {
              valid = rsb_delete-IsValid d p k.valid;
              psbs = subst (EmptyBelow a) (sym same_psbs) k.psbs;
              rsbs =
                  subst (EmptyBelow i) (sym f)
                    (EmptyBelow-update i i d.rsbs.buckets ps (omega arith) k.rsbs);
              bsbs = subst (EmptyBelow c) (sym same_bsbs) k.bsbs;
            },
            ap (λ (x : ℕ → List ℕ). x i) f ∙ update_at d.rsbs.buckets i ps,
          ))
        (length (db.rsbs.buckets i)) (db.rsbs.buckets i) db refl (omega arith) ok in
    record {
      valid = ok'.valid;
      psbs = ok'.psbs;
      rsbs = EmptyBelow-suc i _ e ok'.rsbs;
      bsbs = ok'.bsbs;
    }

clean_bsbs-Cleared :
    (a b i : ℕ) (db : Db) → Cleared a b i db → Cleared a b (i + 1) (clean_bsbs i db)
unfolding clean_bsbs
clean_bsbs-Cleared a b i db ok =
    let (ok', e) =
      drain_empties (Cleared a b i) (λ d. d.bsbs.buckets i) (λ d. head_of (d.bsbs.buckets i))
        rsvp_bsb_delete (λ d. none_left (d.bsbs.buckets i))
        (λ d p ps. finds (d.bsbs.buckets i) p ps)
        (λ d p ps k e.
          let f = bsb_delete_head d k.valid i p ps e in
          let (same_psbs, same_rsbs) = bsb_delete_chains d p in
          (
            record {
              valid = bsb_delete-IsValid d p k.valid;
              psbs = subst (EmptyBelow a) (sym same_psbs) k.psbs;
              rsbs = subst (EmptyBelow b) (sym same_rsbs) k.rsbs;
              bsbs =
                  subst (EmptyBelow i) (sym f)
                    (EmptyBelow-update i i d.bsbs.buckets ps (omega arith) k.bsbs);
            },
            ap (λ (x : ℕ → List ℕ). x i) f ∙ update_at d.bsbs.buckets i ps,
          ))
        (length (db.bsbs.buckets i)) (db.bsbs.buckets i) db refl (omega arith) ok in
    record {
      valid = ok'.valid;
      psbs = ok'.psbs;
      rsbs = ok'.rsbs;
      bsbs = EmptyBelow-suc i _ e ok'.bsbs;
    }

-- No block is in a table whose chains are empty.
pub empty_none {ℓ} :
    {A : Type ℓ} (key_of : A → PathKey) (t : Table A)
    → ((p : ℕ) (a : A)
        → t.heap p ≡ some a
        → contains p (t.buckets (rsvp_key_hash (key_of a))) ≡ true)
    → EmptyBelow 1024 t.buckets
    → (p : ℕ) → t.heap p ≡ none
empty_none key_of t chains empty p = elim (Option-cases (t.heap p)) [
  | inl free ↦ free
  | inr (a, e) ↦ absurd (
      let listed = chains p a e in
      let gone = empty (rsvp_key_hash (key_of a)) (hash-lt (key_of a)) in cc (rw gone at listed))
]

-- In a database without blocks no timer runs.
none_runs :
    (db : Db) (tm : Timer)
    → IsValid db
    → ((p : ℕ) → db.psbs.heap p ≡ none)
    → ((r : ℕ) → db.rsbs.heap r ≡ none)
    → ((b : ℕ) → db.bsbs.heap b ≡ none)
    → db.running tm ≡ false
none_runs db tm v psbs rsbs bsbs = elim (Bool-cases (db.running tm)) [
  | inl runs ↦ runs ∙ sym (dead tm (v.live tm runs))
  | inr e ↦ e
]
  where
    dead : (u : Timer) → is_live db u ≡ true → false ≡ true
    dead (Timer.psb_refresh p) l = rw (psbs p) at l
    dead (Timer.psb_cleanup p) l = rw (psbs p) at l
    dead (Timer.rsb_refresh r) l = rw (rsbs r) at l
    dead (Timer.rsb_cleanup r) l = rw (rsbs r) at l
    dead (Timer.bsb_blockade b) l = rw (bsbs b) at l

rsvp_state_db_cleanup-Cleared :
    (db : Db) → IsValid db → Cleared 1024 1024 1024 (rsvp_state_db_cleanup db)
unfolding rsvp_state_db_cleanup
rsvp_state_db_cleanup-Cleared db v =
    over_buckets_reaches (λ i d. Cleared i i i d)
      (λ i d. clean_bsbs i (clean_rsbs i (clean_psbs i d))) 1024
      (λ i d lt ok.
        clean_bsbs-Cleared (i + 1) (i + 1) i _
          (clean_rsbs-Cleared (i + 1) i i _ (clean_psbs-Cleared i i i d ok)))
      1024 0 db (omega arith)
      (record {
        valid = v;
        psbs = λ j lt. absurd (omega arith);
        rsbs = λ j lt. absurd (omega arith);
        bsbs = λ j lt. absurd (omega arith);
      })

-- In a valid database `rsvp_state_db_cleanup` ends, each of its loops when its chain is empty: no chain has a
-- block, no PSB, RSB or BSB exists, and no timer runs.
pub rsvp_state_db_cleanup_empties :
    (db : Db) (i p : ℕ) (tm : Timer)
    → IsValid db
    → i < 1024
    → ((rsvp_state_db_cleanup db).psbs.buckets i ≡ [])
      × ((rsvp_state_db_cleanup db).rsbs.buckets i ≡ [])
      × ((rsvp_state_db_cleanup db).bsbs.buckets i ≡ [])
      × ((rsvp_state_db_cleanup db).psbs.heap p ≡ none)
      × ((rsvp_state_db_cleanup db).rsbs.heap p ≡ none)
      × ((rsvp_state_db_cleanup db).bsbs.heap p ≡ none)
      × ((rsvp_state_db_cleanup db).running tm ≡ false)
unfolding rsvp_state_db_cleanup
rsvp_state_db_cleanup_empties db i p tm v lt =
    let ok = rsvp_state_db_cleanup-Cleared db v in
    let psbs = empty_none psb_key _ (chained psb_key ok.valid.psbs_hold) ok.psbs in
    let rsbs = empty_none rsb_key _ (chained rsb_key ok.valid.rsbs_hold) ok.rsbs in
    let bsbs = empty_none bsb_key _ (chained bsb_key ok.valid.bsbs_hold) ok.bsbs in
    (
      ok.psbs i lt,
      ok.rsbs i lt,
      ok.bsbs i lt,
      psbs p,
      rsbs p,
      bsbs p,
      none_runs _ tm ok.valid psbs rsbs bsbs,
    )
