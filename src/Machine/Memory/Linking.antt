-- ===== src/Machine/Memory/Linking.antt =====
-- The operations of src/pi/rsvp_state_db.c and the pointers that src/pi/rsvp_state_machine.c sets, on bare
-- blocks.
use rsvp_te.Prelude.{
  ℕ, ◌≡◌, ◌≢◌, refl, ap, ◌∙◌, true, Option, none, some, inl, inr, ◌==◌, arith, Bool-cases,
}
use rsvp_te.StateDb.{Db, Timer, psb_key, rsb_key}
use rsvp_te.StateDb.Blocks.{Psb, Rsb}
use rsvp_te.StateDb.Buckets.{update}
use rsvp_te.StateDb.Refine.{replace-Holds, replace_entry}
use rsvp_te.StateDb.Links.{Answered}
use rsvp_te.StateDb.Valid.{IsValid, is_live, rsb_of, psb_of}
use rsvp_te.Machine.Memory.{Agree}

-- A pointer and the pointer back are set together, in blocks that had none.
pub link-Answered {ℓ} :
    {A B : Type ℓ} (to : A → Option ℕ) (back : B → Option ℕ) (ha : ℕ → Option A) (hb : ℕ → Option B)
    (p r : ℕ) (a' : A) (b b' : B)
    → hb r ≡ some b
    → back b ≡ none
    → to a' ≡ some r
    → back b' ≡ some p
    → Answered to back ha hb
    → Answered to back (update ha p (some a')) (update hb r (some b'))
link-Answered to back ha hb p r a' b b' at_r alone f f' forth q s a e t =
    elim (Bool-cases (p == q)) [
      | inl here ↦
          let p≡q : p ≡ q = ground arith in
          let a≡a' : a' ≡ a = cc (rw here at e) in
          let r≡s : r ≡ s = cc in
          (b', let hit : (r == s) ≡ true = ground arith in rw hit refl, f' ∙ ap some p≡q)
      | inr other ↦
          let (b0, at_s, answer) = forth q s a (rw other at e) t in
          (
            b0,
            elim (Bool-cases (r == s)) [
              | inl hit ↦ let r≡s : r ≡ s = ground arith in absurd (ground arith)
              | inr miss ↦ rw miss at_s
            ],
            answer,
          )
    ]

abbrev pub linked : Db → ℕ → ℕ → Psb → Rsb → Db
linked db p r psb rsb = record db {
  psbs = record db.psbs {
    heap = update db.psbs.heap p (some (record psb { associated_rsb = some r }));
  };
  rsbs = record db.rsbs {
    heap = update db.rsbs.heap r (some (record rsb { associated_psb = some p }));
  };
}

module _ (db : Db) (p r : ℕ) (psb : Psb) (rsb : Rsb) (v : IsValid db)
    (at_p : db.psbs.heap p ≡ some psb) (at_r : db.rsbs.heap r ≡ some rsb)
    (no_rsb : psb.associated_rsb ≡ none) (no_psb : rsb.associated_psb ≡ none) where
  linked-live :
      (tm : Timer)
      → db.running tm ≡ true
      → is_live db tm ≡ true
      → is_live (linked db p r psb rsb) tm ≡ true
  linked-live (Timer.psb_refresh q) h l = ground arith
  linked-live (Timer.psb_cleanup q) h l = ground arith
  linked-live (Timer.rsb_refresh q) h l = ground arith
  linked-live (Timer.rsb_cleanup q) h l = ground arith
  linked-live (Timer.bsb_blockade q) h l = l

  pub linked-IsValid : IsValid (linked db p r psb rsb)
  linked-IsValid = record {
    psbs = replace_entry psb_key p (record psb { associated_rsb = some r }) v.psbs;
    rsbs = replace_entry rsb_key r (record rsb { associated_psb = some p }) v.rsbs;
    bsbs = v.bsbs;
    psbs_hold =
        replace-Holds psb_key p (record psb { associated_rsb = some r }) psb v.psbs_hold at_p refl;
    rsbs_hold =
        replace-Holds rsb_key r (record rsb { associated_psb = some p }) rsb v.rsbs_hold at_r refl;
    bsbs_hold = v.bsbs_hold;
    live = λ tm h. linked-live tm h (v.live tm h);
    to_rsb =
        link-Answered rsb_of psb_of db.psbs.heap db.rsbs.heap p r _ rsb _ at_r no_psb refl refl
          v.to_rsb;
    to_psb =
        link-Answered psb_of rsb_of db.rsbs.heap db.psbs.heap r p _ psb _ at_p no_rsb refl refl
          v.to_psb;
  }

  pub linked-Agree : rsb.key ≡ psb.key → Agree db → Agree (linked db p r psb rsb)
  linked-Agree same agree q s psb' rsb' e t e' =
      let a = agree q s in
      elim (Bool-cases (p == q)) [
        | inl here ↦
            let e0 = rw here at e in
            elim (Bool-cases (r == s)) [
              | inl hit ↦ let e1 = rw hit at e' in cc
              | inr miss ↦ let r≢s : r ≢ s = ground arith in absurd (r≢s (cc))
            ]
        | inr other ↦
            let e0 = rw other at e in
            elim (Bool-cases (r == s)) [
              | inl hit ↦
                  let r≡s : r ≡ s = ground arith in
                  let (b0, at_s, answer) = v.to_rsb q s psb' e0 t in absurd (ground arith)
              | inr miss ↦ agree q s psb' rsb' e0 t (rw miss at e')
            ]
      ]
