-- ===== src/StateDb/Heads.antt =====
-- The chains of src/pi/rsvp_state_db.c when the block at the head of one is deleted.
use rsvp_te.Prelude.{
  ℕ, ◌+◌, ◌<◌, ◌≤◌, ◌≡◌, refl, ap, subst, true, false, List, [], ◌∷◌, none, some, inl, inr, ◌==◌,
  arith, contains, Bool-cases, Option-cases,
}
use rsvp_te.StateDb.{
  Db, psb_key, rsb_key, bsb_key, head_of, free_psb, free_rsb, free_bsb, rsvp_psb_delete,
  rsvp_rsb_delete, rsvp_bsb_delete,
}
use rsvp_te.StateDb.Key.{rsvp_key_hash}
use rsvp_te.StateDb.Buckets.{update, unlink, remove}
use rsvp_te.StateDb.Contract.{chained, headed}
use rsvp_te.StateDb.Valid.{IsValid}

unlink_head : (p : ℕ) (ps : List ℕ) → unlink p (p ∷ ps) ≡ ps
unlink_head p ps = ground arith

module _ (db : Db) (v : IsValid db) (h p : ℕ) (ps : List ℕ) where
  pub psb_delete_head :
      db.psbs.buckets h ≡ p ∷ ps → (rsvp_psb_delete db p).psbs.buckets ≡ update db.psbs.buckets h ps
  unfolding rsvp_psb_delete free_psb remove
  psb_delete_head e =
      let (psb, at_p, of_h) = headed psb_key v.psbs_hold h p ps e in
      let listed : contains p (db.psbs.buckets (rsvp_key_hash psb.key)) ≡ true =
        chained psb_key v.psbs_hold p psb at_p in
      rw (at_p, rsvp_psb_delete, listed, of_h, e, unlink_head p ps) refl

  pub rsb_delete_head :
      db.rsbs.buckets h ≡ p ∷ ps → (rsvp_rsb_delete db p).rsbs.buckets ≡ update db.rsbs.buckets h ps
  unfolding rsvp_rsb_delete free_rsb remove
  rsb_delete_head e =
      let (rsb, at_p, of_h) = headed rsb_key v.rsbs_hold h p ps e in
      let listed : contains p (db.rsbs.buckets (rsvp_key_hash rsb.key)) ≡ true =
        chained rsb_key v.rsbs_hold p rsb at_p in
      rw (at_p, rsvp_rsb_delete, listed, of_h, e, unlink_head p ps) refl

  pub bsb_delete_head :
      db.bsbs.buckets h ≡ p ∷ ps → (rsvp_bsb_delete db p).bsbs.buckets ≡ update db.bsbs.buckets h ps
  unfolding rsvp_bsb_delete free_bsb remove
  bsb_delete_head e =
      let (bsb, at_p, of_h) = headed bsb_key v.bsbs_hold h p ps e in
      let listed : contains p (db.bsbs.buckets (rsvp_key_hash bsb.key)) ≡ true =
        chained bsb_key v.bsbs_hold p bsb at_p in
      rw (at_p, rsvp_bsb_delete, listed, of_h, e, unlink_head p ps) refl

-- The deletion of a block leaves the chains of the other tables alone.
module _ (db : Db) (p : ℕ) where
  pub psb_delete_chains :
      ((rsvp_psb_delete db p).rsbs.buckets ≡ db.rsbs.buckets)
      × ((rsvp_psb_delete db p).bsbs.buckets ≡ db.bsbs.buckets)
  unfolding rsvp_psb_delete free_psb
  psb_delete_chains = elim (Option-cases (db.psbs.heap p)) [
    | inl free ↦ rw (free, rsvp_psb_delete) (refl, refl)
    | inr (psb, e) ↦
        rw (e, rsvp_psb_delete)
          (elim (Bool-cases (contains p (db.psbs.buckets (rsvp_key_hash psb.key)))) [
            | inl c ↦ rw c (refl, refl)
            | inr c ↦ rw c (refl, refl)
          ])
  ]

  pub rsb_delete_chains :
      ((rsvp_rsb_delete db p).psbs.buckets ≡ db.psbs.buckets)
      × ((rsvp_rsb_delete db p).bsbs.buckets ≡ db.bsbs.buckets)
  unfolding rsvp_rsb_delete free_rsb
  rsb_delete_chains = elim (Option-cases (db.rsbs.heap p)) [
    | inl free ↦ rw (free, rsvp_rsb_delete) (refl, refl)
    | inr (rsb, e) ↦
        rw (e, rsvp_rsb_delete)
          (elim (Bool-cases (contains p (db.rsbs.buckets (rsvp_key_hash rsb.key)))) [
            | inl c ↦ rw c (refl, refl)
            | inr c ↦ rw c (refl, refl)
          ])
  ]

  pub bsb_delete_chains :
      ((rsvp_bsb_delete db p).psbs.buckets ≡ db.psbs.buckets)
      × ((rsvp_bsb_delete db p).rsbs.buckets ≡ db.rsbs.buckets)
  unfolding rsvp_bsb_delete free_bsb
  bsb_delete_chains = elim (Option-cases (db.bsbs.heap p)) [
    | inl free ↦ rw (free, rsvp_bsb_delete) (refl, refl)
    | inr (bsb, e) ↦
        rw (e, rsvp_bsb_delete)
          (elim (Bool-cases (contains p (db.bsbs.buckets (rsvp_key_hash bsb.key)))) [
            | inl c ↦ rw c (refl, refl)
            | inr c ↦ rw c (refl, refl)
          ])
  ]

-- The first `n` chains are empty.
abbrev pub EmptyBelow : ℕ → (ℕ → List ℕ) → Type 0
EmptyBelow n chains = (j : ℕ) → j < n → chains j ≡ []

pub EmptyBelow-update :
    (n h : ℕ) (chains : ℕ → List ℕ) (ps : List ℕ)
    → n ≤ h
    → EmptyBelow n chains
    → EmptyBelow n (update chains h ps)
EmptyBelow-update n h chains ps le empty j lt =
    let other : (h == j) ≡ false = ground arith in rw other (empty j lt)

pub EmptyBelow-suc :
    (n : ℕ) (chains : ℕ → List ℕ) → chains n ≡ [] → EmptyBelow n chains → EmptyBelow (n + 1) chains
EmptyBelow-suc n chains e empty j lt = elim (Bool-cases (n == j)) [
  | inl here ↦ let n≡j : n ≡ j = ground arith in subst (λ k. chains k ≡ []) n≡j e
  | inr other ↦ empty j (ground arith)
]

pub update_at : (chains : ℕ → List ℕ) (h : ℕ) (ps : List ℕ) → update chains h ps h ≡ ps
update_at chains h ps = ground arith

pub none_left : (c : List ℕ) → c ≡ [] → head_of c ≡ none
none_left [] e = refl
none_left (p ∷ ps) e = cc

pub finds : (c : List ℕ) (p : ℕ) (ps : List ℕ) → c ≡ p ∷ ps → head_of c ≡ some p
finds [] p ps e = cc
finds (q ∷ qs) p ps e = ap head_of e
