-- ===== src/Machine/Memory/Agreeing.antt =====
-- The deletions and creations of src/pi/rsvp_state_db.c, for the keys of a PSB and its RSB.
use rsvp_te.Prelude.{
  ℕ, ◌≡◌, refl, sym, ap, ◌∙◌, Option, none, some, ◌⊎◌, inl, inr, ◌==◌, arith, contains, Bool-cases,
  Option-cases,
}
use rsvp_te.Wire.Parser.{PathKey}
use rsvp_te.StateDb.{
  Db, rsvp_psb_create, rsvp_rsb_create, rsvp_psb_delete, rsvp_rsb_delete, rsvp_bsb_delete, free_psb,
  free_rsb, free_bsb, clear_psb, clear_rsb,
}
use rsvp_te.StateDb.Key.{rsvp_key_hash}
use rsvp_te.StateDb.Blocks.{Psb, Rsb}
use rsvp_te.StateDb.Buckets.{insert, remove, cut_back}
use rsvp_te.StateDb.Valid.{IsValid}
use rsvp_te.Machine.Memory.{Agree}

-- What is left in memory was there before, as it is or with its pointer cleared.
cut_block {ℓ} :
    {B : Type ℓ} (clear : B → B) (to : Option ℕ) (heap : ℕ → Option B) (s : ℕ) (b : B)
    → cut_back clear to heap s ≡ some b
    → (b0 : B) × (heap s ≡ some b0) × ((b ≡ b0) ⊎ (b ≡ clear b0))
cut_block clear none heap s b e = (b, e, inl refl)
cut_block clear (some r) heap s b e = elim (Option-cases (heap r)) [
  | inl free ↦ (b, rw (free, cut_back) at e, inl refl)
  | inr (b0, at_r) ↦
      let e' = rw (at_r, cut_back) at e in
      elim (Bool-cases (r == s)) [
        | inl here ↦ let r≡s : r ≡ s = ground arith in let e1 = rw here at e' in (b0, cc, inr (cc))
        | inr other ↦ (b, rw other at e', inl refl)
      ]
]

module _ (db : Db) (agree : Agree db) where
  free_psb-Agree : (p : ℕ) (psb : Psb) → Agree (free_psb db p psb)
  unfolding free_psb remove
  free_psb-Agree p psb q s psb' rsb' e t e' =
      let (rsb0, at_s, kept) = cut_block clear_psb psb.associated_rsb db.rsbs.heap s rsb' e' in
      elim (Bool-cases (p == q)) [
        | inl here ↦ absurd (cc (rw here at e))
        | inr other ↦
            let same = agree q s psb' rsb0 (rw other at e) t at_s in
            elim kept [
              | inl as_was ↦ ap (λ (x : Rsb). x.key) as_was ∙ same
              | inr cleared ↦ ap (λ (x : Rsb). x.key) cleared ∙ same
            ]
      ]

  free_rsb-Agree : (r : ℕ) (rsb : Rsb) → Agree (free_rsb db r rsb)
  unfolding free_rsb remove
  free_rsb-Agree r rsb q s psb' rsb' e t e' =
      let (psb0, at_q, kept) = cut_block clear_rsb rsb.associated_psb db.psbs.heap q psb' e in
      elim (Bool-cases (r == s)) [
        | inl here ↦ absurd (cc (rw here at e'))
        | inr other ↦ elim kept [
          | inl as_was ↦ agree q s psb' rsb' (at_q ∙ ap some (sym as_was)) t (rw other at e')
          | inr cleared ↦ absurd (ground (arith, ap (λ (x : Psb). x.associated_rsb) cleared))
        ]
      ]

  pub psb_delete-Agree : (p : ℕ) → Agree (rsvp_psb_delete db p)
  unfolding rsvp_psb_delete
  psb_delete-Agree p = elim (Option-cases (db.psbs.heap p)) [
    | inl free ↦ rw (free, rsvp_psb_delete) agree
    | inr (psb, e) ↦
        rw (e, rsvp_psb_delete)
          (elim (Bool-cases (contains p (db.psbs.buckets (rsvp_key_hash psb.key)))) [
            | inl c ↦ rw c (free_psb-Agree p psb)
            | inr c ↦ rw c agree
          ])
  ]

  pub rsb_delete-Agree : (r : ℕ) → Agree (rsvp_rsb_delete db r)
  unfolding rsvp_rsb_delete
  rsb_delete-Agree r = elim (Option-cases (db.rsbs.heap r)) [
    | inl free ↦ rw (free, rsvp_rsb_delete) agree
    | inr (rsb, e) ↦
        rw (e, rsvp_rsb_delete)
          (elim (Bool-cases (contains r (db.rsbs.buckets (rsvp_key_hash rsb.key)))) [
            | inl c ↦ rw c (free_rsb-Agree r rsb)
            | inr c ↦ rw c agree
          ])
  ]

  pub bsb_delete-Agree : (b : ℕ) → Agree (rsvp_bsb_delete db b)
  unfolding rsvp_bsb_delete free_bsb
  bsb_delete-Agree b = elim (Option-cases (db.bsbs.heap b)) [
    | inl free ↦ rw (free, rsvp_bsb_delete) agree
    | inr (bsb, e) ↦
        rw (e, rsvp_bsb_delete)
          (elim (Bool-cases (contains b (db.bsbs.buckets (rsvp_key_hash bsb.key)))) [
            | inl c ↦ rw c agree
            | inr c ↦ rw c agree
          ])
  ]

  pub psb_create-Agree : (key : PathKey) (p : ℕ) → Agree (rsvp_psb_create db key (some p)).1
  unfolding rsvp_psb_create insert
  psb_create-Agree key p q s psb rsb e t e' = elim (Bool-cases (p == q)) [
    | inl here ↦ let e0 = rw here at e in absurd (cc)
    | inr other ↦ agree q s psb rsb (rw other at e) t e'
  ]

  -- No pointer leads to memory that is not in use.
  pub rsb_create-Agree :
      (key : PathKey) (r : ℕ)
      → IsValid db
      → db.rsbs.heap r ≡ none
      → Agree (rsvp_rsb_create db key (some r)).1
  unfolding rsvp_rsb_create insert
  rsb_create-Agree key r v unused q s psb rsb e t e' =
      let (b, at_s, answer) = v.to_rsb q s psb e t in
      elim (Bool-cases (r == s)) [
        | inl here ↦ let r≡s : r ≡ s = ground arith in absurd (cc)
        | inr other ↦ agree q s psb rsb e t (rw other at e')
      ]
