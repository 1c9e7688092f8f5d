-- ===== src/StateDb/Links.antt =====
-- Two kinds of blocks that point to each other, such as the PSBs and the RSBs of
-- src/pi/rsvp_state_db.c: what is left when one of them is deleted.
use rsvp_te.Prelude.{
  ℕ, ◌≡◌, refl, Option, none, some, ◌==◌, inl, inr, arith, Bool-cases, Option-cases,
}
use rsvp_te.StateDb.Buckets.{update, cut_back}

-- A pointer from an `A` leads to a `B` that points back.
abbrev pub Answered {ℓ} :
    {A B : Type ℓ} → (A → Option ℕ) → (B → Option ℕ) → (ℕ → Option A) → (ℕ → Option B) → Type ℓ
Answered {A = A} {B = B} to back ha hb =
    (p r : ℕ) (a : A)
    → ha p ≡ some a
    → to a ≡ some r
    → (b : B) × (hb r ≡ some b) × (back b ≡ some p)

cut_at {ℓ} :
    {B : Type ℓ} (clear : B → B) (hb : ℕ → Option B) (r : ℕ) (b : B)
    → hb r ≡ some b
    → cut_back clear (some r) hb ≡ update hb r (some (clear b))
cut_at clear hb r b e = rw (e, cut_back) refl

module _ {ℓ} {A B : Type ℓ} where
  module _ (to : A → Option ℕ) (back : B → Option ℕ) (clear : B → B) (ha : ℕ → Option A)
      (hb : ℕ → Option B) (p : ℕ) (a : A) (at_p : ha p ≡ some a)
      (forth : Answered to back ha hb) where
    -- After the deletion of the block at `p` each pointer is answered still.
    pub cut-Answered : Answered to back (update ha p none) (cut_back clear (to a) hb)
    cut-Answered p' r' a' e f = elim (Bool-cases (p == p')) [
      | inl here ↦ absurd (cc (rw here at e))
      | inr other ↦
          let (b, at_r', answer) = forth p' r' a' (rw other at e) f in
          elim (Option-cases (to a)) [
            | inl alone ↦ rw alone (b, at_r', answer)
            | inr (r, has) ↦
                let (b0, at_r, answer0) = forth p r a at_p has in
                rw (has, cut_at clear hb r b0 at_r)
                  (
                    b,
                    elim (Bool-cases (r == r')) [
                      | inl same ↦
                          let r≡r' : r ≡ r' = ground arith in
                          let p≡p' : p ≡ p' = cc in absurd (ground arith)
                      | inr differ ↦ rw differ at_r'
                    ],
                    answer,
                  )
          ]
    ]

    -- And no pointer leads to where that block was.
    pub cut_back-Answered :
        ((b : B) → back (clear b) ≡ none)
        → Answered back to hb ha
        → Answered back to (cut_back clear (to a) hb) (update ha p none)
    cut_back-Answered cleared return r' p' b' e f = elim (Option-cases (to a)) [
      | inl alone ↦
          let (a'', at_p', answer) = return r' p' b' (rw alone at e) f in
          (
            a'',
            elim (Bool-cases (p == p')) [
              | inl here ↦ let p≡p' : p ≡ p' = ground arith in absurd (cc)
              | inr other ↦ rw other at_p'
            ],
            answer,
          )
      | inr (r, has) ↦
          let (b0, at_r, answer0) = forth p r a at_p has in
          let e' = rw (has, cut_at clear hb r b0 at_r) at e in
          elim (Bool-cases (r == r')) [
            | inl here ↦ absurd (cc (rw here at e', cleared b0))
            | inr other ↦
                let (a'', at_p', answer) = return r' p' b' (rw other at e') f in
                (
                  a'',
                  elim (Bool-cases (p == p')) [
                    | inl here ↦
                        let p≡p' : p ≡ p' = ground arith in
                        let r≡r' : r ≡ r' = cc in absurd (ground arith)
                    | inr differ ↦ rw differ at_p'
                  ],
                  answer,
                )
          ]
    ]

module _ {ℓ} {A B : Type ℓ} (to : A → Option ℕ) (back : B → Option ℕ) (ha : ℕ → Option A)
    (hb : ℕ → Option B) (p : ℕ) (a : A) where
  -- A new block that points nowhere.
  pub new-Answered :
      to a ≡ none → Answered to back ha hb → Answered to back (update ha p (some a)) hb
  new-Answered alone forth p' r a' e f = elim (Bool-cases (p == p')) [
    | inl here ↦ absurd (cc (rw here at e))
    | inr other ↦ forth p' r a' (rw other at e) f
  ]

  -- At an address that was free there is nothing that a pointer leads to.
  pub new_back-Answered :
      ha p ≡ none → Answered back to hb ha → Answered back to hb (update ha p (some a))
  new_back-Answered unused return r p' b e f =
      let (a', at_p', answer) = return r p' b e f in
      (
        a',
        elim (Bool-cases (p == p')) [
          | inl here ↦ let p≡p' : p ≡ p' = ground arith in absurd cc
          | inr other ↦ rw other at_p'
        ],
        answer,
      )
