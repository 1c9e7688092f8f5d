-- ===== src/StateDb/Refine.antt =====
-- The hash tables of src/pi/rsvp_state_db.c against what they stand for: a list of the blocks that
-- exist with their addresses, newest first.
use rsvp_te.Prelude.{
  ℕ, ◌≡◌, refl, Bool, true, false, List, [], ◌∷◌, Option, none, some, ◌==◌, inl, inr, if◌then◌else◌,
  contains, Distinct, arith, Bool-cases, ap, sym, ◌∙◌,
}
use rsvp_te.Wire.Parser.{PathKey}
use rsvp_te.StateDb.Key.{rsvp_key_hash, same_key, same_key_iff}
use rsvp_te.StateDb.Buckets.{Table, empty_table, update, unlink, walk}

module _ {ℓ} {A : Type ℓ} where
  abbrev pub addresses : List (ℕ × A) → List ℕ
  addresses [] = []
  addresses ((p, a) ∷ l) = p ∷ addresses l

  abbrev pub without_entry : ℕ → List (ℕ × A) → List (ℕ × A)
  without_entry p [] = []
  without_entry p ((q, a) ∷ l) =
      let rest = without_entry p l in if p == q then rest else (q, a) ∷ rest

  -- The first block that passes `test`.
  abbrev pub first_with : (A → Bool) → List (ℕ × A) → Option ℕ
  first_with test [] = none
  first_with test ((p, a) ∷ l) = let rest = first_with test l in if test a then some p else rest

  -- Each block is in memory at its address.
  abbrev pub Stored : (ℕ → Option A) → List (ℕ × A) → Type ℓ
  Stored heap [] = Unit
  Stored heap ((p, a) ∷ l) = (heap p ≡ some a) × Stored heap l

  abbrev pub AllFail : (A → Bool) → List (ℕ × A) → Type 0
  AllFail test [] = Unit
  AllFail test ((p, a) ∷ l) = (test a ≡ false) × AllFail test l

  pub Stored-none :
      (heap : ℕ → Option A) (l : List (ℕ × A)) (p : ℕ)
      → Stored heap l
      → heap p ≡ none
      → contains p (addresses l) ≡ false
  Stored-none heap [] p s e = refl
  Stored-none heap ((q, a) ∷ l) p s e = ground (arith, Stored-none heap l p s.1 e)

  pub Stored-update :
      (heap : ℕ → Option A) (l : List (ℕ × A)) (p : ℕ) (o : Option A)
      → contains p (addresses l) ≡ false
      → Stored heap l
      → Stored (update heap p o) l
  Stored-update heap [] p o f s = tt
  Stored-update heap ((q, a) ∷ l) p o f s =
      (ground arith, Stored-update heap l p o (ground arith) s.1)

  pub Stored-without :
      (heap : ℕ → Option A) (l : List (ℕ × A)) (p : ℕ) (o : Option A)
      → Stored heap l
      → Stored (update heap p o) (without_entry p l)
  Stored-without heap [] p o s = tt
  Stored-without heap ((q, a) ∷ l) p o s = elim (Bool-cases (p == q)) [
    | inl e ↦ rw e (Stored-without heap l p o s.1)
    | inr e ↦ rw e (rw e s.0, Stored-without heap l p o s.1)
  ]

  pub contains-without_entry :
      (p j : ℕ) (l : List (ℕ × A))
      → contains j (addresses (without_entry p l))
        ≡ (if p == j then false else contains j (addresses l))
  contains-without_entry p j [] = ground arith
  contains-without_entry p j ((q, a) ∷ l) = ground (arith, contains-without_entry p j l)

  pub without_entry-Distinct :
      (p : ℕ) (l : List (ℕ × A)) → Distinct (addresses l) → Distinct (addresses (without_entry p l))
  without_entry-Distinct p [] d = tt
  without_entry-Distinct p ((q, a) ∷ l) d =
      ground (arith, contains-without_entry p q l, without_entry-Distinct p l d.1)

  module _ (key_of : A → PathKey) where
    abbrev pub in_bucket : ℕ → A → Bool
    in_bucket h a = rsvp_key_hash (key_of a) == h

    -- The addresses of the blocks of bucket `h`.
    abbrev pub chain_of : ℕ → List (ℕ × A) → List ℕ
    chain_of h [] = []
    chain_of h ((p, a) ∷ l) = let rest = chain_of h l in if in_bucket h a then p ∷ rest else rest

    -- The table holds exactly the blocks of the list, each in the chain of its key's bucket.
    pub record Holds (t : Table A) (l : List (ℕ × A)) : Type ℓ where
      pub stored : Stored t.heap l
      pub free : (p : ℕ) → contains p (addresses l) ≡ false → t.heap p ≡ none
      pub chains : (h : ℕ) → t.buckets h ≡ chain_of h l
      pub distinct : Distinct (addresses l)

    pub empty_table-Holds : Holds empty_table []
    empty_table-Holds = record {
      stored = tt;
      free = λ p _. refl;
      chains = λ h. refl;
      distinct = tt;
    }

    pub walk-chain_of :
        (heap : ℕ → Option A) (key : PathKey) (l : List (ℕ × A))
        → Stored heap l
        → walk (λ a. same_key (key_of a) key) heap (chain_of (rsvp_key_hash key) l)
          ≡ first_with (λ a. same_key (key_of a) key) l
    unfolding walk
    walk-chain_of heap key [] s = refl
    walk-chain_of heap key ((p, a) ∷ l) s = elim (Bool-cases (same_key (key_of a) key)) [
      | inl e ↦ ground (arith, ap rsvp_key_hash ((same_key_iff (key_of a) key).0 e))
      | inr e ↦ ground (arith, walk-chain_of heap key l s.1)
    ]

    pub chain_of-fresh :
        (h p : ℕ) (l : List (ℕ × A))
        → contains p (addresses l) ≡ false
        → contains p (chain_of h l) ≡ false
    chain_of-fresh h p [] e = refl
    chain_of-fresh h p ((q, a) ∷ l) e = ground (arith, chain_of-fresh h p l)

    without_entry-fresh :
        (p : ℕ) (l : List (ℕ × A)) → contains p (addresses l) ≡ false → without_entry p l ≡ l
    without_entry-fresh p [] e = refl
    without_entry-fresh p ((q, a) ∷ l) e = ground (arith, without_entry-fresh p l)

    -- In the chain of its own bucket the block is unlinked; the other chains do not have it.
    pub chain_of-without :
        (heap : ℕ → Option A) (h p : ℕ) (a : A) (l : List (ℕ × A))
        → Stored heap l
        → heap p ≡ some a
        → Distinct (addresses l)
        → chain_of h (without_entry p l)
          ≡ (if in_bucket h a then unlink p (chain_of h l) else chain_of h l)
    chain_of-without heap h p a [] s e d = ground arith
    chain_of-without heap h p a ((q, b) ∷ l) s e d = elim (Bool-cases (p == q)) [
      | inl here ↦
          let p≡q : p ≡ q = ground arith in
          let a≡b : a ≡ b = cc in ground (arith, ap (in_bucket h) a≡b, without_entry-fresh p l)
      | inr later ↦ ground (arith, chain_of-without heap h p a l s.1 e d.1)
    ]

    pub contains-chain_of :
        (heap : ℕ → Option A) (p : ℕ) (a : A) (l : List (ℕ × A))
        → Stored heap l
        → heap p ≡ some a
        → contains p (addresses l) ≡ true
        → contains p (chain_of (rsvp_key_hash (key_of a)) l) ≡ true
    contains-chain_of heap p a [] s e c = ground arith
    contains-chain_of heap p a ((q, b) ∷ l) s e c = elim (Bool-cases (q == p)) [
      | inl here ↦
          let p≡q : p ≡ q = ground arith in
          let a≡b : a ≡ b = cc in ground (arith, ap (λ (x : A). rsvp_key_hash (key_of x)) a≡b)
      | inr later ↦ ground (arith, contains-chain_of heap p a l s.1 e)
    ]

    -- What is listed in a chain is stored, with a key of that bucket.
    pub chain_of-Stored :
        (heap : ℕ → Option A) (h p : ℕ) (l : List (ℕ × A))
        → Stored heap l
        → contains p (chain_of h l) ≡ true
        → (a : A) × (heap p ≡ some a) × (rsvp_key_hash (key_of a) ≡ h)
    chain_of-Stored heap h p [] s c = cc
    chain_of-Stored heap h p ((q, b) ∷ l) s c = elim (Bool-cases (in_bucket h b)) [
      | inl of_h ↦ elim (Bool-cases (q == p)) [
        | inl here ↦ let q≡p : q ≡ p = ground arith in (b, ap heap (sym q≡p) ∙ s.0, ground arith)
        | inr later ↦ chain_of-Stored heap h p l s.1 (rw (of_h, later) at c)
      ]
      | inr not_h ↦ chain_of-Stored heap h p l s.1 (rw not_h at c)
    ]

    -- A block written over in place.
    abbrev pub replace_entry : ℕ → A → List (ℕ × A) → List (ℕ × A)
    replace_entry p a [] = []
    replace_entry p a ((q, b) ∷ l) =
        let rest = replace_entry p a l in if p == q then (q, a) ∷ rest else (q, b) ∷ rest

    addresses-replace :
        (p : ℕ) (a : A) (l : List (ℕ × A)) → addresses (replace_entry p a l) ≡ addresses l
    addresses-replace p a [] = refl
    addresses-replace p a ((q, b) ∷ l) = ground (arith, addresses-replace p a l)

    Stored-replace :
        (heap : ℕ → Option A) (p : ℕ) (a : A) (l : List (ℕ × A))
        → Stored heap l
        → Stored (update heap p (some a)) (replace_entry p a l)
    Stored-replace heap p a [] s = tt
    Stored-replace heap p a ((q, b) ∷ l) s = elim (Bool-cases (p == q)) [
      | inl e ↦ rw e (rw e refl, Stored-replace heap p a l s.1)
      | inr e ↦ rw e (rw e s.0, Stored-replace heap p a l s.1)
    ]

    chain_of-replace :
        (heap : ℕ → Option A) (h p : ℕ) (a old : A) (l : List (ℕ × A))
        → Stored heap l
        → heap p ≡ some old
        → key_of old ≡ key_of a
        → chain_of h (replace_entry p a l) ≡ chain_of h l
    chain_of-replace heap h p a old [] s e k = refl
    chain_of-replace heap h p a old ((q, b) ∷ l) s e k = elim (Bool-cases (p == q)) [
      | inl here ↦
          let p≡q : p ≡ q = ground arith in
          let old≡b : old ≡ b = cc in
          let same : rsvp_key_hash (key_of a) ≡ rsvp_key_hash (key_of b) = cc in
          ground (arith, same, chain_of-replace heap h p a old l s.1 e k)
      | inr later ↦ ground (arith, chain_of-replace heap h p a old l s.1 e k)
    ]

    -- The table after a write to a block that leaves its key as it is.
    pub replace-Holds :
        {t : Table A} {l : List (ℕ × A)} (p : ℕ) (a old : A)
        → Holds t l
        → t.heap p ≡ some old
        → key_of old ≡ key_of a
        → Holds (record t { heap = update t.heap p (some a) }) (replace_entry p a l)
    replace-Holds {t = t} {l = l} p a old holds e k = record {
      stored = Stored-replace t.heap p a l holds.stored;
      free = λ q f. elim (Bool-cases (p == q)) [
        | inl here ↦
            let p≡q : p ≡ q = ground arith in
            absurd (cc (holds.free q (rw (addresses-replace p a l) at f)))
        | inr other ↦ rw other (holds.free q (rw (addresses-replace p a l) at f))
      ];
      chains = λ h. holds.chains h ∙ sym (chain_of-replace t.heap h p a old l holds.stored e k);
      distinct = rw (addresses-replace p a l) holds.distinct;
    }
