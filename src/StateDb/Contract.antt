-- ===== src/StateDb/Contract.antt =====
-- What the operations on a hash table of src/pi/rsvp_state_db.c do to the blocks that exist.
use rsvp_te.Prelude.{
  ℕ, zero, suc, ◌+◌, ◌≤◌, ◌<◌, ◌≡◌, sym, subst, ◌∙◌, Bool, true, false, List, [], ◌∷◌, Option, none,
  some, ◌==◌, inl, inr, contains, arith, Bool-cases, Option-cases,
}
use rsvp_te.Wire.Parser.{PathKey}
use rsvp_te.StateDb.Key.{rsvp_key_hash, same_key}
use rsvp_te.StateDb.Buckets.{Table, walk, scan, find, insert, remove}
use rsvp_te.StateDb.Refine.{
  addresses, without_entry, first_with, Holds, walk-chain_of, chain_of-without, contains-chain_of,
  chain_of-Stored, Stored-none, Stored-update, Stored-without, contains-without_entry,
  without_entry-Distinct,
}

module _ {ℓ} {A : Type ℓ} (key_of : A → PathKey) {t : Table A} {l : List (ℕ × A)}
    (holds : Holds key_of t l) where
  -- A search by key finds the newest block with that key, which the hashing does not hide.
  pub find-Holds : (key : PathKey) → find key_of t key ≡ first_with (λ a. same_key (key_of a) key) l
  unfolding find
  find-Holds key =
      rw (holds.chains (rsvp_key_hash key)) (walk-chain_of key_of t.heap key l holds.stored)

  -- A new block at an address that is not in use is added in front.
  pub insert-Holds :
      (p : ℕ) (a : A) → t.heap p ≡ none → Holds key_of (insert key_of t p a) ((p, a) ∷ l)
  unfolding insert
  insert-Holds p a unused =
      let new = Stored-none t.heap l p holds.stored unused in
      record {
        stored = (ground arith, Stored-update t.heap l p (some a) new holds.stored);
        free = λ q e. ground (arith, holds.free q);
        chains = λ h. ground (arith, holds.chains h);
        distinct = (new, holds.distinct);
      }

  pub chained :
      (p : ℕ) (a : A) → t.heap p ≡ some a → contains p (t.buckets (rsvp_key_hash (key_of a))) ≡ true
  chained p a e = elim (Bool-cases (contains p (addresses l))) [
    | inl c ↦
        rw (holds.chains (rsvp_key_hash (key_of a)))
          (contains-chain_of key_of t.heap p a l holds.stored e c)
    | inr c ↦ absurd (cc (e, holds.free p c))
  ]

  -- A block at the head of a chain exists, and is in the bucket of its key.
  pub headed :
      (h p : ℕ) (ps : List ℕ)
      → t.buckets h ≡ p ∷ ps
      → (a : A) × (t.heap p ≡ some a) × (rsvp_key_hash (key_of a) ≡ h)
  headed h p ps e = chain_of-Stored key_of t.heap h p l holds.stored (
      let listed : contains p (p ∷ ps) ≡ true = ground arith in
      subst (λ c. contains p c ≡ true) (sym e ∙ holds.chains h) listed)

  -- Deleting a block that exists removes that block and no other.
  pub remove-Holds :
      (p : ℕ) (a : A) → t.heap p ≡ some a → Holds key_of (remove key_of t p a) (without_entry p l)
  unfolding remove
  remove-Holds p a e = record {
    stored = Stored-without t.heap l p none holds.stored;
    free = λ q f. ground (arith, holds.free q, contains-without_entry p q l);
    chains = λ h. ground (
      arith,
      holds.chains h,
      chain_of-without key_of t.heap h p a l holds.stored e holds.distinct,
    );
    distinct = without_entry-Distinct p l holds.distinct;
  }

module _ {ℓ} {A : Type ℓ} (test : A → Bool) where
  pub walk-some :
      (heap : ℕ → Option A) (chain : List ℕ) (p : ℕ)
      → walk test heap chain ≡ some p
      → (a : A) × (heap p ≡ some a) × (test a ≡ true)
  unfolding walk
  walk-some heap [] p e = cc
  walk-some heap (q ∷ chain) p e = elim (Option-cases (heap q)) [
    | inl free ↦ walk-some heap chain p (rw (free, walk) at e)
    | inr (a, here) ↦ elim (Bool-cases (test a)) [
      | inl hit ↦ let q≡p : q ≡ p = ground arith in (a, cc, hit)
      | inr miss ↦ walk-some heap chain p (ground arith)
    ]
  ]

  pub walk-none :
      (heap : ℕ → Option A) (chain : List ℕ) (p : ℕ) (a : A)
      → walk test heap chain ≡ none
      → contains p chain ≡ true
      → heap p ≡ some a
      → test a ≡ false
  unfolding walk
  walk-none heap [] p a e c h = cc
  walk-none heap (q ∷ chain) p a e c h = ground (arith, walk-none heap chain p a)

  pub scan-some :
      (t : Table A) (left i p : ℕ)
      → scan test t left i ≡ some p
      → (h : ℕ) × (walk test t.heap (t.buckets h) ≡ some p)
  unfolding scan
  scan-some t zero i p e = cc
  scan-some t (suc left) i p e = elim (Option-cases (walk test t.heap (t.buckets i))) [
    | inl w ↦ scan-some t left (suc i) p (rw (w, scan) at e)
    | inr (q, w) ↦ (i, w ∙ rw (w, scan) at e)
  ]

  pub scan-none :
      (t : Table A) (left i h : ℕ)
      → scan test t left i ≡ none
      → i ≤ h
      → h < i + left
      → walk test t.heap (t.buckets h) ≡ none
  unfolding scan
  scan-none t zero i h e lo hi = absurd (omega arith)
  scan-none t (suc left) i h e lo hi = elim (Option-cases (walk test t.heap (t.buckets i))) [
    | inl w ↦ elim (Bool-cases (i == h)) [
      | inl here ↦ ground arith
      | inr later ↦ scan-none t left (suc i) h (rw (w, scan) at e) (ground arith) (omega arith)
    ]
    | inr (q, w) ↦ cc
  ]
