-- ===== src/StateDb/Drain.antt =====
-- The loops `for (i = 0; i < HASH_SIZE; i++) while (table[i]) ...` of src/pi/rsvp_state_db.c and
-- src/pi/rsvp_state_machine.c.
use rsvp_te.Prelude.{
  ℕ, zero, suc, ◌+◌, ◌<◌, ◌≤◌, ◌≡◌, subst, List, [], ◌∷◌, Option, none, some, length, arith,
}

module _ {ℓ} {S : Type ℓ} where
  -- `while ((p = first(s))) step(p)`, with the rounds that are left.
  unfoldable pub drain : (S → Option ℕ) → (S → ℕ → S) → ℕ → S → S
  drain first step zero s = s
  drain first step (suc fuel) s = elim (first s) [
    | none ↦ s
    | some p ↦ drain first step fuel (step s p)
  ]

  -- The buckets `i` to `i + left - 1`.
  unfoldable pub over_buckets : (ℕ → S → S) → ℕ → ℕ → S → S
  over_buckets f zero i s = s
  over_buckets f (suc left) i s = over_buckets f left (i + 1) (f i s)

  -- A round takes the head of the chain away.
  module _ {κ} (P : S → Type κ) (chain : S → List ℕ) (first : S → Option ℕ) (step : S → ℕ → S)
      (none_left : (s : S) → chain s ≡ [] → first s ≡ none)
      (finds : (s : S) (p : ℕ) (ps : List ℕ) → chain s ≡ p ∷ ps → first s ≡ some p)
      (drops : (s : S) (p : ℕ) (ps : List ℕ)
        → P s
        → chain s ≡ p ∷ ps
        → P (step s p) × (chain (step s p) ≡ ps)) where
    pub drain_empties :
        (fuel : ℕ) (c : List ℕ) (s : S)
        → chain s ≡ c
        → length c ≤ fuel
        → P s
        → P (drain first step fuel s) × (chain (drain first step fuel s) ≡ [])
    unfolding drain
    drain_empties zero [] s e h ok = (ok, e)
    drain_empties zero (p ∷ c) s e h ok = absurd (omega arith)
    drain_empties (suc fuel) [] s e h ok = rw (none_left s e, drain) (ok, e)
    drain_empties (suc fuel) (p ∷ c) s e h ok =
        let (ok', e') = drops s p c ok e in
        rw (finds s p c e, drain) (drain_empties fuel c (step s p) e' (omega arith) ok')

  -- What a bucket's turn does for the next one, all of them do.
  pub over_buckets_reaches {κ} :
      (P : ℕ → S → Type κ) (f : ℕ → S → S) (n : ℕ)
      → ((i : ℕ) (s : S) → i < n → P i s → P (i + 1) (f i s))
      → (left i : ℕ) (s : S) → left + i ≤ n
      → P i s
      → P (left + i) (over_buckets f left i s)
  unfolding over_buckets
  over_buckets_reaches P f n turn zero i s h ok = subst (λ k. P k s) (omega arith) ok
  over_buckets_reaches P f n turn (suc left) i s h ok =
      subst (λ k. P k (over_buckets f left (i + 1) (f i s))) (omega arith)
        (over_buckets_reaches P f n turn left (i + 1) (f i s) (omega arith)
          (turn i s (omega arith) ok))
