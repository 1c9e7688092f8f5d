-- ===== src/StateDb/Buckets.antt =====
-- The hash tables of src/pi/rsvp_state_db.c, which has the same code once for each kind of block.
-- `heap` is the memory that `calloc` gave out, an address to the block that lives there; a bucket
-- is the chain of `next_hash` pointers from its head.
use rsvp_te.Prelude.{ℕ, zero, suc, Bool, List, [], ◌∷◌, Option, none, some, ◌==◌, if◌then◌else◌}
use rsvp_te.Wire.Parser.{PathKey}
use rsvp_te.StateDb.Key.{rsvp_key_hash, same_key}

pub record Table {ℓ} (A : Type ℓ) : Type ℓ where
  pub heap : ℕ → Option A
  pub buckets : ℕ → List ℕ

-- `memset(table, 0, sizeof(table))` when no block has been made.
abbrev pub empty_table {ℓ} : {A : Type ℓ} → Table A
empty_table = record { heap = λ p. none; buckets = λ h. [] }

-- One entry of an array, or one address of the heap, replaced.
abbrev pub update {ℓ} : {A : Type ℓ} → (ℕ → A) → ℕ → A → ℕ → A
update f i v j = if i == j then v else f j

-- A chain without the first node at `p`: `*prev = curr->next_hash`.
abbrev pub unlink : ℕ → List ℕ → List ℕ
unlink p [] = []
unlink p (q ∷ qs) = let rest = unlink p qs in if p == q then qs else q ∷ rest

module _ {ℓ} {A : Type ℓ} where
  -- The first block of a chain that passes `test`. Chains only hold live blocks.
  unfoldable pub walk : (A → Bool) → (ℕ → Option A) → List ℕ → Option ℕ
  walk test heap [] = none
  walk test heap (p ∷ ps) =
      let rest = walk test heap ps in
      elim (heap p) [ none ↦ rest | some a ↦ if test a then some p else rest ]

  -- The first hit over the buckets `i` to `i + left - 1`.
  unfoldable pub scan : (A → Bool) → Table A → ℕ → ℕ → Option ℕ
  scan test t zero i = none
  scan test t (suc left) i =
      let rest = scan test t left (suc i) in
      elim (walk test t.heap (t.buckets i)) [ none ↦ rest | some p ↦ some p ]

  module _ (key_of : A → PathKey) where
    unfoldable pub find : Table A → PathKey → Option ℕ
    find t key = walk (λ a. same_key (key_of a) key) t.heap (t.buckets (rsvp_key_hash key))

    -- The new block `a`, which has its key, at the address `p` that `calloc` returned.
    unfoldable pub insert : Table A → ℕ → A → Table A
    insert t p a =
        let h = rsvp_key_hash (key_of a) in
        record { heap = update t.heap p (some a); buckets = update t.buckets h (p ∷ t.buckets h) }

    -- The block `a` at `p` is taken out of its chain and freed.
    unfoldable pub remove : Table A → ℕ → A → Table A
    remove t p a =
        let h = rsvp_key_hash (key_of a) in
        record {
          heap = update t.heap p none;
          buckets = update t.buckets h (unlink p (t.buckets h));
        }

-- The pointer back is set to NULL in the block that a pointer leads to, if there is one.
abbrev pub cut_back {ℓ} : {B : Type ℓ} → (B → B) → Option ℕ → (ℕ → Option B) → ℕ → Option B
cut_back clear none heap = heap
cut_back clear (some r) heap = elim (heap r) [
  | none ↦ heap
  | some b ↦ update heap r (some (clear b))
]
