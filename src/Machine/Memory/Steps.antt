-- ===== src/Machine/Memory/Steps.antt =====
-- The memory of src/pi/rsvp_state_machine.c when blocks are made, deleted and found.
use rsvp_te.Prelude.{ℕ, ◌≡◌, refl, sym, ap, ◌∙◌, subst, true, Option, none, some, contains}
use rsvp_te.Wire.Parser.{PathKey}
use rsvp_te.StateDb.{
  Db, psb_key, rsb_key, rsvp_psb_find, rsvp_rsb_find, rsvp_psb_create, rsvp_rsb_create,
  rsvp_bsb_create, rsvp_psb_delete, rsvp_rsb_delete, rsvp_bsb_delete,
}
use rsvp_te.StateDb.Key.{rsvp_key_hash, same_key, same_key_iff}
use rsvp_te.StateDb.Blocks.{Rsb, new_psb}
use rsvp_te.StateDb.Buckets.{find}
use rsvp_te.StateDb.Contract.{chained, walk-some, walk-none}
use rsvp_te.StateDb.Valid.{
  IsValid, psb_create-IsValid, rsb_create-IsValid, psb_delete-IsValid, rsb_delete-IsValid,
}
use rsvp_te.Machine.Steady.{bare_psb}
use rsvp_te.Machine.Memory.{bare, bare_rsb, option_map, Agree, MemoryOk}
use rsvp_te.Machine.Memory.Bare.{
  bare-psb_create, bare-rsb_create, bare-bsb_create, bare-psb_delete, bare-rsb_delete,
  bare-bsb_delete,
}
use rsvp_te.StateDb.Blockade.{bsb_create-IsValid, bsb_delete-IsValid}
use rsvp_te.Machine.Memory.Agreeing.{
  psb_delete-Agree, rsb_delete-Agree, bsb_delete-Agree, psb_create-Agree, rsb_create-Agree,
}

unused_bare {ℓ} : {A : Type ℓ} (f : A → A) (o : Option A) → o ≡ none → option_map f o ≡ none
unused_bare f none e = refl
unused_bare f (some a) e = cc

pub behind_bare {ℓ} :
    {A : Type ℓ} (f : A → A) (o : Option A) (b : A)
    → option_map f o ≡ some b
    → (a : A) × (o ≡ some a) × (f a ≡ b)
behind_bare f none b e = cc
behind_bare f (some a) b e = (a, refl, cc)

module _ (db : Db) (ok : MemoryOk db) where
  pub psb_delete-MemoryOk : (p : ℕ) → MemoryOk (rsvp_psb_delete db p)
  psb_delete-MemoryOk p = record {
    valid = subst IsValid (sym (bare-psb_delete db p)) (psb_delete-IsValid (bare db) p ok.valid);
    agree = subst Agree (sym (bare-psb_delete db p)) (psb_delete-Agree (bare db) ok.agree p);
  }

  pub rsb_delete-MemoryOk : (r : ℕ) → MemoryOk (rsvp_rsb_delete db r)
  rsb_delete-MemoryOk r = record {
    valid = subst IsValid (sym (bare-rsb_delete db r)) (rsb_delete-IsValid (bare db) r ok.valid);
    agree = subst Agree (sym (bare-rsb_delete db r)) (rsb_delete-Agree (bare db) ok.agree r);
  }

  pub bsb_delete-MemoryOk : (b : ℕ) → MemoryOk (rsvp_bsb_delete db b)
  bsb_delete-MemoryOk b = record {
    valid = subst IsValid (sym (bare-bsb_delete db b)) (bsb_delete-IsValid (bare db) b ok.valid);
    agree = subst Agree (sym (bare-bsb_delete db b)) (bsb_delete-Agree (bare db) ok.agree b);
  }

  pub psb_create-MemoryOk :
      (key : PathKey) (p : ℕ) → db.psbs.heap p ≡ none → MemoryOk (rsvp_psb_create db key (some p)).1
  psb_create-MemoryOk key p unused = record {
    valid = subst IsValid (sym (bare-psb_create db key p)) (
        psb_create-IsValid (bare db) key p ok.valid (unused_bare bare_psb (db.psbs.heap p) unused));
    agree =
        subst Agree (sym (bare-psb_create db key p)) (psb_create-Agree (bare db) ok.agree key p);
  }

  pub rsb_create-MemoryOk :
      (key : PathKey) (r : ℕ) → db.rsbs.heap r ≡ none → MemoryOk (rsvp_rsb_create db key (some r)).1
  rsb_create-MemoryOk key r unused =
      let free = unused_bare bare_rsb (db.rsbs.heap r) unused in
      record {
        valid =
            subst IsValid (sym (bare-rsb_create db key r))
              (rsb_create-IsValid (bare db) key r ok.valid free);
        agree =
            subst Agree (sym (bare-rsb_create db key r))
              (rsb_create-Agree (bare db) ok.agree key r ok.valid free);
      }

  pub bsb_create-MemoryOk :
      (key : PathKey) (b : ℕ) → db.bsbs.heap b ≡ none → MemoryOk (rsvp_bsb_create db key (some b)).1
  unfolding rsvp_bsb_create
  bsb_create-MemoryOk key b unused = record {
    valid =
        subst IsValid (sym (bare-bsb_create db key b))
          (bsb_create-IsValid (bare db) key b ok.valid (unused_bare _ (db.bsbs.heap b) unused));
    agree = ok.agree;
  }

-- A search that hits has found a block with the key.
pub found_psb :
    (db : Db) (key : PathKey) (p : ℕ)
    → rsvp_psb_find db key ≡ some p
    → (o : Option ℕ) × ((bare db).psbs.heap p ≡ some (record (new_psb key) { associated_rsb = o }))
unfolding rsvp_psb_find find
found_psb db key p e =
    let (psb, at_p, hit) =
      walk-some (λ a. same_key (psb_key a) key) db.psbs.heap (db.psbs.buckets (rsvp_key_hash key)) p
        e in
    let k = (same_key_iff psb.key key).0 hit in
    (
      psb.associated_rsb,
      rw at_p (ap (λ x. some (record (new_psb x) { associated_rsb = psb.associated_rsb })) k),
    )

-- A PSB with a key that no RSB has is not linked.
pub unlinked_psb :
    (db : Db) (key : PathKey) (p : ℕ) (o : Option ℕ)
    → MemoryOk db
    → (bare db).psbs.heap p ≡ some (record (new_psb key) { associated_rsb = o })
    → rsvp_rsb_find db key ≡ none
    → (bare db).psbs.heap p ≡ some (new_psb key)
unfolding rsvp_rsb_find find
unlinked_psb db key p none ok e miss = e
unlinked_psb db key p (some r) ok e miss =
    let (b, at_r, answer) = ok.valid.to_rsb p r _ e refl in
    let (rsb, here, bare_is) = behind_bare bare_rsb (db.rsbs.heap r) b at_r in
    let same_bare = ok.agree p r _ b e refl at_r in
    let same : rsb.key ≡ key = ap (λ (x : Rsb). x.key) bare_is ∙ same_bare in
    let listed = chained rsb_key ok.valid.rsbs_hold r b at_r in
    let listed' : contains r (db.rsbs.buckets (rsvp_key_hash key)) ≡ true =
      subst (λ k. contains r (db.rsbs.buckets (rsvp_key_hash k)) ≡ true) same_bare listed in
    let fails =
      walk-none (λ a. same_key (rsb_key a) key) db.rsbs.heap (db.rsbs.buckets (rsvp_key_hash key)) r
        rsb miss listed' here in
    absurd (cc ((same_key_iff rsb.key key).1 same))
