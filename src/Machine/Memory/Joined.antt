-- ===== src/Machine/Memory/Joined.antt =====
-- The memory of src/pi/rsvp_state_machine.c when a PSB and an RSB are linked.
use rsvp_te.Prelude.{
  ℕ, ◌≡◌, refl, sym, ap, ◌∙◌, subst, true, some, inl, inr, ◌==◌, arith, Bool-cases,
}
use mathlib.Core.Path.{fun_ext}
use rsvp_te.Wire.Parser.{PathKey}
use rsvp_te.StateDb.{Timer}
use rsvp_te.StateDb.Blocks.{Psb, Rsb, new_psb, new_rsb}
use rsvp_te.StateDb.Buckets.{Table, update}
use rsvp_te.StateDb.Valid.{IsValid, is_live}
use rsvp_te.Machine.{Machine, alter, alter_psb, alter_rsb}
use rsvp_te.Machine.Steady.{bare_psb}
use rsvp_te.Machine.Memory.{bare, bare_table, bare_rsb, option_map, Agree, MemoryOk}
use rsvp_te.Machine.Memory.Linking.{linked, linked-IsValid, linked-Agree}
use rsvp_te.Machine.Memory.Steps.{behind_bare}

altered_heap {ℓ} :
    {A : Type ℓ} (b : A → A) (t : Table A) (p : ℕ) (f : A → A) (old new : A)
    → option_map b (t.heap p) ≡ some old
    → ((a : A) → b a ≡ old → b (f a) ≡ new)
    → (bare_table b (alter t p f)).heap ≡ update (bare_table b t).heap p (some new)
unfolding alter
altered_heap b t p f old new at_p changes =
    let (a, here, is_old) = behind_bare b (t.heap p) old at_p in
    fun_ext (λ q. elim (Bool-cases (p == q)) [
      | inl hit ↦
          let p≡q : p ≡ q = ground arith in
          let there : t.heap q ≡ some a = ap t.heap (sym p≡q) ∙ here in
          rw (hit, there) (ap some (changes a is_old))
      | inr miss ↦ rw miss refl
    ])

-- A PSB and an RSB with the same key that point nowhere are linked.
module _ (m : Machine) (p r : ℕ) (key : PathKey) (f : Rsb → Rsb) (g : Psb → Psb)
    (sets_psb : (rsb : Rsb) → bare_rsb (f rsb) ≡ record (bare_rsb rsb) { associated_psb = some p })
    (sets_rsb : (psb : Psb) → bare_psb (g psb) ≡ record (bare_psb psb) { associated_rsb = some r })
    (at_p : (bare m.db).psbs.heap p ≡ some (new_psb key))
    (at_r : (bare m.db).rsbs.heap r ≡ some (new_rsb key)) where
  bare-linked :
      bare (alter_psb (alter_rsb m r f) p g).db ≡ linked (bare m.db) p r (new_psb key) (new_rsb key)
  unfolding alter_psb alter_rsb
  bare-linked = λ i. record (bare m.db) {
    psbs = record m.db.psbs {
      heap =
          altered_heap bare_psb m.db.psbs p g (new_psb key)
            (record (new_psb key) { associated_rsb = some r }) at_p
            (λ a e. sets_rsb a ∙ ap (λ (x : Psb). record x { associated_rsb = some r }) e) i;
    };
    rsbs = record m.db.rsbs {
      heap =
          altered_heap bare_rsb m.db.rsbs r f (new_rsb key)
            (record (new_rsb key) { associated_psb = some p }) at_r
            (λ a e. sets_psb a ∙ ap (λ (x : Rsb). record x { associated_psb = some p }) e) i;
    };
  }

  pub link-MemoryOk : MemoryOk m.db → MemoryOk (alter_psb (alter_rsb m r f) p g).db
  link-MemoryOk ok = record {
    valid =
        subst IsValid (sym bare-linked)
          (linked-IsValid (bare m.db) p r (new_psb key) (new_rsb key) ok.valid at_p at_r refl refl);
    agree = subst Agree (sym bare-linked) (
        linked-Agree (bare m.db) p r (new_psb key) (new_rsb key) ok.valid at_p at_r refl refl refl
          ok.agree);
  }

  -- And the RSB's timers may be started.
  pub link-live : is_live (bare (alter_psb (alter_rsb m r f) p g).db) (Timer.rsb_refresh r) ≡ true
  link-live =
      subst (λ d. is_live d (Timer.rsb_refresh r) ≡ true) (sym bare-linked)
        (let self : (r == r) ≡ true = ground arith in rw self refl)
