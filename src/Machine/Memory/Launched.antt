-- ===== src/Machine/Memory/Launched.antt =====
-- The memory of src/pi/rsvp_state_machine.c under the commands and the expiry of timers.
use rsvp_te.Prelude.{
  ℕ, ◌≡◌, refl, sym, ap, subst, Bool, true, false, List, Option, none, some, inl, inr, ◌==◌, ◌||◌,
  not, if◌then◌else◌, arith, Option-cases,
}
use rsvp_te.Wire.Builder.Objects.{Hop}
use rsvp_te.Wire.Parser.{PathKey, is_some}
use rsvp_te.StateDb.{Timer, rsvp_psb_create}
use rsvp_te.StateDb.Blocks.{Psb}
use rsvp_te.StateDb.Buckets.{insert}
use rsvp_te.StateDb.Valid.{is_live}
use rsvp_te.Machine.{Hal, Machine, alter_psb, start_timer}
use rsvp_te.Machine.Sending.{follow}
use rsvp_te.Machine.Cleanup.{
  has_upstream, psb_refresh_timer_cb, rsb_refresh_timer_cb, psb_cleanup_timer_cb,
  rsb_cleanup_timer_cb, bsb_cleanup_timer_cb,
}
use rsvp_te.Machine.Commands.{
  launch, create_path, ingress_psb, bypass_psb, mbb_psb, initiate_on, bypass_on, mbb_on, mbb_from,
}
use rsvp_te.Machine.Steady.{bare_psb, KeepsPsb, given_keeps, given_at_keeps, branch_keeps}
use rsvp_te.Machine.Sent.{send_path_downstream-Steady, send_resv_upstream-Steady}
use rsvp_te.Machine.Memory.{bare, bare_rsb, option_map, MemoryOk, Fresh, Kept, Kept-MemoryOk}
use rsvp_te.Machine.Memory.Bare.{Kept-Steady}
use rsvp_te.Machine.Memory.Running.{start_timer-MemoryOk}
use rsvp_te.Machine.Memory.Steps.{psb_create-MemoryOk, bsb_delete-MemoryOk}
use rsvp_te.Machine.Memory.Torn.{rsvp_psb_cleanup-MemoryOk, rsvp_rsb_cleanup-MemoryOk}

-- A timer of a block that stands is started after a step that leaves the blocks what they are.
start_timer-Kept :
    (hal : Hal) (m m' : Machine) (tm : Timer)
    → is_live (bare m.db) tm ≡ true
    → Kept (bare m.db) m'
    → MemoryOk m.db
    → MemoryOk (start_timer hal m' tm).db
start_timer-Kept hal m m' tm live k ok =
    start_timer-MemoryOk hal m' tm (subst (λ x. is_live x tm ≡ true) (sym k.same) live)
      (Kept-MemoryOk m.db m' k ok)

test_fst {ℓ} :
    {R : Type ℓ} (b : Bool) (x y : Machine × R)
    → MemoryOk x.0.db
    → MemoryOk y.0.db
    → MemoryOk (if b then x else y).0.db
test_fst true x y hx hy = hx
test_fst false x y hx hy = hy

ingress_psb_bare :
    (hal : Hal) (name : List ℕ) (ero : List Hop) (frr : Bool)
    → KeepsPsb (ingress_psb hal name ero frr)
ingress_psb_bare hal name ero frr psb = refl

bypass_psb_bare :
    (hal : Hal) (name : List ℕ) (ero : List Hop) (i : ℕ) → KeepsPsb (bypass_psb hal name ero i)
bypass_psb_bare hal name ero i psb = refl

mbb_psb_bare : (hal : Hal) (old : Psb) (id : ℕ) (ero : List Hop) → KeepsPsb (mbb_psb hal old id ero)
mbb_psb_bare hal old id ero psb = refl

module _ (hal : Hal) where
  launch-MemoryOk :
      (m : Machine) (p : ℕ) (f : Psb → Psb)
      → KeepsPsb f
      → is_live (bare m.db) (Timer.psb_refresh p) ≡ true
      → MemoryOk m.db
      → MemoryOk (launch hal m p f).db
  launch-MemoryOk m p f keeps live ok =
      let started =
        start_timer-Kept hal m (alter_psb m p f) (Timer.psb_refresh p) live
          ((Kept-Steady (bare m.db)).alter_psb m p f keeps (record { same = refl })) ok in
      let x = start_timer hal (alter_psb m p f) (Timer.psb_refresh p) in
      Kept-MemoryOk x.db _
        (send_path_downstream-Steady (Kept-Steady (bare x.db)) hal x (record { same = refl }) p)
        started

  made-live :
      (m : Machine) (key : PathKey) (p : ℕ)
      → is_live (bare (rsvp_psb_create m.db key (some p)).1) (Timer.psb_refresh p) ≡ true
  unfolding rsvp_psb_create insert
  made-live m key p = let self : (p == p) ≡ true = ground arith in rw self refl

  launched :
      (m : Machine) (key : PathKey) (p : ℕ) (f : Psb → Psb)
      → KeepsPsb f
      → m.db.psbs.heap p ≡ none
      → MemoryOk m.db
      → MemoryOk (launch hal (record m { db = (rsvp_psb_create m.db key (some p)).1 }) p f).db
  launched m key p f keeps unused ok =
      launch-MemoryOk (record m { db = (rsvp_psb_create m.db key (some p)).1 }) p f keeps
        (made-live m key p) (psb_create-MemoryOk m.db ok key p unused)

  create_path-MemoryOk :
      (m : Machine) (key : PathKey) (f : Psb → Psb)
      → KeepsPsb f
      → Fresh hal
      → MemoryOk m.db
      → MemoryOk (create_path hal m key f).db
  unfolding rsvp_psb_create
  create_path-MemoryOk m key f keeps fresh ok = elim (Option-cases (hal.new_psb m.db)) [
    | inl full ↦ rw full ok
    | inr (p, got) ↦ rw got (launched m key p f keeps (fresh.psb m.db p got) ok)
  ]

  pub initiate_on-MemoryOk :
      (m : Machine) (key : PathKey) (p : Option ℕ) (name : List ℕ) (ero : List Hop) (frr : Bool)
      → Fresh hal
      → MemoryOk m.db
      → MemoryOk (initiate_on hal m key p name ero frr).db
  initiate_on-MemoryOk m key none name ero frr fresh ok =
      create_path-MemoryOk m key (ingress_psb hal name ero frr) (ingress_psb_bare hal name ero frr)
        fresh ok
  initiate_on-MemoryOk m key (some p) name ero frr fresh ok =
      Kept-MemoryOk m.db _
        (send_path_downstream-Steady (Kept-Steady (bare m.db)) hal m (record { same = refl }) p) ok

  pub bypass_on-MemoryOk :
      (m : Machine) (key : PathKey) (p : Option ℕ) (name : List ℕ) (ero : List Hop) (ifindex : ℕ)
      → Fresh hal
      → MemoryOk m.db
      → MemoryOk (bypass_on hal m key p name ero ifindex).db
  bypass_on-MemoryOk m key none name ero ifindex fresh ok =
      create_path-MemoryOk m key (bypass_psb hal name ero ifindex)
        (bypass_psb_bare hal name ero ifindex) fresh ok
  bypass_on-MemoryOk m key (some p) name ero ifindex fresh ok = ok

  mbb_on-MemoryOk :
      (m : Machine) (old : Psb) (old_id : ℕ) (ero : List Hop) (key : PathKey) (p : Option ℕ)
      → Fresh hal
      → MemoryOk m.db
      → MemoryOk (mbb_on hal m old old_id ero key p).0.db
  unfolding rsvp_psb_create
  mbb_on-MemoryOk m old old_id ero key none fresh ok = elim (Option-cases (hal.new_psb m.db)) [
    | inl full ↦ rw full ok
    | inr (p, got) ↦ rw got (
        launched m key p (mbb_psb hal old old_id ero) (mbb_psb_bare hal old old_id ero)
          (fresh.psb m.db p got) ok)
  ]
  mbb_on-MemoryOk m old old_id ero key (some p) fresh ok = ok

  pub mbb_from-MemoryOk :
      (m : Machine) (old : Option Psb) (old_id new_id : ℕ) (ero : List Hop)
      → Fresh hal
      → MemoryOk m.db
      → MemoryOk (mbb_from hal m old old_id new_id ero).0.db
  mbb_from-MemoryOk m none old_id new_id ero fresh ok = ok
  mbb_from-MemoryOk m (some old) old_id new_id ero fresh ok =
      test_fst (not old.is_ingress) _ _ ok (mbb_on-MemoryOk m old old_id ero _ _ fresh ok)

module _ (hal : Hal) (m : Machine) (ok : MemoryOk m.db) where
  pub psb_cleanup_timer_cb-MemoryOk : (p : ℕ) → MemoryOk (psb_cleanup_timer_cb hal m p).db
  unfolding psb_cleanup_timer_cb
  psb_cleanup_timer_cb-MemoryOk p =
      given_keeps (λ x. MemoryOk x.db) (m.db.psbs.heap p) _ _ ok
        (λ psb. rsvp_psb_cleanup-MemoryOk hal m p true ok)

  pub rsb_cleanup_timer_cb-MemoryOk : (r : ℕ) → MemoryOk (rsb_cleanup_timer_cb hal m r).db
  unfolding rsb_cleanup_timer_cb
  rsb_cleanup_timer_cb-MemoryOk r =
      given_keeps (λ x. MemoryOk x.db) (m.db.rsbs.heap r) _ _ ok
        (λ rsb. rsvp_rsb_cleanup-MemoryOk hal m r true ok)

  pub bsb_cleanup_timer_cb-MemoryOk : (b : ℕ) → MemoryOk (bsb_cleanup_timer_cb m b).db
  unfolding bsb_cleanup_timer_cb
  bsb_cleanup_timer_cb-MemoryOk b =
      given_keeps (λ x. MemoryOk x.db) (m.db.bsbs.heap b) _ _ ok
        (λ bsb. bsb_delete-MemoryOk m.db ok b)

  pub psb_refresh_timer_cb-MemoryOk : (p : ℕ) → MemoryOk (psb_refresh_timer_cb hal m p).db
  unfolding psb_refresh_timer_cb
  psb_refresh_timer_cb-MemoryOk p =
      given_at_keeps (λ x. MemoryOk x.db) (m.db.psbs.heap p) _ _ ok
        (λ psb e.
          start_timer-Kept hal m _ (Timer.psb_refresh p)
            (ap (λ o. is_some (option_map bare_psb o)) e)
            (branch_keeps (Kept (bare m.db))
              (psb.is_ingress || not (hal.is_local_addr psb.key.dest_addr)) _ m
              (send_path_downstream-Steady (Kept-Steady (bare m.db)) hal m (record { same = refl })
                p)
              (record { same = refl }))
            ok)

  pub rsb_refresh_timer_cb-MemoryOk : (r : ℕ) → MemoryOk (rsb_refresh_timer_cb hal m r).db
  unfolding rsb_refresh_timer_cb
  rsb_refresh_timer_cb-MemoryOk r =
      given_at_keeps (λ x. MemoryOk x.db) (m.db.rsbs.heap r) _ _ ok
        (λ rsb e.
          start_timer-Kept hal m _ (Timer.rsb_refresh r)
            (ap (λ o. is_some (option_map bare_rsb o)) e)
            (branch_keeps (Kept (bare m.db))
              (has_upstream (follow m.db.psbs.heap rsb.associated_psb)) _ m
              (send_resv_upstream-Steady (Kept-Steady (bare m.db)) hal m r (record { same = refl }))
              (record { same = refl }))
            ok)
